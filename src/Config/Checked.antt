-- ===== src/Config/Checked.antt =====
-- internal/config/config.go: what a configuration that passes `Validate` gives the other parts.
use opgate.Base.{
  ℕ, zero, suc, ◌<◌, Bool, true, false, not, List, [], ◌∷◌, Option, none, ◌≡◌, refl, arith, ◌↔◌, ap,
  subst, sym, ◌∙◌, Option-cases, inl, inr, some, All,
}
use opgate.Base.Bytes.{Bytes, codes, trim_space}
use opgate.Base.Int.{ℤ, pos, negsuc}
use opgate.Session.{is_empty}
use opgate.Collector.Pool.{World, Reach}
use opgate.Collector.Bounds.{IsBounded, Reach-IsBounded}
use opgate.Config.Formats.{ok, checked, on_parsed, on_read, load}
use opgate.Config.{
  Settings, default, Invalid, base_url_required, base_url_invalid, checks, first_failed,
  is_positive, is_http, validate, size, pool_config,
}

pub positive-size : (n : ℤ) → is_positive n ≡ true → 0 < size n
unfolding is_positive size
positive-size (pos zero) h = cc
positive-size (pos (suc n)) h = omega arith
positive-size (negsuc n) h = cc

pub first_failed-none :
    (l : List (Bool × Invalid)) → first_failed l ≡ none → All (λ c. c.0 ≡ true) l
unfolding first_failed
first_failed-none [] h = tt
first_failed-none ((true, e) ∷ l) h = (refl, first_failed-none l h)
first_failed-none ((false, e) ∷ l) h = cc

-- What `Validate` asks of the sizes of the pool.
record IsSized (c : Settings) : Type 0 where
  page_size : is_positive c.response_cache.page_size ≡ true
  workers : is_positive c.response_cache.workers ≡ true
  pending_pages : is_positive c.response_cache.max_pending_pages ≡ true

validate-IsSized :
    (url_parse : Bytes → Option (Bytes × Bytes)) (c : Settings)
    → validate url_parse c ≡ none
    → IsSized c
unfolding validate checks
validate-IsSized url_parse c h =
    let (_, (_, (_, (_, (_, (page_size, (_, (workers, (pending_pages, _))))))))) =
      first_failed-none (checks url_parse c) h in
    record { page_size = page_size; workers = workers; pending_pages = pending_pages }

-- A configuration that passes `Validate` gives `main` a pool with a worker and room for a page, which
-- keeps to its bounds in every world that it reaches.
pub validate-IsBounded :
    (url_parse : Bytes → Option (Bytes × Bytes)) (c : Settings) {w : World} {log : ℕ → Bytes}
    → validate url_parse c ≡ none
    → Reach (pool_config c) w log
    → (0 < (pool_config c).workers)
      × (0 < (pool_config c).max_pending_pages)
      × IsBounded (pool_config c) w
unfolding pool_config
validate-IsBounded url_parse c h r =
    let v = validate-IsSized url_parse c h in
    (
      positive-size _ v.workers,
      positive-size _ v.pending_pages,
      Reach-IsBounded (pool_config c) (positive-size _ v.page_size) r,
    )

checked-ok : (v : Option Invalid) (d c : Settings) → checked v d ≡ ok c → (v ≡ none) × (d ≡ c)
checked-ok none d c h = ground (arith, h)
checked-ok (some e) d c h = ground (arith, h)

module _ (read_file : Bytes → Option Bytes) (unmarshal : Bytes → Settings → Option Settings)
    (url_parse : Bytes → Option (Bytes × Bytes)) where
  parsed-valid :
      (o : Option Settings) (c : Settings)
      → on_parsed unmarshal url_parse o ≡ ok c
      → validate url_parse c ≡ none
  parsed-valid none c h = ground (arith, h)
  parsed-valid (some d) c h =
      let (v, e) = checked-ok (validate url_parse d) d c h in
      subst (λ x. validate url_parse x ≡ none) e v

  pub load-valid :
      (path : Bytes) (c : Settings)
      → load read_file unmarshal url_parse path ≡ ok c
      → validate url_parse c ≡ none
  unfolding load
  load-valid path c h = elim (Option-cases (read_file path)) [
    | inl e ↦ ground (arith, h, e)
    | inr (raw, e) ↦
        parsed-valid (unmarshal raw default) c (ap (on_read unmarshal url_parse) (sym e) ∙ h)
  ]

  -- A configuration that `Load` returns, whatever the file, gives `main` a pool with a worker and room
  -- for a page, which keeps to its bounds in every world that it reaches.
  pub load-IsBounded :
      (path : Bytes) (c : Settings) {w : World} {log : ℕ → Bytes}
      → load read_file unmarshal url_parse path ≡ ok c
      → Reach (pool_config c) w log
      → (0 < (pool_config c).workers)
        × (0 < (pool_config c).max_pending_pages)
        × IsBounded (pool_config c) w
  load-IsBounded path c h r = validate-IsBounded url_parse c (load-valid path c h) r

two_checks :
    (b c : Bool) (e f : Invalid) (rest : List (Bool × Invalid))
    → first_failed rest ≡ none
    → (first_failed ((not b, e) ∷ (c, f) ∷ rest) ≡ none) ↔ ((b ≡ false) × (c ≡ true))
unfolding first_failed
two_checks true c e f rest h = ((λ k. cc), (λ k. cc))
two_checks false true e f rest h = ((λ k. (refl, refl)), (λ k. h))
two_checks false false e f rest h = ((λ k. cc), (λ k. cc))

has_addr : is_empty (trim_space (codes "127.0.0.1:6379")) ≡ false
unfolding trim_space
has_addr = refl

-- The defaults pass `Validate` exactly with a base URL that is not blank and that parses as http(s)
-- with a host.
pub validate-default :
    (url_parse : Bytes → Option (Bytes × Bytes)) (url : Bytes)
    → (validate url_parse (record default { upstream = record { base_url = url } }) ≡ none)
      ↔ ((is_empty (trim_space url) ≡ false) × (is_http (url_parse url) ≡ true))
unfolding validate default is_positive checks first_failed
validate-default url_parse url =
    two_checks (is_empty (trim_space url)) (is_http (url_parse url)) base_url_required
      base_url_invalid _ (rw has_addr refl)
