-- ===== src/Gateway/Wiring/Timely.antt =====
-- cmd/ocgate/main.go: the parts of a gateway that serves have what they need.
use opgate.Base.{
  ℕ, List, ◌<◌, Bool, true, false, Option, none, some, ◌≡◌, refl, ap, not, Bool-cases, inl, inr,
}
use opgate.Base.Bytes.{Bytes, trim_space}
use opgate.Session.{is_empty}
use opgate.Collector.Pool.{World, Reach}
use opgate.Collector.Bounds.{IsBounded, Reach-IsBounded}
use opgate.Config.{Settings, checks, validate, is_positive, pool_config}
use opgate.Config.Formats.{Loaded, ok, not_read, not_parsed, not_valid, load}
use opgate.Config.Checked.{load-valid, first_failed-none, positive-size}
use opgate.Gateway.{Flags, Warning, serves, on_loaded, on_upstream, start_main}
use opgate.Gateway.Wiring.{Parts, parts, new_redis_store, new_resolver}

-- No deadline is over before it begins, no key expires at once, the client of Redis has an address, the
-- pool has a worker, room for a page and pages that are not empty, and some bodies are within the
-- limit.
pub record IsTimely (p : Parts) : Type 0 where
  pub has_addr : is_empty (trim_space p.store.options.addr) ≡ false
  pub dials : is_positive p.store.options.dial_timeout ≡ true
  pub asks : is_positive p.store.options.read_timeout ≡ true
  pub tells : is_positive p.store.options.write_timeout ≡ true
  pub waits : is_positive p.store.timeout ≡ true
  pub pings : is_positive p.ping_timeout ≡ true
  pub flushes : is_positive p.op_timeout ≡ true
  pub looks_up : is_positive p.resolver.timeout ≡ true
  pub maps : is_positive p.mapping_timeout ≡ true
  pub keeps_pages : is_positive p.ttl ≡ true
  pub keeps_mappings : is_positive p.mapping_ttl ≡ true
  pub has_worker : 0 < p.pool.workers
  pub has_room : 0 < p.pool.max_pending_pages
  pub cuts : 0 < p.pool.page_size
  pub reads : 0 < p.max_body

of_not : (b : Bool) → not b ≡ true → b ≡ false
of_not true h = cc
of_not false h = refl

validate-IsTimely :
    (url_parse : Bytes → Option (Bytes × Bytes)) (c : Settings)
    → validate url_parse c ≡ none
    → IsTimely (parts c)
unfolding validate checks parts new_redis_store new_resolver pool_config
validate-IsTimely url_parse c h =
    let (_, (_, (addr, (timeout, (mapping, (page, (ttl, (workers, (pending, (body, _)))))))))) =
      first_failed-none (checks url_parse c) h in
    record {
      has_addr = of_not _ addr;
      dials = timeout;
      asks = timeout;
      tells = timeout;
      waits = timeout;
      pings = timeout;
      flushes = timeout;
      looks_up = timeout;
      maps = timeout;
      keeps_pages = ttl;
      keeps_mappings = mapping;
      has_worker = positive-size _ workers;
      has_room = positive-size _ pending;
      cuts = positive-size _ page;
      reads = positive-size _ body;
    }

module _ (read_file : Bytes → Option Bytes) (unmarshal : Bytes → Settings → Option Settings)
    (url_parse : Bytes → Option (Bytes × Bytes)) (reachable : Bool) where
  parsed-ok :
      (d c : Settings) (ws : List Warning) (o : Option (Bytes × Bytes))
      → on_upstream (load read_file unmarshal url_parse) url_parse reachable d o ≡ serves c ws
      → d ≡ c
  parsed-ok d c ws none e = cc
  parsed-ok d c ws (some u) e = cc

  loaded-ok :
      (l : Loaded) (c : Settings) (ws : List Warning)
      → on_loaded (load read_file unmarshal url_parse) url_parse reachable l ≡ serves c ws
      → l ≡ ok c
  loaded-ok (ok d) c ws e = ap ok (parsed-ok d c ws (url_parse d.upstream.base_url) e)
  loaded-ok not_read c ws e = cc
  loaded-ok not_parsed c ws e = cc
  loaded-ok (not_valid i) c ws e = cc

  -- If `main` serves under a configuration, whatever the file, then the parts that it makes are given
  -- an address, deadlines and lifetimes that are positive, a worker, room for a page, pages that are not
  -- empty and a positive limit of bodies; and the pool keeps to its bounds in every world that it
  -- reaches.
  pub start_main-IsTimely :
      (flags : Flags) (c : Settings) (ws : List Warning) {w : World} {log : ℕ → Bytes}
      → start_main (load read_file unmarshal url_parse) url_parse reachable flags ≡ serves c ws
      → Reach (parts c).pool w log
      → IsTimely (parts c) × IsBounded (parts c).pool w
  unfolding start_main
  start_main-IsTimely flags c ws e r = elim (Bool-cases flags.show_version) [
    | inl shown ↦ cc
    | inr silent ↦
        let loaded : load read_file unmarshal url_parse flags.config_path ≡ ok c =
          loaded-ok (load read_file unmarshal url_parse flags.config_path) c ws (rw silent at e) in
        let timely =
          validate-IsTimely url_parse c
            (load-valid read_file unmarshal url_parse flags.config_path c loaded) in
        (timely, Reach-IsBounded (parts c).pool timely.cuts r)
  ]
