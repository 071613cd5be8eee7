-- ===== src/Gateway/Startup.antt =====
-- cmd/ocgate/main.go: the start of the gateway on a configuration that was loaded, and its routes.
use opgate.Base.{
  Bool, true, false, Option, none, some, ◌≡◌, ◌≢◌, refl, sym, ap, ◌∙◌, if_case, Bool-cases, inl,
  inr, arith,
}
use opgate.Base.Bytes.{Bytes, codes, equal, equal_iff, has_suffix}
use opgate.Config.{Settings, checks, validate, is_http}
use opgate.Config.Formats.{Loaded, ok, not_read, not_parsed, not_valid, load}
use opgate.Config.Checked.{load-valid, first_failed-none}
use opgate.Proxy.{Request, is_chat}
use opgate.Gateway.{
  Flags, Started, serves, version_printed, exits_on_config, on_loaded, on_upstream, start_main,
  printed, route, gateway,
}

parses :
    (url_parse : Bytes → Option (Bytes × Bytes)) (c : Settings)
    → validate url_parse c ≡ none
    → url_parse c.upstream.base_url ≢ none
unfolding validate checks is_http
parses url_parse c h e =
    let (_, (http, _)) = first_failed-none (checks url_parse c) h in
    ground (arith, ap is_http (sym e) ∙ http)

-- What `main` gives for a configuration of which `Load` says that it is good.
pub data IsStarted (read_file : Bytes → Option Bytes)
    (unmarshal : Bytes → Settings → Option Settings) (url_parse : Bytes → Option (Bytes × Bytes))
    (reachable : Bool) (flags : Flags) : Started → Type 0 where
  shown :
      flags.show_version ≡ true
      → IsStarted read_file unmarshal url_parse reachable flags version_printed
  refused :
      {l : Loaded}
      → load read_file unmarshal url_parse flags.config_path ≡ l
      → ((c : Settings) → l ≢ ok c)
      → IsStarted read_file unmarshal url_parse reachable flags (exits_on_config l)
  started :
      {c : Settings}
      → load read_file unmarshal url_parse flags.config_path ≡ ok c
      → validate url_parse c ≡ none
      → IsStarted read_file unmarshal url_parse reachable flags (serves c (printed reachable c))

module _ (read_file : Bytes → Option Bytes) (unmarshal : Bytes → Settings → Option Settings)
    (url_parse : Bytes → Option (Bytes × Bytes)) (reachable : Bool) (flags : Flags) where
  upstream-IsStarted :
      (c : Settings) (o : Option (Bytes × Bytes))
      → url_parse c.upstream.base_url ≡ o
      → load read_file unmarshal url_parse flags.config_path ≡ ok c
      → IsStarted read_file unmarshal url_parse reachable flags
          (on_upstream (load read_file unmarshal url_parse) url_parse reachable c o)
  upstream-IsStarted c none e loaded =
      absurd
        (parses url_parse c (load-valid read_file unmarshal url_parse flags.config_path c loaded) e)
  upstream-IsStarted c (some _) e loaded =
      started loaded (load-valid read_file unmarshal url_parse flags.config_path c loaded)

  loaded-IsStarted :
      (l : Loaded)
      → load read_file unmarshal url_parse flags.config_path ≡ l
      → IsStarted read_file unmarshal url_parse reachable flags
          (on_loaded (load read_file unmarshal url_parse) url_parse reachable l)
  loaded-IsStarted (ok c) e = upstream-IsStarted c (url_parse c.upstream.base_url) refl e
  loaded-IsStarted not_read e = refused e (λ c k. cc)
  loaded-IsStarted not_parsed e = refused e (λ c k. cc)
  loaded-IsStarted (not_valid i) e = refused e (λ c k. cc)

  -- With any file and any flags, `main` prints the version only if it is asked to, exits on the configuration
  -- only if `Load` has no good one, and else serves under one that passes `Validate`: it never exits
  -- on the URL of the upstream, which it parses again behind `Load`.
  pub start_main-IsStarted :
      IsStarted read_file unmarshal url_parse reachable flags
        (start_main (load read_file unmarshal url_parse) url_parse reachable flags)
  unfolding start_main
  start_main-IsStarted =
      if_case (IsStarted read_file unmarshal url_parse reachable flags) flags.show_version _ _ shown
        (λ _. loaded-IsStarted (load read_file unmarshal url_parse flags.config_path) refl)

-- Paths that are no chat completions.
not_chat :
    (path own : Bytes)
    → has_suffix own (codes "/chat/completions") ≡ false
    → has_suffix path (codes "/chat/completions") ≡ true
    → equal path own ≡ false
not_chat path own own_page yes_chat = elim (Bool-cases (equal path own)) [
  | inl e ↦ absurd (
      true_false (
        sym yes_chat
        ∙ ap (λ s. has_suffix s (codes "/chat/completions")) ((equal_iff path own).0 e)
        ∙ own_page))
  | inr e ↦ e
]
  where
    true_false : true ≢ false
    true_false e = cc

-- No chat completion is taken for one of the gateway's own pages.
route-chat : (r : Request) → is_chat r ≡ true → route r.path ≡ gateway
unfolding is_chat route has_suffix equal
route-chat r h =
    let chat : has_suffix r.path (codes "/chat/completions") ≡ true = ground (arith, h) in
    rw (not_chat r.path (codes "/metrics") refl chat, not_chat r.path (codes "/healthz") refl chat)
