-- ===== src/Gateway.antt =====
-- cmd/ocgate/main.go: what `main` does before it serves, and where its mux sends a request. Flags,
-- signals, the listener and the printing of the log are outside.
pub mod Exit
pub mod Wiring
pub mod Startup
use opgate.Base.{
  Bool, true, false, not, ◌&&◌, ◌||◌, List, [], ◌∷◌, ◌++◌, Option, none, some, if◌then◌else◌,
}
use opgate.Base.Bytes.{Bytes, codes, equal}
use opgate.Base.Int.{ℤ, leb_ℤ}
use opgate.Config.{Settings, Invalid}
use opgate.Config.Formats.{Loaded, ok, not_read, not_parsed, not_valid}

-- The flags.
pub record Flags : Type 0 where
  pub config_path : Bytes
  pub show_version : Bool

-- The levels of the logger.
pub data Level : Type 0 where
  debug info warn error : Level

-- `buildLogger`: the level, `info` for every text that names none.
unfoldable pub build_logger : Bytes → Level
unfolding equal
build_logger level =
    if equal level (codes "debug")
    then debug
    else if equal level (codes "warn")
    then warn
    else if equal level (codes "error")
    then error
    else info

-- Whether a logger of this level prints warnings.
unfoldable pub prints_warnings : Level → Bool
prints_warnings error = false
prints_warnings _ = true

-- The warnings of `main`.
pub data Warning : Type 0 where
  cache_ttl_not_smaller redis_not_reachable : Warning

-- How `main` goes on: it prints the version and returns, it exits with a status, or it serves under a
-- configuration, with the warnings that it has printed.
pub data Started : Type 0 where
  version_printed : Started
  exits_on_config : Loaded → Started
  exits_on_upstream : Settings → Started
  serves : Settings → List Warning → Started

unfoldable pub warnings : Bool → Settings → List Warning
warnings reachable c =
    (if leb_ℤ c.session.ttl c.response_cache.ttl then cache_ttl_not_smaller ∷ [] else [])
    ++ (if reachable then [] else redis_not_reachable ∷ [])

unfoldable pub printed : Bool → Settings → List Warning
unfolding build_logger prints_warnings warnings
printed reachable c =
    if prints_warnings (build_logger c.logging.level) then warnings reachable c else []

module _ (load : Bytes → Loaded) (url_parse : Bytes → Option (Bytes × Bytes))
    (reachable : Bool) where
  abbrev pub on_upstream : Settings → Option (Bytes × Bytes) → Started
  on_upstream c none = exits_on_upstream c
  on_upstream c (some _) = serves c (printed reachable c)

  abbrev pub on_loaded : Loaded → Started
  on_loaded (ok c) = on_upstream c (url_parse c.upstream.base_url)
  on_loaded not_read = exits_on_config not_read
  on_loaded not_parsed = exits_on_config not_parsed
  on_loaded (not_valid e) = exits_on_config (not_valid e)

  -- `main`, up to the serving, given whether the server of the store answers a ping.
  unfoldable pub start_main : Flags → Started
  unfolding printed
  start_main flags =
      if flags.show_version then version_printed else on_loaded (load flags.config_path)

-- The handlers of the mux.
pub data Route : Type 0 where
  metrics_page health_page gateway : Route

-- The mux of `main`, for a path as the mux sees it.
unfoldable pub route : Bytes → Route
unfolding equal
route path =
    if equal path (codes "/metrics")
    then metrics_page
    else if equal path (codes "/healthz")
    then health_page
    else gateway
