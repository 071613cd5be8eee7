-- ===== src/Config.antt =====
-- internal/config/config.go: the configuration, its defaults and `Validate`; and what cmd/ocgate/main.go
-- hands to the page pool. Durations are in nanoseconds, sizes in bytes, as in the source.
pub mod Checked
pub mod Formats
pub mod Exact
use opgate.Base.{
  ℕ, zero, suc, ◌*◌, ◌^◌, Bool, true, false, not, ◌&&◌, ◌||◌, List, [], ◌∷◌, Option, none, some,
  if◌then◌else◌,
}
use opgate.Base.Bytes.{Bytes, codes, equal, trim_space}
use opgate.Base.Int.{ℤ, pos, negsuc}
use opgate.Session.{is_empty}
use opgate.Collector.Pool

pub record Server : Type 0 where
  pub listen : Bytes

pub record Upstream : Type 0 where
  pub base_url : Bytes

pub record Redis : Type 0 where
  pub addr : Bytes
  pub db : ℤ
  pub timeout : ℤ

pub record SessionConfig : Type 0 where
  pub ttl : ℤ

pub record ResponseCache : Type 0 where
  pub page_size : ℤ
  pub ttl : ℤ
  pub workers : ℤ
  pub max_pending_pages : ℤ

pub record Limits : Type 0 where
  pub max_request_body : ℤ

pub record Logging : Type 0 where
  pub level : Bytes

-- `Config`
pub record Settings : Type 0 where
  pub server : Server
  pub upstream : Upstream
  pub redis : Redis
  pub session : SessionConfig
  pub response_cache : ResponseCache
  pub limits : Limits
  pub logging : Logging

abbrev pub second : ℕ
second = 10 ^ 9

-- `Default`
unfoldable pub default : Settings
default = record {
  server = record { listen = codes ":8080" };
  upstream = record { base_url = [] };
  redis = record { addr = codes "127.0.0.1:6379"; db = pos 0; timeout = pos (2 * second) };
  session = record { ttl = pos (168 * 3600 * second) };
  response_cache = record {
    page_size = pos (4 * 2 ^ 20);
    ttl = pos (30 * 60 * second);
    workers = pos 4;
    max_pending_pages = pos 8;
  };
  limits = record { max_request_body = pos (32 * 2 ^ 20) };
  logging = record { level = codes "info" };
}

-- The errors of `Validate`.
pub data Invalid : Type 0 where
  base_url_required base_url_invalid addr_required timeout_not_positive session_ttl_not_positive :
      Invalid
  page_size_not_positive cache_ttl_not_positive no_workers no_pending_pages body_not_positive :
      Invalid

unfoldable pub is_positive : ℤ → Bool
is_positive (pos zero) = false
is_positive (pos (suc n)) = true
is_positive (negsuc n) = false

-- The scheme and the host that `url.Parse` finds, or its error.
unfoldable pub is_http : Option (Bytes × Bytes) → Bool
unfolding equal
is_http none = false
is_http (some (scheme, host)) =
    (equal scheme (codes "http") || equal scheme (codes "https")) && not (is_empty host)

-- The checks of `Validate` in their order, each with its error.
unfoldable pub checks : (Bytes → Option (Bytes × Bytes)) → Settings → List (Bool × Invalid)
checks url_parse c =
    (not (is_empty (trim_space c.upstream.base_url)), base_url_required)
    ∷ (is_http (url_parse c.upstream.base_url), base_url_invalid)
    ∷ (not (is_empty (trim_space c.redis.addr)), addr_required)
    ∷ (is_positive c.redis.timeout, timeout_not_positive)
    ∷ (is_positive c.session.ttl, session_ttl_not_positive)
    ∷ (is_positive c.response_cache.page_size, page_size_not_positive)
    ∷ (is_positive c.response_cache.ttl, cache_ttl_not_positive)
    ∷ (is_positive c.response_cache.workers, no_workers)
    ∷ (is_positive c.response_cache.max_pending_pages, no_pending_pages)
    ∷ (is_positive c.limits.max_request_body, body_not_positive)
    ∷ []

unfoldable pub first_failed : List (Bool × Invalid) → Option Invalid
first_failed [] = none
first_failed ((true, _) ∷ rest) = first_failed rest
first_failed ((false, e) ∷ rest) = some e

-- `Validate`: it returns at the first check that fails.
unfoldable pub validate : (Bytes → Option (Bytes × Bytes)) → Settings → Option Invalid
unfolding checks first_failed
validate url_parse c = first_failed (checks url_parse c)

-- A size as the pool and `readBody` use it.
unfoldable pub size : ℤ → ℕ
size (pos n) = n
size (negsuc _) = 0

-- The pool that `main` starts.
unfoldable pub pool_config : Settings → Pool.Config
unfolding size
pool_config c = record {
  page_size = size c.response_cache.page_size;
  max_pending_pages = size c.response_cache.max_pending_pages;
  workers = size c.response_cache.workers;
}
