-- ===== src/Smoke/Start.antt =====
-- scripts/smoke/main.go with cmd/ocgate/main.go: the gateway starts on the configuration of the smoke
-- test.
use opgate.Base.{true, false, Option, none, some, [], ◌≡◌, refl}
use opgate.Base.Bytes.{Bytes, codes, equal, trim_space}
use opgate.Session.{is_empty}
use opgate.Config.{
  Settings, checks, first_failed, validate, is_positive, is_http, size, default, pool_config,
}
use opgate.Config.Formats.{load}
use opgate.Gateway.{serves, start_main, printed, warnings, build_logger, prints_warnings}
use opgate.Smoke.{smoke_settings, body_limit}

smoke_valid :
    (url_parse : Bytes → Option (Bytes × Bytes)) (addr : Bytes)
    → is_empty (trim_space addr) ≡ false
    → url_parse (codes "http://127.0.0.1:18099/v1") ≡ some (codes "http", codes "127.0.0.1:18099")
    → validate url_parse (smoke_settings addr) ≡ none
unfolding validate checks first_failed is_positive is_http equal trim_space
smoke_valid url_parse addr h e = rw (h, e) refl

-- With the file of the test, which the YAML library decodes on top of the defaults to what it says,
-- `main` serves under its configuration, without a warning if Redis can be reached.
pub smoke_start :
    (read_file : Bytes → Option Bytes) (unmarshal : Bytes → Settings → Option Settings)
    (url_parse : Bytes → Option (Bytes × Bytes)) (path raw addr : Bytes)
    → read_file path ≡ some raw
    → unmarshal raw default ≡ some (smoke_settings addr)
    → is_empty (trim_space addr) ≡ false
    → url_parse (codes "http://127.0.0.1:18099/v1") ≡ some (codes "http", codes "127.0.0.1:18099")
    → start_main
        (load read_file unmarshal url_parse)
        url_parse
        true
        (record { config_path = path; show_version = false })
      ≡ serves (smoke_settings addr) []
unfolding start_main load printed warnings build_logger prints_warnings equal
smoke_start read_file unmarshal url_parse path raw addr r u h e =
    rw r (rw u (rw (smoke_valid url_parse addr h e) (rw e refl)))

-- Its pool and the limit of its bodies.
pub smoke_sizes :
    (addr : Bytes)
    → (pool_config (smoke_settings addr)
        ≡ record { page_size = 4096; max_pending_pages = 4; workers = 2 })
      × (size (smoke_settings addr).limits.max_request_body ≡ body_limit)
unfolding pool_config size
smoke_sizes addr = (refl, refl)
