-- ===== src/Tests/Settings.antt =====
-- Tests of the configuration.
use opgate.Base.{
  ℕ, false, [], ◌∷◌, ◌*◌, ◌^◌, arith, ◌<◌, true, false, Option, none, some, ◌≡◌, ◌↔◌, refl,
}
use opgate.Base.Bytes.{Bytes, codes, equal, trim_space}
use opgate.Session.{is_empty}
use opgate.Collector.Pool.{new_pool, start}
use opgate.Collector.Bounds.{IsBounded}
use opgate.Config.{
  Settings, default, session_ttl_not_positive, is_positive, is_http, checks, first_failed, validate,
}
use opgate.Base.Int.{ℤ, pos}
use opgate.Store.Fields.{decimal, read_digits, read_digits-decimal}
use opgate.Config.{second, base_url_required}
use opgate.Config.Formats.{
  value, Floats, upper, to_upper, in_number, split_number, exponent, unmarshal_duration,
  unmarshal_byte_size, load, not_valid,
}
use opgate.Gateway.{
  Flags, serves, redis_not_reachable, start_main, printed, warnings, build_logger, prints_warnings,
}
use opgate.Gateway.Startup.{IsStarted, start_main-IsStarted}
use opgate.Config.Exact.{unmarshal_duration-in_range, unmarshal_byte_size-exact}
use opgate.Config.Checked.{validate-default}
use opgate.Gateway.Wiring.{parts}
use opgate.Gateway.Wiring.Timely.{IsTimely, start_main-IsTimely}

-- A parser that finds the text behind `http://`, whatever stands there.
abbrev parse : Bytes → Option (Bytes × Bytes)
parse url = some (codes "http", url)

abbrev settings : Settings
settings = record default { upstream = record { base_url = codes "http://up" } }

validate-default_example : (validate parse settings ≡ none) ↔ (
    (is_empty (trim_space (codes "http://up")) ≡ false)
    × (is_http (parse (codes "http://up")) ≡ true))
validate-default_example = validate-default parse (codes "http://up")

validate-test :
    validate parse (record settings { session = record { ttl = pos 0 } })
    ≡ some session_ttl_not_positive
unfolding validate default is_positive checks first_failed is_http equal trim_space
validate-test = refl

-- Numbers that are natural, in place of floats.
abbrev whole : Floats ℕ
whole = record {
  parse = λ s. read_digits 0 s;
  scale = λ n k. n * 2 ^ k;
  to_int = λ n. pos n;
  of_nat = λ n. n;
  parse-decimal = λ n h. read_digits-decimal n n (omega arith);
  scale-of_nat = λ n k h l. refl;
  to_int-of_nat = λ n k h l m. refl;
}

unmarshal_byte_size-exact_example :
    unmarshal_byte_size whole (record { is_int = false; content = codes " 4 MiB" })
    ≡ value (pos (4 * 2 ^ 20))
unfolding trim_space decimal to_upper split_number in_number exponent equal upper
unmarshal_byte_size-exact_example =
    unmarshal_byte_size-exact whole 4 20 (codes " 4 MiB") (codes " MiB") refl refl refl
      (omega arith) (omega arith) (omega arith)

unmarshal_duration-in_range_example :
    (d : ℤ) × (unmarshal_duration
        (λ _. none)
        (record { is_int = true; content = decimal (10 ^ 10) (10 ^ 10) })
      ≡ value d)
    × ((d ≡ pos (10 ^ 10 * second)) ↔ (10 ^ 10 * second < 2 ^ 63))
unmarshal_duration-in_range_example =
    unmarshal_duration-in_range (λ _. none) (10 ^ 10) (omega arith)

load-test :
    load (λ _. some []) (λ _ c. some c) parse (codes "opgate.yaml") ≡ not_valid base_url_required
unfolding load validate checks first_failed default equal trim_space
load-test = refl

abbrev flags : Flags
flags = record { config_path = codes "opgate.yaml"; show_version = false }

start_main-IsStarted_example :
    IsStarted
      (λ _. some [])
      (λ _ _. some settings)
      parse
      false
      flags
      (start_main (load (λ _. some []) (λ _ _. some settings) parse) parse false flags)
start_main-IsStarted_example =
    start_main-IsStarted (λ _. some []) (λ _ _. some settings) parse false flags

start_main-test :
    start_main (load (λ _. some []) (λ _ _. some settings) parse) parse false flags
    ≡ serves settings (redis_not_reachable ∷ [])
unfolding start_main load validate default is_positive checks first_failed is_http equal trim_space
    printed warnings build_logger prints_warnings
start_main-test = refl

start_main-IsTimely_example :
    IsTimely (parts settings) × IsBounded (parts settings).pool (new_pool (parts settings).pool)
unfolding start_main load validate default is_positive checks first_failed is_http equal trim_space
    printed warnings build_logger prints_warnings
start_main-IsTimely_example =
    start_main-IsTimely (λ _. some []) (λ _ _. some settings) parse false flags settings
      (redis_not_reachable ∷ []) refl start
