-- ===== src/Metrics.antt =====
-- internal/metrics/metrics.go: the metrics that `New` builds and registers. The registry is Prometheus's
-- and a parameter; help texts are left out.
pub mod Registered
use opgate.Base.{
  ℕ, Bool, true, false, not, ◌&&◌, ◌||◌, List, [], ◌∷◌, ◌++◌, map, Option, none, some, ◌≡◌, ◌≢◌,
  refl, sym, ap, ◌∙◌, All, ltb, leb, ◌==◌, if◌then◌else◌, arith,
}
use opgate.Base.Bytes.{Bytes, codes, equal, equal_iff, has_prefix}

-- A metric with the names of its labels. The buckets of a histogram are in units of 0.0001.
pub data Metric : Type 0 where
  counter : Bytes → List Bytes → Metric
  histogram : Bytes → List Bytes → List ℕ → Metric

abbrev pub name_of : Metric → Bytes
name_of (counter name labels) = name
name_of (histogram name labels buckets) = name

-- The arguments of `MustRegister`, in order.
unfoldable pub all_metrics : List Metric
all_metrics =
    counter (codes "opgate_requests_total") (codes "kind" ∷ [])
    ∷ counter (codes "opgate_session_resolve_hit_total") []
    ∷ counter (codes "opgate_session_resolve_miss_total") []
    ∷ counter (codes "opgate_session_client_supplied_total") []
    ∷ counter (codes "opgate_session_store_error_total") (codes "op" ∷ [])
    ∷ counter (codes "opgate_stream_completed_total") []
    ∷ counter (codes "opgate_stream_aborted_total") []
    ∷ counter (codes "opgate_page_flush_success_total") []
    ∷ counter (codes "opgate_page_flush_error_total") []
    ∷ counter (codes "opgate_finalize_success_total") []
    ∷ counter (codes "opgate_finalize_error_total") []
    ∷ counter (codes "opgate_session_mapping_created_total") []
    ∷ counter (codes "opgate_session_mapping_error_total") []
    ∷ histogram (codes "opgate_stream_duration_seconds") [] (
        1000 ∷ 5000 ∷ 10000 ∷ 20000 ∷ 50000 ∷ 100000 ∷ 300000 ∷ 600000 ∷ 1200000 ∷ 3000000 ∷ 6000000
        ∷ 18000000 ∷ 36000000 ∷ [])
    ∷ histogram (codes "opgate_response_bytes") [] (
        100000000 ∷ 1000000000 ∷ 10000000000 ∷ 40000000000 ∷ 100000000000 ∷ 500000000000
        ∷ 1000000000000 ∷ 5000000000000 ∷ 10000000000000 ∷ [])
    ∷ histogram (codes "opgate_page_count") [] (
        10000 ∷ 20000 ∷ 40000 ∷ 80000 ∷ 160000 ∷ 320000 ∷ 640000 ∷ 1280000 ∷ 2560000 ∷ 5120000
        ∷ 10240000 ∷ 40960000 ∷ [])
    ∷ histogram (codes "opgate_redis_latency_seconds") (codes "op" ∷ [])
        (5 ∷ 10 ∷ 25 ∷ 50 ∷ 100 ∷ 250 ∷ 500 ∷ 1000 ∷ 2500 ∷ 5000 ∷ 10000 ∷ 25000 ∷ 50000 ∷ [])
    ∷ histogram (codes "opgate_finalize_duration_seconds") [] (
        50 ∷ 100 ∷ 500 ∷ 1000 ∷ 2500 ∷ 5000 ∷ 10000 ∷ 25000 ∷ 50000 ∷ 100000 ∷ 300000 ∷ 600000 ∷ [])
    ∷ []

-- The characters of the names of metrics and labels, less the digits and the colon.
is_name_char : ℕ → Bool
is_name_char c = leb b'a' c && leb c b'z' || leb b'A' c && leb c b'Z' || c == b'_'

is_name : Bytes → Bool
unfolding is_name_char
is_name [] = true
is_name (c ∷ cs) = is_name_char c && is_name cs

all_names : List Bytes → Bool
unfolding is_name
all_names [] = true
all_names (n ∷ ns) = is_name n && all_names ns

-- Whether buckets ascend.
ascending : List ℕ → Bool
ascending [] = true
ascending (a ∷ []) = true
ascending (a ∷ b ∷ rest) = ltb a b && ascending (b ∷ rest)

-- What makes a metric one that can be built and registered under a new name: well-formed names, and
-- buckets that ascend.
unfoldable pub is_valid : Metric → Bool
unfolding all_names is_name ascending
is_valid (counter name labels) = is_name name && all_names labels
is_valid (histogram name labels buckets) = is_name name && all_names labels && ascending buckets

unfoldable pub is_among : Bytes → List Bytes → Bool
unfolding equal
is_among n [] = false
is_among n (m ∷ ms) = equal n m || is_among n ms

-- A registry: it takes every valid metric whose name no metric in it has.
pub record Registry (R : Type 0) : Type 0 where
  pub new_registry : R
  pub register : Metric → R → Option R
  pub names : R → List Bytes
  pub names-new : names new_registry ≡ []
  pub register-valid :
      (m : Metric) (r : R)
      → is_valid m ≡ true
      → is_among (name_of m) (names r) ≡ false
      → (r' : R) × (register m r ≡ some r') × (names r' ≡ name_of m ∷ names r)

abbrev pub and_then {ℓ} : {R : Type ℓ} → Option R → (R → Option R) → Option R
and_then none f = none
and_then (some r) f = f r

module _ {R : Type 0} (registry : Registry R) where
  -- `MustRegister`, which panics (none) at the first metric that the registry refuses.
  unfoldable pub must_register : List Metric → R → Option R
  must_register [] r = some r
  must_register (m ∷ ms) r = and_then (registry.register m r) (must_register ms)

  -- `New`
  unfoldable pub new_metrics : Option R
  unfolding must_register all_metrics
  new_metrics = must_register all_metrics registry.new_registry
