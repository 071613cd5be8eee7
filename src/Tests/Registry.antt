-- ===== src/Tests/Registry.antt =====
-- A registry of names.
use mathlib.Core.List.{reverse}
use opgate.Base.{
  true, false, not, ◌&&◌, List, [], ◌∷◌, map, Option, none, some, ◌≡◌, refl, All, if◌then◌else◌,
}
use opgate.Base.Bytes.{Bytes, codes, has_prefix}
use opgate.Metrics.{
  Metric, counter, name_of, all_metrics, is_valid, is_among, Registry, must_register, new_metrics,
}
use opgate.Metrics.Registered.{new_metrics-total}

take_name : Metric → List Bytes → Option (List Bytes)
take_name m r = if is_valid m && not (is_among (name_of m) r) then some (name_of m ∷ r) else none

take_name-valid :
    (m : Metric) (r : List Bytes)
    → is_valid m ≡ true
    → is_among (name_of m) r ≡ false
    → (r' : List Bytes) × (take_name m r ≡ some r') × (r' ≡ name_of m ∷ r)
unfolding take_name
take_name-valid m r h k = (name_of m ∷ r, rw (h, k) refl, refl)

abbrev names_only : Registry (List Bytes)
names_only = record {
  new_registry = [];
  register = λ m r. take_name m r;
  names = λ r. r;
  names-new = refl;
  register-valid = λ m r h k. take_name-valid m r h k;
}

new_metrics-total_example :
    (r : List Bytes) × (new_metrics names_only ≡ some r)
    × (r ≡ reverse (map name_of all_metrics))
    × All (λ m. has_prefix (name_of m) (codes "opgate_") ≡ true) all_metrics
new_metrics-total_example = new_metrics-total names_only

-- A metric that is registered twice is refused.
must_register-test :
    must_register names_only (counter (codes "a") [] ∷ counter (codes "a") [] ∷ []) [] ≡ none
unfolding must_register take_name is_valid is_among
must_register-test = refl
