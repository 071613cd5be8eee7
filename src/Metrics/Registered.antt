-- ===== src/Metrics/Registered.antt =====
-- internal/metrics/metrics.go: `New` does not panic.
use mathlib.Core.List.{reverse}
use opgate.Base.{
  Bool, true, false, not, ◌&&◌, List, [], ◌∷◌, map, some, ◌≡◌, refl, sym, ap, ◌∙◌, subst, All,
  arith,
}
use opgate.Base.Bytes.{Bytes, codes, equal, has_prefix}
use opgate.Metrics.{
  Metric, name_of, all_metrics, is_valid, is_among, and_then, Registry, must_register, new_metrics,
}

-- The metrics are valid, and their names differ from each other and from those that are there.
fresh : List Metric → List Bytes → Bool
unfolding is_valid is_among
fresh [] ns = true
fresh (m ∷ ms) ns = is_valid m && not (is_among (name_of m) ns) && fresh ms (name_of m ∷ ns)

-- The names that are there behind the registration of some metrics.
onto : List Metric → List Bytes → List Bytes
onto [] ns = ns
onto (m ∷ ms) ns = onto ms (name_of m ∷ ns)

fresh-cons :
    (m : Metric) (ms : List Metric) (ns : List Bytes)
    → fresh (m ∷ ms) ns ≡ true
    → (is_valid m ≡ true) × (is_among (name_of m) ns ≡ false) × (fresh ms (name_of m ∷ ns) ≡ true)
unfolding fresh
fresh-cons m ms ns h = ground (arith, h)

prefixed : List Metric → Bool
prefixed [] = true
prefixed (m ∷ ms) = has_prefix (name_of m) (codes "opgate_") && prefixed ms

prefixed-All :
    (ms : List Metric)
    → prefixed ms ≡ true
    → All (λ m. has_prefix (name_of m) (codes "opgate_") ≡ true) ms
unfolding prefixed
prefixed-All [] h = tt
prefixed-All (m ∷ ms) h = (ground (arith, h), prefixed-All ms (ground (arith, h)))

module _ {R : Type 0} (registry : Registry R) where
  must_register-fresh :
      (ms : List Metric) (r : R)
      → fresh ms (registry.names r) ≡ true
      → (r' : R) × (must_register registry ms r ≡ some r')
        × (registry.names r' ≡ onto ms (registry.names r))
  unfolding must_register onto
  must_register-fresh [] r h = (r, refl, refl)
  must_register-fresh (m ∷ ms) r h =
      let (valid, new, others) = fresh-cons m ms (registry.names r) h in
      let (r1, taken, named) = registry.register-valid m r valid new in
      let (r', all, names) =
        must_register-fresh ms r1 (subst (λ ns. fresh ms ns ≡ true) (sym named) others) in
      (r', ap (λ o. and_then o (must_register registry ms)) taken ∙ all, names ∙ ap (onto ms) named)

  all_fresh : fresh all_metrics [] ≡ true
  unfolding fresh all_metrics is_valid is_among equal
  all_fresh = refl

  all_onto : onto all_metrics [] ≡ reverse (map name_of all_metrics)
  unfolding onto all_metrics
  all_onto = refl

  -- On every registry that takes a valid metric under a new name, `New` registers all its metrics: it
  -- does not panic, and what is registered then are just their names, all of which begin alike.
  pub new_metrics-total :
      (r : R) × (new_metrics registry ≡ some r)
      × (registry.names r ≡ reverse (map name_of all_metrics))
      × All (λ m. has_prefix (name_of m) (codes "opgate_") ≡ true) all_metrics
  unfolding new_metrics all_metrics has_prefix prefixed
  new_metrics-total =
      let (r, all, names) =
        must_register-fresh all_metrics registry.new_registry
          (subst (λ ns. fresh all_metrics ns ≡ true) (sym registry.names-new) all_fresh) in
      (
        r,
        all,
        names ∙ ap (onto all_metrics) registry.names-new ∙ all_onto,
        prefixed-All all_metrics refl,
      )
