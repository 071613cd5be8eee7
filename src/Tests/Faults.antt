-- ===== src/Tests/Faults.antt =====
-- Tests of the stores on a server that does not answer.
use opgate.Base.{[], ◌∷◌, none, ◌≡◌, refl, arith}
use opgate.Base.Bytes.{codes}
use opgate.Store.Faults.{
  answer_lost, not_sent, StoreErrors, try_put_page, try_get_pages, try_delete_pages, IsPut, IsGot,
  IsDeleted, try_page-refines,
}
use opgate.Session.{Resolutions, resolve}
use opgate.Session.Continuity.{Mappings, put_session, get_session}
use opgate.Session.Faults.{
  Refused, resolve_on_store, resolve_on_store-Refused, resolve_on_store-answered,
}
use opgate.Store.Faults.{answered}
use opgate.Tests.Servers.{memory, empty, empty-Represents}

abbrev no_errors : StoreErrors
no_errors _ = 0

abbrev none_resolved : Resolutions
none_resolved = record { client_supplied = 0; resolve_hit = 0; resolve_miss = 0; store_errors = 0 }

try_page-refines_example :
    IsPut memory
      (codes "r")
      7
      (codes "page")
      []
      empty
      no_errors
      (try_put_page memory answer_lost (codes "r") 7 (codes "page") empty no_errors)
    × IsGot memory [] no_errors (try_get_pages memory answer_lost (codes "r") empty no_errors)
    × IsDeleted memory
        (codes "r")
        empty
        no_errors
        (try_delete_pages memory answer_lost (codes "r") empty no_errors)
try_page-refines_example =
    try_page-refines memory answer_lost empty (codes "r") [] 7 (codes "page") no_errors
      empty-Represents (omega arith)

abbrev mappings : Mappings
mappings = put_session (codes "c") (codes "h") (codes "session") (λ _. none)

resolve_on_store-Refused_example :
    Refused
      (codes "fresh")
      (resolve_on_store
        (λ x. x)
        (codes "fresh")
        not_sent
        mappings
        (codes "c")
        (codes "{}" ∷ codes "[]" ∷ [])
        []
        none_resolved
        no_errors)
      no_errors
resolve_on_store-Refused_example =
    resolve_on_store-Refused (λ x. x) (codes "fresh") not_sent mappings (codes "c") []
      (codes "{}" ∷ codes "[]" ∷ []) none_resolved no_errors refl (λ e. cc)

resolve_on_store-answered_example :
    resolve_on_store
      (λ x. x)
      (codes "fresh")
      answered
      mappings
      (codes "c")
      (codes "{}" ∷ codes "[]" ∷ [])
      []
      none_resolved
      no_errors
    ≡ (
      resolve
          (λ x. x)
          (get_session mappings)
          (codes "fresh")
          (codes "c")
          (codes "{}" ∷ codes "[]" ∷ [])
          []
          none_resolved,
      no_errors,
    )
resolve_on_store-answered_example =
    resolve_on_store-answered (λ x. x) (codes "fresh") mappings (codes "c") []
      (codes "{}" ∷ codes "[]" ∷ []) none_resolved no_errors
