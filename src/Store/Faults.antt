-- ===== src/Store/Faults.antt =====
-- internal/store/redis.go: what the operations on pages return and count when the server cannot be
-- reached, and the counter of internal/metrics/metrics.go on which they count.
use mathlib.Core.List.{Permᴰ}
use opgate.Base.{
  ℕ, ◌+◌, ◌^◌, ◌<◌, List, Option, none, some, ◌≡◌, ◌≢◌, ◌⊎◌, inl, inr, [], refl, if◌then◌else◌,
  arith,
}
use opgate.Base.Bytes.{Bytes, codes, equal, equal_refl, equal_iff}
use opgate.Base.Int.{ℤ}
use opgate.Store.{Pages, put_page}
use opgate.Store.Redis.{
  HashServer, store_page, get_pages, delete_pages, as_pages, Represents, store_page-Represents,
  store_page-refines, get_pages-Represents, get_pages-delete, get_pages-delete_ne,
}

-- What becomes of a command that is sent to the server: it is carried out and answered, its answer
-- does not arrive in time, or it never reaches the server.
pub data Fate : Type 0 where
  answered answer_lost not_sent : Fate

-- The error of a command: `redis.Nil` says that a key is not there.
pub data CommandError : Type 0 where
  nil_reply failure : CommandError

-- The counter `SessionStoreError`, by the name of the operation.
abbrev pub StoreErrors : Type 0
StoreErrors = Bytes → ℕ

-- `SessionStoreErrorInc`
unfoldable pub store_error_inc : Bytes → StoreErrors → StoreErrors
unfolding equal
store_error_inc op m o = if equal o op then m o + 1 else m o

-- `observe`, less the latency.
unfoldable pub observe : Bytes → Option CommandError → StoreErrors → StoreErrors
unfolding store_error_inc
observe op none m = m
observe op (some nil_reply) m = m
observe op (some failure) m = store_error_inc op m

-- The error of a command that no server answers with `redis.Nil`.
abbrev pub error_of : Fate → Option CommandError
error_of answered = none
error_of _ = some failure

-- What the server holds behind a command.
abbrev pub carried_out {ℓ} : {S : Type ℓ} → Fate → (S → S) → S → S
carried_out not_sent command s = s
carried_out _ command s = command s

module _ {S : Type 0} (server : HashServer S) where
  -- `PutPage`: its error, and what it leaves.
  unfoldable pub try_put_page :
      Fate → Bytes → ℕ → Bytes → S → StoreErrors → Option CommandError × S × StoreErrors
  unfolding store_page observe
  try_put_page fate request_id seq page s m = (
    error_of fate,
    carried_out fate (store_page server request_id seq page) s,
    observe (codes "page_put") (error_of fate) m,
  )

  -- `GetPages`: its error or the pages.
  unfoldable pub try_get_pages :
      Fate → Bytes → S → StoreErrors → Option (List (ℤ × Bytes)) × StoreErrors
  unfolding get_pages observe
  try_get_pages fate request_id s m = (
    elim (error_of fate) [ none ↦ some (get_pages server request_id s) | some _ ↦ none ],
    observe (codes "page_get") (error_of fate) m,
  )

  -- `DeletePages`: its error, and what it leaves.
  unfoldable pub try_delete_pages :
      Fate → Bytes → S → StoreErrors → Option CommandError × S × StoreErrors
  unfolding delete_pages observe
  try_delete_pages fate request_id s m = (
    error_of fate,
    carried_out fate (delete_pages server request_id) s,
    observe (codes "page_del") (error_of fate) m,
  )

-- A counter of operations is one higher behind an error than before, and no other counter changes.
abbrev pub Counted : Bytes → Option CommandError → StoreErrors → StoreErrors → Type 0
Counted op none m m' = (o : Bytes) → m' o ≡ m o
Counted op (some _) m m' = (m' op ≡ m op + 1) × ((o : Bytes) → o ≢ op → m' o ≡ m o)

pub store_error_inc-Counted :
    (op : Bytes) (m : StoreErrors) → Counted op (some failure) m (store_error_inc op m)
unfolding store_error_inc
store_error_inc-Counted op m = (rw (equal_refl op) refl, λ o n. ground (arith, (equal_iff o op).0))

observe-Counted :
    (op : Bytes) (fate : Fate) (m : StoreErrors)
    → Counted op (error_of fate) m (observe op (error_of fate) m)
unfolding observe
observe-Counted op answered m = λ o. refl
observe-Counted op answer_lost m = store_error_inc-Counted op m
observe-Counted op not_sent m = store_error_inc-Counted op m

module _ {S : Type 0} (server : HashServer S) where
  -- What `PutPage` makes of an entry that holds some pages: the page is stored, or there was an error
  -- and nothing has changed. An error is counted once, and no other request is touched.
  pub record IsPut (r : Bytes) (k : ℕ) (b : Bytes) (ps : Pages) (s : S) (m : StoreErrors)
      (o : Option CommandError × S × StoreErrors) : Type 0 where
    pub entry : Represents server o.1 r (put_page k b ps) ⊎ ((o.0 ≡ some failure) × (o.1 ≡ s))
    pub count : Counted (codes "page_put") o.0 m o.2
    pub apart : (other : Bytes) → other ≢ r → get_pages server other o.1 ≡ get_pages server other s

  try_put_page-IsPut :
      (fate : Fate) (s : S) (r : Bytes) (ps : Pages) (k : ℕ) (b : Bytes) (m : StoreErrors)
      → Represents server s r ps
      → k < 2 ^ 63
      → IsPut r k b ps s m (try_put_page server fate r k b s m)
  unfolding try_put_page
  try_put_page-IsPut answered s r ps k b m p h = record {
    entry = inl (store_page-Represents server s r ps k b h p);
    count = observe-Counted (codes "page_put") answered m;
    apart = λ other n. (store_page-refines server s r other ps k b p h n).3;
  }
  try_put_page-IsPut answer_lost s r ps k b m p h = record {
    entry = inl (store_page-Represents server s r ps k b h p);
    count = observe-Counted (codes "page_put") answer_lost m;
    apart = λ other n. (store_page-refines server s r other ps k b p h n).3;
  }
  try_put_page-IsPut not_sent s r ps k b m p h = record {
    entry = inr (refl, refl);
    count = observe-Counted (codes "page_put") not_sent m;
    apart = λ other n. refl;
  }

  -- What `GetPages` returns for an entry that holds some pages: an error, or the pages in some order.
  -- An error is counted once.
  pub data IsGot (ps : Pages) (m : StoreErrors)
      : Option (List (ℤ × Bytes)) × StoreErrors → Type 0 where
    got :
        {pages : List (ℤ × Bytes)} {m' : StoreErrors}
        → Permᴰ pages (as_pages ps)
        → Counted (codes "page_get") none m m'
        → IsGot ps m (some pages, m')
    refused :
        {m' : StoreErrors} → Counted (codes "page_get") (some failure) m m' → IsGot ps m (none, m')

  try_get_pages-IsGot :
      (fate : Fate) (s : S) (r : Bytes) (ps : Pages) (m : StoreErrors)
      → Represents server s r ps
      → IsGot ps m (try_get_pages server fate r s m)
  unfolding try_get_pages
  try_get_pages-IsGot answered s r ps m p =
      got (get_pages-Represents server s r ps p) (observe-Counted (codes "page_get") answered m)
  try_get_pages-IsGot answer_lost s r ps m p =
      refused (observe-Counted (codes "page_get") answer_lost m)
  try_get_pages-IsGot not_sent s r ps m p = refused (observe-Counted (codes "page_get") not_sent m)

  -- What `DeletePages` leaves: an empty entry, or what was there and an error. An error is counted
  -- once, and no other request is touched.
  pub record IsDeleted (r : Bytes) (s : S) (m : StoreErrors)
      (o : Option CommandError × S × StoreErrors) : Type 0 where
    pub entry : (get_pages server r o.1 ≡ []) ⊎ ((o.0 ≡ some failure) × (o.1 ≡ s))
    pub count : Counted (codes "page_del") o.0 m o.2
    pub apart : (other : Bytes) → other ≢ r → get_pages server other o.1 ≡ get_pages server other s

  try_delete_pages-IsDeleted :
      (fate : Fate) (s : S) (r : Bytes) (m : StoreErrors)
      → IsDeleted r s m (try_delete_pages server fate r s m)
  unfolding try_delete_pages
  try_delete_pages-IsDeleted answered s r m = record {
    entry = inl (get_pages-delete server s r);
    count = observe-Counted (codes "page_del") answered m;
    apart = get_pages-delete_ne server s r;
  }
  try_delete_pages-IsDeleted answer_lost s r m = record {
    entry = inl (get_pages-delete server s r);
    count = observe-Counted (codes "page_del") answer_lost m;
    apart = get_pages-delete_ne server s r;
  }
  try_delete_pages-IsDeleted not_sent s r m = record {
    entry = inr (refl, refl);
    count = observe-Counted (codes "page_del") not_sent m;
    apart = λ other n. refl;
  }

-- On a server that holds some pages for a request, whatever becomes of the command: `PutPage` stores
-- the page, or returns an error and changes nothing, or returns an error and has stored it;
-- `GetPages` returns an error or the pages in some order; `DeletePages` leaves no page, or returns an
-- error and changes nothing, or returns an error and leaves none. Exactly an error is counted, once,
-- under the name of the operation. No page of another request changes.
pub try_page-refines :
    {S : Type 0} (server : HashServer S) (fate : Fate) (s : S) (r : Bytes) (ps : Pages) (k : ℕ)
    (b : Bytes) (m : StoreErrors)
    → Represents server s r ps
    → k < 2 ^ 63
    → IsPut server r k b ps s m (try_put_page server fate r k b s m)
      × IsGot server ps m (try_get_pages server fate r s m)
      × IsDeleted server r s m (try_delete_pages server fate r s m)
try_page-refines server fate s r ps k b m p h = (
  try_put_page-IsPut server fate s r ps k b m p h,
  try_get_pages-IsGot server fate s r ps m p,
  try_delete_pages-IsDeleted server fate s r m,
)
