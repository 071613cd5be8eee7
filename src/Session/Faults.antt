-- ===== src/Session/Faults.antt =====
-- internal/session/resolver.go on internal/store/redis.go: `Resolve` when the session store cannot be
-- reached. The resolver and the store count on one vector of counters, `SessionStoreError`.
use opgate.Base.{
  ◌+◌, Bool, true, ◌&&◌, List, [], Option, none, some, ◌≡◌, ◌≢◌, refl, length, ltb, if◌then◌else◌,
  arith, ap, subst, sym, fun_ext, Option-cases, if_case, inl, inr, ◌∙◌,
}
use opgate.Base.Bytes.{Bytes, codes, equal_refl}
use opgate.Canon.Hash.{history_hash}
use opgate.Store.Keys.{session_key}
use opgate.Store.Faults.{
  Fate, answered, answer_lost, not_sent, CommandError, nil_reply, failure, StoreErrors,
  store_error_inc, observe, error_of, carried_out, store_error_inc-Counted,
}
use opgate.Session.{
  new, Decision, Lookup, store_error, missing, hit, Resolutions, is_empty, but_last, on_lookup,
  resolve,
}
use opgate.Session.Continuity.{found, Mappings, get_session, put_session}

-- The value and the error that the client returns for GET.
unfoldable pub get_reply : Fate → Option Bytes → Option Bytes × Option CommandError
get_reply answered none = (none, some nil_reply)
get_reply answered (some id) = (some id, none)
get_reply _ _ = (none, some failure)

-- `GetSession` on the reply.
unfoldable pub lookup_of : Option Bytes × Option CommandError → Lookup
lookup_of (some id, none) = hit id
lookup_of (none, none) = hit []
lookup_of (_, some nil_reply) = missing
lookup_of (_, some failure) = store_error

unfoldable pub try_get_session :
    Fate → Bytes → Bytes → Mappings → StoreErrors → Lookup × StoreErrors
unfolding get_reply lookup_of observe session_key
try_get_session fate client_hash state_hash s m =
    let reply = get_reply fate (s (session_key client_hash state_hash)) in
    (lookup_of reply, observe (codes "session_get") reply.1 m)

-- `PutSession`: its error, and what it leaves.
unfoldable pub try_put_session :
    Fate
    → Bytes
    → Bytes
    → Bytes
    → Mappings
    → StoreErrors
    → Option CommandError × Mappings × StoreErrors
unfolding put_session observe
try_put_session fate client_hash state_hash id s m = (
  error_of fate,
  carried_out fate (put_session client_hash state_hash id) s,
  observe (codes "session_put") (error_of fate) m,
)

-- The part of the switch of `Resolve` that counts on the vector.
unfoldable pub count_lookup : Lookup → StoreErrors → StoreErrors
unfolding store_error_inc
count_lookup store_error m = store_error_inc (codes "session_get") m
count_lookup _ m = m

-- Whether `Resolve` asks the store.
abbrev pub asks : Bytes → List Bytes → Bool
asks client_session msgs = is_empty client_session && ltb 1 (length msgs)

module _ (sha256 : Bytes → Bytes) (fresh : Bytes) where
  -- `Resolve` over what `GetSession` returns and counts, with the vector of counters behind it.
  unfoldable pub resolve_counting :
      (Bytes → Bytes → Lookup × StoreErrors)
      → Bytes
      → List Bytes
      → Bytes
      → Resolutions
      → StoreErrors
      → (Decision × Resolutions) × StoreErrors
  unfolding resolve count_lookup history_hash
  resolve_counting lookup client_hash msgs client_session m errors =
      let asked = lookup client_hash (history_hash sha256 (but_last msgs)) in
      (
        resolve sha256 (λ client state. (lookup client state).0) fresh client_hash msgs
            client_session m,
        if asks client_session msgs then count_lookup asked.0 asked.1 else errors,
      )

  unfoldable pub resolve_on_store :
      Fate
      → Mappings
      → Bytes
      → List Bytes
      → Bytes
      → Resolutions
      → StoreErrors
      → (Decision × Resolutions) × StoreErrors
  unfolding resolve_counting try_get_session
  resolve_on_store fate s client_hash msgs client_session m errors =
      resolve_counting (λ client state. try_get_session fate client state s errors) client_hash msgs
        client_session m errors

-- On a server that answers, a lookup is that of the mappings, and counts no error.
pub try_get_session-answered :
    (c h : Bytes) (s : Mappings) (m : StoreErrors)
    → try_get_session answered c h s m ≡ (get_session s c h, m)
unfolding try_get_session get_reply lookup_of observe get_session
try_get_session-answered c h s m = elim (Option-cases (s (session_key c h))) [
  | inl e ↦ rw e refl
  | inr (id, e) ↦ rw e refl
]

pub unanswered :
    (fate : Fate) (c h : Bytes) (s : Mappings) (m : StoreErrors)
    → fate ≢ answered
    → try_get_session fate c h s m ≡ (store_error, store_error_inc (codes "session_get") m)
unfolding try_get_session get_reply lookup_of observe
unanswered answered c h s m n = absurd (n refl)
unanswered answer_lost c h s m n = refl
unanswered not_sent c h s m n = refl

twice : (op : Bytes) (m : StoreErrors) → store_error_inc op (store_error_inc op m) op ≡ m op + 2
unfolding store_error_inc
twice op m = rw (equal_refl op) (omega arith)

twice_ne :
    (op o : Bytes) (m : StoreErrors) → o ≢ op → store_error_inc op (store_error_inc op m) o ≡ m o
twice_ne op o m n =
    (store_error_inc-Counted op (store_error_inc op m)).1 o n ∙ (store_error_inc-Counted op m).1 o n

asks-both :
    (client_session : Bytes) (msgs : List Bytes)
    → asks client_session msgs ≡ true
    → (is_empty client_session ≡ true) × (ltb 1 (length msgs) ≡ true)
asks-both client_session msgs h = ground (arith, h)

uncounted : (o : Option Bytes) (m : StoreErrors) → count_lookup (found o) m ≡ m
unfolding count_lookup
uncounted none m = refl
uncounted (some id) m = refl

-- What a request whose lookup failed gets, given the counters before and behind.
abbrev pub Refused : Bytes → (Decision × Resolutions) × StoreErrors → StoreErrors → Type 0
Refused fresh out errors =
    (out.0.0.session_id ≡ fresh)
    × (out.0.0.source ≡ new)
    × (out.1 (codes "session_get") ≡ errors (codes "session_get") + 2)
    × ((o : Bytes) → o ≢ codes "session_get" → out.1 o ≡ errors o)

module _ (sha256 : Bytes → Bytes) (fresh : Bytes) where
  counting-Refused :
      (client_hash client_session : Bytes) (msgs : List Bytes) (m : Resolutions)
      (errors : StoreErrors)
      → asks client_session msgs ≡ true
      → Refused fresh
          (resolve_counting sha256 fresh
            (λ _ _. (store_error, store_error_inc (codes "session_get") errors))
            client_hash
            msgs
            client_session
            m
            errors)
          errors
  unfolding resolve_counting resolve on_lookup count_lookup
  counting-Refused client_hash client_session msgs m errors h =
      let (no_session, two) = asks-both client_session msgs h in
      rw (no_session, two)
        (
          refl,
          refl,
          twice (codes "session_get") errors,
          λ o k. twice_ne (codes "session_get") o errors k,
        )

  -- A request without a session of its own and with more than one message, whose lookup gets no
  -- answer, goes on under the fresh session; and the one failure raises the count of errors of
  -- "session_get" by two, and no other.
  pub resolve_on_store-Refused :
      (fate : Fate) (s : Mappings) (client_hash client_session : Bytes) (msgs : List Bytes)
      (m : Resolutions) (errors : StoreErrors)
      → asks client_session msgs ≡ true
      → fate ≢ answered
      → Refused fresh
          (resolve_on_store sha256 fresh fate s client_hash msgs client_session m errors)
          errors
  unfolding resolve_on_store
  resolve_on_store-Refused fate s client_hash client_session msgs m errors h n =
      subst
        (λ lookup.
          Refused fresh
            (resolve_counting sha256 fresh lookup client_hash msgs client_session m errors) errors)
        (sym (fun_ext (λ c. fun_ext (λ k. unanswered fate c k s errors n))))
        (counting-Refused client_hash client_session msgs m errors h)

  counting-found :
      (g : Bytes → Bytes → Option Bytes) (client_hash client_session : Bytes) (msgs : List Bytes)
      (m : Resolutions) (errors : StoreErrors)
      → resolve_counting sha256 fresh
          (λ c k. (found (g c k), errors))
          client_hash
          msgs
          client_session
          m
          errors
        ≡ (resolve sha256 (λ c k. found (g c k)) fresh client_hash msgs client_session m, errors)
  unfolding resolve_counting count_lookup
  counting-found g client_hash client_session msgs m errors =
      ap (λ e. (resolve sha256 (λ c k. found (g c k)) fresh client_hash msgs client_session m, e))
        (if_case (λ e. e ≡ errors) (asks client_session msgs) _ errors
          (λ _. uncounted (g client_hash (history_hash sha256 (but_last msgs))) errors) (λ _. refl))

  -- On a server that answers, `Resolve` decides and counts as on the mappings, and counts no error.
  pub resolve_on_store-answered :
      (s : Mappings) (client_hash client_session : Bytes) (msgs : List Bytes) (m : Resolutions)
      (errors : StoreErrors)
      → resolve_on_store sha256 fresh answered s client_hash msgs client_session m errors
        ≡ (resolve sha256 (get_session s) fresh client_hash msgs client_session m, errors)
  unfolding resolve_on_store get_session
  resolve_on_store-answered s client_hash client_session msgs m errors =
      ap (λ lookup. resolve_counting sha256 fresh lookup client_hash msgs client_session m errors)
        (fun_ext (λ c. fun_ext (λ k. try_get_session-answered c k s errors)))
      ∙ counting-found (λ c k. s (session_key c k)) client_hash client_session msgs m errors
