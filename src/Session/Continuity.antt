-- ===== src/Session/Continuity.antt =====
-- internal/session/resolver.go with internal/store/redis.go: a turn of a conversation is stored, and
-- the next one is looked up.
use opgate.Base.{
  ◌+◌, true, List, [], ◌∷◌, ◌++◌, Option, none, some, ◌≡◌, ◌≢◌, refl, ap, ◌∙◌, length,
  length-append, take, take-length-append, ltb, lt→ltb, if◌then◌else◌, arith, sym, inl, inr, ◌⊎◌,
  All, ◌<◌, append_assoc,
}
use opgate.Base.Bytes.{Bytes, equal, equal_refl, equal_iff}
use opgate.Canon.Hash.{message_array, full_state, hash_bytes, hex-injective, history_hash}
use opgate.Store.Keys.{session_key, session_key-injective}
use opgate.Session.{resolved, Lookup, missing, hit, Resolutions, but_last, on_lookup, resolve}

-- What the store's server holds under its string keys, in which nothing has expired.
abbrev pub Mappings : Type 0
Mappings = Bytes → Option Bytes

abbrev pub found : Option Bytes → Lookup
found none = missing
found (some id) = hit id

-- internal/store/redis.go, `GetSession`, on a server that answers.
unfoldable pub get_session : Mappings → Bytes → Bytes → Lookup
get_session s client_hash state_hash = found (s (session_key client_hash state_hash))

-- `PutSession`, on a server that takes the value.
unfoldable pub put_session : Bytes → Bytes → Bytes → Mappings → Mappings
unfolding equal session_key
put_session client_hash state_hash id s key =
    if equal key (session_key client_hash state_hash) then some id else s key

-- internal/proxy/handler.go, `putMapping`: where it stores the session of a finished turn.
unfoldable pub put_mapping :
    (Bytes → Bytes) → Bytes → List Bytes → Bytes → Bytes → Mappings → Mappings
put_mapping sha256 client_hash msgs session_id assistant =
    put_session client_hash (hash_bytes sha256 (full_state msgs assistant)) session_id

but_last-append : (msgs : List Bytes) (m : Bytes) → but_last (msgs ++ m ∷ []) ≡ msgs
but_last-append msgs m =
    ap (λ n. take n (msgs ++ m ∷ [])) (omega (arith, length-append {0} msgs (m ∷ [])))
    ∙ take-length-append msgs (m ∷ [])

two_messages : (msgs : List Bytes) (a user : Bytes) → ltb 1 (length (msgs ++ a ∷ user ∷ [])) ≡ true
two_messages msgs a user = lt→ltb _ _ (omega (arith, length-append {0} msgs (a ∷ user ∷ [])))

history_hash-next :
    (sha256 : Bytes → Bytes) (msgs : List Bytes) (a user : Bytes)
    → history_hash sha256 (but_last (msgs ++ a ∷ user ∷ [])) ≡ hash_bytes sha256 (full_state msgs a)
unfolding history_hash full_state
history_hash-next sha256 msgs a user =
    ap (λ l. hash_bytes sha256 (message_array (but_last l)))
      (sym (append_assoc msgs (a ∷ []) (user ∷ [])))
    ∙ ap (λ l. hash_bytes sha256 (message_array l)) (but_last-append (msgs ++ a ∷ []) user)

get-put_mapping :
    (sha256 : Bytes → Bytes) (client_hash id a : Bytes) (msgs : List Bytes) (s : Mappings)
    → get_session
        (put_mapping sha256 client_hash msgs id a s)
        client_hash
        (hash_bytes sha256 (full_state msgs a))
      ≡ hit id
unfolding get_session put_mapping put_session
get-put_mapping sha256 client_hash id a msgs s =
    rw (equal_refl (session_key client_hash (hash_bytes sha256 (full_state msgs a))))

other_key :
    {c c' h h' : Bytes}
    → All (λ b. b ≢ b':') c
    → All (λ b. b ≢ b':') c'
    → (c' ≢ c) ⊎ (h' ≢ h)
    → session_key c' h' ≢ session_key c h
other_key {c} {c'} {h} {h'} k k' (inl n) e = n ((session_key-injective c' c h' h [] k' k).0 e).0
other_key {c} {c'} {h} {h'} k k' (inr n) e = n ((session_key-injective c' c h' h [] k' k).0 e).1

get-put_other :
    (sha256 : Bytes → Bytes) (client_hash client_hash' id a state : Bytes) (msgs : List Bytes)
    (s : Mappings)
    → session_key client_hash' state
      ≢ session_key client_hash (hash_bytes sha256 (full_state msgs a))
    → get_session (put_mapping sha256 client_hash msgs id a s) client_hash' state
      ≡ get_session s client_hash' state
unfolding get_session put_mapping put_session
get-put_other sha256 client_hash client_hash' id a state msgs s h = ap found (
    ground (
      arith,
      (equal_iff (session_key client_hash' state)
          (session_key client_hash (hash_bytes sha256 (full_state msgs a)))).0,
    ))

differs :
    (sha256 : Bytes → Bytes) (x y : Bytes) {c c' : Bytes}
    → ((z : Bytes) → All (λ b. b < 256) (sha256 z))
    → (sha256 x ≡ sha256 y → x ≡ y)
    → (c' ≢ c) ⊎ (x ≢ y)
    → (c' ≢ c) ⊎ (hash_bytes sha256 x ≢ hash_bytes sha256 y)
unfolding hash_bytes
differs sha256 x y bytes apart (inl h) = inl h
differs sha256 x y bytes apart (inr h) =
    inr (λ e. h (apart (hex-injective (sha256 x) (sha256 y) (bytes x) (bytes y) e)))

-- A turn with messages `msgs` and answer `a` was stored under session `id`. The next request of the
-- same client, which repeats `msgs` and `a` and adds one message, without a session of its own,
-- resolves to `id`, and counts as a hit.
pub resolve-put_mapping :
    (sha256 : Bytes → Bytes) (fresh client_hash id a user : Bytes) (msgs : List Bytes)
    (s : Mappings) (m : Resolutions)
    → resolve sha256
        (get_session (put_mapping sha256 client_hash msgs id a s))
        fresh
        client_hash
        (msgs ++ a ∷ user ∷ [])
        []
        m
      ≡ (
        record {
          session_id = id;
          source = resolved;
          history_hash = hash_bytes sha256 (full_state msgs a);
        },
        record m { resolve_hit = m.resolve_hit + 1 },
      )
unfolding resolve
resolve-put_mapping sha256 fresh client_hash id a user msgs s m =
    rw
      (
        two_messages msgs a user,
        history_hash-next sha256 msgs a user,
        get-put_mapping sha256 client_hash id a msgs s,
      )
      (unfold on_lookup in refl)

-- The mapping of one turn changes nothing for a request of another client, nor for one of the same
-- client whose history is another, if client hashes hold no colon, as hexadecimal text does, and
-- SHA-256 gives bytes and tells the two histories apart.
pub resolve-put_other :
    (sha256 : Bytes → Bytes) (fresh client_hash client_hash' id a session : Bytes)
    (msgs msgs' : List Bytes) (s : Mappings) (m : Resolutions)
    → All (λ b. b ≢ b':') client_hash
    → All (λ b. b ≢ b':') client_hash'
    → ((x : Bytes) → All (λ b. b < 256) (sha256 x))
    → (sha256 (message_array (but_last msgs')) ≡ sha256 (full_state msgs a)
        → message_array (but_last msgs') ≡ full_state msgs a)
    → (client_hash' ≢ client_hash) ⊎ (message_array (but_last msgs') ≢ full_state msgs a)
    → resolve sha256
        (get_session (put_mapping sha256 client_hash msgs id a s))
        fresh
        client_hash'
        msgs'
        session
        m
      ≡ resolve sha256 (get_session s) fresh client_hash' msgs' session m
unfolding resolve history_hash hash_bytes
resolve-put_other sha256 fresh client_hash client_hash' id a session msgs msgs' s m plain plain'
      bytes apart other =
    rw (
      get-put_other sha256 client_hash client_hash' id a (history_hash sha256 (but_last msgs')) msgs
        s
        (other_key plain plain'
          (differs sha256 (message_array (but_last msgs')) (full_state msgs a) bytes apart other)))
