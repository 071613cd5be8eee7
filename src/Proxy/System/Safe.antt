-- ===== src/Proxy/System/Safe.antt =====
-- internal/proxy/handler.go with internal/session and internal/store: whose sessions the store and the
-- requests have, by the hashes of clients.
use opgate.Base.{
  ℕ, ◌<◌, true, false, List, [], ◌∷◌, ◌≡◌, ◌≢◌, refl, sym, ap, subst, ◌⊎◌, inl, inr, All,
  Bool-cases,
}
use opgate.Base.Bytes.{Bytes, equal, equal_iff}
use opgate.Canon.Hash.{hash_bytes, full_state}
use opgate.Openai.{Json}
use opgate.Store.Keys.{session_key, session_key-injective}
use opgate.Session.{missing, hit}
use opgate.Session.Continuity.{Mappings, get_session, put_session, put_mapping}
use opgate.Session.Faults.{try_get_session}
use opgate.Proxy.{Participant, client_identity}
use opgate.Proxy.Isolation.{client_identity-colon}
use opgate.Proxy.System.{
  Call, System, is_resolved, Served, latest, earlier, value_of, expire, Running, start, serves,
  maps, expires, forward-origin, none_served, try_get_session-hit,
}

-- A session was brought by a request, or made for one, of a client with this hash.
pub data IssuedTo (client_hash id : Bytes) : List Call → Type 0 where
  issued :
      {c : Call} {cs : List Call}
      → c.participant.client_hash ≡ client_hash
      → c.participant.decision.session_id ≡ id
      → is_resolved c.participant.decision.source ≡ false
      → IssuedTo client_hash id (c ∷ cs)
  issued_before :
      {c : Call} {cs : List Call} → IssuedTo client_hash id cs → IssuedTo client_hash id (c ∷ cs)

module _ (json : Json) (sha256 : Bytes → Bytes) (max : ℕ) (held : Mappings) where
  abbrev pub HeldFor : Bytes → Bytes → Type 0
  HeldFor client_hash id = (h : Bytes) × (get_session held client_hash h ≡ hit id)

  abbrev pub Owned : Bytes → Bytes → List Call → Type 0
  Owned client_hash id cs = IssuedTo client_hash id cs ⊎ HeldFor client_hash id

  -- What holds in every system: what a client's lookup finds was issued to the client, or was held for it
  -- from the start, and so was the session of every request.
  pub record IsSafe (s : System) : Type 0 where
    pub found_issued :
        (c h id : Bytes)
        → All (λ b. b ≢ b':') c
        → get_session s.mappings c h ≡ hit id
        → Owned c id s.served
    pub served_issued :
        (c : Call)
        → Served c s.served
        → Owned c.participant.client_hash c.participant.decision.session_id s.served
    pub served_client :
        (c : Call)
        → Served c s.served
        → c.participant.client_hash ≡ client_identity sha256 c.request

  start-IsSafe : IsSafe (record { mappings = held; served = [] })
  start-IsSafe = record {
    found_issued = λ c h id clean e. inr (h, e);
    served_issued = λ p k. none_served json sha256 max k;
    served_client = λ p k. none_served json sha256 max k;
  }

  clean_client :
      (s : System) (c : Call)
      → ((x : Bytes) → All (λ b. b < 256) (sha256 x))
      → Served c s.served
      → IsSafe s
      → All (λ b. b ≢ b':') c.participant.client_hash
  clean_client s c bytes k safe =
      subst (λ x. All (λ b. b ≢ b':') x) (sym (safe.served_client c k))
        (client_identity-colon sha256 c.request bytes)

  maps-IsSafe :
      (s : System) (d : Call) (a : Bytes)
      → ((x : Bytes) → All (λ b. b < 256) (sha256 x))
      → Served d s.served
      → IsSafe s
      → IsSafe (record s {
        mappings =
            put_mapping sha256 d.participant.client_hash d.participant.canon_msgs
              d.participant.decision.session_id a s.mappings;
      })
  unfolding get_session put_mapping put_session value_of
  maps-IsSafe s d a bytes k safe = record {
    found_issued = λ c h id clean e.
        elim (Bool-cases (equal (session_key c h) (session_key p.client_hash state))) [
          | inl same ↦ mine c h id clean same (rw same at e)
          | inr other ↦ safe.found_issued c h id clean (rw other at e)
        ];
    served_issued = safe.served_issued;
    served_client = safe.served_client;
  }
    where
      p : Participant
      p = d.participant

      state : Bytes
      state = hash_bytes sha256 (full_state p.canon_msgs a)

      mine :
          (c h id : Bytes)
          → All (λ b. b ≢ b':') c
          → equal (session_key c h) (session_key p.client_hash state) ≡ true
          → hit p.decision.session_id ≡ hit id
          → Owned c id s.served
      mine c h id clean same e =
          let client =
            ((session_key-injective c p.client_hash h state [] clean
                (clean_client s d bytes k safe)).0
              ((equal_iff _ _).0 same)).0 in
          subst (λ i. Owned c i s.served) (ap (value_of []) e)
            (subst (λ x. Owned x p.decision.session_id s.served) (sym client)
              (safe.served_issued d k))

  expires-IsSafe :
      (s : System) (key : Bytes) → IsSafe s → IsSafe (record s { mappings = expire key s.mappings })
  unfolding get_session expire
  expires-IsSafe s key safe = record {
    found_issued = λ c h id clean e. elim (Bool-cases (equal (session_key c h) key)) [
      | inl same ↦ absurd (gone (rw same at e))
      | inr other ↦ safe.found_issued c h id clean (rw other at e)
    ];
    served_issued = safe.served_issued;
    served_client = safe.served_client;
  }
    where
      gone : {id : Bytes} → missing ≢ hit id
      gone e = cc

  later : {x id : Bytes} {c : Call} {cs : List Call} → Owned x id cs → Owned x id (c ∷ cs)
  later (inl k) = inl (issued_before k)
  later (inr k) = inr k

  serves-IsSafe :
      (s : System) (c : Call)
      → ((x : Bytes) → All (λ b. b < 256) (sha256 x))
      → c.participant.client_hash ≡ client_identity sha256 c.request
      → (is_resolved c.participant.decision.source ≡ false)
        ⊎ ((h : Bytes) × (get_session s.mappings c.participant.client_hash h
              ≡ hit c.participant.decision.session_id))
      → IsSafe s
      → IsSafe (record s { served = c ∷ s.served })
  serves-IsSafe s c bytes client origin safe = record {
    found_issued = λ x h id k e. later (safe.found_issued x h id k e);
    served_issued = λ d k. owned d k;
    served_client = λ d k. known d k;
  }
    where
      clean : All (λ b. b ≢ b':') c.participant.client_hash
      clean =
          subst (λ x. All (λ b. b ≢ b':') x) (sym client)
            (client_identity-colon sha256 c.request bytes)

      owned :
          (d : Call)
          → Served d (c ∷ s.served)
          → Owned d.participant.client_hash d.participant.decision.session_id (c ∷ s.served)
      owned d latest = elim origin [
        | inl own ↦ inl (issued refl refl own)
        | inr (h, e) ↦ later (safe.found_issued _ h _ clean e)
      ]
      owned d (earlier k) = later (safe.served_issued d k)

      known :
          (d : Call)
          → Served d (c ∷ s.served)
          → d.participant.client_hash ≡ client_identity sha256 d.request
      known d latest = client
      known d (earlier k) = safe.served_client d k

  pub Running-IsSafe :
      {s : System}
      → ((x : Bytes) → All (λ b. b < 256) (sha256 x))
      → Running json sha256 max held s
      → IsSafe s
  Running-IsSafe bytes start = start-IsSafe
  Running-IsSafe bytes (serves {s} fate errors fresh r m m' f p reached e taking) =
      let (of_client, origin) =
        forward-origin json sha256 max (λ c h. (try_get_session fate c h s.mappings errors).0) fresh
          r m m' f p e taking in
      serves-IsSafe s (record { request = r; participant = p }) bytes of_client
        (elim origin [
          | inl own ↦ inl own
          | inr (h, looked) ↦ inr (
            h,
            try_get_session-hit json sha256 max fate p.client_hash h p.decision.session_id
                s.mappings errors looked,
          )
        ])
        (Running-IsSafe bytes reached)
  Running-IsSafe bytes (maps {s} c a reached k) =
      maps-IsSafe s c a bytes k (Running-IsSafe bytes reached)
  Running-IsSafe bytes (expires {s} key reached) =
      expires-IsSafe s key (Running-IsSafe bytes reached)
