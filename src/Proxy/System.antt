-- ===== src/Proxy/System.antt =====
-- internal/proxy/handler.go with internal/session and internal/store: the whole gateway as a system that
-- takes steps, as far as sessions go.
pub mod Safe
pub mod Apart
use opgate.Base.{
  ℕ, ◌<◌, Bool, true, false, List, [], ◌∷◌, none, some, ◌≡◌, ◌≢◌, refl, sym, ap, subst, ◌∙◌, ◌⊎◌,
  inl, inr, All, length, ltb, Bool-cases, Option-cases, some_injective, if◌then◌else◌,
}
use opgate.Base.Bytes.{Bytes, codes, equal, equal_iff}
use opgate.Canon.Hash.{hash_bytes, full_state, history_hash}
use opgate.Openai.{Json}
use opgate.Store.Keys.{session_key, session_key-injective}
use opgate.Store.Faults.{Fate, answered, answer_lost, not_sent, StoreErrors}
use opgate.Session.{
  Source, resolved, Lookup, store_error, missing, hit, Resolutions, but_last, on_lookup, resolve,
}
use opgate.Session.Continuity.{Mappings, get_session, put_session, put_mapping}
use opgate.Session.Faults.{try_get_session, try_get_session-answered, unanswered}
use opgate.Proxy.{
  Request, client_identity, Participant, chat_messages, Forward, forward, prepare, serve_http,
}
use opgate.Proxy.Isolation.{client_identity-colon}
use opgate.Proxy.Conversation.{no_participant, forward-participant}
use opgate.Proxy.Turn.{serve_body-forward, chat-forward}

-- The credential that a request presents, as the handler takes it: the first header of the three that
-- is there, or the name of those that bring none.
pub data Presents (r : Request) (v : Bytes) : Type 0 where
  by_authorization : r.authorization ≢ [] → v ≡ r.authorization → Presents r v
  by_x_api_key : r.authorization ≡ [] → r.x_api_key ≢ [] → v ≡ r.x_api_key → Presents r v
  by_api_key :
      r.authorization ≡ [] → r.x_api_key ≡ [] → r.api_key ≢ [] → v ≡ r.api_key → Presents r v
  as_anonymous :
      r.authorization ≡ []
      → r.x_api_key ≡ []
      → r.api_key ≡ []
      → v ≡ codes "anonymous"
      → Presents r v

-- A request that took part, with its part of `reqState`.
pub record Call : Type 0 where
  pub request : Request
  pub participant : Participant

-- What the store's server holds, and the requests so far that took part, the last one first.
pub record System : Type 0 where
  pub mappings : Mappings
  pub served : List Call

abbrev pub is_resolved : Source → Bool
is_resolved resolved = true
is_resolved _ = false

-- `c` is among the requests.
pub data Served (c : Call) : List Call → Type 0 where
  latest : {cs : List Call} → Served c (c ∷ cs)
  earlier : {d : Call} {cs : List Call} → Served c cs → Served c (d ∷ cs)

-- A session was brought by a request, or made for one, that presented this credential: it was not
-- looked up for it.
pub data Issued (credential id : Bytes) : List Call → Type 0 where
  here :
      {c : Call} {cs : List Call}
      → Presents c.request credential
      → c.participant.decision.session_id ≡ id
      → is_resolved c.participant.decision.source ≡ false
      → Issued credential id (c ∷ cs)
  there : {c : Call} {cs : List Call} → Issued credential id cs → Issued credential id (c ∷ cs)

unfoldable pub value_of : Bytes → Lookup → Bytes
value_of d store_error = d
value_of d missing = d
value_of d (hit id) = id

-- A key expires.
unfoldable pub expire : Bytes → Mappings → Mappings
unfolding equal
expire key s k = if equal k key then none else s k

module _ (json : Json) (sha256 : Bytes → Bytes) (max : ℕ) where
  -- The systems that can be reached, from a store that holds some mappings. A request is served, with a
  -- store that answers or not; the answer to one that took part is mapped, at any time and as often as
  -- there are answers; a mapping expires.
  pub data Running (held : Mappings) : System → Type 0 where
    start : Running held (record { mappings = held; served = [] })
    serves :
        {s : System} (fate : Fate) (errors : StoreErrors) (fresh : Bytes) (r : Request)
        (m m' : Resolutions) (f : Forward) (p : Participant)
        → Running held s
        → serve_http json sha256
            (λ c h. (try_get_session fate c h s.mappings errors).0)
            fresh
            max
            r
            m
          ≡ (forward f, m')
        → f.participant ≡ some p
        → Running held (record s { served = record { request = r; participant = p } ∷ s.served })
    maps :
        {s : System} (c : Call) (a : Bytes)
        → Running held s
        → Served c s.served
        → Running held (record s {
          mappings =
              put_mapping sha256 c.participant.client_hash c.participant.canon_msgs
                c.participant.decision.session_id a s.mappings;
        })
    expires :
        {s : System} (key : Bytes)
        → Running held s
        → Running held (record s { mappings = expire key s.mappings })

  -- A decision that was looked up was found in the store.
  resolve-origin :
      (lookup : Bytes → Bytes → Lookup) (fresh client_hash session : Bytes) (msgs : List Bytes)
      (m : Resolutions)
      → let dec = (resolve sha256 lookup fresh client_hash msgs session m).0 in
        (is_resolved dec.source ≡ false)
        ⊎ (lookup client_hash (history_hash sha256 (but_last msgs)) ≡ hit dec.session_id)
  unfolding resolve on_lookup
  resolve-origin lookup fresh client_hash (c ∷ cs) msgs m = inl refl
  resolve-origin lookup fresh client_hash [] msgs m = elim (Bool-cases (ltb 1 (length msgs))) [
    | inl e ↦ rw e (asked (lookup client_hash (history_hash sha256 (but_last msgs))) refl)
    | inr e ↦ rw e (inl refl)
  ]
    where
      asked :
          (l : Lookup)
          → lookup client_hash (history_hash sha256 (but_last msgs)) ≡ l
          → let dec = (on_lookup fresh (history_hash sha256 (but_last msgs)) l m).0 in
            (is_resolved dec.source ≡ false)
            ⊎ (lookup client_hash (history_hash sha256 (but_last msgs)) ≡ hit dec.session_id)
      asked store_error e = inl refl
      asked missing e = inl refl
      asked (hit id) e = inr e

  -- The request of a participant, as `prepare` left it.
  prepare-decision :
      (lookup : Bytes → Bytes → Lookup) (fresh : Bytes) (r : Request) (body : Bytes)
      (m : Resolutions) (p : Participant)
      → (prepare json sha256 lookup fresh r body m).0.participant ≡ some p
      → (msgs : List Bytes) × (p.decision
          ≡ (resolve sha256 lookup fresh (client_identity sha256 r) msgs r.session m).0)
  unfolding prepare
  prepare-decision lookup fresh r body m p e = elim (Option-cases (chat_messages json body)) [
    | inl none_there ↦ absurd (no_participant json sha256 (rw (none_there, prepare) at e))
    | inr (msgs, taking) ↦
        (msgs, sym (ap (λ q. q.decision) (some_injective (rw (taking, prepare) at e))))
  ]

  -- A participant of a request that was forwarded: its client, and where its session comes from.
  pub forward-origin :
      (lookup : Bytes → Bytes → Lookup) (fresh : Bytes) (r : Request) (m m' : Resolutions)
      (f : Forward) (p : Participant)
      → serve_http json sha256 lookup fresh max r m ≡ (forward f, m')
      → f.participant ≡ some p
      → (p.client_hash ≡ client_identity sha256 r)
        × ((is_resolved p.decision.source ≡ false)
            ⊎ ((h : Bytes) × (lookup p.client_hash h ≡ hit p.decision.session_id)))
  forward-origin lookup fresh r m m' f p e taking =
      let (b, read, prepared) =
        serve_body-forward json sha256 lookup fresh r _ m m' f
          (chat-forward json sha256 lookup fresh max r m m' f e) in
      let taken : (prepare json sha256 lookup fresh r b m).0.participant ≡ some p =
        ap (λ g. g.participant) prepared ∙ taking in
      let (msgs, decided) = prepare-decision lookup fresh r b m p taken in
      let client = (forward-participant json sha256 lookup fresh max r m m' f p e taking).1 in
      let hash = history_hash sha256 (but_last msgs) in
      (
        client,
        elim (resolve-origin lookup fresh (client_identity sha256 r) r.session msgs m) [
          | inl own ↦ inl (ap (λ d. is_resolved d.source) decided ∙ own)
          | inr looked ↦ inr (
            hash,
            ap (λ c. lookup c hash) client ∙ looked ∙ ap (λ d. hit d.session_id) (sym decided),
          )
        ],
      )

  no_hit : {id : Bytes} → store_error ≢ hit id
  no_hit e = cc

  pub none_served {ℓ} : {P : Type ℓ} {c : Call} → Served c [] → P
  none_served k = elim k [ ]

  -- A lookup that hits found its session in the store.
  pub try_get_session-hit :
      (fate : Fate) (c h id : Bytes) (s : Mappings) (errors : StoreErrors)
      → (try_get_session fate c h s errors).0 ≡ hit id
      → get_session s c h ≡ hit id
  try_get_session-hit answered c h id s errors e =
      ap (λ o. o.0) (sym (try_get_session-answered c h s errors)) ∙ e
  try_get_session-hit answer_lost c h id s errors e =
      absurd (no_hit (ap (λ o. o.0) (sym (unanswered answer_lost c h s errors (λ k. cc))) ∙ e))
  try_get_session-hit not_sent c h id s errors e =
      absurd (no_hit (ap (λ o. o.0) (sym (unanswered not_sent c h s errors (λ k. cc))) ∙ e))
