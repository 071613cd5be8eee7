-- ===== src/Proxy/Conversation.antt =====
-- internal/proxy/handler.go: two turns of a conversation through the whole gateway. A request is
-- forwarded, its response is read, the answer is mapped, and the next request is looked up.
use opgate.Base.{
  ℕ, ◌+◌, ◌≤◌, true, false, List, [], ◌∷◌, ◌++◌, Option, none, some, ◌≡◌, ◌≢◌, sym, ap, subst, ◌∙◌,
  length, ltb, concat, Option-cases, some_injective, inl, inr,
}
use opgate.Base.Bytes.{Bytes, codes, has_prefix}
use opgate.Openai.{Json}
use opgate.Openai.Request.{parse_completion_response}
use opgate.Openai.Accumulator.{ok}
use opgate.Openai.Assistant.{assistant_from_message}
use opgate.Session.{Lookup, Resolutions, resolve}
use opgate.Session.Continuity.{Mappings, get_session, put_mapping}
use opgate.Proxy.{
  Request, client_identity, complete, read_body, Participant, chat_messages, Action, Forward,
  forward, prepare, is_chat, serve_http,
}
use opgate.Proxy.Response.{
  new_flow, contains, modify_response, run_json, json_read, json_buffer_limit,
}
use opgate.Proxy.Buffered.{json_reads, json_read-put_mapping}
use opgate.Proxy.Turn.{serve_body-forward, chat-forward, serve_http-next_turn}

-- The session that an action goes upstream with.
abbrev pub session_of : Action → Option Bytes
session_of (forward f) = some f.session
session_of _ = none

-- What the store holds behind the calls of `putMapping` of a response, on a store that takes them.
unfoldable pub put_all : (Bytes → Bytes) → Participant → List Bytes → Mappings → Mappings
unfolding put_mapping
put_all sha256 p [] s = s
put_all sha256 p (a ∷ answers) s =
    put_all sha256 p answers
      (put_mapping sha256 p.client_hash p.canon_msgs p.decision.session_id a s)

module _ (json : Json) (sha256 : Bytes → Bytes) where
  -- A request that continues another behind its answer `a`: a chat request of the same client, whose
  -- body is read, without a session of its own, with the messages of the other, the answer, and one
  -- more message.
  pub record Continues (max : ℕ) (q : Request) (p : Participant) (a user : Bytes) (r : Request)
      : Type 0 where
    pub chat : is_chat r ≡ true
    pub whole : read_body r.body r.broken max ≡ complete r.body
    pub same : client_identity sha256 r ≡ client_identity sha256 q
    pub none_own : r.session ≡ []
    pub messages : chat_messages json r.body ≡ some (p.canon_msgs ++ a ∷ user ∷ [])

  pub no_participant : {p : Participant} → none ≢ some p
  no_participant e = cc

  some_participant :
      (q : Request) (lookup : Bytes → Bytes → Lookup) (fresh : Bytes) (msgs : List Bytes)
      (m : Resolutions) (p : Participant)
      → let dec = (resolve sha256 lookup fresh (client_identity sha256 q) msgs q.session m).0 in
        some (record { client_hash = client_identity sha256 q; canon_msgs = msgs; decision = dec })
          ≡ some p
        → (dec.session_id ≡ p.decision.session_id) × (p.client_hash ≡ client_identity sha256 q)
  some_participant q lookup fresh msgs m p e = (
    ap (λ o. o.decision.session_id) (some_injective e),
    sym (ap (λ o. o.client_hash) (some_injective e)),
  )

  prepare-participant :
      (lookup : Bytes → Bytes → Lookup) (fresh : Bytes) (q : Request) (body : Bytes)
      (m : Resolutions) (p : Participant)
      → (prepare json sha256 lookup fresh q body m).0.participant ≡ some p
      → ((prepare json sha256 lookup fresh q body m).0.session ≡ p.decision.session_id)
        × (p.client_hash ≡ client_identity sha256 q)
  unfolding prepare
  prepare-participant lookup fresh q body m p e = elim (Option-cases (chat_messages json body)) [
    | inl none_there ↦ absurd (no_participant (rw (none_there, prepare) at e))
    | inr (msgs, there) ↦
        rw (there, prepare) (some_participant q lookup fresh msgs m p (rw (there, prepare) at e))
  ]

  pub forward-participant :
      (lookup : Bytes → Bytes → Lookup) (fresh : Bytes) (max : ℕ) (q : Request) (m m' : Resolutions)
      (f : Forward) (p : Participant)
      → serve_http json sha256 lookup fresh max q m ≡ (forward f, m')
      → f.participant ≡ some p
      → (f.session ≡ p.decision.session_id) × (p.client_hash ≡ client_identity sha256 q)
  forward-participant lookup fresh max q m m' f p e h =
      let (b, read, prepared) =
        serve_body-forward json sha256 lookup fresh q _ m m' f
          (chat-forward json sha256 lookup fresh max q m m' f e) in
      subst (λ g. (g.session ≡ p.decision.session_id) × (p.client_hash ≡ client_identity sha256 q))
        prepared (prepare-participant lookup fresh q b m p (ap (λ g. g.participant) prepared ∙ h))

  -- The next turn behind the calls of `putMapping` of a response.
  pub next_session :
      (lookup : Bytes → Bytes → Lookup) (fresh fresh' : Bytes) (max : ℕ) (q r : Request)
      (m m' n : Resolutions) (f : Forward) (p : Participant) (a user : Bytes) (s : Mappings)
      (puts : List Bytes)
      → serve_http json sha256 lookup fresh max q m ≡ (forward f, m')
      → f.participant ≡ some p
      → puts ≡ a ∷ []
      → Continues max q p a user r
      → session_of (serve_http json sha256 (get_session (put_all sha256 p puts s)) fresh' max r n).0
        ≡ some f.session
  unfolding put_all
  next_session lookup fresh fresh' max q r m m' n f p a user s puts e h put c =
      let (session, client) = forward-participant lookup fresh max q m m' f p e h in
      ap
        (λ l.
          session_of (serve_http json sha256 (get_session (put_all sha256 p l s)) fresh' max r n).0)
        put
      ∙ ap (λ o. session_of o.0)
          (serve_http-next_turn json sha256 fresh' max p a user s r n c.chat c.whole
            (c.same ∙ sym client) c.none_own c.messages)
      ∙ ap some (sym session)

  -- Two turns with a plain response. A chat request `q` was forwarded with a session, and takes part.
  -- Its response is plain and read in any chunks within the buffer's limit; the goroutine at its end
  -- finds the answer `a` in it, and the store takes the mapping. Then every request that continues
  -- `q` behind the answer is forwarded with the same session, whatever fresh session there was.
  pub plain_conversation :
      (lookup : Bytes → Bytes → Lookup) (fresh fresh' : Bytes) (max : ℕ) (q r : Request)
      (m m' n : Resolutions) (f : Forward) (p : Participant) (a user : Bytes) (s : Mappings)
      (page_size status : ℕ) (content_type : Bytes) (chunks : List Bytes) (last message : Bytes)
      → serve_http json sha256 lookup fresh max q m ≡ (forward f, m')
      → f.participant ≡ some p
      → ltb status 200 ≡ false
      → ltb 299 status ≡ false
      → has_prefix content_type (codes "text/event-stream") ≡ false
      → contains content_type (codes "json") ≡ true
      → length (concat chunks) + length last ≤ json_buffer_limit
      → parse_completion_response json (concat chunks ++ last) ≡ some message
      → assistant_from_message json message ≡ ok a
      → Continues max q p a user r
      → let flow = run_json json true (
          json_read last true
            (json_reads chunks (modify_response page_size true status content_type new_flow))) in
        session_of
          (serve_http json sha256 (get_session (put_all sha256 p flow.puts s)) fresh' max r n).0
        ≡ some f.session
  plain_conversation lookup fresh fresh' max q r m m' n f p a user s page_size status content_type
        chunks last message e h low high plain is_json small parsed built c =
      next_session lookup fresh fresh' max q r m m' n f p a user s _ e h
        (json_read-put_mapping json page_size status content_type chunks last message a true low
          high plain is_json small parsed built).1
        c
