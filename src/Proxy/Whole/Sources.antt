-- ===== src/Proxy/Whole/Sources.antt =====
-- internal/proxy/handler.go with internal/collector, internal/session and internal/store: what a
-- mapping comes from, and what keeps it so.
use opgate.Base.{ℕ, true, some, ◌≡◌, ap, ◌∙◌, ◌⊎◌, inl, inr}
use opgate.Base.Bytes.{Bytes}
use opgate.Canon.Hash.{full_state, hash_bytes}
use opgate.Openai.{Json}
use opgate.Openai.Accumulator.{ok}
use opgate.Openai.Assistant.{assistant_from_sse, assistant_from_message}
use opgate.Openai.Request.{parse_completion_response}
use opgate.Store.Keys.{session_key}
use opgate.Collector.Pool.{Config}
use opgate.Session.Continuity.{Mappings}
use opgate.Proxy.{Participant}
use opgate.Proxy.Response.{Flow}
use opgate.Proxy.Whole.{over, plain, answered, is_through, Whole, IsTaken}
use opgate.Proxy.Whole.Plain.{IsPlain}
use opgate.Proxy.Whole.Worth.{Worth}

module _ (json : Json) (sha256 : Bytes → Bytes) (max : ℕ) (cfg : Config) where
  -- The mapping of a key was put for an answer of a request that took part.
  pub record Matches (p : Participant) (a key v : Bytes) : Type 0 where
    pub same_key : key ≡ session_key p.client_hash (hash_bytes sha256 (full_state p.canon_msgs a))
    pub same_session : v ≡ p.decision.session_id

  -- The answer was found by a `Finalize` of a streamed response, which is through; it is the answer that
  -- all that was written gives, as a whole stream, unless there was trouble.
  pub record IsStreamAnswer (s : Whole) (log : ℕ → Bytes) (p : Participant) (a : Bytes)
      : Type 0 where
    pub id : ℕ
    pub asked : s.asked id ≡ some p
    pub ended : s.stages id ≡ over
    pub worth : Worth json sha256 max cfg (s.troubled id) (log id) a

  -- The answer is that of a plain response, which was read to its end: what was read of it is a
  -- completion whose message gives the answer.
  pub record IsPlainAnswer (s : Whole) (p : Participant) (a : Bytes) : Type 0 where
    pub id : ℕ
    pub asked : s.asked id ≡ some p
    pub flow : Flow
    pub ended : s.stages id ≡ answered flow
    pub whole : flow.eof ≡ true
    pub message : Bytes
    pub parsed : parse_completion_response json (s.bodies id) ≡ some message
    pub told : assistant_from_message json message ≡ ok a

  pub record IsOrigin (held : Mappings) (s : Whole) (log : ℕ → Bytes) (key v : Bytes) : Type 0 where
    pub participant : Participant
    pub answer : Bytes
    pub taken : IsTaken json sha256 max cfg held participant
    pub matches : Matches participant answer key v
    pub answered_by : IsStreamAnswer s log participant answer ⊎ IsPlainAnswer s participant answer

  -- Where a mapping is from: the store held it from the start, or it has its origin in the run.
  abbrev pub Known : Mappings → Whole → (ℕ → Bytes) → Bytes → Bytes → Type 0
  Known held s log key v = IsOrigin held s log key v ⊎ (held key ≡ some v)

  pub record IsSourced (held : Mappings) (s : Whole) (log : ℕ → Bytes) : Type 0 where
    pub asked_taken :
        (id : ℕ) (p : Participant) → s.asked id ≡ some p → IsTaken json sha256 max cfg held p
    pub mapped : (key v : Bytes) → s.mappings key ≡ some v → Known held s log key v
    pub plains : (id : ℕ) (f : Flow) → s.stages id ≡ plain f → IsPlain f (s.bodies id)

  -- A step that lets all that is through be.
  pub record Lets (s s' : Whole) (log log' : ℕ → Bytes) : Type 0 where
    pub same_asked : (id : ℕ) (p : Participant) → s.asked id ≡ some p → s'.asked id ≡ some p
    pub same_stage : (id : ℕ) → is_through (s.stages id) ≡ true → s'.stages id ≡ s.stages id
    pub same_trouble : (id : ℕ) → is_through (s.stages id) ≡ true → s'.troubled id ≡ s.troubled id
    pub same_body : (id : ℕ) → is_through (s.stages id) ≡ true → s'.bodies id ≡ s.bodies id
    pub same_log : (id : ℕ) → is_through (s.stages id) ≡ true → log' id ≡ log id

  IsStreamAnswer-keeps :
      (s s' : Whole) (log log' : ℕ → Bytes) (p : Participant) (a : Bytes)
      → Lets s s' log log'
      → IsStreamAnswer s log p a
      → IsStreamAnswer s' log' p a
  unfolding is_through
  IsStreamAnswer-keeps s s' log log' p a h x =
      let done : is_through (s.stages x.id) ≡ true = ap is_through x.ended in
      record {
        id = x.id;
        asked = h.same_asked x.id p x.asked;
        ended = h.same_stage x.id done ∙ x.ended;
        worth = elim x.worth [
          | inl bad ↦ inl (h.same_trouble x.id done ∙ bad)
          | inr right ↦ inr (ap (λ b. assistant_from_sse json b) (h.same_log x.id done) ∙ right)
        ];
      }

  IsPlainAnswer-keeps :
      (s s' : Whole) (log log' : ℕ → Bytes) (p : Participant) (a : Bytes)
      → Lets s s' log log'
      → IsPlainAnswer s p a
      → IsPlainAnswer s' p a
  unfolding is_through
  IsPlainAnswer-keeps s s' log log' p a h y =
      let done : is_through (s.stages y.id) ≡ true = ap is_through y.ended in
      record {
        id = y.id;
        asked = h.same_asked y.id p y.asked;
        flow = y.flow;
        ended = h.same_stage y.id done ∙ y.ended;
        whole = y.whole;
        message = y.message;
        parsed = ap (λ b. parse_completion_response json b) (h.same_body y.id done) ∙ y.parsed;
        told = y.told;
      }

  pub Known-keeps :
      (held : Mappings) (s s' : Whole) (log log' : ℕ → Bytes) (key v : Bytes)
      → Lets s s' log log'
      → Known held s log key v
      → Known held s' log' key v
  Known-keeps held s s' log log' key v h (inr k) = inr k
  Known-keeps held s s' log log' key v h (inl o) = inl (record {
    participant = o.participant;
    answer = o.answer;
    taken = o.taken;
    matches = o.matches;
    answered_by = elim o.answered_by [
      | inl x ↦ inl (IsStreamAnswer-keeps s s' log log' o.participant o.answer h x)
      | inr y ↦ inr (IsPlainAnswer-keeps s s' log log' o.participant o.answer h y)
    ];
  })
