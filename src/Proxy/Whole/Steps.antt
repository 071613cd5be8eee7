-- ===== src/Proxy/Whole/Steps.antt =====
-- internal/proxy/handler.go with internal/collector, internal/session and internal/store: the steps that
-- keep the origins of the mappings.
use opgate.Base.{
  ℕ, Bool, true, false, List, [], ◌∷◌, some, some_injective, ◌≡◌, ◌≢◌, refl, sym, ap, ◌∙◌, subst,
  ◌⊎◌, inl, inr, Bool-cases, if_case,
}
use opgate.Base.Bytes.{Bytes, equal, equal_iff}
use opgate.Canon.Hash.{full_state, hash_bytes}
use opgate.Openai.{Json}
use opgate.Store.{Pages}
use opgate.Store.Keys.{session_key}
use opgate.Collector.{Collector}
use opgate.Collector.Delivery.{by_request}
use opgate.Collector.Finalize.{Outcome, found, failure}
use opgate.Collector.Pool.{Config, update, update_self, update_ne}
use opgate.Session.Continuity.{Mappings, put_session, put_mapping}
use opgate.Proxy.{Participant}
use opgate.Proxy.Conversation.{put_all}
use opgate.Proxy.Response.{Flow, run_json}
use opgate.Proxy.Whole.{
  Stage, over, plain, answered, is_through, Whole, is_troubled, outcome, put_found, IsTaken,
  through, through_plain,
}
use opgate.Proxy.Whole.Plain.{IsPlain, Tells, run_json-Puts}
use opgate.Proxy.Whole.Worth.{Worth}
use opgate.Proxy.Whole.Sources.{IsStreamAnswer, IsPlainAnswer, Known, IsSourced, Lets, Known-keeps}

module _ (json : Json) (sha256 : Bytes → Bytes) (max : ℕ) (cfg : Config) (held : Mappings) where
  -- A step that touches no mapping.
  pub Lets-IsSourced :
      (s s' : Whole) (log log' : ℕ → Bytes)
      → s'.mappings ≡ s.mappings
      → ((id : ℕ) (p : Participant) → s'.asked id ≡ some p → IsTaken json sha256 max cfg held p)
      → ((id : ℕ) (f : Flow) → s'.stages id ≡ plain f → IsPlain f (s'.bodies id))
      → Lets json sha256 max cfg s s' log log'
      → IsSourced json sha256 max cfg held s log
      → IsSourced json sha256 max cfg held s' log'
  Lets-IsSourced s s' log log' e asked plains h i = record {
    asked_taken = asked;
    mapped = λ key v k.
        Known-keeps json sha256 max cfg held s s' log log' key v h
          (i.mapped key v (ap (λ m. m key) (sym e) ∙ k));
    plains = plains;
  }

  -- A mapping is put on mappings that have their origins.
  put_mapping-mapped :
      (s' : Whole) (log : ℕ → Bytes) (p : Participant) (a : Bytes) (m : Mappings)
      → IsTaken json sha256 max cfg held p
      → (IsStreamAnswer json sha256 max cfg s' log p a ⊎ IsPlainAnswer json sha256 max cfg s' p a)
      → ((key v : Bytes) → m key ≡ some v → Known json sha256 max cfg held s' log key v)
      → (key v : Bytes)
      → put_mapping sha256 p.client_hash p.canon_msgs p.decision.session_id a m key ≡ some v
      → Known json sha256 max cfg held s' log key v
  unfolding put_mapping put_session
  put_mapping-mapped s' log p a m t answered_by h key v e =
      let mine = session_key p.client_hash (hash_bytes sha256 (full_state p.canon_msgs a)) in
      elim (Bool-cases (equal key mine)) [
        | inl same ↦ inl (record {
          participant = p;
          answer = a;
          taken = t;
          matches = record {
            same_key = (equal_iff key mine).0 same;
            same_session = sym (some_injective (rw same at e));
          };
          answered_by = answered_by;
        })
        | inr other ↦ h key v (rw other at e)
      ]

  put_found-mapped :
      (s' : Whole) (log : ℕ → Bytes) (p : Participant) (o : Outcome) (stored : Bool) (m : Mappings)
      → IsTaken json sha256 max cfg held p
      → ((a : Bytes) → o ≡ found a → IsStreamAnswer json sha256 max cfg s' log p a)
      → ((key v : Bytes) → m key ≡ some v → Known json sha256 max cfg held s' log key v)
      → (key v : Bytes) → put_found json sha256 max cfg o stored p m key ≡ some v
      → Known json sha256 max cfg held s' log key v
  unfolding put_found
  put_found-mapped s' log p (failure f) stored m t answered_by h key v e = h key v e
  put_found-mapped s' log p (found a) false m t answered_by h key v e = h key v e
  put_found-mapped s' log p (found a) true m t answered_by h key v e =
      put_mapping-mapped s' log p a m t (inl (answered_by a refl)) h key v e

  put_all-mapped :
      (s' : Whole) (log : ℕ → Bytes) (p : Participant) (b : Bytes) (answers : List Bytes)
      (m : Mappings)
      → IsTaken json sha256 max cfg held p
      → (answers ≡ []) ⊎ ((a : Bytes) × (answers ≡ a ∷ []) × Tells json b a)
      → ((a : Bytes) → Tells json b a → IsPlainAnswer json sha256 max cfg s' p a)
      → ((key v : Bytes) → m key ≡ some v → Known json sha256 max cfg held s' log key v)
      → (key v : Bytes) → put_all sha256 p answers m key ≡ some v
      → Known json sha256 max cfg held s' log key v
  unfolding put_all
  put_all-mapped s' log p b answers m t (inl none_put) answered_by h key v e =
      h key v (rw none_put at e)
  put_all-mapped s' log p b answers m t (inr (a, one, told)) answered_by h key v e =
      put_mapping-mapped s' log p a m t (inr (answered_by a told)) h key v (rw one at e)

  not_through :
      (s : Whole) (id j : ℕ)
      → is_through (s.stages id) ≡ false
      → is_through (s.stages j) ≡ true
      → j ≢ id
  not_through s id j h e k = absurd (distinct (sym e ∙ ap (λ i. is_through (s.stages i)) k ∙ h))
    where
      distinct : true ≢ false
      distinct x = cc

  pub at_stage :
      (s : Whole) (id : ℕ) (x : Stage)
      → s.stages id ≡ x
      → is_through x ≡ false
      → is_through (s.stages id) ≡ false
  at_stage s id x e h = ap is_through e ∙ h

  -- A step of one response that is not through.
  pub touches :
      (s s' : Whole) (log log' : ℕ → Bytes) (id : ℕ)
      → is_through (s.stages id) ≡ false
      → ((j : ℕ) (p : Participant) → s.asked j ≡ some p → s'.asked j ≡ some p)
      → ((j : ℕ)
          → j ≢ id
          → (s'.stages j ≡ s.stages j)
            × (s'.troubled j ≡ s.troubled j)
            × (s'.bodies j ≡ s.bodies j)
            × (log' j ≡ log j))
      → Lets json sha256 max cfg s s' log log'
  touches s s' log log' id h asked others = record {
    same_asked = asked;
    same_stage = λ j e. (others j (not_through s id j h e)).0;
    same_trouble = λ j e. (others j (not_through s id j h e)).1;
    same_body = λ j e. (others j (not_through s id j h e)).2;
    same_log = λ j e. (others j (not_through s id j h e)).3;
  }

  -- A stage that is set.
  pub plains-update :
      (s : Whole) (log : ℕ → Bytes) (id : ℕ) (x : Stage) (b : Bytes)
      → IsSourced json sha256 max cfg held s log
      → ((f : Flow) → x ≡ plain f → IsPlain f b)
      → (j : ℕ) (f : Flow) → update id x s.stages j ≡ plain f
      → IsPlain f (update id b s.bodies j)
  plains-update s log id x b i h =
      by_request
        (λ j. (f : Flow) → update id x s.stages j ≡ plain f → IsPlain f (update id b s.bodies j)) id
        (λ f e.
          subst (IsPlain f) (sym (update_self id b s.bodies))
            (h f (sym (update_self id x s.stages) ∙ e)))
        λ j ne f e.
          subst (IsPlain f) (sym (update_ne id j b s.bodies ne))
            (i.plains j f (sym (update_ne id j x s.stages ne) ∙ e))

  -- A stage that is not that of a plain response.
  pub plains-other :
      (s : Whole) (log : ℕ → Bytes) (id : ℕ) (x : Stage)
      → IsSourced json sha256 max cfg held s log
      → ((f : Flow) → x ≢ plain f)
      → (j : ℕ) (f : Flow) → update id x s.stages j ≡ plain f
      → IsPlain f (s.bodies j)
  plains-other s log id x i h =
      by_request (λ j. (f : Flow) → update id x s.stages j ≡ plain f → IsPlain f (s.bodies j)) id
        (λ f e. absurd (h f (sym (update_self id x s.stages) ∙ e)))
        λ j ne f e. i.plains j f (sym (update_ne id j x s.stages ne) ∙ e)

  -- A `Finalize` that is through leaves all mappings with an origin.
  pub through-IsSourced :
      (is_at_done : Bool) (s : Whole) (log : ℕ → Bytes) (id : ℕ) (p : Participant)
      (called : Collector) (got : Bool) (left : Pages) (deleted stored : Bool) (next : Stage)
      → is_through (s.stages id) ≡ false
      → ((f : Flow) → next ≢ plain f)
      → s.asked id ≡ some p
      → ((a : Bytes)
          → outcome json sha256 max cfg id called got left s ≡ found a
          → (next ≡ over)
            × Worth json sha256 max cfg
                (is_troubled
                  (s.troubled id)
                  called
                  (s.world.collectors id)
                  (s.expired id)
                  got
                  deleted)
                (log id)
                a)
      → IsSourced json sha256 max cfg held s log
      → IsSourced json sha256 max cfg held
          (through json sha256 max cfg is_at_done id p called got left deleted stored next s)
          log
  unfolding through
  through-IsSourced is_at_done s log id p called got left deleted stored next n other q worth i =
      record {
        asked_taken = i.asked_taken;
        mapped =
            put_found-mapped
              (through json sha256 max cfg is_at_done id p called got left deleted stored next s)
              log p (outcome json sha256 max cfg id called got left s) stored s.mappings
              (i.asked_taken id p q)
              (λ a e. record {
                id = id;
                asked = q;
                ended = update_self id next s.stages ∙ (worth a e).0;
                worth =
                    subst (λ b. Worth json sha256 max cfg b (log id) a)
                      (sym (update_self id _ s.troubled)) (worth a e).1;
              })
              (λ key v k.
                Known-keeps json sha256 max cfg held s _ log log key v
                  (touches s _ log log id n (λ j r x. x)
                    (λ j ne. (update_ne id j _ _ ne, update_ne id j _ _ ne, refl, refl)))
                  (i.mapped key v k));
        plains = plains-other s log id next i other;
      }

  -- So does a `finalizeJSON`.
  pub through_plain-IsSourced :
      (s : Whole) (log : ℕ → Bytes) (id : ℕ) (p : Participant) (f : Flow) (stored : Bool)
      → s.stages id ≡ plain f
      → s.asked id ≡ some p
      → f.eof ≡ true
      → IsSourced json sha256 max cfg held s log
      → IsSourced json sha256 max cfg held (through_plain json sha256 max cfg id p f stored s) log
  unfolding through_plain is_through
  through_plain-IsSourced s log id p f stored e q whole i =
      let s' = through_plain json sha256 max cfg id p f stored s in
      let kept : (key v : Bytes)
          → s.mappings key ≡ some v
          → Known json sha256 max cfg held s' log key v =
        λ key v k.
          Known-keeps json sha256 max cfg held s s' log log key v
            (touches s s' log log id (at_stage s id (plain f) e refl) (λ j r x. x)
              (λ j ne. (update_ne id j _ _ ne, refl, refl, refl)))
            (i.mapped key v k) in
      record {
        asked_taken = i.asked_taken;
        mapped = λ key v.
            if_case {A = Mappings}
              (λ m. m key ≡ some v → Known json sha256 max cfg held s' log key v) stored _ _
              (λ _.
                put_all-mapped s' log p (s.bodies id) (run_json json true f).puts s.mappings
                  (i.asked_taken id p q) (run_json-Puts json f (s.bodies id) (i.plains id f e))
                  (λ a t. record {
                    id = id;
                    asked = q;
                    flow = f;
                    ended = update_self id (answered f) s.stages;
                    whole = whole;
                    message = t.message;
                    parsed = t.parsed;
                    told = t.told;
                  })
                  kept key v)
              (λ _. kept key v);
        plains = plains-other s log id (answered f) i (λ g x. cc);
      }
