-- ===== src/Proxy/Whole/Moves.antt =====
-- internal/proxy/handler.go with internal/collector, internal/session and internal/store: steps of one
-- response, or of none, and the origins of the mappings.
use opgate.Base.{
  ℕ, Bool, true, false, List, ◌∷◌, [], none, some, some_injective, ◌≡◌, ◌≢◌, refl, sym, ap, ◌∙◌,
  subst, ◌⊎◌, inl, inr, Bool-cases,
}
use opgate.Base.Bytes.{Bytes, equal}
use opgate.Openai.{Json}
use opgate.Collector.{Collector}
use opgate.Collector.Delivery.{by_request}
use opgate.Collector.Finalize.{Outcome, found, failure}
use opgate.Collector.Pool.{Config, World, update, update_self, update_ne}
use opgate.Session.Continuity.{Mappings}
use opgate.Proxy.{Participant}
use opgate.Proxy.System.{expire}
use opgate.Proxy.Response.{Flow, Task, finish}
use opgate.Proxy.Whole.{Stage, over, at_done, ending, plain, is_through, Whole, next_stage, IsTaken}
use opgate.Proxy.Whole.Stands.{Spent, Stands, AllStand}
use opgate.Proxy.Whole.Reached.{Stands-at}
use opgate.Proxy.Whole.Plain.{IsPlain, finish-IsPlain}
use opgate.Proxy.Whole.Sources.{Known, IsSourced, Lets, Known-keeps}
use opgate.Proxy.Whole.Steps.{Lets-IsSourced, touches, plains-update, plains-other}

pub task_left :
    (f : Flow) (t : Task) (rest : List Task)
    → f.tasks ≡ t ∷ rest
    → (f.tasks ≡ []) ⊎ (f.eof ≡ true)
    → f.eof ≡ true
task_left f t rest e (inl gone) = absurd (cc)
task_left f t rest e (inr k) = k

pub next_over : (o : Outcome) (a : Bytes) → o ≡ found a → next_stage o ≡ over
unfolding next_stage
next_over o a e = ap next_stage e

pub next-streamed : (o : Outcome) (f : Flow) → next_stage o ≢ plain f
unfolding next_stage
next-streamed (found a) f e = cc
next-streamed (failure x) f e = cc

pub plain_flow : {f g : Flow} → plain f ≡ plain g → f ≡ g
plain_flow e = cc

module _ (json : Json) (sha256 : Bytes → Bytes) (max : ℕ) (cfg : Config) (held : Mappings) where
  pub new_asked :
      (s : Whole) (log : ℕ → Bytes) (id : ℕ) (p : Participant)
      → IsSourced json sha256 max cfg held s log
      → IsTaken json sha256 max cfg held p
      → (j : ℕ) (r : Participant) → update id (some p) s.asked j ≡ some r
      → IsTaken json sha256 max cfg held r
  new_asked s log id p i t =
      by_request
        (λ j.
          (r : Participant)
          → update id (some p) s.asked j ≡ some r
          → IsTaken json sha256 max cfg held r)
        id
        (λ r e.
          subst (IsTaken json sha256 max cfg held)
            (some_injective (sym (update_self id (some p) s.asked) ∙ e)) t)
        λ j ne r e. i.asked_taken j r (sym (update_ne id j (some p) s.asked ne) ∙ e)

  pub still_asked :
      (s : Whole) (id : ℕ) (p : Participant)
      → s.asked id ≡ none
      → (j : ℕ) (r : Participant) → s.asked j ≡ some r
      → update id (some p) s.asked j ≡ some r
  still_asked s id p n =
      by_request
        (λ j. (r : Participant) → s.asked j ≡ some r → update id (some p) s.asked j ≡ some r) id
        (λ r e. cc) λ j ne r e. update_ne id j (some p) s.asked ne ∙ e

  pub at_done_live :
      (s : Whole) (id : ℕ) (called : Collector)
      → s.stages id ≡ at_done called
      → AllStand s.world s.stages s.troubled
      → (s.world.collectors id).finalized ≡ false
  unfolding Stands
  at_done_live s id called e h =
      (Stands-at json sha256 max cfg s.world s.stages s.troubled id (at_done called) h e).0

  pub ending_left :
      (s : Whole) (id : ℕ) (called : Collector)
      → s.stages id ≡ ending called
      → AllStand s.world s.stages s.troubled
      → ((s.world.collectors id).finalized ≡ false)
        ⊎ Spent (s.world.collectors id) (s.world.entries id) (s.troubled id)
  unfolding Stands
  ending_left s id called e h =
      Stands-at json sha256 max cfg s.world s.stages s.troubled id (ending called) h e

  -- Another world, other mappings, and other pages that have expired.
  pub elsewhere :
      (s : Whole) (m : Mappings) (w : World) (g : ℕ → Bool) (log : ℕ → Bytes)
      → Lets json sha256 max cfg s (record s { mappings = m; world = w; expired = g }) log log
  elsewhere s m w g log = record {
    same_asked = λ id p e. e;
    same_stage = λ id e. refl;
    same_trouble = λ id e. refl;
    same_body = λ id e. refl;
    same_log = λ id e. refl;
  }

  pub to_world-IsSourced :
      (s : Whole) (w : World) (g : ℕ → Bool) (log : ℕ → Bytes)
      → IsSourced json sha256 max cfg held s log
      → IsSourced json sha256 max cfg held (record s { world = w; expired = g }) log
  to_world-IsSourced s w g log i =
      Lets-IsSourced json sha256 max cfg held s _ log log refl i.asked_taken i.plains
        (elsewhere s s.mappings w g log) i

  -- The stage of a streamed response, and the world.
  pub to_stage-IsSourced :
      (s : Whole) (w : World) (log log' : ℕ → Bytes) (id : ℕ) (x : Stage)
      → is_through (s.stages id) ≡ false
      → ((f : Flow) → x ≢ plain f)
      → ((j : ℕ) → j ≢ id → log' j ≡ log j)
      → IsSourced json sha256 max cfg held s log
      → IsSourced json sha256 max cfg held
          (record s { world = w; stages = update id x s.stages })
          log'
  to_stage-IsSourced s w log log' id x n streamed others i =
      Lets-IsSourced json sha256 max cfg held s _ log log' refl i.asked_taken
        (plains-other json sha256 max cfg held s log id x i streamed)
        (touches json sha256 max cfg held s _ log log' id n (λ j p y. y)
          (λ j ne. (update_ne id j _ _ ne, refl, refl, others j ne)))
        i

  -- The stage and the body of a plain response.
  pub to_plain-IsSourced :
      (s : Whole) (log : ℕ → Bytes) (id : ℕ) (f : Flow) (b : Bytes)
      → is_through (s.stages id) ≡ false
      → IsPlain f b
      → IsSourced json sha256 max cfg held s log
      → IsSourced json sha256 max cfg held
          (record s { stages = update id (plain f) s.stages; bodies = update id b s.bodies })
          log
  to_plain-IsSourced s log id f b n h i =
      Lets-IsSourced json sha256 max cfg held s _ log log refl i.asked_taken
        (plains-update json sha256 max cfg held s log id (plain f) b i
          (λ g e. subst (λ y. IsPlain y b) (plain_flow e) h))
        (touches json sha256 max cfg held s _ log log id n (λ j p y. y)
          (λ j ne. (update_ne id j _ _ ne, refl, update_ne id j _ _ ne, refl)))
        i

  pub finished_plains :
      (s : Whole) (id : ℕ) (f : Flow) (log : ℕ → Bytes)
      → IsSourced json sha256 max cfg held s log
      → s.stages id ≡ plain f
      → (j : ℕ) (g : Flow) → update id (plain (finish f)) s.stages j ≡ plain g
      → IsPlain g (s.bodies j)
  finished_plains s id f log i e =
      by_request
        (λ j.
          (g : Flow) → update id (plain (finish f)) s.stages j ≡ plain g → IsPlain g (s.bodies j))
        id
        (λ g k.
          subst (λ y. IsPlain y (s.bodies id))
            (plain_flow (sym (update_self id (plain (finish f)) s.stages) ∙ k))
            (finish-IsPlain f (s.bodies id) (i.plains id f e)))
        λ j ne g k. i.plains j g (sym (update_ne id j (plain (finish f)) s.stages ne) ∙ k)

  pub expire-mapped :
      (s : Whole) (log : ℕ → Bytes) (gone : Bytes)
      → IsSourced json sha256 max cfg held s log
      → (key v : Bytes) → expire gone s.mappings key ≡ some v
      → Known json sha256 max cfg held (record s { mappings = expire gone s.mappings }) log key v
  unfolding expire
  expire-mapped s log gone i key v e = elim (Bool-cases (equal key gone)) [
    | inl same ↦ absurd (none_there (rw same at e))
    | inr other ↦
        Known-keeps json sha256 max cfg held s _ log log key v (elsewhere s _ s.world s.expired log)
          (i.mapped key v (rw other at e))
  ]
    where
      none_there : none ≢ some v
      none_there x = cc
