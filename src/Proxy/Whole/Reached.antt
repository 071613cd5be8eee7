-- ===== src/Proxy/Whole/Reached.antt =====
-- internal/proxy/handler.go with internal/collector, internal/session and internal/store: each state
-- of the system has a world that the pool can reach, and responses that stand.
use opgate.Base.{ℕ, Bool, true, false, ◌≡◌, refl, subst, ◌⊎◌, inl, inr, Bool-cases}
use opgate.Base.Bytes.{Bytes}
use opgate.Openai.{Json}
use opgate.Collector.{Collector, new_collector}
use opgate.Collector.Delivery.{finish_job-inflight, Reach-AllHold}
use opgate.Collector.Finalize.{Outcome, found, failure}
use opgate.Collector.Pool.{Config, World, new_pool, update, receive, end_finalize, Reach}
use opgate.Proxy.Whole.{
  Stage, unasked, reading, closed, at_done, ending, Whole, is_troubled, next_stage, blank, through,
  Serving, start, streams, reads, meets_done, ends_at_done, closes, calls, ends, takes, stores,
  loses, answers, expires, serves, reads_plain, closes_plain, ends_plain, pages_expire,
  through_plain,
}
use opgate.Session.Continuity.{Mappings}
use opgate.Proxy.Whole.Stands.{
  Stands, AllStand, reads-AllStand, meets_done-AllStand, finish_job-AllStand, to_stage,
  ends-AllStand, retry-AllStand,
}
use opgate.Proxy.Whole.Worth.{untroubled}

module _ (json : Json) (sha256 : Bytes → Bytes) (max : ℕ) (cfg : Config) where
  pub Serving-Reach :
      {held : Mappings} {s : Whole} {log : ℕ → Bytes}
      → Serving json sha256 max cfg held s log
      → Reach cfg s.world log
  unfolding blank through through_plain
  Serving-Reach start = Reach.start
  Serving-Reach (streams id p status content_type c v e q k) = Serving-Reach v
  Serving-Reach (reads id chunk v e open_ n) = Reach.writes id chunk (Serving-Reach v) open_
  Serving-Reach (meets_done id chunk v e open_ n) = Reach.writes id chunk (Serving-Reach v) open_
  Serving-Reach (ends_at_done id p called got left deleted stored v e q i) =
      Reach.finalizes true deleted id (Serving-Reach v)
  Serving-Reach (closes id v e) = Serving-Reach v
  Serving-Reach (calls id v e) = Serving-Reach v
  Serving-Reach (ends id p called got left deleted stored v e q i) =
      Reach.finalizes false deleted id (Serving-Reach v)
  Serving-Reach (takes j queue v e room) = Reach.receives j queue (Serving-Reach v) e room
  Serving-Reach (stores before j behind v e) = Reach.finishes before j behind (Serving-Reach v) e
  Serving-Reach (loses kept before j behind v e) =
      Reach.errs kept before j behind (Serving-Reach v) e
  Serving-Reach (serves id fate errors fresh r m m' f p v e n k t) = Serving-Reach v
  Serving-Reach (answers id p status content_type v e q k) = Serving-Reach v
  Serving-Reach (reads_plain id chunk at_eof f v e n) = Serving-Reach v
  Serving-Reach (closes_plain id f v e) = Serving-Reach v
  Serving-Reach (ends_plain id p f rest stored v e q t) = Serving-Reach v
  Serving-Reach (pages_expire id v) = Serving-Reach v
  Serving-Reach (expires key v) = Serving-Reach v

  -- What is left behind a `Finalize` at the sentinel that failed.
  failed_at_done :
      (before : Bool) (called c : Collector) (gone got deleted : Bool)
      → (called.failed ≡ false → c.inflight ≡ 0)
      → (is_troubled before called c gone got deleted ≡ true)
        ⊎ ((deleted ≡ true) × (c.inflight ≡ 0))
  failed_at_done before called c gone got deleted idle =
      elim (Bool-cases (is_troubled before called c gone got deleted)) [
        | inl bad ↦ inl bad
        | inr fine ↦
            let k = untroubled before called c gone got deleted fine in
            inr (k.pages_deleted, idle k.good_called)
      ]

  pub Stands-at :
      (w : World) (g : ℕ → Stage) (t : ℕ → Bool) (id : ℕ) (x : Stage)
      → AllStand w g t
      → g id ≡ x
      → Stands x (w.collectors id) (w.entries id) (t id)
  Stands-at w g t id x h e = subst (λ y. Stands y (w.collectors id) (w.entries id) (t id)) e (h id)

  at_done-AllStand :
      (w : World) (g : ℕ → Stage) (t : ℕ → Bool) (id : ℕ) (called : Collector)
      (gone got deleted : Bool) (o : Outcome)
      → AllStand w g t
      → g id ≡ at_done called
      → (called.failed ≡ false → (w.collectors id).inflight ≡ 0)
      → AllStand
          (end_finalize true deleted id w)
          (update id (next_stage o) g)
          (update id (is_troubled (t id) called (w.collectors id) gone got deleted) t)
  unfolding next_stage Stands
  at_done-AllStand w g t id called gone got deleted (failure f) h e idle =
      retry-AllStand cfg w g t h deleted id _ (Stands-at w g t id (at_done called) h e).1
        (failed_at_done (t id) called (w.collectors id) gone got deleted idle)
  at_done-AllStand w g t id called gone got deleted (found a) h e idle =
      ends-AllStand cfg w g t h true deleted id _

  pub Serving-AllStand :
      {held : Mappings} {s : Whole} {log : ℕ → Bytes}
      → Serving json sha256 max cfg held s log
      → AllStand s.world s.stages s.troubled
  unfolding blank through through_plain Stands new_pool new_collector receive
  Serving-AllStand start = λ id. refl
  Serving-AllStand (streams {s} id p status content_type c v e q k) =
      let h = Serving-AllStand v in
      to_stage cfg s.world s.stages s.troubled h id reading
        (inl (Stands-at s.world s.stages s.troubled id unasked h e))
  Serving-AllStand (reads {s} id chunk v e open_ n) =
      reads-AllStand cfg s.world s.stages s.troubled (Serving-AllStand v) id chunk e open_
  Serving-AllStand (meets_done {s} id chunk v e open_ n) =
      meets_done-AllStand cfg s.world s.stages s.troubled (Serving-AllStand v) id chunk _ e open_ n
  Serving-AllStand (ends_at_done {s} id p called got left deleted stored v e q i) =
      at_done-AllStand s.world s.stages s.troubled id called (s.expired id) got deleted _
        (Serving-AllStand v) e i
  Serving-AllStand (closes {s} id v e) =
      let h = Serving-AllStand v in
      to_stage cfg s.world s.stages s.troubled h id closed
        (Stands-at s.world s.stages s.troubled id reading h e)
  Serving-AllStand (calls {s} id v e) =
      let h = Serving-AllStand v in
      to_stage cfg s.world s.stages s.troubled h id (ending _)
        (Stands-at s.world s.stages s.troubled id closed h e)
  Serving-AllStand (ends {s} id p called got left deleted stored v e q i) =
      ends-AllStand cfg s.world s.stages s.troubled (Serving-AllStand v) false deleted id _
  Serving-AllStand (takes j queue v e room) = Serving-AllStand v
  Serving-AllStand (stores {s} {log} before j behind v e) =
      finish_job-AllStand cfg s.world s.stages s.troubled (Serving-AllStand v) true true before j
        behind
        (finish_job-inflight before j behind s.world log e (Reach-AllHold cfg (Serving-Reach v)))
  Serving-AllStand (loses {s} {log} kept before j behind v e) =
      finish_job-AllStand cfg s.world s.stages s.troubled (Serving-AllStand v) false kept before j
        behind
        (finish_job-inflight before j behind s.world log e (Reach-AllHold cfg (Serving-Reach v)))
  Serving-AllStand (serves id fate errors fresh r m m' f p v e n k t) = Serving-AllStand v
  Serving-AllStand (answers {s} id p status content_type v e q k) =
      to_stage cfg s.world s.stages s.troubled (Serving-AllStand v) id _ tt
  Serving-AllStand (reads_plain {s} id chunk at_eof f v e n) =
      to_stage cfg s.world s.stages s.troubled (Serving-AllStand v) id _ tt
  Serving-AllStand (closes_plain {s} id f v e) =
      to_stage cfg s.world s.stages s.troubled (Serving-AllStand v) id _ tt
  Serving-AllStand (ends_plain {s} id p f rest stored v e q t) =
      to_stage cfg s.world s.stages s.troubled (Serving-AllStand v) id _ tt
  Serving-AllStand (pages_expire id v) = Serving-AllStand v
  Serving-AllStand (expires key v) = Serving-AllStand v
