-- ===== src/Collector/Shutdown/Stop.antt =====
-- internal/collector/collector.go: `Stop` returns, and what it leaves behind.
use opgate.Base.{
  ℕ, zero, suc, ◌+◌, ◌≤◌, true, false, List, [], ◌∷◌, ◌++◌, Option, none, some, ◌≡◌, refl, sym, ap,
  ◌∙◌, ◌⊎◌, Bool-cases, ==_iff, inl, inr, length, ◌==◌, arith,
}
use opgate.Base.Bytes.{Bytes}
use opgate.Collector.Assemble.{assemble}
use opgate.Collector.Delivery.{pages_of, pending, Reach-AllHold, assemble-log}
use opgate.Collector.Drain.{nil_of_length, load}
use opgate.Collector.Pool.{Config, Job, World, Reach}
use opgate.Collector.Shutdown.{
  drain, Phase, Shutdown, rest, stores, returns, to_do, all_pages, IsStaffed, Shutdown-to_do,
  Shutdown-Reach, Shutdown-counts, Shutdown-cancelled, Shutdown-empty,
}

module _ (cfg : Config) where
  -- Behind the cancel, `Stop` returns, however the workers are scheduled: a run has at most as many
  -- steps of workers as there are to do, namely what it takes off them, and as long as a worker has not returned, another
  -- step of a worker can be taken.
  pub Stop-ends :
      {n : ℕ} {p q : Phase} {log : ℕ → Bytes}
      → Shutdown cfg n p q
      → p.cancelled ≡ true
      → length p.world.busy ≤ p.running
      → p.running ≤ cfg.workers
      → Reach cfg p.world log
      → (n + to_do q ≡ to_do p) × ((q.running ≡ 0) ⊎ ((q' : Phase) × Shutdown cfg 1 q q'))
  unfolding IsStaffed
  Stop-ends {n} {p} {q} s c h k r = (Shutdown-to_do cfg s, next q.running q.world.busy refl refl)
    where
      next :
          (running : ℕ) (busy : List Job)
          → q.running ≡ running
          → q.world.busy ≡ busy
          → (q.running ≡ 0) ⊎ ((q' : Phase) × Shutdown cfg 1 q q')
      next zero busy e f = inl e
      next (suc left) (j ∷ js) e f = inr (_, stores [] j js f (rest _))
      next (suc left) [] e f =
          inr (
            _,
            returns left (Shutdown-cancelled cfg s c) e (omega (arith, e, ap length f)) (rest _),
          )

-- `Drain` only returns a world with an empty queue.
queue_of : World → Option World → List Job
queue_of d none = d.queue
queue_of d (some w) = w.queue

drain-empty : (ws : List World) (w : World) → drain ws ≡ some w → w.queue ≡ []
unfolding drain queue_of
drain-empty [] w h = cc
drain-empty (v ∷ ws) w h = elim (Bool-cases (length v.queue == 0)) [
  | inl e ↦
      sym (ap (queue_of v) (rw e at h)) ∙ nil_of_length v.queue ((==_iff (length v.queue) 0).0 e)
  | inr e ↦ drain-empty ws w (rw e at h)
]

module _ (cfg : Config) where
  -- When `Stop` returns, no worker holds a page; the counters of flushed pages have grown by the pages
  -- that were under way, less those left in the queue; and each request waits for as many pages as it has in
  -- the queue.
  pub Stop-leftover :
      {n : ℕ} {p q : Phase} {log : ℕ → Bytes}
      → Shutdown cfg n p q
      → length p.world.busy ≤ p.running
      → p.running ≤ cfg.workers
      → Reach cfg p.world log
      → q.running ≡ 0
      → (q.world.busy ≡ [])
        × (length q.world.queue + q.world.flush_success + q.world.flush_error ≡ all_pages p.world)
        × ((id : ℕ) → (q.world.collectors id).inflight ≡ length (pages_of id q.world.queue))
  unfolding IsStaffed pending all_pages
  Stop-leftover {n} {p} {q} s h k r e =
      let (staffed, reached) = Shutdown-Reach cfg s (h, k) r in
      let idle : q.world.busy ≡ [] = nil_of_length q.world.busy (omega (arith, staffed.0, e)) in
      (
        idle,
        omega (arith, Shutdown-counts cfg s, ap length idle),
        λ id.
            (Reach-AllHold cfg reached id).counts
            ∙ ap (λ b. length (pages_of id (b ++ q.world.queue))) idle,
      )

  -- If `Drain` saw the queue empty, and nothing is written from there on, no page is lost by `Stop`:
  -- when it has returned, no page is under way, and for every request whose cache has not failed and
  -- that no finalize has been through the payload is what was written.
  pub drained-Stop :
      {n : ℕ} {p q : Phase} {log : ℕ → Bytes} (ws : List World) (id : ℕ)
      → drain ws ≡ some p.world
      → Shutdown cfg n p q
      → length p.world.busy ≤ p.running
      → p.running ≤ cfg.workers
      → Reach cfg p.world log
      → q.running ≡ 0
      → (q.world.collectors id).failed ≡ false
      → (q.world.collectors id).finalized ≡ false
      → (load q.world ≡ 0)
        × ((q.world.collectors id).inflight ≡ 0)
        × (assemble (q.world.entries id) (q.world.collectors id).tail ≡ log id)
  unfolding load pages_of IsStaffed
  drained-Stop {n} {p} {q} ws id d s h k r e good live =
      let (idle, _, waits) = Stop-leftover s h k r e in
      let empty : q.world.queue ≡ [] = Shutdown-empty cfg s (drain-empty ws p.world d) in
      let none_left : (q.world.collectors id).inflight ≡ 0 =
        waits id ∙ ap (λ l. length (pages_of id l)) empty in
      (
        omega (arith, ap length idle, ap length empty),
        none_left,
        assemble-log cfg id (Shutdown-Reach cfg s (h, k) r).1 good live none_left,
      )
