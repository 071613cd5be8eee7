-- ===== src/Gateway/Exit/Order.antt =====
-- cmd/ocgate/main.go: what is behind the gateway when `main` has closed the store.
use opgate.Base.{
  ℕ, suc, ◌+◌, ◌≤◌, true, false, Bool-cases, List, ◌∷◌, ◌++◌, [], some, some_injective, ◌≡◌, refl,
  ap, ◌∙◌, subst, length, ◌==◌, ==_iff, length-append, inl, inr, arith,
}
use opgate.Base.Bytes.{Bytes}
use opgate.Collector.Assemble.{assemble}
use opgate.Collector.Delivery.{pages_of, pending, Reach-AllHold, assemble-log}
use opgate.Collector.Drain.{nil_of_length}
use opgate.Collector.Pool.{
  Config, Job, World, new_pool, Reach, start, pool_write, receive, finish_job, end_finalize,
}
use opgate.Collector.Shutdown.{drain}
use opgate.Gateway.Exit.{
  Stage, failed, fails, listening, shutting, draining, waiting, stopping, closing, exited, Life,
  wait_finalize, started, accepts, at, late, with_world, Living, starts, arrives, writes,
  finalizes_at_done, detaches, responds, finalizes, ends, takes, stores, loses, returns, signalled,
  shuts, shuts_late, drains, drains_late, waits, waits_late, cancels, stops, closes,
}

-- What is over at a stage, if no wait has been ended by its deadline.
unfoldable pub Over : Stage → ℕ → ℕ → List Job → Type 0
Over listening s f q = Unit
Over shutting s f q = Unit
Over failed s f q = Unit
Over draining s f q = s ≡ 0
Over waiting s f q = (s ≡ 0) × (q ≡ [])
Over stopping s f q = (s ≡ 0) × (q ≡ []) × (f ≡ 0)
Over closing s f q = (s ≡ 0) × (q ≡ []) × (f ≡ 0)
Over exited s f q = (s ≡ 0) × (q ≡ []) × (f ≡ 0)

-- No worker is left behind `Stop`.
unfoldable pub NoWorker : Stage → ℕ → Type 0
NoWorker closing n = n ≡ 0
NoWorker exited n = n ≡ 0
NoWorker _ n = Unit

pub record IsLiving (cfg : Config) (g : Life) (log : ℕ → Bytes) : Type 0 where
  pub reached : Reach cfg g.pool.world log
  pub staffed : length g.pool.world.busy ≤ g.pool.running
  pub hired : g.pool.running ≤ cfg.workers
  pub over : g.timed_out ≡ false → Over g.stage g.serving g.finalizing g.pool.world.queue
  pub workers : NoWorker g.stage g.pool.running

Over-keeps :
    (s : Stage) {a a' b b' : ℕ} {q q' : List Job}
    → (a ≡ 0 → a' ≡ 0)
    → (a ≡ 0 → q ≡ [] → q' ≡ [])
    → (a ≡ 0 → b ≡ 0 → b' ≡ 0)
    → Over s a b q
    → Over s a' b' q'
unfolding Over
Over-keeps listening f g h o = tt
Over-keeps shutting f g h o = tt
Over-keeps failed f g h o = tt
Over-keeps draining f g h o = f o
Over-keeps waiting f g h o = (f o.0, g o.0 o.1)
Over-keeps stopping f g h (a, q, b) = (f a, g a q, h a b)
Over-keeps closing f g h (a, q, b) = (f a, g a q, h a b)
Over-keeps exited f g h (a, q, b) = (f a, g a q, h a b)

NoWorker-keeps : (s : Stage) {n m : ℕ} → (n ≡ 0 → m ≡ 0) → NoWorker s n → NoWorker s m
unfolding NoWorker
NoWorker-keeps closing f w = f w
NoWorker-keeps exited f w = f w
NoWorker-keeps listening f w = tt
NoWorker-keeps shutting f w = tt
NoWorker-keeps failed f w = tt
NoWorker-keeps draining f w = tt
NoWorker-keeps waiting f w = tt
NoWorker-keeps stopping f w = tt

fewer :
    (before : List Job) (j : Job) (behind busy : List Job) (n : ℕ)
    → busy ≡ before ++ j ∷ behind
    → length busy ≤ n
    → length (before ++ behind) ≤ n
fewer before j behind busy n e h =
    omega (
      arith,
      h,
      ap length e,
      length-append {0} before (j ∷ behind),
      length-append {0} before behind,
    )

none_of_suc : {n m : ℕ} → n ≡ suc m → n ≡ 0 → ⊥
none_of_suc e k = omega (arith, e, k)

drain-empty : (ws : List World) (w : World) → drain ws ≡ some w → w.queue ≡ []
unfolding drain
drain-empty [] w e = cc
drain-empty (v ∷ ws) w e = elim (Bool-cases (length v.queue == 0)) [
  | inl k ↦
      subst (λ x. x.queue ≡ []) (some_injective (rw k at e))
        (nil_of_length v.queue ((==_iff (length v.queue) 0).0 k))
  | inr k ↦ drain-empty ws w (rw k at e)
]

wait_finalize-zero : (gs : List Life) (g : Life) → wait_finalize gs ≡ some g → g.finalizing ≡ 0
unfolding wait_finalize
wait_finalize-zero [] g e = cc
wait_finalize-zero (h ∷ gs) g e = elim (Bool-cases (h.finalizing == 0)) [
  | inl k ↦ subst (λ x. x.finalizing ≡ 0) (some_injective (rw k at e)) ((==_iff h.finalizing 0).0 k)
  | inr k ↦ wait_finalize-zero gs g (rw k at e)
]

module _ (cfg : Config) {g : Life} {log : ℕ → Bytes} (i : IsLiving cfg g log) where
  -- A step of the pool.
  to_world :
      {log' : ℕ → Bytes} (w : World)
      → Reach cfg w log'
      → length w.busy ≤ g.pool.running
      → (g.serving ≡ 0 → g.pool.world.queue ≡ [] → w.queue ≡ [])
      → IsLiving cfg (with_world w g) log'
  unfolding with_world
  to_world w r staffed kept = record {
    reached = r;
    staffed = staffed;
    hired = i.hired;
    over = λ t. Over-keeps g.stage (λ e. e) kept (λ _ e. e) (i.over t);
    workers = i.workers;
  }

  -- A step of the handlers and of their goroutines.
  to_counts :
      (s f : ℕ)
      → (g.timed_out ≡ false → Over g.stage s f g.pool.world.queue)
      → IsLiving cfg (record g { serving = s; finalizing = f }) log
  to_counts s f over = record {
    reached = i.reached;
    staffed = i.staffed;
    hired = i.hired;
    over = over;
    workers = i.workers;
  }

  -- A step of `main`.
  to_stage :
      (s : Stage)
      → (g.timed_out ≡ false → Over s g.serving g.finalizing g.pool.world.queue)
      → NoWorker s g.pool.running
      → IsLiving cfg (at s g) log
  unfolding at
  to_stage s over workers = record {
    reached = i.reached;
    staffed = i.staffed;
    hired = i.hired;
    over = over;
    workers = workers;
  }

  to_late : (s : Stage) → NoWorker s g.pool.running → IsLiving cfg (late s g) log
  unfolding late
  to_late s workers = record {
    reached = i.reached;
    staffed = i.staffed;
    hired = i.hired;
    over = λ t. absurd (cc);
    workers = workers;
  }

  over_at :
      {s : Stage}
      → g.stage ≡ s
      → g.timed_out ≡ false
      → Over s g.serving g.finalizing g.pool.world.queue
  over_at e t = subst (λ s. Over s g.serving g.finalizing g.pool.world.queue) e (i.over t)

  arrival :
      accepts g.stage g.timed_out ≡ true
      → g.timed_out ≡ false
      → Over g.stage (g.serving + 1) g.finalizing g.pool.world.queue
  unfolding accepts Over
  arrival k t = open_at g.stage refl
    where
      open_at : (s : Stage) → g.stage ≡ s → Over s (g.serving + 1) g.finalizing g.pool.world.queue
      open_at listening e = tt
      open_at shutting e = tt
      open_at failed e = tt
      open_at draining e = absurd (cc)
      open_at waiting e = absurd (cc)
      open_at stopping e = absurd (cc)
      open_at closing e = absurd (cc)
      open_at exited e = absurd (cc)

module _ (cfg : Config) where
  pub Living-IsLiving : {g : Life} {log : ℕ → Bytes} → Living cfg g log → IsLiving cfg g log
  unfolding started Over NoWorker pool_write receive finish_job end_finalize new_pool with_world
  Living-IsLiving starts = record {
    reached = start;
    staffed = omega arith;
    hired = omega arith;
    over = λ _. tt;
    workers = tt;
  }
  Living-IsLiving (arrives {g} l k) =
      let i = Living-IsLiving l in to_counts cfg i (g.serving + 1) g.finalizing (arrival cfg i k)
  Living-IsLiving (writes {g} id n p l busy unsealed) =
      let i = Living-IsLiving l in
      to_world cfg i _ (Reach.writes id p i.reached unsealed) i.staffed
        (λ e _. absurd (none_of_suc busy e))
  Living-IsLiving (finalizes_at_done {g} deleted id n l busy) =
      let i = Living-IsLiving l in
      to_world cfg i _ (Reach.finalizes true deleted id i.reached) i.staffed (λ _ e. e)
  Living-IsLiving (detaches {g} n l busy) =
      let i = Living-IsLiving l in
      to_counts cfg i g.serving (g.finalizing + 1) (λ t.
        Over-keeps g.stage (λ e. e) (λ _ e. e) (λ e _. absurd (none_of_suc busy e)) (i.over t))
  Living-IsLiving (responds {g} n l busy) =
      let i = Living-IsLiving l in
      to_counts cfg i n g.finalizing (λ t.
        Over-keeps g.stage (λ e. absurd (none_of_suc busy e)) (λ _ e. e) (λ _ e. e) (i.over t))
  Living-IsLiving (finalizes {g} deleted id n l busy) =
      let i = Living-IsLiving l in
      to_world cfg i _ (Reach.finalizes false deleted id i.reached) i.staffed (λ _ e. e)
  Living-IsLiving (ends {g} n l busy) =
      let i = Living-IsLiving l in
      to_counts cfg i g.serving n (λ t.
        Over-keeps g.stage (λ e. e) (λ _ e. e) (λ _ e. absurd (none_of_suc busy e)) (i.over t))
  Living-IsLiving (takes {g} j queue l e room) =
      let i = Living-IsLiving l in
      to_world cfg i _ (Reach.receives j queue i.reached e (omega (arith, room, i.hired)))
        (omega (arith, room, length-append {0} g.pool.world.busy (j ∷ [])))
        (λ _ k. ground (arith, e, k))
  Living-IsLiving (stores {g} before j behind l e) =
      let i = Living-IsLiving l in
      to_world cfg i _ (Reach.finishes before j behind i.reached e)
        (fewer before j behind g.pool.world.busy g.pool.running e i.staffed) (λ _ k. k)
  Living-IsLiving (loses {g} stored before j behind l e) =
      let i = Living-IsLiving l in
      to_world cfg i _ (Reach.errs stored before j behind i.reached e)
        (fewer before j behind g.pool.world.busy g.pool.running e i.staffed) (λ _ k. k)
  Living-IsLiving (returns {g} n l c e room) =
      let i = Living-IsLiving l in
      record {
        reached = i.reached;
        staffed = omega (arith, e, room);
        hired = omega (arith, e, i.hired);
        over = i.over;
        workers = NoWorker-keeps g.stage (λ k. absurd (none_of_suc e k)) i.workers;
      }
  Living-IsLiving (fails l e) = to_stage cfg (Living-IsLiving l) failed (λ _. tt) tt
  Living-IsLiving (signalled l e) = to_stage cfg (Living-IsLiving l) shutting (λ _. tt) tt
  Living-IsLiving (shuts l e idle) = to_stage cfg (Living-IsLiving l) draining (λ _. idle) tt
  Living-IsLiving (shuts_late l e) = to_late cfg (Living-IsLiving l) draining tt
  Living-IsLiving (drains {g} ws l e d) =
      let i = Living-IsLiving l in
      to_stage cfg i waiting (λ t. (over_at cfg i e t, drain-empty ws g.pool.world d)) tt
  Living-IsLiving (drains_late l e) = to_late cfg (Living-IsLiving l) waiting tt
  Living-IsLiving (waits {g} gs l e d) =
      let i = Living-IsLiving l in
      to_stage cfg i stopping
        (λ t. let o = over_at cfg i e t in (o.0, o.1, wait_finalize-zero gs g d)) tt
  Living-IsLiving (waits_late l e) = to_late cfg (Living-IsLiving l) stopping tt
  Living-IsLiving (cancels {g} l e) =
      let i = Living-IsLiving l in
      record {
        reached = i.reached;
        staffed = i.staffed;
        hired = i.hired;
        over = i.over;
        workers = i.workers;
      }
  Living-IsLiving (stops l e c gone) =
      let i = Living-IsLiving l in to_stage cfg i closing (λ t. over_at cfg i e t) gone
  Living-IsLiving (closes {g} l e) =
      let i = Living-IsLiving l in
      to_stage cfg i exited (λ t. over_at cfg i e t)
        (subst (λ s. NoWorker s g.pool.running) e i.workers)

  -- Whatever has timed out, the store is closed behind every worker: when `main` has closed it, none is
  -- running, and none holds a page.
  pub exited-workers :
      {g : Life} {log : ℕ → Bytes}
      → Living cfg g log
      → g.stage ≡ exited
      → (g.pool.running ≡ 0) × (g.pool.world.busy ≡ [])
  unfolding NoWorker
  exited-workers {g} l e =
      let i = Living-IsLiving l in
      let gone : g.pool.running ≡ 0 = subst (λ s. NoWorker s g.pool.running) e i.workers in
      (gone, nil_of_length g.pool.world.busy (omega (arith, i.staffed, gone)))

  -- If no wait of `main` has been ended by its deadline, then when it has closed the store no handler, no
  -- goroutine and no worker is left that could use it, no page is under way, and for every request
  -- whose cache has not failed and that no finalize has been through the payload is what was written.
  pub exited-Closed :
      {g : Life} {log : ℕ → Bytes} (id : ℕ)
      → Living cfg g log
      → g.stage ≡ exited
      → g.timed_out ≡ false
      → (g.pool.world.collectors id).failed ≡ false
      → (g.pool.world.collectors id).finalized ≡ false
      → (g.serving ≡ 0)
        × (g.finalizing ≡ 0)
        × (g.pool.running ≡ 0)
        × (g.pool.world.busy ≡ [])
        × (g.pool.world.queue ≡ [])
        × ((g.pool.world.collectors id).inflight ≡ 0)
        × (assemble (g.pool.world.entries id) (g.pool.world.collectors id).tail ≡ log id)
  unfolding Over pages_of pending
  exited-Closed {g} {log} id l e t good live =
      let i = Living-IsLiving l in
      let (gone, idle) = exited-workers l e in
      let (served, empty, through) = over_at cfg i e t in
      let none_left : (g.pool.world.collectors id).inflight ≡ 0 =
        (Reach-AllHold cfg i.reached id).counts
        ∙ ap (λ b. length (pages_of id (b ++ g.pool.world.queue))) idle
        ∙ ap (λ q. length (pages_of id q)) empty in
      (
        served,
        through,
        gone,
        idle,
        empty,
        none_left,
        assemble-log cfg id i.reached good live none_left,
      )
