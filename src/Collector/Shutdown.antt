-- ===== src/Collector/Shutdown.antt =====
-- internal/collector/collector.go: `Drain` and `Stop`, between which cmd/ocgate/main.go waits for the
-- finalizes. The clock is not modelled: `Drain` sees the worlds at which it wakes up.
pub mod Stop
use opgate.Base.{
  ℕ, zero, suc, ◌+◌, ◌≤◌, ◌<◌, Bool, true, false, List, [], ◌∷◌, ◌++◌, Option, none, some, ◌≡◌,
  refl, sym, ap, ◌∙◌, ◌⊎◌, Bool-cases, ==_iff, inl, inr, length, length-append, ◌==◌, if◌then◌else◌,
  arith,
}
use opgate.Base.Bytes.{Bytes}
use opgate.Collector.Assemble.{assemble}
use opgate.Collector.Delivery.{pages_of, pending, Reach-AllHold, assemble-log}
use opgate.Collector.Drain.{nil_of_length, load, length-receive, length-finish_job}
use opgate.Collector.Pool.{
  Config, Job, World, receive, finish_job, end_finalize, Reach, receives, finishes, errs, finalizes,
}

-- `Drain`: the world at which it finds the queue empty, unless none of those that it sees before the
-- deadline has an empty queue.
unfoldable pub drain : List World → Option World
drain [] = none
drain (w ∷ ws) = if length w.queue == 0 then some w else drain ws

-- The pool with the number of workers that have not returned, and whether its context is cancelled.
pub record Phase : Type 0 where
  pub cancelled : Bool
  pub running : ℕ
  pub world : World

-- The steps of the workers and of the finalizes when no request writes any more, and how many of them
-- are steps of a worker. `Stop` cancels the context; a worker without a page then may return, or still
-- take a page, since `select` chooses any case that is ready.
pub data Shutdown (cfg : Config) : ℕ → Phase → Phase → Type 0 where
  rest : (p : Phase) → Shutdown cfg 0 p p
  takes :
      {n : ℕ} {p q : Phase} (j : Job) (queue : List Job)
      → p.world.queue ≡ j ∷ queue
      → length p.world.busy < p.running
      → Shutdown cfg n (record p { world = receive j queue p.world }) q
      → Shutdown cfg (suc n) p q
  stores :
      {n : ℕ} {p q : Phase} (before : List Job) (j : Job) (behind : List Job)
      → p.world.busy ≡ before ++ j ∷ behind
      → Shutdown cfg n (record p { world = finish_job true true before j behind p.world }) q
      → Shutdown cfg (suc n) p q
  loses :
      {n : ℕ} {p q : Phase} (stored : Bool) (before : List Job) (j : Job) (behind : List Job)
      → p.world.busy ≡ before ++ j ∷ behind
      → Shutdown cfg n (record p { world = finish_job false stored before j behind p.world }) q
      → Shutdown cfg (suc n) p q
  ends_finalize :
      {n : ℕ} {p q : Phase} (at_done deleted : Bool) (id : ℕ)
      → Shutdown cfg n (record p { world = end_finalize at_done deleted id p.world }) q
      → Shutdown cfg n p q
  cancels :
      {n : ℕ} {p q : Phase} → Shutdown cfg n (record p { cancelled = true }) q → Shutdown cfg n p q
  returns :
      {n : ℕ} {p q : Phase} (left : ℕ)
      → p.cancelled ≡ true
      → p.running ≡ suc left
      → length p.world.busy < p.running
      → Shutdown cfg n (record p { running = left }) q
      → Shutdown cfg (suc n) p q

-- What is left to do for the workers: their pages, and to return.
unfoldable pub to_do : Phase → ℕ
unfolding load
to_do p = load p.world + p.running

-- The pages that were handed to the pool: those under way and those that the counters have.
unfoldable pub all_pages : World → ℕ
all_pages w = length w.queue + length w.busy + w.flush_success + w.flush_error

-- No more workers are busy than have not returned.
unfoldable pub IsStaffed : Config → Phase → Type 0
IsStaffed cfg p = (length p.world.busy ≤ p.running) × (p.running ≤ cfg.workers)

load-end_finalize :
    (at_done deleted : Bool) (id : ℕ) (w : World)
    → load (end_finalize at_done deleted id w) ≡ load w
unfolding load end_finalize
load-end_finalize at_done deleted id w = refl

fewer :
    (before : List Job) (j : Job) (behind busy : List Job) (n : ℕ)
    → busy ≡ before ++ j ∷ behind
    → length busy ≤ n
    → length (before ++ behind) ≤ n
fewer before j behind busy n e h =
    omega (
      arith,
      h,
      ap length e,
      length-append {0} before (j ∷ behind),
      length-append {0} before behind,
    )

module _ (cfg : Config) where
  pub Shutdown-to_do : {n : ℕ} {p q : Phase} → Shutdown cfg n p q → n + to_do q ≡ to_do p
  unfolding to_do
  Shutdown-to_do (rest p) = omega arith
  Shutdown-to_do (takes {n} {p} {q} j queue e room s) =
      omega (arith, Shutdown-to_do s, length-receive j queue p.world e)
  Shutdown-to_do (stores {n} {p} {q} before j behind e s) =
      omega (arith, Shutdown-to_do s, length-finish_job true true before j behind p.world e)
  Shutdown-to_do (loses {n} {p} {q} stored before j behind e s) =
      omega (arith, Shutdown-to_do s, length-finish_job false stored before j behind p.world e)
  Shutdown-to_do (ends_finalize {n} {p} {q} at_done deleted id s) =
      Shutdown-to_do s ∙ ap (λ l. l + p.running) (load-end_finalize at_done deleted id p.world)
  Shutdown-to_do (cancels s) = Shutdown-to_do s
  Shutdown-to_do (returns {n} {p} {q} left c e room s) = omega (arith, Shutdown-to_do s, e)

  -- Every step keeps the pool staffed, and the world within those that can be reached.
  pub Shutdown-Reach :
      {n : ℕ} {p q : Phase} {log : ℕ → Bytes}
      → Shutdown cfg n p q
      → IsStaffed cfg p
      → Reach cfg p.world log
      → IsStaffed cfg q × Reach cfg q.world log
  unfolding IsStaffed receive finish_job end_finalize
  Shutdown-Reach (rest p) h r = (h, r)
  Shutdown-Reach (takes {n} {p} {q} j queue e room s) (h, k) r =
      Shutdown-Reach s (omega (arith, room, length-append {0} p.world.busy (j ∷ [])), k)
        (receives j queue r e (omega (arith, room, k)))
  Shutdown-Reach (stores {n} {p} {q} before j behind e s) (h, k) r =
      Shutdown-Reach s (fewer before j behind p.world.busy p.running e h, k)
        (finishes before j behind r e)
  Shutdown-Reach (loses {n} {p} {q} stored before j behind e s) (h, k) r =
      Shutdown-Reach s (fewer before j behind p.world.busy p.running e h, k)
        (errs stored before j behind r e)
  Shutdown-Reach (ends_finalize {n} {p} {q} at_done deleted id s) h r =
      Shutdown-Reach s h (finalizes at_done deleted id r)
  Shutdown-Reach (cancels s) h r = Shutdown-Reach s h r
  Shutdown-Reach (returns {n} {p} {q} left c e room s) (h, k) r =
      Shutdown-Reach s (omega (arith, e, room), omega (arith, e, k)) r

  -- Each page under way is counted once, when a worker is through with it.
  pub Shutdown-counts :
      {n : ℕ} {p q : Phase} → Shutdown cfg n p q → all_pages q.world ≡ all_pages p.world
  unfolding all_pages receive finish_job end_finalize
  Shutdown-counts (rest p) = refl
  Shutdown-counts (takes {n} {p} {q} j queue e room s) =
      omega (arith, Shutdown-counts s, ap length e, length-append {0} p.world.busy (j ∷ []))
  Shutdown-counts (stores {n} {p} {q} before j behind e s) = omega (
    arith,
    Shutdown-counts s,
    ap length e,
    length-append {0} before (j ∷ behind),
    length-append {0} before behind,
  )
  Shutdown-counts (loses {n} {p} {q} stored before j behind e s) = omega (
    arith,
    Shutdown-counts s,
    ap length e,
    length-append {0} before (j ∷ behind),
    length-append {0} before behind,
  )
  Shutdown-counts (ends_finalize at_done deleted id s) = Shutdown-counts s
  Shutdown-counts (cancels s) = Shutdown-counts s
  Shutdown-counts (returns left c e room s) = Shutdown-counts s

  -- The context stays cancelled, and an empty queue stays empty: nothing writes any more.
  pub Shutdown-cancelled :
      {n : ℕ} {p q : Phase} → Shutdown cfg n p q → p.cancelled ≡ true → q.cancelled ≡ true
  Shutdown-cancelled (rest p) h = h
  Shutdown-cancelled (takes j queue e room s) h = Shutdown-cancelled s h
  Shutdown-cancelled (stores before j behind e s) h = Shutdown-cancelled s h
  Shutdown-cancelled (loses stored before j behind e s) h = Shutdown-cancelled s h
  Shutdown-cancelled (ends_finalize at_done deleted id s) h = Shutdown-cancelled s h
  Shutdown-cancelled (cancels s) h = Shutdown-cancelled s refl
  Shutdown-cancelled (returns left c e room s) h = Shutdown-cancelled s h

  pub Shutdown-empty :
      {n : ℕ} {p q : Phase} → Shutdown cfg n p q → p.world.queue ≡ [] → q.world.queue ≡ []
  unfolding finish_job end_finalize
  Shutdown-empty (rest p) h = h
  Shutdown-empty (takes j queue e room s) h = ground (arith, h, e)
  Shutdown-empty (stores before j behind e s) h = Shutdown-empty s h
  Shutdown-empty (loses stored before j behind e s) h = Shutdown-empty s h
  Shutdown-empty (ends_finalize at_done deleted id s) h = Shutdown-empty s h
  Shutdown-empty (cancels s) h = Shutdown-empty s h
  Shutdown-empty (returns left c e room s) h = Shutdown-empty s h
