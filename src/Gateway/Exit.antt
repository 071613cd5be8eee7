-- ===== src/Gateway/Exit.antt =====
-- cmd/ocgate/main.go: the life of the gateway from the start of its pool to the end of `main`, with
-- `WaitFinalize` of internal/proxy/handler.go. Of net/http, `Shutdown` returns without an error only
-- when no handler is running and no request can come any more. That leaves out hijacked connections, as
-- of a protocol upgrade, for which net/http does not wait: no such handler is in `serving`.
pub mod Order
use opgate.Base.{
  ℕ, suc, ◌+◌, ◌<◌, Bool, true, false, List, ◌∷◌, ◌++◌, [], Option, none, some, ◌≡◌, length, ◌==◌,
  if◌then◌else◌,
}
use opgate.Base.Bytes.{Bytes}
use opgate.Collector.Pool.{
  Config, Job, World, new_pool, update, pool_write, receive, finish_job, end_finalize,
}
use opgate.Collector.Shutdown.{drain, Phase}

-- Where `main` is: it waits for a signal, then for `Shutdown` of the server, `Drain`, `WaitFinalize`
-- and `Stop`, closes the store, and ends; or the listener fails, and it ends at once.
pub data Stage : Type 0 where
  listening shutting draining waiting stopping closing exited failed : Stage

-- `serving` handlers are running, and `finalizing` is the count of `finalizeWG`. `timed_out` says
-- whether some wait has been ended by its deadline.
pub record Life : Type 0 where
  pub stage : Stage
  pub timed_out : Bool
  pub serving : ℕ
  pub finalizing : ℕ
  pub pool : Phase

-- `WaitFinalize`: the state at which it finds no goroutine, unless there are some in all of those that
-- it sees before the deadline.
unfoldable pub wait_finalize : List Life → Option Life
wait_finalize [] = none
wait_finalize (g ∷ gs) = if g.finalizing == 0 then some g else wait_finalize gs

-- The start of the pool, without a request.
unfoldable pub started : Config → Life
started cfg = record {
  stage = listening;
  timed_out = false;
  serving = 0;
  finalizing = 0;
  pool = record { cancelled = false; running = cfg.workers; world = new_pool cfg };
}

-- A request can come until `Shutdown` of the server has returned without an error.
unfoldable pub accepts : Stage → Bool → Bool
accepts listening _ = true
accepts shutting _ = true
accepts _ timed_out = timed_out

unfoldable pub at : Stage → Life → Life
at s g = record g { stage = s }

-- A wait ended by its deadline.
unfoldable pub late : Stage → Life → Life
late s g = record g { stage = s; timed_out = true }

-- The pool in another world.
unfoldable pub with_world : World → Life → Life
with_world w g = record g { pool = record g.pool { world = w } }

-- The states that the gateway can reach, with the bytes that each request has written until it was
-- sealed: the steps of the handlers, of the goroutines that they detach, of the workers, and of
-- `main`.
pub data Living (cfg : Config) : Life → (ℕ → Bytes) → Type 0 where
  starts : Living cfg (started cfg) (λ _. [])
  arrives :
      {g : Life} {log : ℕ → Bytes}
      → Living cfg g log
      → accepts g.stage g.timed_out ≡ true
      → Living cfg (record g { serving = g.serving + 1 }) log
  writes :
      {g : Life} {log : ℕ → Bytes} (id n : ℕ) (p : Bytes)
      → Living cfg g log
      → g.serving ≡ suc n
      → (g.pool.world.collectors id).sealed ≡ false
      → Living cfg (with_world (pool_write cfg id p g.pool.world) g) (update id (log id ++ p) log)
  finalizes_at_done :
      {g : Life} {log : ℕ → Bytes} (deleted : Bool) (id n : ℕ)
      → Living cfg g log
      → g.serving ≡ suc n
      → Living cfg (with_world (end_finalize true deleted id g.pool.world) g) log
  detaches :
      {g : Life} {log : ℕ → Bytes} (n : ℕ)
      → Living cfg g log
      → g.serving ≡ suc n
      → Living cfg (record g { finalizing = g.finalizing + 1 }) log
  responds :
      {g : Life} {log : ℕ → Bytes} (n : ℕ)
      → Living cfg g log
      → g.serving ≡ suc n
      → Living cfg (record g { serving = n }) log
  finalizes :
      {g : Life} {log : ℕ → Bytes} (deleted : Bool) (id n : ℕ)
      → Living cfg g log
      → g.finalizing ≡ suc n
      → Living cfg (with_world (end_finalize false deleted id g.pool.world) g) log
  ends :
      {g : Life} {log : ℕ → Bytes} (n : ℕ)
      → Living cfg g log
      → g.finalizing ≡ suc n
      → Living cfg (record g { finalizing = n }) log
  takes :
      {g : Life} {log : ℕ → Bytes} (j : Job) (queue : List Job)
      → Living cfg g log
      → g.pool.world.queue ≡ j ∷ queue
      → length g.pool.world.busy < g.pool.running
      → Living cfg (with_world (receive j queue g.pool.world) g) log
  stores :
      {g : Life} {log : ℕ → Bytes} (before : List Job) (j : Job) (behind : List Job)
      → Living cfg g log
      → g.pool.world.busy ≡ before ++ j ∷ behind
      → Living cfg (with_world (finish_job true true before j behind g.pool.world) g) log
  loses :
      {g : Life} {log : ℕ → Bytes} (stored : Bool) (before : List Job) (j : Job) (behind : List Job)
      → Living cfg g log
      → g.pool.world.busy ≡ before ++ j ∷ behind
      → Living cfg (with_world (finish_job false stored before j behind g.pool.world) g) log
  returns :
      {g : Life} {log : ℕ → Bytes} (n : ℕ)
      → Living cfg g log
      → g.pool.cancelled ≡ true
      → g.pool.running ≡ suc n
      → length g.pool.world.busy < g.pool.running
      → Living cfg (record g { pool = record g.pool { running = n } }) log
  fails :
      {g : Life} {log : ℕ → Bytes}
      → Living cfg g log
      → g.stage ≡ listening
      → Living cfg (at failed g) log
  signalled :
      {g : Life} {log : ℕ → Bytes}
      → Living cfg g log
      → g.stage ≡ listening
      → Living cfg (at shutting g) log
  shuts :
      {g : Life} {log : ℕ → Bytes}
      → Living cfg g log
      → g.stage ≡ shutting
      → g.serving ≡ 0
      → Living cfg (at draining g) log
  shuts_late :
      {g : Life} {log : ℕ → Bytes}
      → Living cfg g log
      → g.stage ≡ shutting
      → Living cfg (late draining g) log
  drains :
      {g : Life} {log : ℕ → Bytes} (ws : List World)
      → Living cfg g log
      → g.stage ≡ draining
      → drain ws ≡ some g.pool.world
      → Living cfg (at waiting g) log
  drains_late :
      {g : Life} {log : ℕ → Bytes}
      → Living cfg g log
      → g.stage ≡ draining
      → Living cfg (late waiting g) log
  waits :
      {g : Life} {log : ℕ → Bytes} (gs : List Life)
      → Living cfg g log
      → g.stage ≡ waiting
      → wait_finalize gs ≡ some g
      → Living cfg (at stopping g) log
  waits_late :
      {g : Life} {log : ℕ → Bytes}
      → Living cfg g log
      → g.stage ≡ waiting
      → Living cfg (late stopping g) log
  cancels :
      {g : Life} {log : ℕ → Bytes}
      → Living cfg g log
      → g.stage ≡ stopping
      → Living cfg (record g { pool = record g.pool { cancelled = true } }) log
  stops :
      {g : Life} {log : ℕ → Bytes}
      → Living cfg g log
      → g.stage ≡ stopping
      → g.pool.cancelled ≡ true
      → g.pool.running ≡ 0
      → Living cfg (at closing g) log
  closes :
      {g : Life} {log : ℕ → Bytes}
      → Living cfg g log
      → g.stage ≡ closing
      → Living cfg (at exited g) log
