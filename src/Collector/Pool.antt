-- ===== src/Collector/Pool.antt =====
-- internal/collector/collector.go: the pool that the collectors of all requests share, as a world
-- that takes steps. A request is a number here: it stands for the request ID (a fresh UUID) and for
-- the pointer to its collector.
use opgate.Base.{
  ℕ, ◌+◌, ◌<◌, Bool, true, false, List, [], ◌∷◌, ◌++◌, Option, none, some, ◌≡◌, ◌≢◌, arith, length,
  leb, ◌==◌, if◌then◌else◌,
}
use opgate.Base.Bytes.{Bytes}
use opgate.Store.{Page, Pages, put_page}
use opgate.Collector.{Collector, new_collector, fail, write, drop_tail, page_done}

-- `Config`, and the number of workers of `Start`.
pub record Config : Type 0 where
  pub page_size : ℕ
  pub max_pending_pages : ℕ
  pub workers : ℕ

-- `pageJob`
pub record Job : Type 0 where
  pub owner : ℕ
  pub page : Page

-- `busy` holds the jobs that a worker has received and not yet finished; the last two are the counters
-- `PageFlushSuccess` and `PageFlushError` of `Metrics`.
pub record World : Type 0 where
  pub queue : List Job
  pub busy : List Job
  pub collectors : ℕ → Collector
  pub entries : ℕ → Pages
  pub flush_success : ℕ
  pub flush_error : ℕ

unfoldable pub update {ℓ} : {A : Type ℓ} → ℕ → A → (ℕ → A) → ℕ → A
update id v f j = if j == id then v else f j

pub update_self {ℓ} : {A : Type ℓ} (id : ℕ) (v : A) (f : ℕ → A) → update id v f id ≡ v
unfolding update
update_self id v f = ground arith

pub update_ne {ℓ} : {A : Type ℓ} (id j : ℕ) (v : A) (f : ℕ → A) → j ≢ id → update id v f j ≡ f j
unfolding update
update_ne id j v f h = ground arith

-- `NewPool` and `Start`, with a `NewCollector` for each request to come.
unfoldable pub new_pool : Config → World
unfolding new_collector
new_pool cfg = record {
  queue = [];
  busy = [];
  collectors = λ _. new_collector cfg.page_size true;
  entries = λ _. [];
  flush_success = 0;
  flush_error = 0;
}

abbrev pub enqueue : ℕ → Option Page → List Job → List Job
enqueue id none q = q
enqueue id (some page) q = q ++ record { owner = id; page = page } ∷ []

-- Whether the send of `submit` would block.
abbrev pub is_full : Config → World → Bool
is_full cfg w = leb cfg.max_pending_pages (length w.queue)

-- A `Write` of one request, up to the call of `onDone`.
unfoldable pub pool_write : Config → ℕ → Bytes → World → World
pool_write cfg id p w =
    let r = write (is_full cfg w) p (w.collectors id) in
    record w { queue = enqueue id r.1 w.queue; collectors = update id r.0 w.collectors }

-- A worker receives the first job of the queue.
unfoldable pub receive : Job → List Job → World → World
receive j rest w = record w { queue = rest; busy = w.busy ++ j ∷ [] }

-- A worker has the result of `PutPage`. On an error the page may be in the store or not.
unfoldable pub finish_job : Bool → Bool → List Job → Job → List Job → World → World
unfolding page_done
finish_job ok stored before j behind w = record w {
  busy = before ++ behind;
  collectors = update j.owner (page_done ok (w.collectors j.owner)) w.collectors;
  entries =
      if stored
      then update j.owner (put_page j.page.0 j.page.1 (w.entries j.owner)) w.entries
      else w.entries;
  flush_success = if ok then w.flush_success + 1 else w.flush_success;
  flush_error = if ok then w.flush_error else w.flush_error + 1;
}

-- A `Finalize` of a request has been through, and has deleted its entry or not: it does not get that
-- far on an error, and goes on if the store does not delete. One at the sentinel also ends a `Write`,
-- which drops the tail.
unfoldable pub end_finalize : Bool → Bool → ℕ → World → World
unfolding drop_tail
end_finalize at_done deleted id w = record w {
  collectors =
      update id
        (if at_done
          then drop_tail (w.collectors id)
          else record (w.collectors id) { finalized = true })
        w.collectors;
  entries = if deleted then update id [] w.entries else w.entries;
}

-- `Abort`
unfoldable pub abort : ℕ → World → World
unfolding fail
abort id w = record w {
  collectors = update id (fail (w.collectors id)) w.collectors;
  entries = update id [] w.entries;
}

-- The worlds that can be reached, with the bytes that each request has written until it was sealed.
pub data Reach (cfg : Config) : World → (ℕ → Bytes) → Type 0 where
  start : Reach cfg (new_pool cfg) (λ _. [])
  writes :
      {w : World} {log : ℕ → Bytes} (id : ℕ) (p : Bytes)
      → Reach cfg w log
      → (w.collectors id).sealed ≡ false
      → Reach cfg (pool_write cfg id p w) (update id (log id ++ p) log)
  receives :
      {w : World} {log : ℕ → Bytes} (j : Job) (rest : List Job)
      → Reach cfg w log
      → w.queue ≡ j ∷ rest
      → length w.busy < cfg.workers
      → Reach cfg (receive j rest w) log
  finishes :
      {w : World} {log : ℕ → Bytes} (before : List Job) (j : Job) (behind : List Job)
      → Reach cfg w log
      → w.busy ≡ before ++ j ∷ behind
      → Reach cfg (finish_job true true before j behind w) log
  errs :
      {w : World} {log : ℕ → Bytes} (stored : Bool) (before : List Job) (j : Job)
      (behind : List Job)
      → Reach cfg w log
      → w.busy ≡ before ++ j ∷ behind
      → Reach cfg (finish_job false stored before j behind w) log
  finalizes :
      {w : World} {log : ℕ → Bytes} (at_done deleted : Bool) (id : ℕ)
      → Reach cfg w log
      → Reach cfg (end_finalize at_done deleted id w) log
  aborts : {w : World} {log : ℕ → Bytes} (id : ℕ) → Reach cfg w log → Reach cfg (abort id w) log
