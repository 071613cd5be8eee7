-- ===== src/Collector/Bounds.antt =====
-- internal/collector/collector.go: how much the pool and its collectors hold in memory.
use opgate.Base.{
  ℕ, ◌+◌, ◌≤◌, ◌<◌, Bool, true, false, ◌||◌, List, [], ◌∷◌, ◌++◌, Option, none, some, ◌≡◌, refl, ap,
  length, length-append, if◌then◌else◌, arith, Bool-cases, inl, inr,
}
use opgate.Base.Bytes.{Bytes}
use opgate.Store.{Page}
use opgate.Collector.{
  Collector, new_collector, fail, submit, scan_cap, cut_page, watch_done, append, write, drop_tail,
  page_done,
}
use opgate.Collector.Delivery.{by_request}
use opgate.Collector.Pool.{
  Config, Job, World, update, update_self, update_ne, new_pool, enqueue, is_full, pool_write,
  receive, finish_job, end_finalize, abort, Reach, start, writes, receives, finishes, errs,
  finalizes, aborts,
}

-- A collector holds less than a page in its tail, and its scan buffer is within the cap.
pub record IsSmall (page_size : ℕ) (c : Collector) : Type 0 where
  pub same_size : c.page_size ≡ page_size
  pub small_tail : length c.tail < page_size
  pub small_scan : c.sealed ≡ false → length c.scan_buf ≤ scan_cap

module _ (page_size : ℕ) (pos_size : 0 < page_size) where
  watch_done-IsSmall :
      (p : Bytes) (c : Collector) → IsSmall page_size c → IsSmall page_size (watch_done p c).0
  unfolding watch_done
  watch_done-IsSmall p c h = ground arith

  cut_page-IsSmall :
      (full : Bool) (c : Collector)
      → c.page_size ≡ page_size
      → (c.sealed ≡ false → length c.scan_buf ≤ scan_cap)
      → IsSmall page_size (cut_page full c).0
  unfolding cut_page submit fail
  cut_page-IsSmall true c h k = ground arith
  cut_page-IsSmall false c h k = ground arith

  write-IsSmall :
      (full : Bool) (p : Bytes) (c : Collector)
      → IsSmall page_size c
      → IsSmall page_size (write full p c).0
  unfolding write append
  write-IsSmall full p c h = elim (Bool-cases (c.sealed || c.failed)) [
    | inl e ↦ rw e h
    | inr e ↦ rw e (
        watch_done-IsSmall p _
          (cut_page-IsSmall full (record c { tail = c.tail ++ p }) h.same_size h.small_scan))
  ]

-- A full queue takes no page.
write-full : (p : Bytes) (c : Collector) → (write true p c).1 ≡ none
unfolding write append cut_page submit
write-full p c = ground arith

length-enqueue : (id : ℕ) (o : Option Page) (q : List Job) → length (enqueue id o q) ≤ length q + 1
length-enqueue id none q = omega arith
length-enqueue id (some page) q =
    omega (arith, length-append {0} q (record { owner = id; page = page } ∷ []))

enqueue-le :
    (cfg : Config) (id : ℕ) (p : Bytes) (c : Collector) (w : World)
    → length w.queue ≤ cfg.max_pending_pages
    → length (enqueue id (write (is_full cfg w) p c).1 w.queue) ≤ cfg.max_pending_pages
enqueue-le cfg id p c w h = elim (Bool-cases (is_full cfg w)) [
  | inl full ↦ rw full (rw (write-full p c) h)
  | inr room ↦ ground (arith, length-enqueue id (write (is_full cfg w) p c).1 w.queue)
]

-- The bounds of a pool under its configuration.
pub record IsBounded (cfg : Config) (w : World) : Type 0 where
  pub queue_bound : length w.queue ≤ cfg.max_pending_pages
  pub busy_bound : length w.busy ≤ cfg.workers
  pub collector_bound : (id : ℕ) → IsSmall cfg.page_size (w.collectors id)

module _ (cfg : Config) (pos_size : 0 < cfg.page_size) where
  update-IsSmall :
      (id : ℕ) (c : Collector) (f : ℕ → Collector)
      → IsSmall cfg.page_size c
      → ((j : ℕ) → IsSmall cfg.page_size (f j))
      → (j : ℕ) → IsSmall cfg.page_size (update id c f j)
  update-IsSmall id c f h k =
      by_request _ id (rw update_self h) λ j ne. rw (update_ne id j c f ne) (k j)

  page_done-IsSmall :
      (ok : Bool) (c : Collector) → IsSmall cfg.page_size c → IsSmall cfg.page_size (page_done ok c)
  unfolding page_done fail
  page_done-IsSmall true c h = record {
    same_size = h.same_size;
    small_tail = h.small_tail;
    small_scan = h.small_scan;
  }
  page_done-IsSmall false c h = record {
    same_size = h.same_size;
    small_tail = h.small_tail;
    small_scan = h.small_scan;
  }

  ended-IsSmall :
      (at_done : Bool) (c : Collector)
      → IsSmall cfg.page_size c
      → IsSmall cfg.page_size (if at_done then drop_tail c else record c { finalized = true })
  unfolding drop_tail
  ended-IsSmall true c h = record {
    same_size = h.same_size;
    small_tail = pos_size;
    small_scan = h.small_scan;
  }
  ended-IsSmall false c h = record {
    same_size = h.same_size;
    small_tail = h.small_tail;
    small_scan = h.small_scan;
  }

  fail-IsSmall : (c : Collector) → IsSmall cfg.page_size c → IsSmall cfg.page_size (fail c)
  unfolding fail
  fail-IsSmall c h = record {
    same_size = h.same_size;
    small_tail = h.small_tail;
    small_scan = h.small_scan;
  }

  finish_job-IsBounded :
      (ok stored : Bool) (before : List Job) (j : Job) (behind : List Job) (w : World)
      → w.busy ≡ before ++ j ∷ behind
      → IsBounded cfg w
      → IsBounded cfg (finish_job ok stored before j behind w)
  unfolding finish_job
  finish_job-IsBounded ok stored before j behind w e h = record {
    queue_bound = h.queue_bound;
    busy_bound = omega (
      arith,
      h.busy_bound,
      ap (λ (l : List Job). length l) e,
      length-append {0} before (j ∷ behind),
      length-append {0} before behind,
    );
    collector_bound =
        update-IsSmall j.owner _ _ (page_done-IsSmall ok _ (h.collector_bound j.owner))
          h.collector_bound;
  }

  pool_write-IsBounded :
      (id : ℕ) (p : Bytes) (w : World) → IsBounded cfg w → IsBounded cfg (pool_write cfg id p w)
  unfolding pool_write
  pool_write-IsBounded id p w h = record {
    queue_bound = enqueue-le cfg id p (w.collectors id) w h.queue_bound;
    busy_bound = h.busy_bound;
    collector_bound =
        update-IsSmall id _ _
          (write-IsSmall cfg.page_size pos_size (is_full cfg w) p _ (h.collector_bound id))
          h.collector_bound;
  }

  receive-IsBounded :
      (j : Job) (rest : List Job) (w : World)
      → w.queue ≡ j ∷ rest
      → length w.busy < cfg.workers
      → IsBounded cfg w
      → IsBounded cfg (receive j rest w)
  unfolding receive
  receive-IsBounded j rest w e room h = record {
    queue_bound = omega (arith, h.queue_bound, ap (λ (l : List Job). length l) e);
    busy_bound = omega (arith, length-append {0} w.busy (j ∷ []));
    collector_bound = h.collector_bound;
  }

  end_finalize-IsBounded :
      (at_done deleted : Bool) (id : ℕ) (w : World)
      → IsBounded cfg w
      → IsBounded cfg (end_finalize at_done deleted id w)
  unfolding end_finalize
  end_finalize-IsBounded at_done deleted id w h = record {
    queue_bound = h.queue_bound;
    busy_bound = h.busy_bound;
    collector_bound =
        update-IsSmall id _ _ (ended-IsSmall at_done _ (h.collector_bound id)) h.collector_bound;
  }

  abort-IsBounded : (id : ℕ) (w : World) → IsBounded cfg w → IsBounded cfg (abort id w)
  unfolding abort
  abort-IsBounded id w h = record {
    queue_bound = h.queue_bound;
    busy_bound = h.busy_bound;
    collector_bound =
        update-IsSmall id _ _ (fail-IsSmall _ (h.collector_bound id)) h.collector_bound;
  }

  new_pool-IsBounded : IsBounded cfg (new_pool cfg)
  unfolding new_pool new_collector
  new_pool-IsBounded = record {
    queue_bound = omega arith;
    busy_bound = omega arith;
    collector_bound =
        λ id. record { same_size = refl; small_tail = pos_size; small_scan = λ _. omega arith };
  }

  -- In every reachable world of a pool with a positive page size: the queue holds at most
  -- `max_pending_pages` pages, the workers hold at most one page each, every tail is shorter than
  -- a page, and no scan buffer of a collector that is still searching outgrows its cap.
  pub Reach-IsBounded : {w : World} {log : ℕ → Bytes} → Reach cfg w log → IsBounded cfg w
  Reach-IsBounded start = new_pool-IsBounded
  Reach-IsBounded (writes {w} id p r _) = pool_write-IsBounded id p w (Reach-IsBounded r)
  Reach-IsBounded (receives {w} j rest r e room) =
      receive-IsBounded j rest w e room (Reach-IsBounded r)
  Reach-IsBounded (finishes {w} before j behind r e) =
      finish_job-IsBounded true true before j behind w e (Reach-IsBounded r)
  Reach-IsBounded (errs {w} stored before j behind r e) =
      finish_job-IsBounded false stored before j behind w e (Reach-IsBounded r)
  Reach-IsBounded (finalizes {w} at_done deleted id r) =
      end_finalize-IsBounded at_done deleted id w (Reach-IsBounded r)
  Reach-IsBounded (aborts {w} id r) = abort-IsBounded id w (Reach-IsBounded r)
