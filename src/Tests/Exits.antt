-- ===== src/Tests/Exits.antt =====
-- A gateway that serves one request and then is told to end.
use opgate.Base.{true, [], ◌∷◌, ◌++◌, ◌≡◌, refl, arith}
use opgate.Base.Bytes.{equal, trim_space, trim_suffix}
use opgate.Collector.{
  new_collector, submit, cut_page, split_line, is_done, watch_lines, watch_done, append, write,
  page_done,
}
use opgate.Collector.Assemble.{assemble}
use opgate.Collector.Pool.{update, new_pool, pool_write, receive, finish_job}
use opgate.Collector.Shutdown.{drain}
use opgate.Gateway.Exit.{
  Life, Living, started, with_world, at, accepts, starts, arrives, writes, responds, takes, stores,
  returns, signalled, shuts, drains, waits, cancels, stops, closes, shutting, draining, waiting,
  stopping, closing, exited, wait_finalize,
}
use opgate.Gateway.Exit.Order.{exited-Closed}
use opgate.Tests.Pools.{small, first_chunk, job, received}

-- Its first page is stored.
abbrev serving : Life
serving = record (started small) { serving = 1 }

abbrev page_stored : Life
page_stored = with_world (finish_job true true [] job [] received) serving

page_stored-Living : Living small page_stored (update 0 ([] ++ first_chunk) (λ _. []))
unfolding new_pool new_collector pool_write write append cut_page submit watch_done watch_lines
    split_line receive update is_done equal trim_space trim_suffix with_world started accepts
    finish_job
page_stored-Living =
    stores [] job []
      (takes job [] (writes 0 0 first_chunk (arrives starts refl) refl refl) refl (omega arith))
      refl

abbrev waited : Life
waited = at waiting (at draining (at shutting (record page_stored { serving = 0 })))

waited-Living : Living small waited (update 0 ([] ++ first_chunk) (λ _. []))
unfolding at with_world started drain receive finish_job pool_write new_pool
waited-Living =
    drains (waited.pool.world ∷ [])
      (shuts (signalled (responds 0 page_stored-Living refl) refl) refl refl) refl refl

abbrev cancelled : Life
cancelled = record (at stopping waited) {
  pool = record waited.pool { cancelled = true; running = 0 };
}

cancelled-Living : Living small cancelled (update 0 ([] ++ first_chunk) (λ _. []))
unfolding at with_world started wait_finalize finish_job
cancelled-Living =
    returns 0 (cancels (waits (waited ∷ []) waited-Living refl refl) refl) refl refl (omega arith)

abbrev over : Life
over = at exited (at closing cancelled)

over-Living : Living small over (update 0 ([] ++ first_chunk) (λ _. []))
unfolding at
over-Living = closes (stops cancelled-Living refl refl refl) refl

exited-Closed_example :
    (over.serving ≡ 0)
    × (over.finalizing ≡ 0)
    × (over.pool.running ≡ 0)
    × (over.pool.world.busy ≡ [])
    × (over.pool.world.queue ≡ [])
    × ((over.pool.world.collectors 0).inflight ≡ 0)
    × (assemble (over.pool.world.entries 0) (over.pool.world.collectors 0).tail
        ≡ update 0 ([] ++ first_chunk) (λ _. []) 0)
unfolding at started with_world receive finish_job page_done update new_pool new_collector
    pool_write write append cut_page submit watch_done watch_lines split_line is_done equal
    trim_space trim_suffix
exited-Closed_example = exited-Closed small 0 over-Living refl refl refl refl
