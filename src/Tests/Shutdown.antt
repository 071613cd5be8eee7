-- ===== src/Tests/Shutdown.antt =====
-- A shutdown while a worker has a page in hand.
use opgate.Base.{◌+◌, ◌⊎◌, false, true, [], ◌++◌, ◌≡◌, refl, arith}
use opgate.Base.Bytes.{equal, trim_space, trim_suffix}
use opgate.Collector.{
  new_collector, submit, cut_page, split_line, is_done, watch_lines, watch_done, append, write,
}
use opgate.Collector.Pool.{
  update, new_pool, pool_write, receive, finish_job, Reach, start, writes, receives,
}
use opgate.Collector.Shutdown.{Phase, Shutdown, rest, returns, to_do}
use opgate.Collector.Shutdown.Stop.{Stop-ends}
use opgate.Tests.Pools.{small, first_chunk, job, received}

abbrev begun : Phase
begun = record { cancelled = false; running = 1; world = received }

abbrev stored : Phase
stored = record begun { world = finish_job true true [] job [] received }

abbrev stopping : Phase
stopping = record stored { cancelled = true }

abbrev stopped : Phase
stopped = record stopping { running = 0 }

received-Reach : Reach small received (update 0 ([] ++ first_chunk) (λ _. []))
unfolding new_pool new_collector pool_write write append cut_page submit watch_done watch_lines
    split_line receive update is_done equal trim_space trim_suffix
received-Reach = receives job [] (writes 0 first_chunk start refl) refl (omega arith)

stopping-Shutdown : Shutdown small 1 stopping stopped
unfolding finish_job
stopping-Shutdown = returns 0 refl refl (omega arith) (rest _)

Stop-ends_example :
    (1 + to_do stopped ≡ to_do stopping)
    × ((stopped.running ≡ 0) ⊎ ((q' : Phase) × Shutdown small 1 stopped q'))
unfolding finish_job receive pool_write new_pool
Stop-ends_example =
    Stop-ends small stopping-Shutdown refl (omega arith) (omega arith)
      (Reach.finishes [] job [] received-Reach refl)
