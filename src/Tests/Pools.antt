-- ===== src/Tests/Pools.antt =====
-- A run of the pool: a stream of one page and a tail.
use opgate.Base.{ℕ, true, false, [], ◌∷◌, ◌++◌, some, ◌≡◌, refl, arith, map}
use opgate.Base.Bytes.{Bytes, codes, equal, trim_space, trim_suffix}
use opgate.Store.{put_page}
use opgate.Sse.Framing.{event, stream, render}
use opgate.Openai.Request.{member}
use opgate.Openai.Assistant.{done_mark, assistant_from_message, assistant_from_sse}
use opgate.Openai.Assistant.Stream.{one, IsString, Carries}
use opgate.Collector.{
  new_collector, submit, cut_page, split_line, is_done, watch_lines, watch_done, append, write,
  page_done,
}
use mathlib.Core.List.Permᴰ.{swap}
use opgate.Base.{length}
use opgate.Collector.Assemble.{assemble, assemble-perm}
use opgate.Collector.Bounds.{IsBounded, Reach-IsBounded}
use opgate.Collector.Delivery.{assemble-log}
use opgate.Collector.Finalize.{judge, finalize, finalize-stream}
use opgate.Collector.Pool.{
  Config, Job, World, update, new_pool, pool_write, receive, finish_job, Reach, start, writes,
  receives, finishes,
}
use opgate.Base.{◌+◌}
use opgate.Collector.Drain.{Work, drained-log}
use opgate.Collector.Lost.{finalize-lost_page}
use opgate.Tests.Samples.{sample_json}

abbrev pub small : Config
small = record { page_size = 16; max_pending_pages = 2; workers = 1 }

abbrev pub first_chunk : Bytes
first_chunk = codes "data: hi\n\ndata: "

abbrev pub last_chunk : Bytes
last_chunk = codes "[DONE]\n\n"

abbrev pub job : Job
job = record { owner = 0; page = (1, first_chunk) }

abbrev pub cut : World
cut = pool_write small 0 first_chunk (new_pool small)

abbrev pub stored : World
stored = finish_job true true [] job [] (receive job [] cut)

abbrev pub written : World
written = pool_write small 0 last_chunk stored

abbrev pub log : ℕ → Bytes
log =
    update 0 (update 0 ([] ++ first_chunk) (λ _. []) 0 ++ last_chunk)
      (update 0 ([] ++ first_chunk) (λ _. []))

pub run : Reach small written log
unfolding new_pool new_collector pool_write write append cut_page submit watch_done watch_lines
    split_line receive finish_job page_done put_page update is_done equal trim_space trim_suffix
run =
    writes 0 last_chunk
      (finishes [] job [] (receives job [] (writes 0 first_chunk start refl) refl (omega arith))
        refl)
      refl

assemble-log_example : assemble (written.entries 0) (written.collectors 0).tail ≡ log 0
unfolding new_pool new_collector pool_write write append cut_page submit watch_done watch_lines
    split_line receive finish_job page_done put_page update is_done equal trim_space trim_suffix
assemble-log_example = assemble-log small 0 run refl refl refl

abbrev pub hi : Bytes
hi = codes "hi"

hi-IsString : IsString sample_json hi hi
unfolding equal trim_space
hi-IsString = record { there = λ e. cc; not_null = refl; reads = refl }

hi-Carries : Carries sample_json hi hi
unfolding equal trim_space
hi-Carries = record { raw = hi; not_done = refl; chunk = refl; string = hi-IsString }

pub log-stream : log 0 ≡ stream false (map event (hi ∷ []) ++ event done_mark ∷ [])
unfolding stream render update
log-stream = refl

finalize-stream_example :
    (finalize sample_json
      (written.collectors 0)
      (written.collectors 0)
      (some (written.entries 0))).0
    ≡ judge (assistant_from_message sample_json hi, true)
unfolding new_pool new_collector pool_write write append cut_page submit watch_done watch_lines
    split_line receive finish_job page_done put_page update is_done equal trim_space trim_suffix
    member
finalize-stream_example =
    finalize-stream sample_json small 0 (written.collectors 0) false [] hi hi
      ((codes "content", hi) ∷ []) run refl refl refl refl log-stream (one hi-Carries)
      ((omega arith), tt) tt refl refl refl hi-IsString

Reach-IsBounded_example : IsBounded small written
Reach-IsBounded_example = Reach-IsBounded small (omega arith) run

-- The page is with a worker when `Finalize` is called, and then lost.
abbrev pub received : World
received = receive job [] cut

abbrev lost : World
lost = finish_job false false [] job [] received

finalize-lost_page_example :
    ((lost.collectors 0).failed ≡ true)
    × ((lost.collectors 0).inflight ≡ 0)
    × (length (assemble (lost.entries 0) (lost.collectors 0).tail) + length first_chunk
        ≡ length (update 0 ([] ++ first_chunk) (λ _. []) 0))
    × ((finalize sample_json (received.collectors 0) (lost.collectors 0) (some (lost.entries 0))).0
        ≡ judge
            (assistant_from_sse sample_json (assemble (lost.entries 0) (lost.collectors 0).tail)))
unfolding new_pool new_collector pool_write write append cut_page submit watch_done watch_lines
    split_line receive put_page update is_done equal trim_space trim_suffix
finalize-lost_page_example =
    finalize-lost_page sample_json small [] job []
      (receives job [] (writes 0 first_chunk start refl) refl (omega arith)) refl refl refl refl

-- Two pages as a store that forgets the order may return them.
assemble-perm_example :
    assemble ((1, codes "a") ∷ (2, codes "b") ∷ []) (codes "c")
    ≡ assemble ((2, codes "b") ∷ (1, codes "a") ∷ []) (codes "c")
assemble-perm_example = assemble-perm (codes "c") (swap refl refl) ((omega arith, tt), (tt, tt))

drained-log_example :
    (n : ℕ) × (w' : World) × Work small n cut w'
    × (w'.queue ≡ [])
    × (w'.busy ≡ [])
    × ((w'.collectors 0).inflight ≡ 0)
    × (assemble (w'.entries 0) (w'.collectors 0).tail ≡ update 0 ([] ++ first_chunk) (λ _. []) 0)
unfolding new_pool new_collector pool_write write append cut_page submit watch_done watch_lines
    split_line update is_done equal trim_space trim_suffix
drained-log_example = drained-log small 0 (omega arith) (writes 0 first_chunk start refl) refl refl
