-- ===== src/Tests/Wholes.antt =====
-- The whole gateway: a request, its streamed response, and the mapping that it leaves.
use opgate.Base.{ℕ, true, [], ◌++◌, some, none, ◌≡◌, refl, arith, ap, subst, ◌∙◌, ◌⊎◌}
use opgate.Base.Bytes.{
  Bytes, codes, equal, equal_refl, has_prefix, has_suffix, trim_space, trim_suffix,
}
use opgate.Canon.{canonicalize, emit}
use opgate.Canon.Text.{write_string}
use opgate.Canon.Hash.{full_state, hash_bytes}
use opgate.Store.{put_page}
use opgate.Store.Keys.{session_key}
use opgate.Store.Faults.{answered, StoreErrors}
use opgate.Sse.{scan}
use opgate.Collector.{
  Collector, new_collector, submit, write, append, watch_done, cut_page, watch_lines, split_line,
  is_done, page_done,
}
use opgate.Collector.Assemble.{assemble}
use opgate.Collector.Drain.{Work}
use opgate.Collector.Finalize.{found, failure, no_assistant_message, finalize, on_pages, judge}
use opgate.Proxy.Streamed.{finalize-found}
use opgate.Collector.Pool.{
  World, update, new_pool, pool_write, receive, finish_job, is_full, end_finalize,
}
use opgate.Session.{Resolutions, resolve}
use opgate.Session.Continuity.{Mappings, put_mapping, put_session}
use opgate.Session.Faults.{try_get_session}
use opgate.Proxy.{
  Forward, forward, is_chat, read_body, serve_body, serve_http, prepare, chat_messages,
}
use opgate.Proxy.Response.{modify_response}
use opgate.Proxy.Whole.{
  Whole, Stage, reading, closed, at_done, ending, over, pages_read, is_troubled, next_stage,
  outcome, put_found, blank, through, Serving, start, serves, streams, reads, takes, stores,
  meets_done, ends_at_done, closes, calls,
}
use opgate.Proxy.Whole.Sources.{IsOrigin}
use opgate.Openai.Accumulator.{ok, canonical, is_blank}
use opgate.Openai.Assistant.{assistant_from_sse}
use opgate.Openai.Assistant.Stream.{stream-message}
use opgate.Proxy.Whole.Origin.{mapping-IsOrigin}
use opgate.Proxy.Whole.Progress.{waiting-mapped}
use opgate.Proxy.Whole.Retry.{retry-Serving}
use opgate.Tests.Samples.{sample_hash}
use opgate.Tests.Pools.{hi, small, first_chunk, last_chunk, job, stored, log}
use opgate.Tests.Turns.{json, answer, chat_of, counts, partner, written-IsStreamed, hi-answer}

abbrev no_errors : StoreErrors
no_errors _ = 0

abbrev nothing : Mappings
nothing _ = none

abbrev sent : Forward × Resolutions
sent =
    prepare json sample_hash (λ c h. (try_get_session answered c h nothing no_errors).0)
      (codes "s1") (chat_of (codes "1")) (codes "1") counts

sent-forward :
    serve_http json sample_hash
      (λ c h.
        (try_get_session answered c h
          (blank json sample_hash 10 small nothing).mappings
          no_errors).0)
      (codes "s1")
      10
      (chat_of (codes "1"))
      counts
    ≡ (forward sent.0, sent.1)
unfolding blank serve_http is_chat equal has_suffix serve_body read_body
sent-forward = refl

sent-partner : sent.0.participant ≡ some partner
unfolding prepare chat_messages canonicalize emit write_string resolve
sent-partner = refl

-- The first page of the response is stored.
abbrev streaming : Whole
streaming = record (blank json sample_hash 10 small nothing) {
  world = stored;
  asked = update 0 (some partner) (λ _. none);
  stages = update 0 reading (λ _. Stage.unasked);
}

streaming-Serving :
    Serving json sample_hash 10 small nothing streaming (update 0 ([] ++ first_chunk) (λ _. []))
unfolding blank modify_response has_prefix new_pool new_collector pool_write write append cut_page
    submit watch_done watch_lines split_line receive update is_done equal trim_space trim_suffix
streaming-Serving =
    stores [] job []
      (takes job []
        (reads 0 first_chunk
          (streams 0 partner 200 (codes "text/event-stream") (new_collector 16 true)
            (serves 0 answered no_errors (codes "s1") (chat_of (codes "1")) counts sent.1 sent.0
              partner start refl refl sent-forward sent-partner)
            refl refl refl)
          refl refl refl)
        refl (omega arith))
      refl

abbrev called : Collector
called = (write (is_full small stored) last_chunk (stored.collectors 0)).0

abbrev met : Whole
met = record streaming {
  world = pool_write small 0 last_chunk stored;
  stages = update 0 (at_done called) streaming.stages;
}

met-Serving : Serving json sample_hash 10 small nothing met log
unfolding blank new_pool new_collector pool_write write append cut_page submit watch_done
    watch_lines split_line receive finish_job page_done put_page update is_done equal trim_space
    trim_suffix
met-Serving = meets_done 0 last_chunk streaming-Serving refl refl refl

abbrev ended : Whole
ended =
    through json sample_hash 10 small true 0 partner called true [] true true
      (next_stage (outcome json sample_hash 10 small 0 called true [] met)) met

ended-Serving : Serving json sample_hash 10 small nothing ended log
unfolding new_pool new_collector pool_write write append cut_page submit watch_done watch_lines
    split_line receive finish_job page_done put_page update is_done equal trim_space trim_suffix
ended-Serving = ends_at_done 0 partner called true [] true true met-Serving refl refl (λ _. refl)

abbrev key : Bytes
key =
    session_key partner.client_hash (hash_bytes sample_hash (full_state partner.canon_msgs answer))

outcome-found : outcome json sample_hash 10 small 0 called true [] met ≡ found answer
unfolding outcome blank pages_read new_pool new_collector pool_write write append cut_page submit
    watch_done watch_lines split_line receive finish_job page_done put_page update is_done equal
    trim_space trim_suffix
outcome-found = finalize-found json small 0 called hi answer written-IsStreamed refl hi-answer

put-there :
    (k : Bytes) (m : Mappings)
    → put_session partner.client_hash k (codes "s1") m (session_key partner.client_hash k)
      ≡ some (codes "s1")
unfolding put_session
put-there k m = rw (equal_refl (session_key partner.client_hash k)) refl

mapped : ended.mappings key ≡ some (codes "s1")
unfolding through put_found put_mapping blank
mapped =
    ap (λ o. put_found json sample_hash 10 small o true partner nothing key) outcome-found
    ∙ put-there (hash_bytes sample_hash (full_state partner.canon_msgs answer)) nothing

mapping-IsOrigin_example :
    IsOrigin json sample_hash 10 small nothing ended log key (codes "s1")
    ⊎ (nothing key ≡ some (codes "s1"))
mapping-IsOrigin_example =
    mapping-IsOrigin json sample_hash 10 small nothing key (codes "s1") ended-Serving mapped

log-whole : assistant_from_sse json (log 0) ≡ (ok answer, true)
log-whole =
    let w = written-IsStreamed in
    ap (assistant_from_sse json) w.written
    ∙ stream-message json w.crlf w.behind hi w.raw_content w.fields w.pieces w.texts w.texts_behind
        w.object w.without_tools w.has_content w.string
    ∙ ap (λ r. (r, true)) hi-answer

waiting-mapped_example :
    (n : ℕ) × (w' : World) × Work small n met.world w'
    × ((w'.collectors 0).inflight ≡ 0)
    × (let drained = record met { world = w' } in
        let s' =
          through json sample_hash 10 small true 0 partner called true [] true true
            (next_stage (outcome json sample_hash 10 small 0 called true [] drained))
            drained in
        Serving json sample_hash 10 small nothing s' log
        × (s'.stages 0 ≡ over)
        × (s'.mappings key ≡ some (codes "s1")))
unfolding blank new_pool new_collector pool_write write append cut_page submit watch_done
    watch_lines split_line receive finish_job page_done put_page update is_done equal trim_space
    trim_suffix
waiting-mapped_example =
    waiting-mapped json sample_hash 10 small nothing 0 partner called answer (omega arith)
      met-Serving refl refl refl refl refl log-whole

-- A stream without a message: its `Finalize` at the sentinel fails, and it is closed.
abbrev done_chunk : Bytes
done_chunk = codes "data: [DONE]\n\n"

abbrev done_world : World
done_world = pool_write small 0 done_chunk (new_pool small)

abbrev done_called : Collector
done_called = (write (is_full small (new_pool small)) done_chunk ((new_pool small).collectors 0)).0

abbrev at_sentinel : Whole
at_sentinel = record (blank json sample_hash 10 small nothing) {
  world = done_world;
  asked = update 0 (some partner) (λ _. none);
  stages = update 0 (at_done done_called) (update 0 reading (λ _. Stage.unasked));
}

abbrev done_log : ℕ → Bytes
done_log = update 0 ([] ++ done_chunk) (λ _. [])

at_sentinel-Serving : Serving json sample_hash 10 small nothing at_sentinel done_log
unfolding blank modify_response has_prefix new_pool new_collector pool_write write append cut_page
    submit watch_done watch_lines split_line receive update is_done equal trim_space trim_suffix
at_sentinel-Serving =
    meets_done 0 done_chunk
      (streams 0 partner 200 (codes "text/event-stream") (new_collector 16 true)
        (serves 0 answered no_errors (codes "s1") (chat_of (codes "1")) counts sent.1 sent.0 partner
          start refl refl sent-forward sent-partner)
        refl refl refl)
      refl refl refl

sentinel-outcome :
    outcome json sample_hash 10 small 0 done_called true [] at_sentinel
    ≡ failure no_assistant_message
unfolding outcome blank pages_read new_pool new_collector pool_write write append cut_page submit
    watch_done watch_lines split_line update is_done equal trim_space trim_suffix finalize on_pages
    assemble assistant_from_sse scan canonical is_blank judge
sentinel-outcome = refl

abbrev failed : Whole
failed =
    through json sample_hash 10 small true 0 partner done_called true [] true true reading
      at_sentinel

failed-Serving : Serving json sample_hash 10 small nothing failed done_log
unfolding blank new_pool new_collector pool_write write append cut_page submit watch_done
    watch_lines split_line update is_done equal trim_space trim_suffix next_stage
failed-Serving =
    subst
      (λ o.
        Serving json sample_hash 10 small nothing
          (through json sample_hash 10 small true 0 partner done_called true [] true true
            (next_stage o) at_sentinel)
          done_log)
      sentinel-outcome
      (ends_at_done 0 partner done_called true [] true true at_sentinel-Serving refl refl
        (λ _. refl))

abbrev again : Whole
again = record failed {
  stages = update 0 (ending (failed.world.collectors 0)) (update 0 closed failed.stages);
}

again-Serving : Serving json sample_hash 10 small nothing again done_log
unfolding through update
again-Serving = calls 0 (closes 0 failed-Serving refl) refl

retry-Serving_example :
    outcome json sample_hash 10 small 0 (failed.world.collectors 0) true [] again
    ≡ failure no_assistant_message
unfolding blank through put_found is_troubled end_finalize new_pool new_collector pool_write write
    append cut_page submit watch_done watch_lines split_line update is_done equal trim_space
    trim_suffix
retry-Serving_example =
    retry-Serving json sample_hash 10 small nothing 0 (failed.world.collectors 0) [] again-Serving
      refl refl refl refl refl
