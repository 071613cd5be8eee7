-- ===== src/Proxy/Once.antt =====
-- internal/proxy/handler.go: the goroutines of `finish` in the runs of a response.
use opgate.Base.{
  ◌+◌, ◌≤◌, Bool, true, false, List, [], ◌∷◌, Option, none, some, ◌≡◌, arith, length, length-append,
  if_case,
}
use opgate.Base.Bytes.{Bytes}
use opgate.Openai.{Json}
use opgate.Openai.Request.{parse_completion_response}
use opgate.Openai.Accumulator.{Reply, ok, err}
use opgate.Openai.Assistant.{assistant_from_message}
use opgate.Collector.Finalize.{Outcome, found, failure}
use opgate.Proxy.Response.{
  Task, finalize_stream, finalize_on_close, finalize_json, Flow, put_mapping, count_completed,
  count_aborted, count_error, on_reply, on_message, on_buffer,
}
use opgate.Proxy.Runs.{run_task, Run, started, stream_reads, json_reads, closes, runs, IsOnce}
use opgate.Proxy.Reads.{started-IsOnce, finish-IsOnce, stream_read-IsOnce, json_read-IsOnce}

-- A goroutine that runs is the only one, and nothing was put before it.
module _ (f : Flow) (t : Task) (rest : List Task) (h : IsOnce f) (e : f.tasks ≡ t ∷ rest) where
  error-IsOnce : IsOnce (count_error (record f { tasks = rest }))
  error-IsOnce = ground (arith, h.idle, h.settled, h.sealed)

  skip-IsOnce : IsOnce (record f { tasks = rest })
  skip-IsOnce = ground (arith, h.idle, h.settled, h.sealed)

  put-IsOnce :
      (stored : Bool) (a : Bytes) → IsOnce (put_mapping stored a (record f { tasks = rest }))
  unfolding put_mapping
  put-IsOnce true a = ground (arith, h.idle, h.settled, h.sealed, length-append f.puts (a ∷ []))
  put-IsOnce false a = ground (arith, h.idle, h.settled, h.sealed, length-append f.puts (a ∷ []))

module _ (f : Flow) (rest : List Task) (h : IsOnce f) (e : f.tasks ≡ finalize_on_close ∷ rest) where
  abort-IsOnce : IsOnce (count_error (count_aborted (record f { tasks = rest })))
  abort-IsOnce = ground (arith, h.idle, h.settled, h.sealed)

  complete_put-IsOnce :
      (stored : Bool) (a : Bytes)
      → IsOnce (put_mapping stored a (count_completed (record f { tasks = rest })))
  unfolding put_mapping
  complete_put-IsOnce true a =
      ground (arith, h.idle, h.settled, h.sealed, length-append f.puts (a ∷ []))
  complete_put-IsOnce false a =
      ground (arith, h.idle, h.settled, h.sealed, length-append f.puts (a ∷ []))

module _ (json : Json) (stored : Bool) (f : Flow) (rest : List Task) (h : IsOnce f)
    (e : f.tasks ≡ finalize_json ∷ rest) where
  on_reply-IsOnce : (r : Reply) → IsOnce (on_reply r stored (record f { tasks = rest }))
  on_reply-IsOnce (ok a) = put-IsOnce f finalize_json rest h e stored a
  on_reply-IsOnce (err x) = error-IsOnce f finalize_json rest h e

  on_message-IsOnce :
      (o : Option Bytes) → IsOnce (on_message json o stored (record f { tasks = rest }))
  on_message-IsOnce none = error-IsOnce f finalize_json rest h e
  on_message-IsOnce (some m) = on_reply-IsOnce (assistant_from_message json m)

  on_buffer-IsOnce :
      (o : Option Bytes) → IsOnce (on_buffer json o stored (record f { tasks = rest }))
  on_buffer-IsOnce none = error-IsOnce f finalize_json rest h e
  on_buffer-IsOnce (some b) =
      if_case IsOnce f.json_trunc _ _ (λ _. error-IsOnce f finalize_json rest h e)
        (λ _. on_message-IsOnce (parse_completion_response json b))

run_task-IsOnce :
    (json : Json) (t : Task) (rest : List Task) (outcome : Outcome) (stored : Bool) (f : Flow)
    → IsOnce f
    → f.tasks ≡ t ∷ rest
    → IsOnce (run_task json t outcome stored (record f { tasks = rest }))
unfolding run_task
run_task-IsOnce json finalize_stream rest (failure x) stored f h e =
    if_case IsOnce f.early_finalized _ _ (λ _. skip-IsOnce f finalize_stream rest h e)
      (λ _. error-IsOnce f finalize_stream rest h e)
run_task-IsOnce json finalize_stream rest (found a) stored f h e =
    if_case IsOnce f.early_finalized _ _ (λ _. skip-IsOnce f finalize_stream rest h e)
      (λ _. put-IsOnce f finalize_stream rest h e stored a)
run_task-IsOnce json finalize_on_close rest (failure x) stored f h e =
    if_case IsOnce f.early_finalized _ _ (λ _. skip-IsOnce f finalize_on_close rest h e)
      (λ _. abort-IsOnce f rest h e)
run_task-IsOnce json finalize_on_close rest (found a) stored f h e =
    if_case IsOnce f.early_finalized _ _ (λ _. skip-IsOnce f finalize_on_close rest h e)
      (λ _. complete_put-IsOnce f rest h e stored a)
run_task-IsOnce json finalize_json rest outcome stored f h e =
    on_buffer-IsOnce json stored f rest h e f.json_buf

-- Along every run of a response `putMapping` is called at most once, every call is counted as a
-- mapping created or as a mapping error, the successes are the mappings created, and the stream is
-- counted as completed or aborted at most once.
pub Run-IsOnce : (json : Json) {f : Flow} → Run json f → IsOnce f
Run-IsOnce json (started page_size participates status content_type) =
    started-IsOnce page_size participates status content_type
Run-IsOnce json (stream_reads {f} full outcome stored p at_eof r open_) =
    stream_read-IsOnce full outcome stored p at_eof f (Run-IsOnce json r) open_
Run-IsOnce json (json_reads {f} p at_eof r _) = json_read-IsOnce p at_eof f (Run-IsOnce json r)
Run-IsOnce json (closes {f} r) = finish-IsOnce f (Run-IsOnce json r)
Run-IsOnce json (runs {f} t rest outcome stored r e) =
    run_task-IsOnce json t rest outcome stored f (Run-IsOnce json r) e

-- Along every run of a response whose body the handler has wrapped, whatever order reads, the close
-- and the goroutines come in: `putMapping` is called at most once, every call is counted as a mapping
-- created or as a mapping error, the finalize successes are the mappings created, and the stream is
-- counted as completed or aborted at most once in all.
pub mapping_once :
    (json : Json) {f : Flow}
    → Run json f
    → (length f.puts ≤ 1)
      × (f.counters.mapping_created + f.counters.mapping_error ≡ length f.puts)
      × (f.counters.finalize_success ≡ f.counters.mapping_created)
      × (f.counters.stream_completed + f.counters.stream_aborted ≤ 1)
mapping_once json r =
    let h = Run-IsOnce json r in
    (omega (arith, h.bounded), h.counted, h.succeeded, omega (arith, h.ended))
