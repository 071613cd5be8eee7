-- ===== src/Proxy/Response.antt =====
-- internal/proxy/handler.go: the response side of one request, as functions on its state. The
-- outcomes of `Finalize` and of the store are arguments.
use opgate.Base.{
  ℕ, ◌+◌, ◌*◌, Bool, true, false, not, ◌||◌, List, [], ◌∷◌, ◌++◌, Option, none, some, length, ltb,
  leb, if◌then◌else◌,
}
use opgate.Base.Bytes.{Bytes, codes, has_prefix}
use opgate.Session.{is_empty}
use opgate.Openai.{Json}
use opgate.Openai.Request.{parse_completion_response}
use opgate.Openai.Accumulator.{Reply, ok, err}
use opgate.Openai.Assistant.{assistant_from_message}
use opgate.Collector.{Collector, new_collector, write, drop_tail}
use opgate.Collector.Finalize.{Outcome, found, failure}

-- `strings.Contains`
unfoldable pub contains : Bytes → Bytes → Bool
unfolding has_prefix
contains [] p = has_prefix [] p
contains (c ∷ cs) p = has_prefix (c ∷ cs) p || contains cs p

-- The counters of `Metrics` that the response side changes.
pub record Counters : Type 0 where
  pub stream_completed : ℕ
  pub stream_aborted : ℕ
  pub finalize_success : ℕ
  pub finalize_error : ℕ
  pub mapping_created : ℕ
  pub mapping_error : ℕ

-- The goroutines that `finish` starts.
pub data Task : Type 0 where
  finalize_stream finalize_on_close finalize_json : Task

-- The response part of `reqState`, the counters, the goroutines that have not run, and the assistant
-- messages for which `putMapping` was called.
pub record Flow : Type 0 where
  pub collector : Option Collector
  pub json_buf : Option Bytes
  pub json_trunc : Bool
  pub eof : Bool
  pub early_finalized : Bool
  pub finished : Bool
  pub counters : Counters
  pub tasks : List Task
  pub puts : List Bytes

abbrev pub zero_counters : Counters
zero_counters = record {
  stream_completed = 0;
  stream_aborted = 0;
  finalize_success = 0;
  finalize_error = 0;
  mapping_created = 0;
  mapping_error = 0;
}

abbrev pub new_flow : Flow
new_flow = record {
  collector = none;
  json_buf = none;
  json_trunc = false;
  eof = false;
  early_finalized = false;
  finished = false;
  counters = zero_counters;
  tasks = [];
  puts = [];
}

-- `modifyResponse`
unfoldable pub modify_response : ℕ → Bool → ℕ → Bytes → Flow → Flow
unfolding contains new_collector
modify_response page_size participates status content_type f =
    if not participates || ltb status 200 || ltb 299 status
    then f
    else if has_prefix content_type (codes "text/event-stream")
    then record f { collector = some (new_collector page_size true) }
    else if contains content_type (codes "json")
    then record f { json_buf = some [] }
    else f

abbrev pub count_error : Flow → Flow
count_error f = record f {
  counters = record f.counters { finalize_error = f.counters.finalize_error + 1 };
}

abbrev pub count_completed : Flow → Flow
count_completed f = record f {
  counters = record f.counters { stream_completed = f.counters.stream_completed + 1 };
}

abbrev pub count_aborted : Flow → Flow
count_aborted f = record f {
  counters = record f.counters { stream_aborted = f.counters.stream_aborted + 1 };
}

-- `putMapping`, given whether the store takes the mapping.
unfoldable pub put_mapping : Bool → Bytes → Flow → Flow
put_mapping true assistant f = record f {
  puts = f.puts ++ assistant ∷ [];
  counters = record f.counters {
    mapping_created = f.counters.mapping_created + 1;
    finalize_success = f.counters.finalize_success + 1;
  };
}
put_mapping false assistant f = record f {
  puts = f.puts ++ assistant ∷ [];
  counters = record f.counters {
    mapping_error = f.counters.mapping_error + 1;
    finalize_error = f.counters.finalize_error + 1;
  };
}

-- `finalizeAtDone`
unfoldable pub finalize_at_done : Outcome → Bool → Flow → Flow
unfolding put_mapping
finalize_at_done (failure _) stored f = count_error f
finalize_at_done (found assistant) stored f =
    put_mapping stored assistant (count_completed (record f { early_finalized = true }))

-- `finalizeStream`
unfoldable pub run_stream : Outcome → Bool → Flow → Flow
unfolding put_mapping
run_stream (failure _) stored f = if f.early_finalized then f else count_error f
run_stream (found assistant) stored f =
    if f.early_finalized then f else put_mapping stored assistant f

-- `finalizeStreamOnClose`
unfoldable pub run_on_close : Outcome → Bool → Flow → Flow
unfolding put_mapping
run_on_close (failure _) stored f = if f.early_finalized then f else count_error (count_aborted f)
run_on_close (found assistant) stored f =
    if f.early_finalized then f else put_mapping stored assistant (count_completed f)

abbrev pub on_reply : Reply → Bool → Flow → Flow
on_reply (err _) stored f = count_error f
on_reply (ok assistant) stored f = put_mapping stored assistant f

abbrev pub on_message : Json → Option Bytes → Bool → Flow → Flow
on_message json none stored f = count_error f
on_message json (some message) stored f = on_reply (assistant_from_message json message) stored f

abbrev pub on_buffer : Json → Option Bytes → Bool → Flow → Flow
on_buffer json none stored f = count_error f
on_buffer json (some body) stored f =
    if f.json_trunc
    then count_error f
    else on_message json (parse_completion_response json body) stored f

-- `finalizeJSON`
unfoldable pub run_json : Json → Bool → Flow → Flow
unfolding put_mapping
run_json json stored f = on_buffer json f.json_buf stored f

abbrev pub schedule : Task → Flow → Flow
schedule t f = record f { tasks = f.tasks ++ t ∷ [] }

abbrev pub is_some {ℓ} : {A : Type ℓ} → Option A → Bool
is_some none = false
is_some (some _) = true

-- What `finish` does the first time.
unfoldable pub finish_once : Flow → Flow
finish_once f =
    if f.early_finalized
    then f
    else if f.eof
    then (if is_some f.collector
        then schedule finalize_stream (count_completed f)
        else if is_some f.json_buf
        then schedule finalize_json (count_completed f)
        else count_completed f)
    else if is_some f.collector
    then schedule finalize_on_close f
    else count_aborted f

-- `finish`
unfoldable pub finish : Flow → Flow
unfolding finish_once
finish f = if f.finished then f else finish_once (record f { finished = true })

-- The `Write` of `streamBody.Read`, with the whole of `onDone`. `full` is the state of the queue,
-- `outcome` what `Finalize` gives if it is called here.
unfoldable pub tee : Bool → Outcome → Bool → Bytes → Flow → Flow
unfolding finalize_at_done
tee full outcome stored p f = elim f.collector [
  | none ↦ f
  | some c ↦
      let r = write full p c in
      if r.2
      then finalize_at_done outcome stored (record f { collector = some (drop_tail r.0) })
      else record f { collector = some r.0 }
]

-- `streamBody.Read`, behind the read of the upstream body.
unfoldable pub stream_read : Bool → Outcome → Bool → Bytes → Bool → Flow → Flow
unfolding tee finish
stream_read full outcome stored p at_eof f =
    let f' = if is_empty p then f else tee full outcome stored p f in
    if at_eof then finish (record f' { eof = true }) else f'

abbrev pub json_buffer_limit : ℕ
json_buffer_limit = 64 * 1048576

abbrev pub fill : Bytes → Option Bytes → Flow → Flow
fill p none f = f
fill p (some buf) f =
    if leb (length buf + length p) json_buffer_limit
    then record f { json_buf = some (buf ++ p) }
    else record f { json_buf = none; json_trunc = true }

-- `jsonBody.Read`, behind the read of the upstream body.
unfoldable pub json_read : Bytes → Bool → Flow → Flow
unfolding finish
json_read p at_eof f =
    let f' = if is_empty p then f else fill p f.json_buf f in
    if at_eof then finish (record f' { eof = true }) else f'
