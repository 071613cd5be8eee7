-- ===== src/Proxy/Runs.antt =====
-- internal/proxy/handler.go: the runs of a response, and the counts that they keep.
use opgate.Base.{
  ℕ, suc, ◌+◌, ◌≤◌, Bool, true, false, List, [], ◌∷◌, Option, none, some, ◌≡◌, length,
}
use opgate.Base.Bytes.{Bytes}
use opgate.Openai.{Json}
use opgate.Collector.{Collector}
use opgate.Collector.Finalize.{Outcome}
use opgate.Proxy.Response.{
  Task, finalize_stream, finalize_on_close, finalize_json, Flow, new_flow, modify_response,
  run_stream, run_on_close, run_json, finish, stream_read, json_read,
}

-- A goroutine of `finish` runs.
unfoldable pub run_task : Json → Task → Outcome → Bool → Flow → Flow
unfolding run_stream run_on_close run_json
run_task json finalize_stream outcome stored f = run_stream outcome stored f
run_task json finalize_on_close outcome stored f = run_on_close outcome stored f
run_task json finalize_json outcome stored f = run_json json stored f

-- The states of a response whose body the handler has wrapped. The reverse proxy reads until the end
-- or until it gives up, and then closes; it does not read behind either.
pub data Run (json : Json) : Flow → Type 0 where
  started :
      (page_size : ℕ) (participates : Bool) (status : ℕ) (content_type : Bytes)
      → Run json (modify_response page_size participates status content_type new_flow)
  stream_reads :
      {f : Flow} (full : Bool) (outcome : Outcome) (stored : Bool) (p : Bytes) (at_eof : Bool)
      → Run json f
      → f.finished ≡ false
      → Run json (stream_read full outcome stored p at_eof f)
  json_reads :
      {f : Flow} (p : Bytes) (at_eof : Bool)
      → Run json f
      → f.finished ≡ false
      → Run json (json_read p at_eof f)
  closes : {f : Flow} → Run json f → Run json (finish f)
  runs :
      {f : Flow} (t : Task) (rest : List Task) (outcome : Outcome) (stored : Bool)
      → Run json f
      → f.tasks ≡ t ∷ rest
      → Run json (run_task json t outcome stored (record f { tasks = rest }))

-- How many of the goroutines still have to say how the stream ended.
abbrev pub closing : List Task → ℕ
closing [] = 0
closing (finalize_on_close ∷ ts) = suc (closing ts)
closing (finalize_stream ∷ ts) = closing ts
closing (finalize_json ∷ ts) = closing ts

abbrev pub IsSealed : Option Collector → Type 0
IsSealed none = Unit
IsSealed (some c) = c.sealed ≡ true

pub record IsOnce (f : Flow) : Type 0 where
  pub counted : f.counters.mapping_created + f.counters.mapping_error ≡ length f.puts
  pub succeeded : f.counters.finalize_success ≡ f.counters.mapping_created
  pub bounded : length f.puts + length f.tasks ≤ 1
  pub ended : f.counters.stream_completed + f.counters.stream_aborted + closing f.tasks ≤ 1
  pub idle : f.finished ≡ false → f.tasks ≡ []
  pub quiet :
      f.finished ≡ false
      → f.early_finalized ≡ false
      → f.counters.stream_completed + f.counters.stream_aborted + length f.puts ≡ 0
  pub sealed : f.early_finalized ≡ true → IsSealed f.collector
  pub settled : f.early_finalized ≡ true → f.tasks ≡ []
