-- ===== src/Proxy/Buffered.antt =====
-- internal/proxy/handler.go: a plain response through `jsonBody`, `finish` and `finalizeJSON`.
use opgate.Base.{
  ℕ, ◌+◌, ◌≤◌, Bool, true, false, List, [], ◌∷◌, ◌++◌, some, ◌≡◌, refl, sym, ap, ◌∙◌, length,
  length-append, ltb, concat, append_assoc, append-nil, arith,
}
use opgate.Base.Bytes.{Bytes, codes, has_prefix}
use opgate.Openai.{Json}
use opgate.Openai.Request.{parse_completion_response}
use opgate.Openai.Accumulator.{ok}
use opgate.Openai.Assistant.{assistant_from_message}
use opgate.Proxy.Response.{
  finalize_json, Flow, new_flow, contains, modify_response, put_mapping, run_json, finish_once,
  finish, schedule, count_completed, json_read, json_buffer_limit, on_reply, on_message,
}

-- The reads of a body in the middle, one after another.
unfoldable pub json_reads : List Bytes → Flow → Flow
json_reads [] f = f
json_reads (p ∷ ps) f = json_reads ps (json_read p false f)

abbrev buffered : Bytes → Flow
buffered b = record new_flow { json_buf = some b }

modify_response-buffered :
    (page_size status : ℕ) (content_type : Bytes)
    → ltb status 200 ≡ false
    → ltb 299 status ≡ false
    → has_prefix content_type (codes "text/event-stream") ≡ false
    → contains content_type (codes "json") ≡ true
    → modify_response page_size true status content_type new_flow ≡ buffered []
unfolding modify_response
modify_response-buffered page_size status content_type low high plain json =
    rw (low, high, plain, json) refl

json_read-buffered :
    (p b : Bytes)
    → length b + length p ≤ json_buffer_limit
    → json_read p false (buffered b) ≡ buffered (b ++ p)
unfolding json_read
json_read-buffered [] b h = ap buffered (sym (append-nil b))
json_read-buffered (c ∷ cs) b h = ground (arith, h)

json_reads-buffered :
    (ps : List Bytes) (b : Bytes)
    → length b + length (concat ps) ≤ json_buffer_limit
    → json_reads ps (buffered b) ≡ buffered (b ++ concat ps)
unfolding json_reads
json_reads-buffered [] b h = ap buffered (sym (append-nil b))
json_reads-buffered (p ∷ ps) b h =
    ap (json_reads ps) (json_read-buffered p b (omega (arith, h, length-append {0} p (concat ps))))
    ∙ json_reads-buffered ps (b ++ p)
        (omega (arith, h, length-append {0} p (concat ps), length-append {0} b p))
    ∙ ap buffered (append_assoc b p (concat ps))

-- The state when the whole body has been read.
abbrev ended : Bytes → Flow
ended b =
    schedule finalize_json (count_completed (record (buffered b) { eof = true; finished = true }))

-- The last read of a body, which comes with its end.
json_read-last :
    (p b : Bytes)
    → length b + length p ≤ json_buffer_limit
    → json_read p true (buffered b) ≡ ended (b ++ p)
unfolding json_read finish finish_once
json_read-last [] b h = rw (append-nil b) refl
json_read-last (c ∷ cs) b h = ground (arith, h)

put_mapping-puts :
    (stored : Bool) (a : Bytes) (f : Flow) → (put_mapping stored a f).puts ≡ f.puts ++ a ∷ []
unfolding put_mapping
put_mapping-puts true a f = refl
put_mapping-puts false a f = refl

-- A participant's plain response, read in whatever chunks up to its end, within the buffer's limit:
-- one goroutine is started, and it calls `putMapping` once, with the assistant message of the whole
-- body, if the body has a message that `AssistantFromMessage` takes.
pub json_read-put_mapping :
    (json : Json) (page_size status : ℕ) (content_type : Bytes) (ps : List Bytes)
    (p message a : Bytes) (stored : Bool)
    → ltb status 200 ≡ false
    → ltb 299 status ≡ false
    → has_prefix content_type (codes "text/event-stream") ≡ false
    → contains content_type (codes "json") ≡ true
    → length (concat ps) + length p ≤ json_buffer_limit
    → parse_completion_response json (concat ps ++ p) ≡ some message
    → assistant_from_message json message ≡ ok a
    → ((json_read p true
          (json_reads ps (modify_response page_size true status content_type new_flow))).tasks
        ≡ finalize_json ∷ [])
      × ((run_json json stored (
            json_read p true
              (json_reads ps (modify_response page_size true status content_type new_flow)))).puts
          ≡ a ∷ [])
unfolding run_json
json_read-put_mapping json page_size status content_type ps p message a stored low high plain
      is_json h parsed built =
    (ap (λ f. f.tasks) read, ap (λ f. (run_json json stored f).puts) read ∙ mapped)
  where
    mapped : (run_json json stored (ended (concat ps ++ p))).puts ≡ a ∷ []
    mapped =
        ap (λ o. (on_message json o stored (ended (concat ps ++ p))).puts) parsed
        ∙ ap (λ o. (on_reply o stored (ended (concat ps ++ p))).puts) built
        ∙ put_mapping-puts stored a (ended (concat ps ++ p))

    read :
        json_read p true
          (json_reads ps (modify_response page_size true status content_type new_flow))
        ≡ ended (concat ps ++ p)
    read =
        ap (λ f. json_read p true (json_reads ps f))
          (modify_response-buffered page_size status content_type low high plain is_json)
        ∙ ap (json_read p true) (json_reads-buffered ps [] (omega (arith, h)))
        ∙ json_read-last p (concat ps) h
