-- ===== src/Proxy/Answers.antt =====
-- internal/proxy/handler.go: the answers that the gateway gives by itself, and the count of requests.
use opgate.Base.{
  ℕ, ◌+◌, ◌^◌, ◌<◌, Bool, true, false, [], ◌∷◌, ◌++◌, Option, none, some, ◌≡◌, refl, ap, ◌∙◌,
  length, leb, ◌==◌, if◌then◌else◌, Bool-cases, inl, inr,
}
use opgate.Base.Bytes.{Bytes, codes}
use opgate.Openai.{Json}
use opgate.Session.{Lookup, Resolutions}
use opgate.Collector.{fail}
use opgate.Proxy.{
  Request, BodyRead, read_failed, too_large, complete, read_body, Action, passthrough, reject,
  forward, is_chat, serve_body, serve_http,
}
use opgate.Proxy.Response.{Flow}
use opgate.Proxy.Turn.{read_body_lem}

pub record Answer : Type 0 where
  pub status : ℕ
  pub content_type : Bytes
  pub body : Bytes

-- A JSON error, with its message and its code.
error_body : Bytes → Bytes → Bytes
error_body message code =
    codes "{\"error\":{\"message\":\""
    ++ message
    ++ codes "\",\"type\":\"opgate_error\",\"code\":\""
    ++ code
    ++ codes "\"}}"

-- `errorHandler`, when the request to the upstream fails.
unfoldable pub error_handler : Answer
unfolding error_body
error_handler = record {
  status = 502;
  content_type = codes "application/json";
  body = error_body (codes "upstream request failed") (codes "bad_gateway");
}

-- `bodyTooLarge`
unfoldable pub body_too_large : Answer
unfolding error_body
body_too_large = record {
  status = 413;
  content_type = codes "application/json";
  body = error_body (codes "request body too large") (codes "body_too_large");
}

-- What `http.Error` answers when the body cannot be read: plain text, with a line break behind it.
unfoldable pub body_read_failed : Answer
unfolding error_body
body_read_failed = record {
  status = 400;
  content_type = codes "text/plain; charset=utf-8";
  body = error_body (codes "failed to read request body") (codes "body_read_failed") ++ b'\n' ∷ [];
}

-- The answer of `ServeHTTP` where it returns early.
unfoldable pub answer_of : Action → Option Answer
unfolding body_too_large body_read_failed
answer_of passthrough = none
answer_of (forward f) = none
answer_of (reject status) = if status == 400 then some body_read_failed else some body_too_large

-- The counter `Requests`, by its kind.
pub record RequestCounts : Type 0 where
  pub chat : ℕ
  pub passthrough_count : ℕ

unfoldable pub count_request : Request → RequestCounts → RequestCounts
unfolding is_chat
count_request r n =
    if is_chat r
    then record n { chat = n.chat + 1 }
    else record n { passthrough_count = n.passthrough_count + 1 }

-- `abortCollector`, which nothing calls: what `Abort` does to the collector.
unfoldable pub abort_collector : Flow → Flow
unfolding fail
abort_collector f = elim f.collector [ none ↦ f | some c ↦ record f { collector = some (fail c) } ]

refusal : BodyRead → Option Answer
refusal read_failed = some body_read_failed
refusal too_large = some body_too_large
refusal (complete _) = none

refusal-if :
    (fits broken : Bool) (body : Bytes)
    → refusal (if fits then (if broken then read_failed else complete body) else too_large)
      ≡ (if fits then (if broken then some body_read_failed else none) else some body_too_large)
unfolding refusal
refusal-if true true body = refl
refusal-if true false body = refl
refusal-if false broken body = refl

module _ (json : Json) (sha256 : Bytes → Bytes) (lookup : Bytes → Bytes → Lookup)
    (fresh : Bytes) where
  served-refusal :
      (r : Request) (o : BodyRead) (m : Resolutions)
      → answer_of (serve_body json sha256 lookup fresh r o m).0 ≡ refusal o
  unfolding serve_body answer_of refusal
  served-refusal r read_failed m = refl
  served-refusal r too_large m = refl
  served-refusal r (complete b) m = refl

  -- With a limit below the largest int64, `ServeHTTP` answers by itself exactly a chat completion
  -- whose body is beyond the limit, with status 413, or is within it and cannot be read, with status
  -- 400; every other request goes on to the reverse proxy.
  pub serve_http-answer :
      (max : ℕ) (r : Request) (m : Resolutions)
      → max + 1 < 2 ^ 63
      → answer_of (serve_http json sha256 lookup fresh max r m).0 ≡ (
          if is_chat r
          then (if leb (length r.body) max
              then (if r.broken then some body_read_failed else none)
              else some body_too_large)
          else none)
  unfolding serve_http answer_of
  serve_http-answer max r m h = elim (Bool-cases (is_chat r)) [
    | inl chat ↦ rw chat (
        served-refusal r (read_body r.body r.broken max) m
        ∙ ap refusal (read_body_lem r.body r.broken max h)
        ∙ refusal-if (leb (length r.body) max) r.broken r.body)
    | inr other ↦ rw other refl
  ]
