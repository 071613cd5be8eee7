-- ===== src/Collector/Finalize.antt =====
-- internal/collector/collector.go, `Finalize`.
use opgate.Base.{
  ℕ, Bool, true, false, List, ◌∷◌, ◌++◌, Option, none, some, ◌≡◌, ap, ◌∙◌, length, map, All,
  if◌then◌else◌,
}
use opgate.Base.Bytes.{Bytes, codes}
use opgate.Canon.Text.{Runes}
use opgate.Sse.Framing.{IsText, Frame, event, text_of, stream}
use opgate.Store.{Pages}
use opgate.Openai.{Json}
use opgate.Openai.Request.{member}
use opgate.Openai.Accumulator.{Error, no_assistant_content, Reply, ok, err}
use opgate.Openai.Assistant.{done_mark, assistant_from_sse, assistant_from_message}
use opgate.Openai.Assistant.Stream.{IsString, Pieces, stream-message}
use opgate.Collector.{Collector}
use opgate.Collector.Assemble.{assemble}
use opgate.Collector.Pool.{Config, World, Reach}
use opgate.Collector.Delivery.{assemble-log}

pub data Failure : Type 0 where
  cache_failed read_pages stream_incomplete no_assistant_message : Failure
  bad_payload : Error → Failure

pub data Outcome : Type 0 where
  found : Bytes → Outcome
  failure : Failure → Outcome

-- `Stats`
pub record Stats : Type 0 where
  pub pages : ℕ
  pub bytes : ℕ

-- The end of `Finalize`, on what `AssistantFromSSE` returned. A message is never nil there.
unfoldable pub judge : Reply × Bool → Outcome
judge (err no_assistant_content, saw_done) = failure no_assistant_message
judge (err e, saw_done) = failure (bad_payload e)
judge (ok assistant, false) = failure stream_incomplete
judge (ok assistant, true) = found assistant

-- `Finalize` behind the wait: what `GetPages` returned, and the collector then.
unfoldable pub on_pages : Json → Option Pages → Collector → Outcome × Stats
unfolding judge
on_pages json none c = (failure read_pages, record { pages = c.seq; bytes = 0 })
on_pages json (some pages) c =
    let payload = assemble pages c.tail in
    (judge (assistant_from_sse json payload), record { pages = c.seq; bytes = length payload })

-- `Finalize`. It tests the failure at the call, and goes on when `inflight` is 0: `called` is the
-- collector at the call, `c` the collector when the wait is over.
unfoldable pub finalize : Json → Collector → Collector → Option Pages → Outcome × Stats
unfolding on_pages
finalize json called c got =
    if called.failed
    then (failure cache_failed, record { pages = called.seq; bytes = 0 })
    else on_pages json got c

-- In every reachable world: if the cache has not failed by the end of the wait and the store returns
-- the entry, `Finalize` returns what the written bytes mean, and their number.
pub finalize-log :
    (json : Json) (cfg : Config) {w : World} {log : ℕ → Bytes} (id : ℕ) (called : Collector)
    → Reach cfg w log
    → called.failed ≡ false
    → (w.collectors id).failed ≡ false
    → (w.collectors id).finalized ≡ false
    → (w.collectors id).inflight ≡ 0
    → finalize json called (w.collectors id) (some (w.entries id)) ≡ (
      judge (assistant_from_sse json (log id)),
      record { pages = (w.collectors id).seq; bytes = length (log id) },
    )
unfolding finalize
finalize-log json cfg {w} {log} id called r before after live idle =
    rw before (rw (assemble-log cfg id r after live idle))

-- In every reachable world: a request that no finalize has been through wrote a stream whose events,
-- in texts without a line break, carry a text piece by piece and then the sentinel, in whatever
-- chunks and whatever the workers did meanwhile. If its cache has not failed by the end of the wait,
-- when `inflight` is 0, and the store returns the entry, `Finalize` judges the assistant message of a
-- plain response with the whole text and no tool calls, and the stream as complete.
pub finalize-stream :
    (json : Json) (cfg : Config) {w : World} {log : ℕ → Bytes} (id : ℕ) (called : Collector)
    (crlf : Bool) {es : List Bytes} {s : Runes} (rest : List Frame) (raw content : Bytes)
    (m : List (Runes × Bytes))
    → Reach cfg w log
    → called.failed ≡ false
    → (w.collectors id).failed ≡ false
    → (w.collectors id).finalized ≡ false
    → (w.collectors id).inflight ≡ 0
    → log id ≡ stream crlf (map event es ++ event done_mark ∷ rest)
    → Pieces json es s
    → All IsText es
    → All (λ f. IsText (text_of f)) rest
    → json.object_of raw ≡ some m
    → member (codes "tool_calls") m ≡ none
    → member (codes "content") m ≡ some content
    → IsString json content s
    → (finalize json called (w.collectors id) (some (w.entries id))).0
      ≡ judge (assistant_from_message json raw, true)
finalize-stream json cfg id called crlf rest raw content m r before after live idle written pieces
      he hr ho ht hc hs =
    ap (λ x. x.0) (finalize-log json cfg id called r before after live idle)
    ∙ ap (λ b. judge (assistant_from_sse json b)) written
    ∙ ap judge (stream-message json crlf rest raw content m pieces he hr ho ht hc hs)
