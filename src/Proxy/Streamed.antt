-- ===== src/Proxy/Streamed.antt =====
-- internal/proxy/handler.go with internal/collector/collector.go: two turns of a conversation, the
-- first of which is answered by a stream.
use opgate.Base.{ℕ, Bool, true, false, List, [], ◌∷◌, ◌++◌, map, none, some, ◌≡◌, ap, ◌∙◌, All}
use opgate.Base.Bytes.{Bytes, codes}
use opgate.Canon.Text.{Runes}
use opgate.Sse.Framing.{Frame, event, stream, text_of, IsText}
use opgate.Openai.{Json}
use opgate.Openai.Request.{member}
use opgate.Openai.Accumulator.{ok}
use opgate.Openai.Assistant.{done_mark, assistant_from_message}
use opgate.Openai.Assistant.Stream.{Pieces, IsString}
use opgate.Collector.{Collector, write, drop_tail}
use opgate.Collector.Finalize.{found, judge, finalize, finalize-stream}
use opgate.Collector.Pool.{Config, World, is_full, Reach}
use opgate.Session.{is_empty, Lookup, Resolutions}
use opgate.Session.Continuity.{Mappings, get_session}
use opgate.Proxy.{Request, Participant, Forward, forward, serve_http}
use opgate.Proxy.Response.{Flow, put_mapping, finalize_at_done, tee, stream_read}
use opgate.Proxy.Conversation.{session_of, put_all, Continues, next_session}

-- A request has written a whole stream, whose events carry a text piece by piece and then the
-- sentinel, and which says what the plain message `raw` says; its pages are in the store, and neither
-- has its cache failed nor a finalize been through.
pub record IsStreamed (json : Json) (cfg : Config) (w : World) (log : ℕ → Bytes) (id : ℕ)
    (raw : Bytes) : Type 0 where
  pub crlf : Bool
  pub events : List Bytes
  pub content : Runes
  pub behind : List Frame
  pub raw_content : Bytes
  pub fields : List (Runes × Bytes)
  pub reached : Reach cfg w log
  pub good : (w.collectors id).failed ≡ false
  pub live : (w.collectors id).finalized ≡ false
  pub stored : (w.collectors id).inflight ≡ 0
  pub written : log id ≡ stream crlf (map event events ++ event done_mark ∷ behind)
  pub pieces : Pieces json events content
  pub texts : All IsText events
  pub texts_behind : All (λ f. IsText (text_of f)) behind
  pub object : json.object_of raw ≡ some fields
  pub without_tools : member (codes "tool_calls") fields ≡ none
  pub has_content : member (codes "content") fields ≡ some raw_content
  pub string : IsString json raw_content content

pub finalize-found :
    (json : Json) (cfg : Config) {w : World} {log : ℕ → Bytes} (id : ℕ) (called : Collector)
    (raw a : Bytes)
    → IsStreamed json cfg w log id raw
    → called.failed ≡ false
    → assistant_from_message json raw ≡ ok a
    → (finalize json called (w.collectors id) (some (w.entries id))).0 ≡ found a
unfolding judge
finalize-found json cfg id called raw a h before built =
    finalize-stream json cfg id called h.crlf h.behind raw h.raw_content h.fields h.reached before
      h.good h.live h.stored h.written h.pieces h.texts h.texts_behind h.object h.without_tools
      h.has_content h.string
    ∙ ap (λ r. judge (r, true)) built

put-at_done :
    (a : Bytes) (f : Flow) → f.puts ≡ [] → (finalize_at_done (found a) true f).puts ≡ a ∷ []
unfolding finalize_at_done put_mapping
put-at_done a f h = ap (λ l. l ++ a ∷ []) h

stream_read-found :
    (full : Bool) (a chunk : Bytes) (flow : Flow) (c : Collector)
    → is_empty chunk ≡ false
    → flow.collector ≡ some c
    → flow.puts ≡ []
    → (write full chunk c).2 ≡ true
    → (stream_read full (found a) true chunk false flow).puts ≡ a ∷ []
unfolding stream_read tee
stream_read-found full a chunk flow c some_bytes collects none_put seen =
    rw (some_bytes, collects)
      (rw seen (
        put-at_done a (record flow { collector = some (drop_tail (write full chunk c).0) })
          none_put))

module _ (json : Json) (sha256 : Bytes → Bytes) where
  -- Two turns with a streamed response. A chat request `q` was forwarded with a session, and takes
  -- part. Behind some reads of its response that stored nothing, a read brings the line of the
  -- sentinel, so that `Finalize` is called; when its wait is over, in whatever world the workers and the
  -- other requests have reached, the stream is whole and says what the plain message `raw` says, with
  -- the answer `a`; and the store takes the mapping. Then every request that continues `q` behind the
  -- answer is forwarded with the same session, whatever fresh session there was.
  pub stream_conversation :
      (lookup : Bytes → Bytes → Lookup) (fresh fresh' : Bytes) (max : ℕ) (q r : Request)
      (m m' n : Resolutions) (f : Forward) (p : Participant) (a user : Bytes) (s : Mappings)
      (cfg : Config) (v : World) {w : World} {log : ℕ → Bytes} (id : ℕ) (chunk raw : Bytes)
      (flow : Flow)
      → serve_http json sha256 lookup fresh max q m ≡ (forward f, m')
      → f.participant ≡ some p
      → is_empty chunk ≡ false
      → flow.collector ≡ some (v.collectors id)
      → flow.puts ≡ []
      → (write (is_full cfg v) chunk (v.collectors id)).2 ≡ true
      → (write (is_full cfg v) chunk (v.collectors id)).0.failed ≡ false
      → IsStreamed json cfg w log id raw
      → assistant_from_message json raw ≡ ok a
      → Continues json sha256 max q p a user r
      → let outcome =
          (finalize json
            (write (is_full cfg v) chunk (v.collectors id)).0
            (w.collectors id)
            (some (w.entries id))).0 in
        session_of
          (serve_http json sha256
            (get_session
              (put_all sha256 p (stream_read (is_full cfg v) outcome true chunk false flow).puts s))
            fresh'
            max
            r
            n).0
        ≡ some f.session
  stream_conversation lookup fresh fresh' max q r m m' n f p a user s cfg v {w} {log} id chunk raw
        flow e h some_bytes collects none_put seen before streamed built c =
      next_session json sha256 lookup fresh fresh' max q r m m' n f p a user s _ e h
        (ap (λ o. (stream_read (is_full cfg v) o true chunk false flow).puts)
            (finalize-found json cfg id (write (is_full cfg v) chunk (v.collectors id)).0 raw a
              streamed before built)
          ∙ stream_read-found (is_full cfg v) a chunk flow (v.collectors id) some_bytes collects
              none_put seen)
        c
