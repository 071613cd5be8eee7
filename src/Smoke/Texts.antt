-- ===== src/Smoke/Texts.antt =====
-- scripts/smoke/main.go: the texts of the smoke test, and what the gateway makes of them.
use opgate.Base.{ℕ, false, List, [], ◌∷◌, ◌++◌, map, none, some, ◌≡◌, refl, ap, ◌∙◌, All, arith}
use opgate.Base.Bytes.{Bytes, codes, equal, trim_space}
use opgate.Base.Int.{pos}
use opgate.Canon.{Value, text, object, field, end, emit, canonicalize, canonical_value}
use opgate.Canon.Text.{Runes}
use opgate.Openai.{Json}
use opgate.Openai.Request.{parse_chat_request, member}
use opgate.Openai.Assistant.{message_content, with_calls, assistant_from_message, done_mark}
use opgate.Openai.Assistant.Stream.{
  Pieces, one, more, Carries, IsString, text_message, message_content-string,
}
use opgate.Openai.Accumulator.{ok, canonical, message_value, is_blank}
use opgate.Sse.Framing.{event, stream, IsText}
use opgate.Collector.Pool.{Config, World, Reach}
use opgate.Proxy.{chat_messages, canonical_messages}
use opgate.Proxy.Streamed.{IsStreamed}
use opgate.Smoke.{
  mock_texts, mock_chunk, mock_stream, quoted, user_hi, answer_raw, user_again, first_messages,
  second_messages, body_of,
}

abbrev pub message : Bytes → Bytes → Value
message role content =
    object (field (codes "role") (text role) (field (codes "content") (text content) end))

abbrev pub whole_text : Bytes
whole_text = codes "mock smoke ok"

-- The decoders of encoding/json on the texts of the test: each gives what the text says.
pub record ReadsSmoke (json : Json) : Type 0 where
  pub first_body :
      json.object_of (body_of first_messages)
      ≡ some (
          (codes "model", codes "\"m\"")
          ∷ (codes "stream", codes "true")
          ∷ (codes "messages", first_messages)
          ∷ [])
  pub first_array : json.array_of first_messages ≡ some (user_hi ∷ [])
  pub second_body :
      json.object_of (body_of second_messages)
      ≡ some (
          (codes "model", codes "\"m\"")
          ∷ (codes "stream", codes "true")
          ∷ (codes "messages", second_messages)
          ∷ [])
  pub second_array : json.array_of second_messages ≡ some (user_hi ∷ answer_raw ∷ user_again ∷ [])
  pub hi : json.decode user_hi ≡ some (message (codes "user") (codes "hi"))
  pub answer : json.decode answer_raw ≡ some (message (codes "assistant") whole_text)
  pub again : json.decode user_again ≡ some (message (codes "user") (codes "again"))
  pub answer_object :
      json.object_of answer_raw
      ≡ some
          ((codes "role", quoted (codes "assistant")) ∷ (codes "content", quoted whole_text) ∷ [])
  pub answer_text : json.string_of (quoted whole_text) ≡ some whole_text
  pub read_back :
      json.decode (json.marshal (message (codes "assistant") whole_text))
      ≡ some (message (codes "assistant") whole_text)
  pub chunks :
      All
        (λ c.
          json.chunk_of (mock_chunk c)
          ≡ some (
              record {
                index = some (pos 0);
                delta = some (record { content = quoted c; tool_calls = [] });
                message = none;
                text = none;
              }
              ∷ []))
        mock_texts
  pub texts : All (λ c. json.string_of (quoted c) ≡ some c) mock_texts

abbrev pub form_of : Bytes → Bytes → Bytes
form_of role content = emit (message role content)

module _ (json : Json) (json_reads : ReadsSmoke json) where
  messages_lem :
      (body raw m : Bytes) (fields : List (Runes × Bytes)) (ms cs : List Bytes)
      → json.object_of body ≡ some fields
      → member (codes "messages") fields ≡ some raw
      → json.array_of raw ≡ some (m ∷ ms)
      → canonical_messages json.decode (m ∷ ms) ≡ some cs
      → chat_messages json body ≡ some cs
  unfolding chat_messages parse_chat_request
  messages_lem body raw m fields ms cs e k h l =
      rw (e, chat_messages, parse_chat_request) (rw k (rw h l))

  canonical_one :
      (raw : Bytes) (v : Value) (ms cs : List Bytes)
      → json.decode raw ≡ some v
      → canonical_messages json.decode ms ≡ some cs
      → canonical_messages json.decode (raw ∷ ms) ≡ some (emit v ∷ cs)
  unfolding canonical_messages canonicalize
  canonical_one raw v ms cs e k = rw (e, canonical_messages, canonicalize) (rw k refl)

  pub first-messages :
      chat_messages json (body_of first_messages) ≡ some (form_of (codes "user") (codes "hi") ∷ [])
  unfolding member equal canonical_messages
  first-messages =
      messages_lem _ _ _ _ _ _ json_reads.first_body refl json_reads.first_array
        (canonical_one _ _ [] [] json_reads.hi refl)

  pub second-messages :
      chat_messages json (body_of second_messages)
      ≡ some (
          form_of (codes "user") (codes "hi")
          ∷ form_of (codes "assistant") whole_text
          ∷ form_of (codes "user") (codes "again")
          ∷ [])
  unfolding member equal canonical_messages
  second-messages = messages_lem _ _ _ _ _ _ json_reads.second_body refl json_reads.second_array (
      canonical_one _ _ (answer_raw ∷ user_again ∷ []) _ json_reads.hi (
        canonical_one _ _ (user_again ∷ []) _ json_reads.answer
          (canonical_one _ _ [] [] json_reads.again refl)))

  pub whole-IsString : IsString json (quoted whole_text) whole_text
  unfolding equal trim_space
  whole-IsString = record { there = λ e. cc; not_null = refl; reads = json_reads.answer_text }

  canonical-text :
      canonical json (text_message json whole_text) ≡ ok (form_of (codes "assistant") whole_text)
  unfolding canonical message_value is_blank canonical_value canonicalize text_message
  canonical-text = rw json_reads.read_back refl

  object_lem :
      (raw content : Bytes) (fields : List (Runes × Bytes))
      → json.object_of raw ≡ some fields
      → member (codes "tool_calls") fields ≡ none
      → member (codes "content") fields ≡ some content
      → assistant_from_message json raw ≡ canonical json (message_content json (some content))
  unfolding assistant_from_message with_calls
  object_lem raw content fields o t c =
      rw (o, assistant_from_message) (rw (t, with_calls) (rw c refl))

  pub answer-form :
      assistant_from_message json answer_raw ≡ ok (form_of (codes "assistant") whole_text)
  unfolding member equal
  answer-form =
      object_lem answer_raw (quoted whole_text) _ json_reads.answer_object refl refl
      ∙ ap (canonical json) (message_content-string json _ _ whole-IsString)
      ∙ canonical-text

  carries :
      (c : Bytes)
      → equal (trim_space (mock_chunk c)) done_mark ≡ false
      → trim_space (mock_chunk c) ≡ mock_chunk c
      → equal (trim_space (quoted c)) (codes "null") ≡ false
      → json.chunk_of (mock_chunk c)
        ≡ some (
            record {
              index = some (pos 0);
              delta = some (record { content = quoted c; tool_calls = [] });
              message = none;
              text = none;
            }
            ∷ [])
      → json.string_of (quoted c) ≡ some c
      → Carries json (mock_chunk c) c
  carries c not_done trimmed not_null chunk string = record {
    raw = quoted c;
    not_done = not_done;
    chunk = ap json.chunk_of trimmed ∙ chunk;
    string = record { there = λ e. cc; not_null = not_null; reads = string };
  }

  pub mock-Pieces : Pieces json (map mock_chunk mock_texts) whole_text
  unfolding equal trim_space
  mock-Pieces =
      let (c1, (c2, (c3, _))) = json_reads.chunks in
      let (t1, (t2, (t3, _))) = json_reads.texts in
      more (carries (codes "mock ") refl refl refl c1 t1) (
        more (carries (codes "smoke ") refl refl refl c2 t2)
          (one (carries (codes "ok") refl refl refl c3 t3)))

  pub mock-stream :
      mock_stream ≡ stream false (map event (map mock_chunk mock_texts) ++ event done_mark ∷ [])
  unfolding mock_stream stream
  mock-stream = refl

  mock-IsText : All IsText (map mock_chunk mock_texts)
  mock-IsText = (omega arith, (omega arith, (omega arith, tt)))

  -- The stream of the upstream, written by a request and stored, is one that says what the plain
  -- message of the second round says.
  pub mock-IsStreamed :
      (cfg : Config) {w : World} {log : ℕ → Bytes} (id : ℕ)
      → Reach cfg w log
      → (w.collectors id).failed ≡ false
      → (w.collectors id).finalized ≡ false
      → (w.collectors id).inflight ≡ 0
      → log id ≡ mock_stream
      → IsStreamed json cfg w log id answer_raw
  unfolding member equal
  mock-IsStreamed cfg id r good live idle whole = record {
    crlf = false;
    events = map mock_chunk mock_texts;
    content = whole_text;
    behind = [];
    raw_content = quoted whole_text;
    fields = (codes "role", quoted (codes "assistant")) ∷ (codes "content", quoted whole_text) ∷ [];
    reached = r;
    good = good;
    live = live;
    stored = idle;
    written = whole ∙ mock-stream;
    pieces = mock-Pieces;
    texts = mock-IsText;
    texts_behind = tt;
    object = json_reads.answer_object;
    without_tools = refl;
    has_content = refl;
    string = whole-IsString;
  }
