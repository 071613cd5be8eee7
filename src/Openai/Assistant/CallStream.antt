-- ===== src/Openai/Assistant/CallStream.antt =====
-- internal/openai/assistant.go: a stream of tool calls in fragments, beside a plain response.
use opgate.Base.{
  Bool, true, false, List, [], ◌∷◌, ◌++◌, none, some, map, ◌≡◌, refl, sym, ap, ◌∙◌, All,
}
use opgate.Base.Bytes.{Bytes, codes, equal, trim_space}
use opgate.Base.Int.{pos}
use opgate.Canon.Text.{Runes}
use opgate.Sse.{scan}
use opgate.Sse.Events.{deliver}
use opgate.Sse.Framing.{IsText, Frame, event, text_of, texts, stream, scan-stream}
use opgate.Openai.{ToolCallDelta, Json}
use opgate.Openai.Request.{member}
use opgate.Openai.Accumulator.{new_accumulator, merge_tools, merge_content, merge_delta, canonical}
use opgate.Openai.Assistant.{
  done_mark, merge_choice, merge_choices, Progress, begin, on_event, assistant_from_sse, set_tools,
  message_content, with_calls, assistant_from_message,
}
use opgate.Openai.Assistant.Stream.{on_event-done, texts-events, All-events, IsText-done_mark}
use opgate.Openai.Assistant.Calls.{Calls, merge_tools-append, merge_tools-set_tools}

-- The event is a chunk whose primary choice has these fragments, and nothing else.
pub record Brings (json : Json) (e : Bytes) (ds : List ToolCallDelta) : Type 0 where
  pub not_done : equal (trim_space e) done_mark ≡ false
  pub chunk :
      json.chunk_of (trim_space e)
      ≡ some (
          record {
            index = some (pos 0);
            delta = some (record { content = []; tool_calls = ds });
            message = none;
            text = none;
          }
          ∷ [])

pub data Fragments (json : Json) : List Bytes → List ToolCallDelta → Type 0 where
  none_left : Fragments json [] []
  one_more :
      {e : Bytes} {es : List Bytes} {ds ds' : List ToolCallDelta}
      → Brings json e ds
      → Fragments json es ds'
      → Fragments json (e ∷ es) (ds ++ ds')

module _ (json : Json) where
  on_event-Brings :
      {e : Bytes} {ds : List ToolCallDelta} (p : Progress)
      → Brings json e ds
      → on_event json e p ≡ (record p { root = merge_tools ds p.root }, true)
  unfolding on_event merge_choices merge_choice merge_delta merge_content
  on_event-Brings p h = rw (h.not_done, h.chunk) refl

  deliver-Fragments :
      {es : List Bytes} {ds : List ToolCallDelta} (rest : List Bytes) (p : Progress)
      → Fragments json es ds
      → deliver (on_event json) (es ++ done_mark ∷ rest) p
        ≡ record { root = merge_tools ds p.root; saw_done = true }
  unfolding deliver merge_tools
  deliver-Fragments rest p none_left = rw (on_event-done json) refl
  deliver-Fragments rest p (one_more {ds} {ds'} h hs) = rw (on_event-Brings p h) (
      deliver-Fragments rest (record p { root = merge_tools ds p.root }) hs
      ∙ ap (λ a. record { root = a; saw_done = true }) (sym (merge_tools-append ds ds' p.root)))

-- A stream whose events, in texts without a line break, bring tool calls in fragments, one call after
-- another, and then the sentinel, with either line ending: its assistant message is that of a plain
-- response with the whole calls and no content, and the sentinel is seen.
pub stream-tools :
    (json : Json) (crlf : Bool) {es : List Bytes} {ds tcs : List ToolCallDelta} (rest : List Frame)
    (raw calls : Bytes) (m : List (Runes × Bytes))
    → Fragments json es ds
    → Calls 0 ds tcs
    → All IsText es
    → All (λ f. IsText (text_of f)) rest
    → json.object_of raw ≡ some m
    → member (codes "content") m ≡ none
    → member (codes "tool_calls") m ≡ some calls
    → json.tool_calls_of calls ≡ some tcs
    → assistant_from_sse json (stream crlf (map event es ++ event done_mark ∷ rest))
      ≡ (assistant_from_message json raw, true)
unfolding assistant_from_sse assistant_from_message texts with_calls message_content
stream-tools json crlf {es} {ds} {tcs} rest raw calls m fragments whole he hr ho hc ht hd =
    ap (λ (s : Progress). (canonical json s.root, s.saw_done)) scanned
    ∙ ap (λ r. (r, true)) (sym plain)
  where
    frames : List Frame
    frames = map event es ++ event done_mark ∷ rest

    texts_done : texts (event done_mark ∷ rest) ≡ done_mark ∷ texts rest
    texts_done = refl

    scanned :
        scan (on_event json) (stream crlf frames) begin
        ≡ record { root = set_tools 0 tcs new_accumulator; saw_done = true }
    scanned =
        scan-stream (on_event json) crlf frames begin
          (All-events es (event done_mark ∷ rest) he (IsText-done_mark, hr))
        ∙ ap (λ l. deliver (on_event json) l begin)
            (texts-events es (event done_mark ∷ rest) ∙ ap (λ l. es ++ l) texts_done)
        ∙ deliver-Fragments json (texts rest) begin fragments
        ∙ ap (λ a. record { root = a; saw_done = true })
            (merge_tools-set_tools new_accumulator whole tt)

    plain : assistant_from_message json raw ≡ canonical json (set_tools 0 tcs new_accumulator)
    plain =
        rw (ho, assistant_from_message) (rw (hc, ht, message_content) (rw (hd, with_calls) refl))
