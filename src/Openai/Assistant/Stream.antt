-- ===== src/Openai/Assistant/Stream.antt =====
-- internal/openai/assistant.go: a streamed text beside the same text in a plain response.
use opgate.Base.{
  Bool, true, false, List, [], ◌∷◌, ◌++◌, none, some, ◌≡◌, ◌≢◌, refl, ap, ◌∙◌, arith, All, map,
  append_assoc,
}
use opgate.Base.Bytes.{Bytes, codes, equal, trim_space}
use opgate.Base.Int.{pos}
use opgate.Canon.Text.{Runes}
use opgate.Sse.{scan}
use opgate.Sse.Events.{deliver}
use opgate.Sse.Framing.{IsText, Frame, event, text_of, texts, stream, scan-stream}
use opgate.Openai.{Json}
use opgate.Openai.Request.{member}
use opgate.Openai.Accumulator.{
  Accumulator, new_accumulator, merge_tools, merge_content, merge_delta,
}
use opgate.Openai.Assistant.{
  done_mark, merge_choice, merge_choices, Progress, begin, on_event, assistant_from_sse,
  message_content, with_calls, assistant_from_message,
}

-- The raw content is a JSON string of these runes.
pub record IsString (json : Json) (raw : Bytes) (s : Runes) : Type 0 where
  pub there : raw ≢ []
  pub not_null : equal (trim_space raw) (codes "null") ≡ false
  pub reads : json.string_of raw ≡ some s

-- The event is a chunk whose primary choice has this piece of text, and nothing else.
pub record Carries (json : Json) (e : Bytes) (s : Runes) : Type 0 where
  pub raw : Bytes
  pub not_done : equal (trim_space e) done_mark ≡ false
  pub chunk :
      json.chunk_of (trim_space e)
      ≡ some (
          record {
            index = some (pos 0);
            delta = some (record { content = raw; tool_calls = [] });
            message = none;
            text = none;
          }
          ∷ [])
  pub string : IsString json raw s

-- Events whose pieces make up a text.
pub data Pieces (json : Json) : List Bytes → Runes → Type 0 where
  one : {e : Bytes} {s : Runes} → Carries json e s → Pieces json (e ∷ []) s
  more :
      {e : Bytes} {s : Runes} {es : List Bytes} {t : Runes}
      → Carries json e s
      → Pieces json es t
      → Pieces json (e ∷ es) (s ++ t)

abbrev add_piece : Runes → Accumulator → Accumulator
add_piece s a = record a { content = a.content ++ s; text_seen = true }

module _ (json : Json) where
  merge_content-string :
      (raw : Bytes) (s : Runes) (a : Accumulator)
      → IsString json raw s
      → merge_content json raw a ≡ add_piece s a
  unfolding merge_content
  merge_content-string [] s a h = absurd (h.there refl)
  merge_content-string (c ∷ cs) s a h = rw (h.not_null, h.reads)

  on_event-piece :
      {e : Bytes} {s : Runes} (p : Progress)
      → Carries json e s
      → on_event json e p ≡ (record p { root = add_piece s p.root }, true)
  unfolding on_event merge_choices merge_choice merge_delta merge_tools
  on_event-piece {e} {s} p h =
      rw (h.not_done, h.chunk) (rw (merge_content-string h.raw s p.root h.string))

  pub on_event-done :
      (p : Progress) → on_event json done_mark p ≡ (record p { saw_done = true }, false)
  unfolding on_event trim_space equal
  on_event-done p = refl

  deliver-Pieces :
      {es : List Bytes} {s : Runes} (rest : List Bytes) (p : Progress)
      → Pieces json es s
      → deliver (on_event json) (es ++ done_mark ∷ rest) p
        ≡ record { root = add_piece s p.root; saw_done = true }
  unfolding deliver
  deliver-Pieces rest p (one h) = rw (on_event-piece p h, on_event-done)
  deliver-Pieces rest p (more {s} {t} h hs) = rw (on_event-piece p h) (
      deliver-Pieces rest (record p { root = add_piece s p.root }) hs
      ∙ rw (append_assoc p.root.content s t))

  unfoldable pub text_message : Runes → Accumulator
  text_message s = add_piece s new_accumulator

  pub message_content-string :
      (raw : Bytes) (s : Runes)
      → IsString json raw s
      → message_content json (some raw) ≡ text_message s
  unfolding message_content merge_delta merge_tools text_message
  message_content-string raw s h = merge_content-string raw s new_accumulator h

pub texts-events : (es : List Bytes) (fs : List Frame) → texts (map event es ++ fs) ≡ es ++ texts fs
unfolding texts
texts-events [] fs = refl
texts-events (e ∷ es) fs = ap (◌∷◌ e) (texts-events es fs)

pub All-events :
    (es : List Bytes) (fs : List Frame)
    → All IsText es
    → All (λ f. IsText (text_of f)) fs
    → All (λ f. IsText (text_of f)) (map event es ++ fs)
All-events [] fs h k = k
All-events (e ∷ es) fs (h, hs) k = (h, All-events es fs hs k)

pub IsText-done_mark : IsText done_mark
IsText-done_mark = omega arith

scan-Pieces :
    (json : Json) (crlf : Bool) {es : List Bytes} {s : Runes} (rest : List Frame)
    → Pieces json es s
    → All IsText es
    → All (λ f. IsText (text_of f)) rest
    → scan (on_event json) (stream crlf (map event es ++ event done_mark ∷ rest)) begin
      ≡ record { root = text_message json s; saw_done = true }
unfolding text_message texts
scan-Pieces json crlf {es} rest pieces he hr =
    scan-stream (on_event json) crlf (map event es ++ event done_mark ∷ rest) begin
      (All-events es (event done_mark ∷ rest) he (IsText-done_mark, hr))
    ∙ ap (λ l. deliver (on_event json) l begin)
        (texts-events es (event done_mark ∷ rest) ∙ ap (λ l. es ++ l) texts_done)
    ∙ deliver-Pieces json (texts rest) begin pieces
  where
    texts_done : texts (event done_mark ∷ rest) ≡ done_mark ∷ texts rest
    texts_done = refl

-- A stream whose events, in texts without a line break, carry a text piece by piece and then the
-- sentinel, whatever frames stand behind, with either line ending: its assistant message is that of a
-- plain response with the whole text and no tool calls, and the sentinel is seen.
pub stream-message :
    (json : Json) (crlf : Bool) {es : List Bytes} {s : Runes} (rest : List Frame)
    (raw content : Bytes) (m : List (Runes × Bytes))
    → Pieces json es s
    → All IsText es
    → All (λ f. IsText (text_of f)) rest
    → json.object_of raw ≡ some m
    → member (codes "tool_calls") m ≡ none
    → member (codes "content") m ≡ some content
    → IsString json content s
    → assistant_from_sse json (stream crlf (map event es ++ event done_mark ∷ rest))
      ≡ (assistant_from_message json raw, true)
unfolding assistant_from_sse assistant_from_message with_calls
stream-message json crlf rest raw content m pieces he hr ho ht hc hs =
    rw (scan-Pieces json crlf rest pieces he hr) (
      rw (ho, assistant_from_message)
        (rw (ht, with_calls) (rw hc (rw (message_content-string json content _ hs)))))
