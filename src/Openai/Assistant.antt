-- ===== src/Openai/Assistant.antt =====
-- internal/openai/assistant.go: the assistant message of a stream and of a plain response.
pub mod Tools
pub mod Stream
pub mod Calls
pub mod CallStream
use opgate.Base.{
  ℕ, suc, Bool, true, false, List, [], ◌∷◌, ◌++◌, Option, none, some, ◌≡◌, refl, if◌then◌else◌,
}
use opgate.Base.Bytes.{Bytes, codes, equal, trim_space}
use opgate.Base.Int.{ℤ, pos, eq_ℤ}
use opgate.Canon.Text.{Runes}
use opgate.Sse.{scan}
use opgate.Openai.{ToolCallDelta, Delta, Choice, Json}
use opgate.Openai.Request.{member}
use opgate.Openai.Accumulator.{
  ToolCall, Accumulator, new_accumulator, with_tool, index_or_zero, merge_content, merge_delta,
  is_empty, Error, bad_message, bad_tool_calls, Reply, ok, err, canonical,
}

abbrev pub merge_optional : Json → Option Delta → Accumulator → Accumulator
merge_optional json none a = a
merge_optional json (some d) a = merge_delta json d a

abbrev pub add_text : Option Runes → Accumulator → Accumulator
add_text none a = a
add_text (some s) a =
    if is_empty s then a else record a { content = a.content ++ s; text_seen = true }

-- One round of the loop over the choices of a chunk: only the primary choice counts.
unfoldable pub merge_choice : Json → Choice → Accumulator → Accumulator
merge_choice json c a =
    if eq_ℤ (index_or_zero c.index) (pos 0)
    then add_text c.text (merge_optional json c.message (merge_optional json c.delta a))
    else a

unfoldable pub merge_choices : Json → List Choice → Accumulator → Accumulator
merge_choices json [] a = a
merge_choices json (c ∷ cs) a = merge_choices json cs (merge_choice json c a)

abbrev pub done_mark : Bytes
done_mark = codes "[DONE]"

-- The variables of `AssistantFromSSE` that its callback changes.
pub record Progress : Type 0 where
  pub root : Accumulator
  pub saw_done : Bool

abbrev pub begin : Progress
begin = record { root = new_accumulator; saw_done = false }

-- The callback: the new state, and whether the scan goes on.
unfoldable pub on_event : Json → Bytes → Progress → Progress × Bool
on_event json event s =
    if equal (trim_space event) done_mark
    then (record s { saw_done = true }, false)
    else elim (json.chunk_of (trim_space event)) [
      | none ↦ (s, true)
      | some choices ↦ (record s { root = merge_choices json choices s.root }, true)
    ]

-- `AssistantFromSSE`: the message or the error, and whether the sentinel was seen.
unfoldable pub assistant_from_sse : Json → Bytes → Reply × Bool
unfolding scan on_event
assistant_from_sse json payload =
    let s = scan (on_event json) payload begin in (canonical json s.root, s.saw_done)

-- What `AssistantFromMessage` does to the state of one tool call.
unfoldable pub set_call : ToolCallDelta → ToolCall → ToolCall
set_call tc st = record {
  id = if is_empty tc.id then st.id else tc.id;
  type = if is_empty tc.type then st.type else tc.type;
  name = elim tc.name [ none ↦ st.name | some s ↦ s ];
  arguments = elim tc.arguments [ none ↦ st.arguments | some s ↦ s ];
}

-- The loop over the tool calls of a full message, which are numbered by their position.
unfoldable pub set_tools : ℕ → List ToolCallDelta → Accumulator → Accumulator
unfolding with_tool set_call
set_tools i [] a = a
set_tools i (tc ∷ tcs) a = set_tools (suc i) tcs (with_tool (pos i) (set_call tc) a)

unfoldable pub message_content : Json → Option Bytes → Accumulator
unfolding merge_delta
message_content json none = new_accumulator
message_content json (some raw) =
    merge_delta json (record { content = raw; tool_calls = [] }) new_accumulator

-- `AssistantFromMessage` behind the decoding of the tool calls, if there are any.
unfoldable pub with_calls : Json → Accumulator → Option Bytes → Reply
with_calls json a none = canonical json a
with_calls json a (some calls) = elim (json.tool_calls_of calls) [
  | none ↦ err bad_tool_calls
  | some tcs ↦ canonical json (set_tools 0 tcs a)
]

-- `AssistantFromMessage`
unfoldable pub assistant_from_message : Json → Bytes → Reply
assistant_from_message json raw = elim (json.object_of raw) [
  | none ↦ err bad_message
  | some m ↦
      with_calls json (message_content json (member (codes "content") m))
        (member (codes "tool_calls") m)
]
