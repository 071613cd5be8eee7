-- ===== src/Openai/Accumulator.antt =====
-- internal/openai/assistant.go: the accumulator of one choice's assistant message.
use opgate.Base.{
  Bool, true, false, not, ◌&&◌, List, [], ◌∷◌, ◌++◌, Option, none, some, if◌then◌else◌,
}
use opgate.Base.Bytes.{Bytes, codes, equal, trim_space}
use opgate.Base.Int.{ℤ, pos, eq_ℤ, leb_ℤ}
use opgate.Canon.Text.{Runes}
use opgate.Canon.{
  Value, null, text, array, object, Items, nil, cons, Fields, end, field, canonical_value,
}
use opgate.Openai.{ToolCallDelta, Delta, Json}

-- `toolCallState`
pub record ToolCall : Type 0 where
  pub id : Runes
  pub type : Runes
  pub name : Runes
  pub arguments : Runes

abbrev pub new_call : ToolCall
new_call = record { id = []; type = []; name = []; arguments = [] }

-- `accumulator`; the map of tool calls is a list whose keys differ.
pub record Accumulator : Type 0 where
  pub content : Runes
  pub text_seen : Bool
  pub null_seen : Bool
  pub complex : Bool
  pub tools : List (ℤ × ToolCall)
  pub tool_order : List ℤ

abbrev pub new_accumulator : Accumulator
new_accumulator = record {
  content = [];
  text_seen = false;
  null_seen = false;
  complex = false;
  tools = [];
  tool_order = [];
}

unfoldable pub find_tool : ℤ → List (ℤ × ToolCall) → Option ToolCall
find_tool i [] = none
find_tool i ((j, st) ∷ ts) = if eq_ℤ j i then some st else find_tool i ts

unfoldable pub change_tool : ℤ → (ToolCall → ToolCall) → List (ℤ × ToolCall) → List (ℤ × ToolCall)
change_tool i f [] = []
change_tool i f ((j, st) ∷ ts) = if eq_ℤ j i then (j, f st) ∷ ts else (j, st) ∷ change_tool i f ts

-- `tool`: makes sure that there is a state for the index.
unfoldable pub add_tool : ℤ → Accumulator → Accumulator
unfolding find_tool
add_tool i a = elim (find_tool i a.tools) [
  | none ↦ record a { tools = a.tools ++ (i, new_call) ∷ []; tool_order = a.tool_order ++ i ∷ [] }
  | some _ ↦ a
]

-- The state that `tool` points at, changed in place.
unfoldable pub with_tool : ℤ → (ToolCall → ToolCall) → Accumulator → Accumulator
unfolding add_tool change_tool
with_tool i f a = let a' = add_tool i a in record a' { tools = change_tool i f a'.tools }

abbrev pub is_empty : Runes → Bool
is_empty [] = true
is_empty (_ ∷ _) = false

-- A field that is set once: `if v != "" && st.F == "" { st.F = v }`.
abbrev first_of_two : Runes → Runes → Runes
first_of_two old new = if not (is_empty new) && is_empty old then new else old

abbrev join_name : Runes → Option Runes → Runes
join_name old none = old
join_name old (some new) =
    if is_empty new
    then old
    else if is_empty old
    then new
    else if equal new old
    then old
    else old ++ new

abbrev add_arguments : Runes → Option Runes → Runes
add_arguments old none = old
add_arguments old (some new) = old ++ new

-- What `mergeDelta` does to the state of one tool call.
unfoldable pub merge_call : ToolCallDelta → ToolCall → ToolCall
unfolding equal
merge_call tc st = record {
  id = first_of_two st.id tc.id;
  type = first_of_two st.type tc.type;
  name = join_name st.name tc.name;
  arguments = add_arguments st.arguments tc.arguments;
}

abbrev pub index_or_zero : Option ℤ → ℤ
index_or_zero none = pos 0
index_or_zero (some i) = i

unfoldable pub merge_tools : List ToolCallDelta → Accumulator → Accumulator
unfolding with_tool merge_call
merge_tools [] a = a
merge_tools (tc ∷ tcs) a = merge_tools tcs (with_tool (index_or_zero tc.index) (merge_call tc) a)

-- The content of `mergeDelta`, which is raw JSON or absent.
unfoldable pub merge_content : Json → Bytes → Accumulator → Accumulator
merge_content json [] a = a
merge_content json (c ∷ cs) a =
    if equal (trim_space (c ∷ cs)) (codes "null")
    then record a { null_seen = true }
    else elim (json.string_of (c ∷ cs)) [
      | none ↦ record a { complex = true }
      | some s ↦ record a { content = a.content ++ s; text_seen = true }
    ]

-- `mergeDelta`
unfoldable pub merge_delta : Json → Delta → Accumulator → Accumulator
merge_delta json d a = merge_tools d.tool_calls (merge_content json d.content a)

abbrev pub no_tools : List (ℤ × ToolCall) → Bool
no_tools [] = true
no_tools (_ ∷ _) = false

-- `empty`
unfoldable pub is_blank : Accumulator → Bool
is_blank a = not a.text_seen && not a.null_seen && not a.complex && no_tools a.tools

-- `sort.Ints`
unfoldable pub insert_index : ℤ → List ℤ → List ℤ
insert_index i [] = i ∷ []
insert_index i (j ∷ l) = if leb_ℤ i j then i ∷ j ∷ l else j ∷ insert_index i l

unfoldable pub sort_indices : List ℤ → List ℤ
unfolding insert_index
sort_indices [] = []
sort_indices (i ∷ l) = insert_index i (sort_indices l)

abbrev optional : Runes → Runes → Fields → Fields
optional key [] fs = fs
optional key (c ∷ cs) fs = field key (text (c ∷ cs)) fs

-- The object of one tool call in `canonical`.
unfoldable pub call_value : ToolCall → Value
call_value st = object (
    field (codes "function")
      (object (field (codes "arguments") (text st.arguments) (optional (codes "name") st.name end)))
      (optional (codes "id") st.id (optional (codes "type") st.type end)))

-- The loop over the sorted indices; a missing map entry would be a nil pointer.
unfoldable pub call_values : List (ℤ × ToolCall) → List ℤ → Option Items
unfolding call_value find_tool
call_values tools [] = some nil
call_values tools (i ∷ is) = elim (find_tool i tools) [
  | none ↦ none
  | some st ↦ elim (call_values tools is) [ none ↦ none | some vs ↦ some (cons (call_value st) vs) ]
]

abbrev content_field : Accumulator → Fields → Fields
content_field a fs =
    if a.text_seen
    then field (codes "content") (text a.content) fs
    else if a.null_seen
    then field (codes "content") null fs
    else fs

-- The map that `canonical` builds.
unfoldable pub message_value : Accumulator → Option Value
unfolding sort_indices call_values
message_value a =
    if no_tools a.tools
    then some (object (field (codes "role") (text (codes "assistant")) (content_field a end)))
    else elim (call_values a.tools (sort_indices a.tool_order)) [
      | none ↦ none
      | some calls ↦ some (
          object (
            field (codes "role") (text (codes "assistant"))
              (content_field a (field (codes "tool_calls") (array calls) end))))
    ]

-- The errors of this package, and `nil_call` for the panic at a missing map entry.
pub data Error : Type 0 where
  complex_content no_assistant_content bad_value bad_message bad_tool_calls nil_call : Error

pub data Reply : Type 0 where
  ok : Bytes → Reply
  err : Error → Reply

-- `canonical`
unfoldable pub canonical : Json → Accumulator → Reply
unfolding message_value is_blank canonical_value
canonical json a =
    if a.complex
    then err complex_content
    else if is_blank a
    then err no_assistant_content
    else elim (message_value a) [
      | none ↦ err nil_call
      | some v ↦ elim (canonical_value json.decode json.marshal v) [
        | none ↦ err bad_value
        | some b ↦ ok b
      ]
    ]
