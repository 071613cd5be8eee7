-- ===== src/Openai/Request.antt =====
-- internal/openai/request.go
use opgate.Base.{List, [], ◌∷◌, Option, none, some, if◌then◌else◌}
use opgate.Base.Bytes.{Bytes, codes, equal}
use opgate.Canon.Text.{Runes}
use opgate.Openai.{Json}

-- `m[key]` and whether it is there, in what the decoder made of an object.
unfoldable pub member : Runes → List (Runes × Bytes) → Option Bytes
unfolding equal
member k [] = none
member k ((j, raw) ∷ fs) = if equal j k then some raw else member k fs

-- `ParseChatRequest`: the raw messages, if the body is an object with an array of them.
unfoldable pub parse_chat_request : Json → Bytes → Option (List Bytes)
unfolding member
parse_chat_request json body = elim (json.object_of body) [
  | none ↦ none
  | some top ↦ elim (member (codes "messages") top) [ none ↦ none | some raw ↦ json.array_of raw ]
]

first_message : List Bytes → Option Bytes
first_message [] = none
first_message ([] ∷ _) = none
first_message ((c ∷ cs) ∷ _) = some (c ∷ cs)

-- `ParseCompletionResponse`: choices[0].message, if there is one.
unfoldable pub parse_completion_response : Json → Bytes → Option Bytes
unfolding first_message
parse_completion_response json body = elim (json.messages_of body) [
  | none ↦ none
  | some messages ↦ first_message messages
]
