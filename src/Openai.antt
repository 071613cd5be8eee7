-- ===== src/Openai.antt =====
-- internal/openai: requests, responses and the assistant message that is rebuilt from them. The
-- decoders of encoding/json are an interface here.
pub mod Accumulator
pub mod Assistant
pub mod Request
use opgate.Base.{Option, List}
use opgate.Base.Bytes.{Bytes}
use opgate.Base.Int.{ℤ}
use opgate.Canon.Text.{Runes}
use opgate.Canon.{Value}

-- `toolCallDelta`
pub record ToolCallDelta : Type 0 where
  pub index : Option ℤ
  pub id : Runes
  pub type : Runes
  pub name : Option Runes
  pub arguments : Option Runes

-- `deltaLike`; the content is raw, and empty if the field is absent. The reasoning fields are not
-- read.
pub record Delta : Type 0 where
  pub content : Bytes
  pub tool_calls : List ToolCallDelta

-- A choice of `streamChunk`.
pub record Choice : Type 0 where
  pub index : Option ℤ
  pub delta : Option Delta
  pub message : Option Delta
  pub text : Option Runes

-- What the gateway asks of encoding/json: `none` is an error. `decode` reads a value with UseNumber,
-- the others are `Unmarshal` into a type.
pub record Json : Type 0 where
  pub decode : Bytes → Option Value
  pub marshal : Value → Bytes
  pub string_of : Bytes → Option Runes
  pub object_of : Bytes → Option (List (Runes × Bytes))
  pub array_of : Bytes → Option (List Bytes)
  pub tool_calls_of : Bytes → Option (List ToolCallDelta)
  pub chunk_of : Bytes → Option (List Choice)
  pub messages_of : Bytes → Option (List Bytes)
