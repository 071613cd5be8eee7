-- ===== src/Tests/Samples.antt =====
-- A decoder for tests: every text is a string, a chunk with that content and an object with it.
use opgate.Base.{List, [], ◌∷◌, none, some, refl, inl, arith}
use opgate.Base.Bytes.{Bytes, codes}
use opgate.Base.Int.{pos}
use opgate.Canon.{Value, text, number, object, field, end, emit}
use opgate.Canon.Text.{utf8_text}
use opgate.Canon.Sound.{IsSound}
use opgate.Openai.{Choice, Json}

abbrev pub sample_chunk : Bytes → List Choice
sample_chunk raw =
    record {
      index = some (pos 0);
      delta = some (record { content = raw; tool_calls = [] });
      message = none;
      text = none;
    }
    ∷ []

abbrev pub sample_json : Json
sample_json = record {
  decode = λ raw. some (text raw);
  marshal = λ v. emit v;
  string_of = λ raw. some raw;
  object_of = λ raw. some ((codes "content", raw) ∷ []);
  array_of = λ raw. some (raw ∷ []);
  tool_calls_of = λ raw. none;
  chunk_of = λ raw. some (sample_chunk raw);
  messages_of = λ raw. some (raw ∷ []);
}

-- A hash that keeps its input, cut to bytes by nothing: the inputs of the tests are bytes.
abbrev pub sample_hash : Bytes → Bytes
sample_hash contents = contents

-- An object in two orders of its fields.
abbrev pub ho : Bytes
ho = codes "ho"

abbrev pub ha : Bytes
ha = codes "ha"

abbrev pub ho_ha : Value
ho_ha = object (field ho (number (codes "1")) (field ha (number (codes "2")) end))

abbrev pub ha_ho : Value
ha_ho = object (field ha (number (codes "2")) (field ho (number (codes "1")) end))

pub ho_ha-IsSound : IsSound ho_ha
unfolding IsSound utf8_text
ho_ha-IsSound = (
  (inl (omega arith), (inl (omega arith), tt)),
  ((λ e. cc), (refl, tt)),
  ((λ e. cc), tt),
  ((inl (omega arith), (inl (omega arith), tt)), ((λ e. cc), (refl, tt)), tt, tt),
)

pub ha_ho-IsSound : IsSound ha_ho
unfolding IsSound utf8_text
ha_ho-IsSound = (
  (inl (omega arith), (inl (omega arith), tt)),
  ((λ e. cc), (refl, tt)),
  ((λ e. cc), tt),
  ((inl (omega arith), (inl (omega arith), tt)), ((λ e. cc), (refl, tt)), tt, tt),
)
