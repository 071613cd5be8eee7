-- ===== src/Tests/Smokes.antt =====
-- The smoke test with decoders that know its texts.
use opgate.Base.{◌-◌, List, [], ◌∷◌, length, take, drop, none, some, refl, if◌then◌else◌}
use opgate.Base.Bytes.{Bytes, codes, equal}
use opgate.Base.Int.{pos}
use opgate.Canon.Text.{Runes}
use opgate.Openai.{Choice, Json}
use opgate.Smoke.{
  mock_chunk, quoted, user_hi, answer_raw, user_again, first_messages, second_messages, body_of,
}
use opgate.Smoke.Texts.{message, whole_text, ReadsSmoke}
use opgate.Tests.Samples.{sample_json}

abbrev parts_of : Bytes → List (Runes × Bytes)
parts_of messages =
    (codes "model", codes "\"m\"")
    ∷ (codes "stream", codes "true")
    ∷ (codes "messages", messages)
    ∷ []

abbrev content_of : Bytes → Bytes
content_of raw =
    if equal raw (mock_chunk (codes "mock "))
    then quoted (codes "mock ")
    else if equal raw (mock_chunk (codes "smoke "))
    then quoted (codes "smoke ")
    else quoted (codes "ok")

abbrev chunk : Bytes → List Choice
chunk raw =
    record {
      index = some (pos 0);
      delta = some (record { content = content_of raw; tool_calls = [] });
      message = none;
      text = none;
    }
    ∷ []

abbrev smoke_json : Json
smoke_json = record sample_json {
  decode = λ raw. some (
      if equal raw user_hi
      then message (codes "user") (codes "hi")
      else if equal raw user_again
      then message (codes "user") (codes "again")
      else message (codes "assistant") whole_text);
  marshal = λ v. answer_raw;
  object_of = λ raw. some (
      if equal raw answer_raw
      then (codes "role", quoted (codes "assistant")) ∷ (codes "content", quoted whole_text) ∷ []
      else if equal raw (body_of first_messages)
      then parts_of first_messages
      else parts_of second_messages);
  array_of = λ raw.
      some
        (if equal raw first_messages then user_hi ∷ [] else user_hi ∷ answer_raw ∷ user_again ∷ []);
  string_of = λ raw. some (take (length raw - 2) (drop 1 raw));
  chunk_of = λ raw. some (chunk raw);
}

smoke-ReadsSmoke : ReadsSmoke smoke_json
unfolding equal
smoke-ReadsSmoke = record {
  first_body = refl;
  first_array = refl;
  second_body = refl;
  second_array = refl;
  hi = refl;
  answer = refl;
  again = refl;
  answer_object = refl;
  answer_text = refl;
  read_back = refl;
  chunks = (refl, (refl, (refl, tt)));
  texts = (refl, (refl, (refl, tt)));
}
