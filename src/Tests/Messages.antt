-- ===== src/Tests/Messages.antt =====
-- Tests of the canonical form and of the assistant's message.
use opgate.Base.{◌↔◌, true, [], ◌∷◌, ◌++◌, ◌≡◌, ◌≢◌, refl, map, arith}
use opgate.Base.Bytes.{Bytes, codes, equal, trim_space, leb_bytes}
use opgate.Sse.Framing.{event, stream}
use opgate.Canon.{emit, emit_object, join_commas, sort_members, insert_member, write_member}
use opgate.Canon.Text.{utf8_text, write_string}
use opgate.Canon.Injective.{emit-Same_iff}
use opgate.Canon.Order.{Same, ends}
use opgate.Base.{if◌then◌else◌, some, none, false}
use opgate.Base.Int.{pos}
use opgate.Openai.{ToolCallDelta, Json}
use opgate.Openai.Assistant.Calls.{opening, continuing, call, ends}
use opgate.Openai.Assistant.CallStream.{one_more, none_left, stream-tools}
use opgate.Openai.Request.{member}
use opgate.Openai.Accumulator.{nil_call, err}
use opgate.Openai.Assistant.{done_mark, assistant_from_sse, assistant_from_message}
use opgate.Openai.Assistant.Stream.{one, more, IsString, Carries, stream-message}
use opgate.Openai.Assistant.Tools.{canonical_total}
use opgate.Tests.Samples.{sample_json, ho, ha, ho_ha, ha_ho, ho_ha-IsSound, ha_ho-IsSound}

piece-IsString : IsString sample_json ho ho
unfolding equal trim_space
piece-IsString = record { there = λ e. cc; not_null = refl; reads = refl }

ho-Carries : Carries sample_json ho ho
unfolding equal trim_space
ho-Carries = record { raw = ho; not_done = refl; chunk = refl; string = piece-IsString }

ha-Carries : Carries sample_json ha ha
unfolding equal trim_space
ha-Carries = record {
  raw = ha;
  not_done = refl;
  chunk = refl;
  string = record { there = λ e. cc; not_null = refl; reads = refl };
}

whole-IsString : IsString sample_json (codes "hoha") (codes "hoha")
unfolding equal trim_space
whole-IsString = record { there = λ e. cc; not_null = refl; reads = refl }

stream-message_example :
    assistant_from_sse sample_json (stream true (map event (ho ∷ ha ∷ []) ++ event done_mark ∷ []))
    ≡ (assistant_from_message sample_json (codes "hoha"), true)
unfolding member equal
stream-message_example =
    stream-message sample_json true [] (codes "hoha") (codes "hoha")
      ((codes "content", codes "hoha") ∷ []) (more ho-Carries (one ha-Carries))
      (omega arith, (omega arith, tt)) tt refl refl refl whole-IsString

canonical_total_example :
    ((assistant_from_sse sample_json (codes "data: x\n\n")).0 ≢ err nil_call)
    × (assistant_from_message sample_json (codes "x") ≢ err nil_call)
canonical_total_example = canonical_total sample_json (codes "data: x\n\n") (codes "x")

emit-Same_iff_example : (emit ho_ha ≡ emit ha_ho) ↔ Same ho_ha ha_ho
emit-Same_iff_example = emit-Same_iff ho_ha ha_ho ho_ha-IsSound ha_ho-IsSound

emit-test : emit ho_ha ≡ codes "{\"ha\":2,\"ho\":1}"
unfolding emit emit_object join_commas sort_members insert_member leb_bytes utf8_text write_member
    write_string
emit-test = refl

abbrev fragment : Bytes → ToolCallDelta
fragment raw =
    if equal raw (codes "one")
    then opening 0 (codes "id") (codes "function") (codes "go") (codes "{")
    else continuing 0 (codes "}")

-- A decoder of two fragments of a call, and of the call whole.
abbrev calls_json : Json
calls_json = record sample_json {
  chunk_of = λ raw. some (
      record {
        index = some (pos 0);
        delta = some (record { content = []; tool_calls = fragment raw ∷ [] });
        message = none;
        text = none;
      }
      ∷ []);
  object_of = λ raw. some ((codes "tool_calls", raw) ∷ []);
  tool_calls_of = λ raw. some (
      record {
        index = none;
        id = codes "id";
        type = codes "function";
        name = some (codes "go");
        arguments = some (codes "{}");
      }
      ∷ []);
}

stream-tools_example :
    assistant_from_sse calls_json
      (stream false (map event (codes "one" ∷ codes "two" ∷ []) ++ event done_mark ∷ []))
    ≡ (assistant_from_message calls_json (codes "x"), true)
unfolding member equal trim_space
stream-tools_example =
    stream-tools calls_json false [] (codes "x") (codes "x") ((codes "tool_calls", codes "x") ∷ [])
      (one_more {ds = fragment (codes "one") ∷ []} (record { not_done = refl; chunk = refl })
        (one_more {ds = fragment (codes "two") ∷ []} (record { not_done = refl; chunk = refl })
          none_left))
      (call none (codes "id") (codes "function") (codes "go") (codes "{") (codes "}" ∷ []) (ends 1))
      (omega arith, (omega arith, tt)) tt refl refl refl refl
