-- ===== src/Tests/Histories.antt =====
-- Tests of histories that differ.
use opgate.Canon.Text.{write_string}
use opgate.Openai.Assistant.{with_calls, message_content}
use opgate.Openai.Accumulator.{canonical, merge_tools, merge_content}
use opgate.Base.Bytes.{trim_space}
use opgate.Canon.Text.{utf8_text}
use opgate.Base.{List, map, ◌↔◌, if◌then◌else◌, if_case, some_injective}
use opgate.Base.Bytes.{equal, leb_bytes}
use opgate.Canon.{emit_object, sort_members, insert_member, write_member}
use opgate.Canon.Hash.{history_hash}
use opgate.Base.{◌<◌, false, [], ◌∷◌, none, some, ◌≡◌, refl, arith, All, subst}
use opgate.Base.Bytes.{Bytes, codes}
use opgate.Canon.{Value, text, canonicalize, emit, join_commas}
use opgate.Canon.Hash.{message_array, full_state}
use opgate.Canon.Regular.{IsRegular}
use opgate.Canon.Abstract.{Message, IsSoundDecoder, form}
use opgate.Canon.Sound.{IsSound}
use opgate.Proxy.History.{chat_messages-state}
use opgate.Openai.{Json}
use opgate.Openai.Assistant.{assistant_from_message}
use opgate.Proxy.{Request, client_identity, chat_messages, prepare}
use opgate.Proxy.Isolation.{IsExact, prepare-apart}
use opgate.Session.{Resolutions}
use opgate.Session.Continuity.{Mappings, get_session, put_mapping}
use opgate.Tests.Samples.{sample_json, ho_ha, ha_ho, ho_ha-IsSound, ha_ho-IsSound}

-- A decoder that finds one message and a content in every body, and reads every value as an empty
-- text.
abbrev empty_json : Json
empty_json = record sample_json {
  decode = λ raw. some (text []);
  object_of = λ raw. some ((codes "messages", raw) ∷ (codes "content", raw) ∷ []);
}

text-eq : (v : Value) → some (text []) ≡ some v → text [] ≡ v
text-eq v e = cc

empty-IsExact : IsExact empty_json
unfolding IsRegular
empty-IsExact raw v e = subst IsRegular (text-eq v e) tt

-- A hash that gives bytes: the parity of the length.
abbrev odd : Bytes → Bytes
odd [] = 0 ∷ []
odd (_ ∷ []) = 1 ∷ []
odd (_ ∷ _ ∷ bs) = odd bs

odd-bytes : (x : Bytes) → All (λ b. b < 256) (odd x)
odd-bytes [] = (omega arith, tt)
odd-bytes (_ ∷ []) = (omega arith, tt)
odd-bytes (_ ∷ _ ∷ bs) = odd-bytes bs

abbrev asked : Request
asked = record {
  method = codes "POST";
  path = codes "/chat/completions";
  authorization = [];
  x_api_key = codes "k";
  api_key = [];
  session = [];
  body = codes "{}";
  broken = false;
}

abbrev none_counted : Resolutions
none_counted = record { client_supplied = 0; resolve_hit = 0; resolve_miss = 0; store_errors = 0 }

abbrev nothing : Mappings
nothing key = none

abbrev blank : Bytes
blank = codes "\"\""

prepare-apart_example :
    prepare empty_json odd
      (get_session
        (put_mapping odd (client_identity odd asked) (blank ∷ []) (codes "s") blank nothing))
      (codes "new")
      asked
      (codes "{}")
      none_counted
    ≡ prepare empty_json odd (get_session nothing) (codes "new") asked (codes "{}") none_counted
unfolding message_array full_state join_commas chat_messages assistant_from_message canonicalize
    emit write_string with_calls canonical message_content merge_tools merge_content trim_space
prepare-apart_example =
    prepare-apart empty_json odd (codes "new") asked asked (codes "{}") (codes "{}") (blank ∷ [])
      (blank ∷ []) (codes "yo") blank (codes "s") nothing none_counted empty-IsExact odd-bytes
      (λ e. cc) refl refl refl (λ e. cc)

-- A decoder that reads the text "a" as an object with two fields, and every other text as the object
-- with these in the other order; a request with two messages.
abbrev turned : Bytes → Value
turned raw = if equal raw (codes "a") then ho_ha else ha_ho

abbrev turned_json : Json
turned_json = record sample_json {
  decode = λ raw. some (turned raw);
  object_of = λ raw. some ((codes "messages", raw) ∷ []);
  array_of = λ raw. some (raw ∷ codes "b" ∷ []);
}

turned-IsSound : (raw : Bytes) → IsSound (turned raw)
turned-IsSound raw =
    if_case IsSound (equal raw (codes "a")) _ _ (λ _. ho_ha-IsSound) (λ _. ha_ho-IsSound)

turned-IsSoundDecoder : IsSoundDecoder turned_json.decode
turned-IsSoundDecoder raw v e = subst IsSound (some_injective e) (turned-IsSound raw)

abbrev written : Bytes
written = codes "{\"ha\":2,\"ho\":1}"

chat_messages-state_example :
    (ps : List Message) × (qs : List Message) × (map form ps ≡ written ∷ written ∷ [])
    × (map form qs ≡ written ∷ written ∷ [])
    × ((history_hash odd (written ∷ written ∷ []) ≡ history_hash odd (written ∷ written ∷ []))
        ↔ (ps ≡ qs))
unfolding chat_messages canonicalize emit emit_object join_commas sort_members insert_member
    write_member write_string utf8_text leb_bytes equal
chat_messages-state_example =
    chat_messages-state turned_json turned-IsSoundDecoder odd (codes "a") (codes "b")
      (written ∷ written ∷ []) (written ∷ written ∷ []) odd-bytes (λ e. refl) refl refl
