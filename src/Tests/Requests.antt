-- ===== src/Tests/Requests.antt =====
-- Tests of sessions and of the handler.
use opgate.Base.{
  ◌+◌, ◌≤◌, ◌<◌, true, false, List, [], ◌∷◌, ◌++◌, none, some, ◌≡◌, ◌≢◌, refl, arith, length, leb,
  if◌then◌else◌, All,
}
use opgate.Base.Bytes.{Bytes, codes, equal, has_suffix, has_prefix, trim_space, trim_suffix}
use opgate.Openai.{Json}
use opgate.Collector.{
  new_collector, write, append, watch_done, cut_page, watch_lines, split_line, is_done, drop_tail,
}
use opgate.Canon.{join_commas, canonicalize, emit}
use opgate.Canon.Text.{write_string}
use opgate.Canon.Hash.{full_state, hash_bytes}
use opgate.Store.Keys.{session_key, temp_key, session_key-injective}
use opgate.Session.{resolved, new, Resolutions}
use opgate.Session.Continuity.{Mappings, get_session, put_mapping}
use opgate.Collector.Finalize.{found}
use opgate.Proxy.{
  Request, client_identity, read_body, BodyRead, read_failed, too_large, complete, Participant,
  chat_messages, canonical_messages, Forward, forward, is_chat, serve_body, serve_http, prepare,
}
use opgate.Proxy.Response.{
  Flow, modify_response, new_flow, stream_read, finish, finish_once, tee, finalize_at_done,
}
use opgate.Proxy.Response.{json_read, run_json, finalize_json}
use opgate.Proxy.Buffered.{json_reads, json_read-put_mapping}
use opgate.Proxy.Response.{contains}
use opgate.Openai.Request.{parse_completion_response, member}
use opgate.Openai.Assistant.{assistant_from_message, with_calls, message_content}
use opgate.Openai.Accumulator.{
  canonical, merge_tools, merge_content, merge_delta, call_values, is_blank, message_value,
  sort_indices,
}
use opgate.Canon.{number, emit_object, sort_members, insert_member, canonical_value, write_member}
use opgate.Canon.Text.{encode_rune, escape_rune, escape_runes, hex_escape, utf8_text, write_rune}
use opgate.Base.Bytes.{leb_bytes}
use opgate.Proxy.Runs.{Run, started, stream_reads, closes}
use opgate.Proxy.Once.{mapping_once}
use opgate.Proxy.Answers.{answer_of, body_read_failed, body_too_large, serve_http-answer}
use opgate.Proxy.Turn.{serve_http-forward, serve_http-next_turn}
use opgate.Tests.Samples.{sample_json, sample_hash}

session_key-injective_example :
    (session_key (codes "ab") (codes "1") ≡ session_key (codes "cd") (codes "2")
      → (codes "ab" ≡ codes "cd") × (codes "1" ≡ codes "2"))
    × (session_key (codes "ab") (codes "1") ≢ temp_key (codes "r"))
session_key-injective_example =
    session_key-injective (codes "ab") (codes "cd") (codes "1") (codes "2") (codes "r")
      (omega arith, (omega arith, tt)) (omega arith, (omega arith, tt))

abbrev no_mappings : Mappings
no_mappings key = none

abbrev counters : Resolutions
counters = record { client_supplied = 0; resolve_hit = 0; resolve_miss = 0; store_errors = 0 }

abbrev first : List Bytes
first = codes "\"hello\"" ∷ []

abbrev answer : Bytes
answer = codes "\"hi\""

abbrev user : Bytes
user = codes "\"bye\""

-- A hash that gives bytes: the parity of the length.
abbrev pub parity : Bytes → Bytes
parity [] = 0 ∷ []
parity (_ ∷ []) = 1 ∷ []
parity (_ ∷ _ ∷ bs) = parity bs

pub parity-bytes : (x : Bytes) → All (λ b. b < 256) (parity x)
parity-bytes [] = (omega arith, tt)
parity-bytes (_ ∷ []) = (omega arith, tt)
parity-bytes (_ ∷ _ ∷ bs) = parity-bytes bs

abbrev request : Request
request = record {
  method = codes "POST";
  path = codes "/v1/chat/completions";
  authorization = codes "Bearer x";
  x_api_key = [];
  api_key = [];
  session = [];
  body = codes "{}";
  broken = false;
}

-- A stream that is mapped at the sentinel, and then closed.
abbrev response : Flow
response = modify_response 16 true 200 (codes "text/event-stream") new_flow

abbrev closed : Flow
closed = finish (stream_read false (found answer) true (codes "data: [DONE]\n\n") false response)

closed-Run : Run sample_json closed
unfolding modify_response has_prefix
closed-Run = closes (
    stream_reads false (found answer) true (codes "data: [DONE]\n\n") false
      (started 16 true 200 (codes "text/event-stream")) refl)

mapping_once_example :
    (length closed.puts ≤ 1)
    × (closed.counters.mapping_created + closed.counters.mapping_error ≡ length closed.puts)
    × (closed.counters.finalize_success ≡ closed.counters.mapping_created)
    × (closed.counters.stream_completed + closed.counters.stream_aborted ≤ 1)
mapping_once_example = mapping_once sample_json closed-Run

closed-test : length closed.puts ≡ 1
unfolding finish finish_once stream_read tee finalize_at_done opgate.Proxy.Response.put_mapping
    modify_response has_prefix write append watch_done cut_page watch_lines split_line is_done
    new_collector equal trim_space trim_suffix drop_tail
closed-test = refl

-- A decoder that finds three messages.
abbrev chat_json : Json
chat_json = record sample_json {
  object_of = λ raw. some ((codes "messages", raw) ∷ []);
  array_of = λ raw. some (codes "hello" ∷ codes "hi" ∷ codes "bye" ∷ []);
}

abbrev sent : Forward × Resolutions
sent =
    prepare chat_json sample_hash (get_session no_mappings) (codes "s9") request (codes "{}")
      counters

serve_http-forward_example :
    (sent.0.body ≡ request.body)
    × (length request.body ≤ 10)
    × (request.session ≢ [] → sent.0.session ≡ request.session)
    × (sent.0.participant ≡ none → sent.0.session ≡ request.session)
unfolding serve_http is_chat equal has_suffix serve_body read_body
serve_http-forward_example =
    serve_http-forward chat_json sample_hash (get_session no_mappings) (codes "s9") 10 request
      counters sent.1 sent.0 (omega arith) refl

abbrev participant : Participant
participant = record {
  client_hash = client_identity sample_hash request;
  canon_msgs = first;
  decision = record { session_id = codes "s1"; source = new; history_hash = [] };
}

serve_http-next_turn_example :
    serve_http chat_json sample_hash
      (get_session
        (put_mapping sample_hash participant.client_hash first (codes "s1") answer no_mappings))
      (codes "s9")
      10
      request
      counters
    ≡ (
      forward (record {
        body = request.body;
        session = codes "s1";
        participant = some (record {
          client_hash = participant.client_hash;
          canon_msgs = first ++ answer ∷ user ∷ [];
          decision = record {
            session_id = codes "s1";
            source = resolved;
            history_hash = hash_bytes sample_hash (full_state first answer);
          };
        });
      }),
      record counters { resolve_hit = 1 },
    )
unfolding is_chat equal has_suffix read_body chat_messages canonicalize emit write_string
serve_http-next_turn_example =
    serve_http-next_turn chat_json sample_hash (codes "s9") 10 participant answer user no_mappings
      request counters refl refl refl refl refl

-- A decoder that finds one message in a body, the body itself, and reads back what was written.
abbrev echo_json : Json
echo_json = record sample_json { decode = λ raw. some (number raw) }

abbrev plain : Flow
plain =
    json_read (codes "y") true (
      json_reads (codes "x" ∷ []) (modify_response 16 true 200 (codes "application/json") new_flow))

json_read-put_mapping_example :
    (plain.tasks ≡ finalize_json ∷ [])
    × ((run_json echo_json true plain).puts
        ≡ codes "{\"content\":\"xy\",\"role\":\"assistant\"}" ∷ [])
unfolding has_prefix contains parse_completion_response assistant_from_message with_calls member
    canonical message_content merge_tools merge_content merge_delta trim_space emit write_string
    emit_object join_commas sort_members insert_member equal leb_bytes encode_rune escape_rune
    escape_runes hex_escape utf8_text write_rune canonical_value canonicalize write_member
    call_values is_blank message_value sort_indices
json_read-put_mapping_example =
    json_read-put_mapping echo_json 16 200 (codes "application/json") (codes "x" ∷ []) (codes "y")
      (codes "xy") (codes "{\"content\":\"xy\",\"role\":\"assistant\"}") true refl refl refl refl
      (omega arith) refl refl

serve_http-answer_example :
    answer_of
      (serve_http chat_json sample_hash (get_session no_mappings) (codes "s9") 1 request counters).0
    ≡ (if is_chat request
        then (if leb (length request.body) 1
            then (if request.broken then some body_read_failed else none)
            else some body_too_large)
        else none)
serve_http-answer_example =
    serve_http-answer chat_json sample_hash (get_session no_mappings) (codes "s9") 1 request
      counters (omega arith)

-- A body of two bytes is beyond a limit of one.
answer-test :
    answer_of
      (serve_http chat_json sample_hash (get_session no_mappings) (codes "s9") 1 request counters).0
    ≡ some body_too_large
unfolding serve_http is_chat equal has_suffix serve_body read_body answer_of
answer-test = refl
