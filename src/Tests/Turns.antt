-- ===== src/Tests/Turns.antt =====
-- Two turns of a conversation, with a plain and with a streamed response.
use opgate.Base.{false, true, [], ◌∷◌, ◌++◌, none, some, ◌≡◌, refl, arith, if◌then◌else◌}
use opgate.Base.Bytes.{
  Bytes, codes, equal, has_suffix, has_prefix, trim_space, trim_suffix, leb_bytes,
}
use opgate.Canon.{
  number, join_commas, canonicalize, emit, emit_object, sort_members, insert_member,
  canonical_value, write_member,
}
use opgate.Canon.Text.{
  write_string, encode_rune, escape_rune, escape_runes, hex_escape, utf8_text, write_rune,
}
use opgate.Openai.{Json}
use opgate.Openai.Request.{parse_completion_response, member}
use opgate.Openai.Assistant.{assistant_from_message, with_calls, message_content}
use opgate.Openai.Assistant.Stream.{one, IsString, Carries}
use opgate.Openai.Accumulator.{
  ok, canonical, merge_tools, merge_content, merge_delta, call_values, is_blank, message_value,
  sort_indices,
}
use opgate.Store.{put_page}
use opgate.Collector.{
  new_collector, submit, write, append, watch_done, cut_page, watch_lines, split_line, is_done,
  page_done,
}
use opgate.Collector.Finalize.{finalize}
use opgate.Collector.Pool.{update, new_pool, pool_write, receive, finish_job, is_full}
use opgate.Session.{new, Resolutions, resolve}
use opgate.Session.Continuity.{Mappings, get_session}
use opgate.Proxy.{
  Request, client_identity, read_body, chat_messages, Forward, forward, is_chat, serve_body,
  serve_http, prepare, Participant,
}
use opgate.Proxy.Response.{
  Flow, modify_response, new_flow, stream_read, json_read, run_json, contains,
}
use opgate.Proxy.Buffered.{json_reads}
use opgate.Proxy.Conversation.{session_of, put_all, Continues, plain_conversation}
use opgate.Proxy.Streamed.{IsStreamed, stream_conversation}
use opgate.Tests.Samples.{sample_json, sample_hash}
use opgate.Tests.Pools.{small, stored, written, log, last_chunk, hi, run, log-stream}

-- A decoder that keeps values as they stand, and finds one message in the body "1", three in others.
abbrev pub answer : Bytes
answer = codes "{\"content\":\"hi\",\"role\":\"assistant\"}"

abbrev pub json : Json
json = record sample_json {
  decode = λ raw. some (number raw);
  object_of = λ raw. some ((codes "content", raw) ∷ (codes "messages", raw) ∷ []);
  array_of = λ raw. some (
      if equal raw (codes "1")
      then codes "hello" ∷ []
      else codes "hello" ∷ answer ∷ codes "bye" ∷ []);
}

abbrev pub chat_of : Bytes → Request
chat_of body = record {
  method = codes "POST";
  path = codes "/v1/chat/completions";
  authorization = codes "Bearer x";
  x_api_key = [];
  api_key = [];
  session = [];
  body = body;
  broken = false;
}

abbrev nothing : Mappings
nothing key = none

abbrev pub counts : Resolutions
counts = record { client_supplied = 0; resolve_hit = 0; resolve_miss = 0; store_errors = 0 }

abbrev pub sent : Forward × Resolutions
sent =
    prepare json sample_hash (get_session nothing) (codes "s1") (chat_of (codes "1")) (codes "1")
      counts

abbrev pub partner : Participant
partner = record {
  client_hash = client_identity sample_hash (chat_of (codes "1"));
  canon_msgs = codes "hello" ∷ [];
  decision = record { session_id = codes "s1"; source = new; history_hash = [] };
}

second-Continues :
    Continues json sample_hash 10
      (chat_of (codes "1"))
      partner
      answer
      (codes "bye")
      (chat_of (codes "2"))
unfolding is_chat equal has_suffix read_body chat_messages canonicalize emit write_string
    client_identity
second-Continues = record {
  chat = refl;
  whole = refl;
  same = refl;
  none_own = refl;
  messages = refl;
}

pub sent-forward :
    serve_http json sample_hash (get_session nothing) (codes "s1") 10 (chat_of (codes "1")) counts
    ≡ (forward sent.0, sent.1)
unfolding serve_http is_chat equal has_suffix serve_body read_body
sent-forward = refl

pub sent-partner : sent.0.participant ≡ some partner
unfolding prepare chat_messages canonicalize emit write_string resolve
sent-partner = refl

pub hi-answer : assistant_from_message json hi ≡ ok answer
unfolding has_prefix contains parse_completion_response assistant_from_message with_calls member
    canonical message_content merge_tools merge_content merge_delta trim_space emit write_string
    emit_object join_commas sort_members insert_member equal leb_bytes encode_rune escape_rune
    escape_runes hex_escape utf8_text write_rune canonical_value canonicalize write_member
    call_values is_blank message_value sort_indices
hi-answer = refl

hi-parsed : parse_completion_response json (codes "h" ++ codes "i") ≡ some hi
unfolding parse_completion_response
hi-parsed = refl

plain_conversation_example :
    session_of
      (serve_http json sample_hash
        (get_session (
          put_all sample_hash partner
            (run_json json true (
              json_read (codes "i") true (
                json_reads
                  (codes "h" ∷ [])
                  (modify_response 16 true 200 (codes "application/json") new_flow)))).puts
            nothing))
        (codes "s2")
        10
        (chat_of (codes "2"))
        counts).0
    ≡ some (codes "s1")
unfolding has_prefix contains prepare chat_messages canonicalize resolve
plain_conversation_example =
    plain_conversation json sample_hash (get_session nothing) (codes "s1") (codes "s2") 10
      (chat_of (codes "1")) (chat_of (codes "2")) counts sent.1 counts sent.0 partner answer
      (codes "bye") nothing 16 200 (codes "application/json") (codes "h" ∷ []) (codes "i") hi
      sent-forward sent-partner refl refl refl refl (omega arith) hi-parsed hi-answer
      second-Continues

hi-IsString : IsString json hi hi
unfolding equal trim_space
hi-IsString = record { there = λ e. cc; not_null = refl; reads = refl }

hi-Carries : Carries json hi hi
unfolding equal trim_space
hi-Carries = record { raw = hi; not_done = refl; chunk = refl; string = hi-IsString }

pub written-IsStreamed : IsStreamed json small written log 0 hi
unfolding new_pool new_collector pool_write write append cut_page submit watch_done watch_lines
    split_line receive finish_job page_done put_page update is_done equal trim_space trim_suffix
    member
written-IsStreamed = record {
  crlf = false;
  events = hi ∷ [];
  content = hi;
  behind = [];
  raw_content = hi;
  fields = (codes "content", hi) ∷ (codes "messages", hi) ∷ [];
  reached = run;
  good = refl;
  live = refl;
  stored = refl;
  written = log-stream;
  pieces = one hi-Carries;
  texts = (omega arith, tt);
  texts_behind = tt;
  object = refl;
  without_tools = refl;
  has_content = refl;
  string = hi-IsString;
}

abbrev streaming : Flow
streaming = record new_flow { collector = some (stored.collectors 0) }

stream_conversation_example :
    session_of
      (serve_http json sample_hash
        (get_session (
          put_all sample_hash partner
            (stream_read
              (is_full small stored)
              (finalize json
                (write (is_full small stored) last_chunk (stored.collectors 0)).0
                (written.collectors 0)
                (some (written.entries 0))).0
              true
              last_chunk
              false
              streaming).puts
            nothing))
        (codes "s2")
        10
        (chat_of (codes "2"))
        counts).0
    ≡ some (codes "s1")
unfolding new_pool new_collector pool_write write append cut_page submit watch_done watch_lines
    split_line receive finish_job page_done put_page update is_done equal trim_space trim_suffix
    prepare chat_messages canonicalize resolve
stream_conversation_example =
    stream_conversation json sample_hash (get_session nothing) (codes "s1") (codes "s2") 10
      (chat_of (codes "1")) (chat_of (codes "2")) counts sent.1 counts sent.0 partner answer
      (codes "bye") nothing small stored 0 last_chunk hi streaming sent-forward sent-partner refl
      refl refl refl refl written-IsStreamed hi-answer second-Continues
