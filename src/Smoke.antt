-- ===== src/Smoke.antt =====
-- scripts/smoke/main.go: the upstream that the smoke test stands up, the two requests that it sends
-- through the gateway, and the checks that it makes of what comes back. What it starts, sends and waits
-- for is outside; the results of that are the fields of `Seen`.
pub mod Start
pub mod Texts
pub mod Affinity
use opgate.Base.{
  ℕ, Bool, true, false, not, ◌&&◌, ◌||◌, ◌==◌, List, [], ◌∷◌, ◌++◌, map, concat, length, Option,
  none, some, if◌then◌else◌,
}
use opgate.Base.Bytes.{Bytes, codes, equal}
use opgate.Base.{◌*◌, ◌^◌}
use opgate.Base.Int.{pos}
use opgate.Config.{Settings, second}
use opgate.Proxy.{Request, Action, passthrough, reject, forward}
use opgate.Proxy.Response.{contains}
use opgate.Session.{is_empty}

-- The texts that the upstream streams.
abbrev pub mock_texts : List Bytes
mock_texts = codes "mock " ∷ codes "smoke " ∷ codes "ok" ∷ []

-- A text as a JSON string; those of the test have nothing to escape.
abbrev pub quoted : Bytes → Bytes
quoted s = b'"' ∷ s ++ codes "\""

abbrev pub mock_chunk : Bytes → Bytes
mock_chunk c =
    codes "{\"choices\":[{\"index\":0,\"delta\":{\"content\":" ++ quoted c ++ codes "}}]}"

unfoldable pub mock_event : Bytes → Bytes
mock_event c = codes "data: " ++ mock_chunk c ++ codes "\n\n"

-- What the upstream writes as its response.
unfoldable pub mock_stream : Bytes
unfolding mock_event
mock_stream = concat (map mock_event mock_texts) ++ codes "data: [DONE]\n\n"

abbrev pub user_hi : Bytes
user_hi = codes "{\"role\":\"user\",\"content\":\"hi\"}"

abbrev pub answer_raw : Bytes
answer_raw = codes "{\"role\":\"assistant\",\"content\":\"mock smoke ok\"}"

abbrev pub user_again : Bytes
user_again = codes "{\"role\":\"user\",\"content\":\"again\"}"

abbrev pub first_messages : Bytes
first_messages = b'[' ∷ user_hi ++ codes "]"

abbrev pub second_messages : Bytes
second_messages = b'[' ∷ user_hi ++ b',' ∷ answer_raw ++ b',' ∷ user_again ++ codes "]"

-- The body of a round with these messages.
abbrev pub body_of : Bytes → Bytes
body_of messages = codes "{\"model\":\"m\",\"stream\":true,\"messages\":" ++ messages ++ codes "}"

-- `post`: the request of a round.
abbrev pub post : Bytes → Request
post body = record {
  method = codes "POST";
  path = codes "/chat/completions";
  authorization = [];
  x_api_key = [];
  api_key = [];
  session = [];
  body = body;
  broken = false;
}

abbrev pub first_round : Request
first_round = post (body_of first_messages)

abbrev pub second_round : Request
second_round = post (body_of second_messages)

-- The configuration that the test writes, for the address of the Redis that it starts.
abbrev pub smoke_settings : Bytes → Settings
smoke_settings addr = record {
  server = record { listen = codes "127.0.0.1:18098" };
  upstream = record { base_url = codes "http://127.0.0.1:18099/v1" };
  redis = record { addr = addr; db = pos 0; timeout = pos (2 * second) };
  session = record { ttl = pos (168 * 3600 * second) };
  response_cache = record {
    page_size = pos (4 * 2 ^ 10);
    ttl = pos (30 * 60 * second);
    workers = pos 2;
    max_pending_pages = pos 4;
  };
  limits = record { max_request_body = pos (32 * 2 ^ 20) };
  logging = record { level = codes "info" };
}

-- The limit of the configuration that the test writes.
abbrev pub body_limit : ℕ
body_limit = 32 * 2 ^ 20

-- The session headers that the upstream appends to its list when the gateway does this to a request.
unfoldable pub upstream_sees : Request → Action → List Bytes
upstream_sees r passthrough = r.session ∷ []
upstream_sees r (reject status) = []
upstream_sees r (forward f) = f.session ∷ []

-- What the test sees: a status is none if there was an error, and `ended` says whether the process
-- ended before the deadline behind the signal. What the client receives through the reverse proxy, the
-- page of metrics and the end of the process come from outside the models: they are whatever these
-- fields say.
pub record Seen : Type 0 where
  pub health : Option ℕ
  pub first : Option (ℕ × Bytes)
  pub second : Option (ℕ × Bytes)
  pub sessions : List Bytes
  pub metrics : Option Bytes
  pub signalled : Bool
  pub ended : Bool

pub data Verdict : Type 0 where
  smoke_ok : Verdict
  no_health no_chat no_metrics no_signal not_ended : Verdict
  chat_status : ℕ → Verdict
  stream_incomplete : Bytes → Verdict
  not_two_requests : Verdict
  affinity_broken : List Bytes → Verdict
  metrics_missing : Bytes → Verdict

abbrev pub wanted : List Bytes
wanted =
    codes "opgate_session_resolve_hit_total"
    ∷ codes "opgate_session_mapping_created_total"
    ∷ codes "opgate_page_flush_success_total"
    ∷ []

unfoldable pub check_wanted : List Bytes → Bytes → Verdict → Verdict
check_wanted [] text next = next
check_wanted (want ∷ wants) text next =
    let rest = check_wanted wants text next in
    if contains text want then rest else metrics_missing want

unfoldable pub check_end : Seen → Verdict
check_end seen = if seen.signalled then (if seen.ended then smoke_ok else not_ended) else no_signal

unfoldable pub check_metrics : Seen → Verdict
unfolding check_wanted check_end
check_metrics seen = elim seen.metrics [
  | none ↦ no_metrics
  | some text ↦ check_wanted wanted text (check_end seen)
]

unfoldable pub check_sessions : List Bytes → Verdict → Verdict
unfolding equal
check_sessions (s ∷ t ∷ []) next =
    if is_empty s || not (equal s t) then affinity_broken (s ∷ t ∷ []) else next
check_sessions _ next = not_two_requests

unfoldable pub check_streams : List Bytes → Verdict → Verdict
check_streams [] next = next
check_streams (b ∷ bs) next =
    let rest = check_streams bs next in
    if contains b (codes "[DONE]") then rest else stream_incomplete b

-- The status of an answer to `post`, and what comes behind it.
unfoldable pub check_post : Option (ℕ × Bytes) → (Bytes → Verdict) → Verdict
check_post none next = no_chat
check_post (some (status, body)) next = if status == 200 then next body else chat_status status

-- `main` of the test: the first check that fails, or that all is well.
unfoldable pub smoke : Seen → Verdict
unfolding check_metrics check_sessions check_streams check_post
smoke seen = elim seen.health [
  | none ↦ no_health
  | some status ↦
      if status == 200
      then check_post seen.first (λ b1.
        check_post seen.second
          (λ b2. check_streams (b1 ∷ b2 ∷ []) (check_sessions seen.sessions (check_metrics seen))))
      else no_health
]
