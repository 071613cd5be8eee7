-- ===== src/Proxy.antt =====
-- internal/proxy/handler.go: the request side. The response side is in Proxy/Response.
pub mod Response
pub mod Runs
pub mod Reads
pub mod Buffered
pub mod Once
pub mod Turn
pub mod Isolation
pub mod History
pub mod Conversation
pub mod Streamed
pub mod Answers
pub mod System
pub mod Whole
use opgate.Base.{
  ℕ, ◌+◌, ◌^◌, Bool, true, false, ◌&&◌, ◌||◌, not, List, [], ◌∷◌, ◌++◌, Option, none, some, length,
  take, ltb, leb, if◌then◌else◌,
}
use opgate.Base.Bytes.{Bytes, codes, equal, has_prefix, has_suffix}
use opgate.Canon.{Value, canonicalize}
use opgate.Canon.Hash.{hash_bytes}
use opgate.Openai.{Json}
use opgate.Openai.Request.{parse_chat_request}
use opgate.Session.{Source, Decision, Lookup, Resolutions, resolve, is_empty}

-- The parts of a request that the handler reads. A header that is absent is empty, as `Get` says.
-- `broken` says that reading the body fails behind the bytes given.
pub record Request : Type 0 where
  pub method : Bytes
  pub path : Bytes
  pub authorization : Bytes
  pub x_api_key : Bytes
  pub api_key : Bytes
  pub session : Bytes
  pub body : Bytes
  pub broken : Bool

-- `clientIdentity`
unfoldable pub client_identity : (Bytes → Bytes) → Request → Bytes
client_identity sha256 r = hash_bytes sha256 (
    if not (is_empty r.authorization)
    then r.authorization
    else if not (is_empty r.x_api_key)
    then r.x_api_key
    else if not (is_empty r.api_key)
    then r.api_key
    else codes "anonymous")

-- `max+1` in int64, as a bound for `io.LimitReader`: it wraps around to a negative number, which
-- lets nothing through.
unfoldable pub read_limit : ℕ → ℕ
read_limit max = if ltb (max + 1) (2 ^ 63) then max + 1 else 0

pub data BodyRead : Type 0 where
  read_failed : BodyRead
  too_large : BodyRead
  complete : Bytes → BodyRead

-- `readBody`. The reader meets the failure only if the limit lets it read on behind the last byte.
unfoldable pub read_body : Bytes → Bool → ℕ → BodyRead
unfolding read_limit
read_body body broken max =
    if broken && ltb (length body) (read_limit max)
    then read_failed
    else if ltb max (length (take (read_limit max) body))
    then too_large
    else complete (take (read_limit max) body)

-- The loop of `prepare`: every message in canonical form, or none.
unfoldable pub canonical_messages : (Bytes → Option Value) → List Bytes → Option (List Bytes)
canonical_messages decode [] = some []
canonical_messages decode (m ∷ ms) = elim (canonicalize decode m) [
  | none ↦ none
  | some c ↦ elim (canonical_messages decode ms) [ none ↦ none | some cs ↦ some (c ∷ cs) ]
]

-- The part of `reqState` that `prepare` fills in, for a request that takes part.
pub record Participant : Type 0 where
  pub client_hash : Bytes
  pub canon_msgs : List Bytes
  pub decision : Decision

-- The messages that take part: those of a chat request with at least one, all canonical.
unfoldable pub chat_messages : Json → Bytes → Option (List Bytes)
unfolding canonical_messages parse_chat_request
chat_messages json body = elim (parse_chat_request json body) [
  | none ↦ none
  | some [] ↦ none
  | some (m ∷ ms) ↦ canonical_messages json.decode (m ∷ ms)
]

-- What is sent upstream: the body and the session header, with the state of the request.
pub record Forward : Type 0 where
  pub body : Bytes
  pub session : Bytes
  pub participant : Option Participant

pub data Action : Type 0 where
  passthrough : Action
  reject : ℕ → Action
  forward : Forward → Action

-- The test of `ServeHTTP` for a chat completion.
unfoldable pub is_chat : Request → Bool
is_chat r = equal r.method (codes "POST") && has_suffix r.path (codes "/chat/completions")

module _ (json : Json) (sha256 : Bytes → Bytes) (get_session : Bytes → Bytes → Lookup)
    (fresh : Bytes) where
  -- `prepare`: the header is set only for a request that takes part.
  unfoldable pub prepare : Request → Bytes → Resolutions → Forward × Resolutions
  prepare r body m = elim (chat_messages json body) [
    | none ↦ (record { body = body; session = r.session; participant = none }, m)
    | some msgs ↦
        let client_hash = client_identity sha256 r in
        let (dec, m') = resolve sha256 get_session fresh client_hash msgs r.session m in
        (
          record {
            body = body;
            session = dec.session_id;
            participant =
                some (record { client_hash = client_hash; canon_msgs = msgs; decision = dec });
          },
          m',
        )
  ]

  unfoldable pub serve_body : Request → BodyRead → Resolutions → Action × Resolutions
  serve_body r read_failed m = (reject 400, m)
  serve_body r too_large m = (reject 413, m)
  serve_body r (complete body) m = let (f, m') = prepare r body m in (forward f, m')

  -- `ServeHTTP`, up to the reverse proxy.
  unfoldable pub serve_http : ℕ → Request → Resolutions → Action × Resolutions
  serve_http max_request_body r m =
      if is_chat r
      then serve_body r (read_body r.body r.broken max_request_body) m
      else (passthrough, m)
