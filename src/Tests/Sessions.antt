-- ===== src/Tests/Sessions.antt =====
-- A run of the gateway: a first request, its answer, and the next request of the same client.
use opgate.Base.{[], ◌∷◌, none, ◌≡◌, ◌≢◌, refl, sym, ◌∙◌, ◌⊎◌, inl, inr}
use opgate.Base.Bytes.{Bytes, codes, equal, has_suffix}
use opgate.Canon.{canonicalize, emit, join_commas}
use opgate.Canon.Text.{write_string}
use opgate.Canon.Hash.{hash_bytes, history_hash, full_state}
use opgate.Store.Faults.{answered, StoreErrors}
use opgate.Session.{Resolutions, resolve, on_lookup, hit}
use opgate.Session.Continuity.{Mappings, get_session, put_mapping, put_session}
use opgate.Session.Faults.{try_get_session}
use opgate.Proxy.{
  Request, Forward, Participant, client_identity, read_body, chat_messages, is_chat, serve_body,
  serve_http, forward, prepare,
}
use opgate.Proxy.System.{
  Call, System, Running, start, serves, maps, Served, latest, earlier, none_served, Issued,
  Presents, by_authorization, by_x_api_key, by_api_key, as_anonymous,
}
use opgate.Proxy.System.Apart.{TellsApart, sessions_apart}
use opgate.Tests.Requests.{parity, parity-bytes}
use opgate.Tests.Turns.{json, answer, chat_of, counts}

abbrev no_errors : StoreErrors
no_errors _ = 0

abbrev nothing : Mappings
nothing _ = none

abbrev forwarded : Mappings → Bytes → Bytes → Forward × Resolutions
forwarded s fresh body =
    prepare json parity (λ c h. (try_get_session answered c h s no_errors).0) fresh (chat_of body)
      body counts

forwarded-serve :
    (s : Mappings) (fresh : Bytes)
    → serve_http json parity
        (λ c h. (try_get_session answered c h s no_errors).0)
        fresh
        10
        (chat_of (codes "1"))
        counts
      ≡ (forward (forwarded s fresh (codes "1")).0, (forwarded s fresh (codes "1")).1)
unfolding serve_http is_chat equal has_suffix serve_body read_body
forwarded-serve s fresh = refl

abbrev participant : Participant
participant = record {
  client_hash = client_identity parity (chat_of (codes "1"));
  canon_msgs = codes "hello" ∷ [];
  decision = record { session_id = codes "s1"; source = opgate.Session.new; history_hash = [] };
}

abbrev first : Call
first = record { request = chat_of (codes "1"); participant = participant }

abbrev once : System
once = record { mappings = nothing; served = first ∷ [] }

once-Running : Running json parity 10 nothing once
unfolding prepare chat_messages canonicalize emit write_string resolve
once-Running =
    serves answered no_errors (codes "s1") (chat_of (codes "1")) counts
      (forwarded nothing (codes "s1") (codes "1")).1 (forwarded nothing (codes "s1") (codes "1")).0
      participant start (forwarded-serve nothing (codes "s1")) refl

-- Another client, with a key.
abbrev stranger_request : Request
stranger_request = record (chat_of (codes "1")) { authorization = []; x_api_key = codes "key" }

abbrev stranger_forward : Forward × Resolutions
stranger_forward =
    prepare json parity (λ c h. (try_get_session answered c h nothing no_errors).0) (codes "s3")
      stranger_request (codes "1") counts

abbrev stranger : Call
stranger = record {
  request = stranger_request;
  participant = record {
    client_hash = client_identity parity stranger_request;
    canon_msgs = codes "hello" ∷ [];
    decision = record { session_id = codes "s3"; source = opgate.Session.new; history_hash = [] };
  };
}

abbrev both : System
both = record { mappings = nothing; served = stranger ∷ first ∷ [] }

both-Running : Running json parity 10 nothing both
unfolding serve_http is_chat equal has_suffix serve_body read_body prepare chat_messages
    canonicalize emit write_string resolve
both-Running =
    serves answered no_errors (codes "s3") stranger_request counts stranger_forward.1
      stranger_forward.0 stranger.participant once-Running refl refl

abbrev mapped : System
mapped = record both {
  mappings =
      put_mapping parity participant.client_hash (codes "hello" ∷ []) (codes "s1") answer nothing;
}

mapped-Running : Running json parity 10 nothing mapped
mapped-Running = maps first answer both-Running (earlier latest)

-- The request that continues the first finds its session in the store.
abbrev next : Call
next = record {
  request = chat_of (codes "2");
  participant = record {
    client_hash = client_identity parity (chat_of (codes "2"));
    canon_msgs = codes "hello" ∷ answer ∷ codes "bye" ∷ [];
    decision = record {
      session_id = codes "s1";
      source = opgate.Session.resolved;
      history_hash = history_hash parity (codes "hello" ∷ answer ∷ []);
    };
  };
}

abbrev twice : System
twice = record mapped { served = next ∷ mapped.served }

twice-Running : Running json parity 10 nothing twice
unfolding serve_http is_chat equal has_suffix serve_body read_body prepare chat_messages
    canonicalize emit write_string resolve try_get_session put_mapping put_session client_identity
    hash_bytes history_hash join_commas full_state
twice-Running =
    serves answered no_errors (codes "s2") (chat_of (codes "2")) counts
      (forwarded mapped.mappings (codes "s2") (codes "2")).1
      (forwarded mapped.mappings (codes "s2") (codes "2")).0 next.participant mapped-Running refl
      refl

bearer : (body v : Bytes) → Presents (chat_of body) v → v ≡ codes "Bearer x"
bearer body v (by_authorization h e) = e
bearer body v (by_x_api_key a h e) = absurd (cc)
bearer body v (by_api_key a b h e) = absurd (cc)
bearer body v (as_anonymous a b c e) = absurd (cc)

key : (v : Bytes) → Presents stranger_request v → v ≡ codes "key"
key v (by_authorization h e) = absurd (h refl)
key v (by_x_api_key a h e) = e
key v (by_api_key a b h e) = absurd (cc)
key v (as_anonymous a b c e) = absurd (cc)

-- The three requests present two credentials, which the hash tells apart.
one_of :
    (c : Call) (v : Bytes)
    → Served c twice.served
    → Presents c.request v
    → (v ≡ codes "Bearer x") ⊎ (v ≡ codes "key")
one_of c v latest p = inl (bearer (codes "2") v p)
one_of c v (earlier latest) p = inr (key v p)
one_of c v (earlier (earlier latest)) p = inl (bearer (codes "1") v p)
one_of c v (earlier (earlier (earlier k))) p = none_served json parity 10 k

distinct : (x y : Bytes) → x ≡ codes "Bearer x" → y ≡ codes "key" → parity x ≢ parity y
distinct x y e f k = zero_one (rw (e, f) at k)
  where
    zero_one : ◌≢◌ {A = Bytes} (0 ∷ []) (1 ∷ [])
    zero_one z = cc

twice-TellsApart : TellsApart json parity 10 nothing twice.served
twice-TellsApart c d x y k l p q e = elim (one_of c x k p) [
  | inl a ↦ elim (one_of d y l q) [ inl b ↦ a ∙ sym b | inr b ↦ absurd (distinct x y a b e) ]
  | inr a ↦ elim (one_of d y l q) [ inl b ↦ absurd (distinct y x b a (sym e)) | inr b ↦ a ∙ sym b ]
]

sessions_apart_example :
    Issued (codes "Bearer x") (codes "s1") twice.served
    ⊎ ((h : Bytes) × (get_session nothing (hash_bytes parity (codes "Bearer x")) h
          ≡ hit (codes "s1")))
sessions_apart_example =
    sessions_apart json parity 10 nothing next (codes "Bearer x") parity-bytes twice-TellsApart
      twice-Running latest (by_authorization (λ e. cc) refl)
