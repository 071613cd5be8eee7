-- ===== src/Proxy/Turn.antt =====
-- internal/proxy/handler.go: a request through `ServeHTTP`, and the turn of a conversation that follows.
use opgate.Base.{
  ℕ, ◌+◌, ◌^◌, ◌≤◌, ◌<◌, Bool, true, List, [], ◌∷◌, ◌++◌, none, some, ◌≡◌, ◌≢◌, refl, sym, ap, ◌∙◌,
  length, length-take, take_all, leb, if◌then◌else◌, arith, Option-cases, inl, inr,
}
use opgate.Base.Bytes.{Bytes}
use opgate.Canon.Hash.{full_state, hash_bytes}
use opgate.Openai.{Json}
use opgate.Session.{resolved, Lookup, Resolutions, resolve}
use opgate.Session.Continuity.{Mappings, get_session, put_mapping, resolve-put_mapping}
use opgate.Proxy.{
  Request, client_identity, read_limit, BodyRead, read_failed, too_large, complete, read_body,
  Participant, chat_messages, Forward, forward, prepare, is_chat, serve_body, serve_http,
}

-- For a limit below the largest int64, `readBody` refuses exactly the bodies that are too long,
-- reports a failure exactly on a body within the limit whose reading fails, and else returns the
-- whole body.
pub read_body_lem :
    (body : Bytes) (broken : Bool) (max : ℕ)
    → max + 1 < 2 ^ 63
    → read_body body broken max ≡ (
        if leb (length body) max
        then (if broken then read_failed else complete body)
        else too_large)
unfolding read_body read_limit
read_body_lem body broken max h =
    ground (arith, length-take (max + 1) body, take_all (max + 1) body)

complete-body :
    (body : Bytes) (broken : Bool) (max : ℕ) (b : Bytes)
    → max + 1 < 2 ^ 63
    → read_body body broken max ≡ complete b
    → (b ≡ body) × (length body ≤ max)
complete-body body broken max b h e = ground (arith, read_body_lem body broken max h)

module _ (json : Json) (sha256 : Bytes → Bytes) (lookup : Bytes → Bytes → Lookup)
    (fresh : Bytes) where
  -- What is forwarded for a request: its body, and its own session header if it has one or if it
  -- does not take part.
  record IsFaithful (r : Request) (body : Bytes) (f : Forward) : Type 0 where
    same_body : f.body ≡ body
    own_session : r.session ≢ [] → f.session ≡ r.session
    untouched : f.participant ≡ none → f.session ≡ r.session

  resolve-own :
      (client_hash session : Bytes) (msgs : List Bytes) (m : Resolutions)
      → session ≢ []
      → (resolve sha256 lookup fresh client_hash msgs session m).0.session_id ≡ session
  unfolding resolve
  resolve-own client_hash [] msgs m h = absurd (h refl)
  resolve-own client_hash (c ∷ cs) msgs m h = refl

  prepare-IsFaithful :
      (r : Request) (body : Bytes) (m : Resolutions)
      → IsFaithful r body (prepare json sha256 lookup fresh r body m).0
  unfolding prepare
  prepare-IsFaithful r body m = elim (Option-cases (chat_messages json body)) [
    | inl e ↦
        rw (e, prepare)
          (record { same_body = refl; own_session = λ _. refl; untouched = λ _. refl })
    | inr (msgs, e) ↦
        rw (e, prepare)
          (record {
            same_body = refl;
            own_session = resolve-own (client_identity sha256 r) r.session msgs m;
            untouched = λ n. cc;
          })
  ]

  pub serve_body-forward :
      (r : Request) (o : BodyRead) (m m' : Resolutions) (f : Forward)
      → serve_body json sha256 lookup fresh r o m ≡ (forward f, m')
      → (b : Bytes) × (o ≡ complete b) × ((prepare json sha256 lookup fresh r b m).0 ≡ f)
  unfolding serve_body
  serve_body-forward r read_failed m m' f e = cc
  serve_body-forward r too_large m m' f e = cc
  serve_body-forward r (complete b) m m' f e = (b, refl, cc)

  pub chat-forward :
      (max : ℕ) (r : Request) (m m' : Resolutions) (f : Forward)
      → serve_http json sha256 lookup fresh max r m ≡ (forward f, m')
      → serve_body json sha256 lookup fresh r (read_body r.body r.broken max) m ≡ (forward f, m')
  unfolding serve_http
  chat-forward max r m m' f e = ground arith

-- With a body limit below the largest int64, whatever `ServeHTTP` forwards for a chat request is the body that the client sent, whole and
-- within the limit; a session that the client supplied goes with it unchanged, and so does the
-- session header of every request that takes no part in the session logic.
pub serve_http-forward :
    (json : Json) (sha256 : Bytes → Bytes) (lookup : Bytes → Bytes → Lookup) (fresh : Bytes)
    (max : ℕ) (r : Request) (m m' : Resolutions) (f : Forward)
    → max + 1 < 2 ^ 63
    → serve_http json sha256 lookup fresh max r m ≡ (forward f, m')
    → (f.body ≡ r.body)
      × (length r.body ≤ max)
      × (r.session ≢ [] → f.session ≡ r.session)
      × (f.participant ≡ none → f.session ≡ r.session)
serve_http-forward json sha256 lookup fresh max r m m' f h e =
    let (b, read, prepared) =
      serve_body-forward json sha256 lookup fresh r _ m m' f
        (chat-forward json sha256 lookup fresh max r m m' f e) in
    let (same, fits) = complete-body r.body r.broken max b h read in
    let v = prepare-IsFaithful json sha256 lookup fresh r b m in
    (
      sym (ap (λ g. g.body) prepared) ∙ v.same_body ∙ same,
      fits,
      λ own. sym (ap (λ g. g.session) prepared) ∙ v.own_session own,
      λ out.
          sym (ap (λ g. g.session) prepared) ∙ v.untouched (ap (λ g. g.participant) prepared ∙ out),
    )

-- The next turn of a conversation. A participant's answer `a` was stored under its session. A later
-- chat request of the same client, whose body is read and holds the participant's messages, the
-- answer and one more message, without a session header, is forwarded unchanged with the same session,
-- and counts as a hit.
pub serve_http-next_turn :
    (json : Json) (sha256 : Bytes → Bytes) (fresh : Bytes) (max : ℕ) (p : Participant)
    (a user : Bytes) (s : Mappings) (r : Request) (m : Resolutions)
    → is_chat r ≡ true
    → read_body r.body r.broken max ≡ complete r.body
    → client_identity sha256 r ≡ p.client_hash
    → r.session ≡ []
    → chat_messages json r.body ≡ some (p.canon_msgs ++ a ∷ user ∷ [])
    → serve_http json sha256
        (get_session (put_mapping sha256 p.client_hash p.canon_msgs p.decision.session_id a s))
        fresh
        max
        r
        m
      ≡ (
        forward (record {
          body = r.body;
          session = p.decision.session_id;
          participant = some (record {
            client_hash = p.client_hash;
            canon_msgs = p.canon_msgs ++ a ∷ user ∷ [];
            decision = record {
              session_id = p.decision.session_id;
              source = resolved;
              history_hash = hash_bytes sha256 (full_state p.canon_msgs a);
            };
          });
        }),
        record m { resolve_hit = m.resolve_hit + 1 },
      )
unfolding serve_http serve_body prepare
serve_http-next_turn json sha256 fresh max p a user s r m chat whole same none_own msgs =
    rw (chat, whole)
      (rw (msgs, prepare)
        (rw (
          same,
          none_own,
          resolve-put_mapping sha256 fresh p.client_hash p.decision.session_id a user p.canon_msgs s
              m,
        )))
