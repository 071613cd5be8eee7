-- ===== src/Smoke/Affinity.antt =====
-- scripts/smoke/main.go: the smoke test, run through the model of the gateway.
use opgate.Base.{
  some_injective, ℕ, true, false, List, [], ◌∷◌, ◌++◌, some, ◌≡◌, ◌≢◌, refl, ap, ◌∙◌, All,
}
use opgate.Base.Bytes.{Bytes, has_prefix, has_suffix, codes, equal, equal_iff}
use opgate.Openai.{Json}
use opgate.Collector.{write}
use opgate.Collector.Finalize.{finalize}
use opgate.Collector.Pool.{Config, World, is_full, Reach}
use opgate.Session.{new, Lookup, Resolutions, resolve, is_empty}
use opgate.Session.Continuity.{Mappings, get_session}
use opgate.Proxy.{
  Action, passthrough, reject, Request, Participant, Forward, forward, serve_http, serve_body,
  read_body, read_limit, is_chat, complete, client_identity, prepare, chat_messages,
}
use opgate.Proxy.Response.{Flow, stream_read}
use opgate.Proxy.Conversation.{session_of, put_all, Continues}
use opgate.Proxy.Streamed.{stream_conversation}
use opgate.Smoke.{
  mock_event, mock_stream, answer_raw, first_messages, body_of, first_round, second_round,
}
use opgate.Smoke.{
  body_limit, upstream_sees, Seen, Verdict, smoke_ok, smoke, check_post, check_streams,
  check_sessions, check_metrics, check_wanted, check_end, wanted, mock_event,
}
use opgate.Smoke.Texts.{
  ReadsSmoke, whole_text, form_of, first-messages, second-messages, answer-form, mock-IsStreamed,
}
use opgate.Metrics.{Metric, counter, all_metrics}
use opgate.Proxy.Response.{contains}

-- The page of Prometheus shows a counter without labels by its name.
abbrev pub Exposes : Bytes → Metric → Type 0
Exposes page (counter name []) = contains page name ≡ true
Exposes page _ = Unit

-- What the test sees with these session headers upstream and this page of metrics, if all else goes well:
-- the health check, both statuses, the whole streams, the signal and the end are given as successes.
abbrev pub seen_of : List Bytes → Bytes → Seen
seen_of sessions page = record {
  health = some 200;
  first = some (200, mock_stream);
  second = some (200, mock_stream);
  sessions = sessions;
  metrics = some page;
  signalled = true;
  ended = true;
}

sessions_pass : (s : Bytes) (next : Verdict) → s ≢ [] → check_sessions (s ∷ s ∷ []) next ≡ next
unfolding check_sessions equal
sessions_pass [] next h = absurd (h refl)
sessions_pass (c ∷ cs) next h = rw ((equal_iff (c ∷ cs) (c ∷ cs)).1 refl) refl

wanted_pass :
    (page : Bytes) (next : Verdict)
    → All (Exposes page) all_metrics
    → check_wanted wanted page next ≡ next
unfolding check_wanted all_metrics
wanted_pass page next (_, (hits, (_, (_, (_, (_, (_, (flushed, (_, (_, (_, (mapped, _)))))))))))) =
    rw (hits, mapped, flushed) refl

-- The test passes if the upstream has seen one session, not empty, in both rounds.
smoke_pass :
    (s page : Bytes) (xs ys : List Bytes)
    → s ≢ []
    → xs ≡ s ∷ []
    → ys ≡ s ∷ []
    → All (Exposes page) all_metrics
    → smoke (seen_of (xs ++ ys) page) ≡ smoke_ok
unfolding smoke check_post check_streams check_metrics check_end contains mock_stream has_prefix
    mock_event
smoke_pass s page xs ys h hx hy shown =
    rw (hx, hy) (sessions_pass s _ h ∙ wanted_pass page smoke_ok shown)

sees : (r : Request) (a : Action) (s : Bytes) → session_of a ≡ some s → upstream_sees r a ≡ s ∷ []
unfolding upstream_sees
sees r passthrough s e = cc
sees r (reject n) s e = cc
sees r (forward f) s e = ap (λ x. x ∷ []) (some_injective e)

module _ (json : Json) (json_reads : ReadsSmoke json) where
  module _ (sha256 : Bytes → Bytes) where
    -- The state of the first round.
    abbrev pub partner : Bytes → Participant
    partner fresh = record {
      client_hash = client_identity sha256 first_round;
      canon_msgs = form_of (codes "user") (codes "hi") ∷ [];
      decision = record { session_id = fresh; source = new; history_hash = [] };
    }

    abbrev first_forward : Bytes → Forward
    first_forward fresh = record {
      body = body_of first_messages;
      session = fresh;
      participant = some (partner fresh);
    }

    alone :
        (lookup : Bytes → Bytes → Lookup) (fresh c : Bytes) (r : Request) (m : Resolutions)
        → is_chat r ≡ true
        → read_body r.body r.broken body_limit ≡ complete r.body
        → r.session ≡ []
        → chat_messages json r.body ≡ some (c ∷ [])
        → serve_http json sha256 lookup fresh body_limit r m ≡ (
          forward (record {
            body = r.body;
            session = fresh;
            participant = some (record {
              client_hash = client_identity sha256 r;
              canon_msgs = c ∷ [];
              decision = record { session_id = fresh; source = new; history_hash = [] };
            });
          }),
          m,
        )
    unfolding serve_http serve_body prepare resolve
    alone lookup fresh c r m chat whole own e =
        rw (chat, serve_http) (rw whole (rw (e, prepare) (rw own refl)))

    first-forward :
        (lookup : Bytes → Bytes → Lookup) (fresh : Bytes) (m : Resolutions)
        → serve_http json sha256 lookup fresh body_limit first_round m
          ≡ (forward (first_forward fresh), m)
    unfolding is_chat equal has_suffix read_body read_limit
    first-forward lookup fresh m =
        alone lookup fresh _ first_round m refl refl refl (first-messages json json_reads)

    second-Continues :
        (fresh : Bytes)
        → Continues json sha256 body_limit first_round
            (partner fresh)
            (form_of (codes "assistant") whole_text)
            (form_of (codes "user") (codes "again"))
            second_round
    unfolding is_chat equal has_suffix read_body read_limit client_identity
    second-Continues fresh = record {
      chat = refl;
      whole = refl;
      same = refl;
      none_own = refl;
      messages = second-messages json json_reads;
    }

    -- The session affinity that the smoke test checks, in the model of the gateway. All that the test
    -- sees but the sessions is given (`seen_of`): that the client receives both streams whole, the
    -- metrics and the end of the process are not of the model. The test then finds the sessions right,
    -- wherever the stream of the first round is cut and however the workers store its pages. The fresh session is not empty. Behind some reads that
    -- stored nothing, a read of the first response brings the sentinel; when the wait of `Finalize` is
    -- over, the request has written the whole stream, its pages are in the store, its cache has not
    -- failed and no finalize been through; and the store takes the mapping. The decoders read the
    -- texts of the test, and the page of Prometheus shows each counter without labels.
    pub smoke-passes :
        (fresh fresh' page : Bytes) (s : Mappings) (m n : Resolutions) (cfg : Config) (v : World)
        {w : World} {log : ℕ → Bytes} (id : ℕ) (chunk : Bytes) (flow : Flow)
        → fresh ≢ []
        → is_empty chunk ≡ false
        → flow.collector ≡ some (v.collectors id)
        → flow.puts ≡ []
        → (write (is_full cfg v) chunk (v.collectors id)).2 ≡ true
        → (write (is_full cfg v) chunk (v.collectors id)).0.failed ≡ false
        → Reach cfg w log
        → (w.collectors id).failed ≡ false
        → (w.collectors id).finalized ≡ false
        → (w.collectors id).inflight ≡ 0
        → log id ≡ mock_stream
        → All (Exposes page) all_metrics
        → let outcome =
            (finalize json
              (write (is_full cfg v) chunk (v.collectors id)).0
              (w.collectors id)
              (some (w.entries id))).0 in
          let behind =
            put_all sha256
              (partner fresh)
              (stream_read (is_full cfg v) outcome true chunk false flow).puts
              s in
          smoke (
            seen_of
              (upstream_sees first_round
                  (serve_http json sha256 (get_session s) fresh body_limit first_round m).0
                ++ upstream_sees second_round
                    (serve_http json sha256
                      (get_session behind)
                      fresh'
                      body_limit
                      second_round
                      n).0)
              page)
          ≡ smoke_ok
    smoke-passes fresh fresh' page s m n cfg v {w} {log} id chunk flow some_id bytes collects
          none_put seen before r good live idle whole shown =
        let same =
          stream_conversation json sha256 (get_session s) fresh fresh' body_limit first_round
            second_round m m n (first_forward fresh) (partner fresh)
            (form_of (codes "assistant") whole_text) (form_of (codes "user") (codes "again")) s cfg
            v id chunk answer_raw flow (first-forward (get_session s) fresh m) refl bytes collects
            none_put seen before (mock-IsStreamed json json_reads cfg id r good live idle whole)
            (answer-form json json_reads) (second-Continues fresh) in
        let first_seen =
          sees first_round _ fresh
            (ap (λ x. session_of x.0) (first-forward (get_session s) fresh m)) in
        smoke_pass fresh page _ _ some_id first_seen (sees second_round _ fresh same) shown
