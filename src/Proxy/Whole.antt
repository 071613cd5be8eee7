-- ===== src/Proxy/Whole.antt =====
-- internal/proxy/handler.go with internal/collector, internal/session and internal/store: the requests,
-- their streamed responses, the pool and the mappings as one system that takes steps.
pub mod Stands
pub mod Worth
pub mod Reached
pub mod Plain
pub mod Sources
pub mod Steps
pub mod Moves
pub mod Origin
pub mod Progress
pub mod Retry
use opgate.Base.{
  ℕ, Bool, true, false, not, ◌||◌, List, [], ◌∷◌, ◌++◌, Option, none, some, ◌≡◌, ◌<◌, length,
  if◌then◌else◌,
}
use opgate.Base.Bytes.{Bytes}
use opgate.Openai.{Json}
use opgate.Collector.{Collector, write}
use opgate.Collector.Finalize.{Outcome, found, failure, finalize}
use opgate.Collector.Pool.{
  Config, Job, World, new_pool, update, is_full, pool_write, receive, finish_job, end_finalize,
}
use opgate.Session.{Lookup, Resolutions}
use opgate.Session.Continuity.{Mappings, put_mapping}
use opgate.Session.Faults.{try_get_session}
use opgate.Store.{Pages}
use opgate.Store.Faults.{Fate, StoreErrors}
use opgate.Proxy.Conversation.{put_all}
use opgate.Proxy.{Request, Participant, Forward, forward, serve_http}
use opgate.Proxy.Response.{
  Flow, Task, finalize_json, new_flow, modify_response, json_read, finish, run_json,
}
use opgate.Proxy.System.{expire}

-- Where a response is. Of a streamed one: it is read, also behind a `Finalize` at the sentinel that
-- failed; it waits for that `Finalize`; it has ended or was closed; it waits for the `Finalize` at its
-- end; it is through. With a `Finalize` goes the collector at its call. A plain response goes with its
-- part of `reqState`, up to its `finalizeJSON`.
pub data Stage : Type 0 where
  unasked reading closed over : Stage
  at_done ending : Collector → Stage
  plain answered : Flow → Stage

unfoldable pub is_through : Stage → Bool
is_through over = true
is_through (answered f) = true
is_through _ = false

-- `asked` has the participants, by the number of their response, and `bodies` what has been read of plain
-- responses. `expired` says that an entry of pages has reached its TTL. `troubled` says that, when a
-- `Finalize` of the response was through, its cache had failed, or its pages had expired, or they were
-- not read or not deleted. The entries of `world` are those without an expiry.
pub record Whole : Type 0 where
  pub mappings : Mappings
  pub world : World
  pub asked : ℕ → Option Participant
  pub stages : ℕ → Stage
  pub bodies : ℕ → Bytes
  pub expired : ℕ → Bool
  pub troubled : ℕ → Bool

unfoldable pub is_troubled : Bool → Collector → Collector → Bool → Bool → Bool → Bool
is_troubled before called c gone got deleted =
    before || (called.failed || (c.failed || (gone || (not got || not deleted))))

-- What `GetPages` returns: an error, or the entry; or behind an expiry any pages, since those that came
-- later are there.
unfoldable pub pages_read : Bool → Bool → Pages → Pages → Option Pages
pages_read got gone left entry = if got then some (if gone then left else entry) else none

-- What is next behind a `Finalize` at the sentinel.
unfoldable pub next_stage : Outcome → Stage
next_stage (failure _) = reading
next_stage (found a) = over

module _ (json : Json) (sha256 : Bytes → Bytes) (max : ℕ) (cfg : Config) where
  -- A `Finalize` that was called on `called`, in this state.
  unfoldable pub outcome : ℕ → Collector → Bool → Pages → Whole → Outcome
  unfolding finalize pages_read
  outcome id called got left s =
      (finalize json called (s.world.collectors id)
        (pages_read got (s.expired id) left (s.world.entries id))).0

  -- The mapping behind a `Finalize`, if there is one and the store takes it.
  unfoldable pub put_found : Outcome → Bool → Participant → Mappings → Mappings
  unfolding put_mapping
  put_found (failure _) stored p s = s
  put_found (found a) false p s = s
  put_found (found a) true p s =
      put_mapping sha256 p.client_hash p.canon_msgs p.decision.session_id a s

  -- The state when a `Finalize` is through.
  unfoldable pub through :
      Bool → ℕ → Participant → Collector → Bool → Pages → Bool → Bool → Stage → Whole → Whole
  unfolding outcome put_found is_troubled
  through is_at_done id p called got left deleted stored next s = record s {
    mappings = put_found (outcome id called got left s) stored p s.mappings;
    world = end_finalize is_at_done deleted id s.world;
    stages = update id next s.stages;
    troubled =
        update id
          (is_troubled (s.troubled id) called (s.world.collectors id) (s.expired id) got deleted)
          s.troubled;
  }

  -- The state when `finalizeJSON` is through.
  unfoldable pub through_plain : ℕ → Participant → Flow → Bool → Whole → Whole
  unfolding run_json put_all
  through_plain id p f stored s = record s {
    mappings =
        if stored then put_all sha256 p (run_json json true f).puts s.mappings else s.mappings;
    stages = update id (answered f) s.stages;
  }

  -- The start, with the mappings that a store holds from before.
  unfoldable pub blank : Mappings → Whole
  blank held = record {
    mappings = held;
    world = new_pool cfg;
    asked = λ _. none;
    stages = λ _. unasked;
    bodies = λ _. [];
    expired = λ _. false;
    troubled = λ _. false;
  }

  -- The states that can be reached, with the bytes that each streamed response has written until it was
  -- sealed.
  pub data Serving (held : Mappings) : Whole → (ℕ → Bytes) → Type 0 where
    start : Serving held (blank held) (λ _. [])
    serves :
        {s : Whole} {log : ℕ → Bytes} (id : ℕ) (fate : Fate) (errors : StoreErrors) (fresh : Bytes)
        (r : Request) (m m' : Resolutions) (f : Forward) (p : Participant)
        → Serving held s log
        → s.stages id ≡ unasked
        → s.asked id ≡ none
        → serve_http json sha256
            (λ c h. (try_get_session fate c h s.mappings errors).0)
            fresh
            max
            r
            m
          ≡ (forward f, m')
        → f.participant ≡ some p
        → Serving held (record s { asked = update id (some p) s.asked }) log
    streams :
        {s : Whole} {log : ℕ → Bytes} (id : ℕ) (p : Participant) (status : ℕ) (content_type : Bytes)
        (c : Collector)
        → Serving held s log
        → s.stages id ≡ unasked
        → s.asked id ≡ some p
        → (modify_response cfg.page_size true status content_type new_flow).collector ≡ some c
        → Serving held (record s { stages = update id reading s.stages }) log
    reads :
        {s : Whole} {log : ℕ → Bytes} (id : ℕ) (chunk : Bytes)
        → Serving held s log
        → s.stages id ≡ reading
        → (s.world.collectors id).sealed ≡ false
        → (write (is_full cfg s.world) chunk (s.world.collectors id)).2 ≡ false
        → Serving held
            (record s { world = pool_write cfg id chunk s.world })
            (update id (log id ++ chunk) log)
    meets_done :
        {s : Whole} {log : ℕ → Bytes} (id : ℕ) (chunk : Bytes)
        → Serving held s log
        → s.stages id ≡ reading
        → (s.world.collectors id).sealed ≡ false
        → (write (is_full cfg s.world) chunk (s.world.collectors id)).2 ≡ true
        → Serving held
            (record s {
              world = pool_write cfg id chunk s.world;
              stages =
                  update id
                    (at_done (write (is_full cfg s.world) chunk (s.world.collectors id)).0)
                    s.stages;
            })
            (update id (log id ++ chunk) log)
    ends_at_done :
        {s : Whole} {log : ℕ → Bytes} (id : ℕ) (p : Participant) (called : Collector) (got : Bool)
        (left : Pages) (deleted stored : Bool)
        → Serving held s log
        → s.stages id ≡ at_done called
        → s.asked id ≡ some p
        → (called.failed ≡ false → (s.world.collectors id).inflight ≡ 0)
        → Serving held
            (through true id p called got left deleted stored
              (next_stage (outcome id called got left s))
              s)
            log
    closes :
        {s : Whole} {log : ℕ → Bytes} (id : ℕ)
        → Serving held s log
        → s.stages id ≡ reading
        → Serving held (record s { stages = update id closed s.stages }) log
    calls :
        {s : Whole} {log : ℕ → Bytes} (id : ℕ)
        → Serving held s log
        → s.stages id ≡ closed
        → Serving held
            (record s { stages = update id (ending (s.world.collectors id)) s.stages })
            log
    ends :
        {s : Whole} {log : ℕ → Bytes} (id : ℕ) (p : Participant) (called : Collector) (got : Bool)
        (left : Pages) (deleted stored : Bool)
        → Serving held s log
        → s.stages id ≡ ending called
        → s.asked id ≡ some p
        → (called.failed ≡ false → (s.world.collectors id).inflight ≡ 0)
        → Serving held (through false id p called got left deleted stored over s) log
    answers :
        {s : Whole} {log : ℕ → Bytes} (id : ℕ) (p : Participant) (status : ℕ) (content_type : Bytes)
        → Serving held s log
        → s.stages id ≡ unasked
        → s.asked id ≡ some p
        → modify_response cfg.page_size true status content_type new_flow
          ≡ record new_flow { json_buf = some [] }
        → Serving held
            (record s {
              stages = update id (plain (record new_flow { json_buf = some [] })) s.stages;
              bodies = update id [] s.bodies;
            })
            log
    reads_plain :
        {s : Whole} {log : ℕ → Bytes} (id : ℕ) (chunk : Bytes) (at_eof : Bool) (f : Flow)
        → Serving held s log
        → s.stages id ≡ plain f
        → f.finished ≡ false
        → Serving held
            (record s {
              stages = update id (plain (json_read chunk at_eof f)) s.stages;
              bodies = update id (s.bodies id ++ chunk) s.bodies;
            })
            log
    closes_plain :
        {s : Whole} {log : ℕ → Bytes} (id : ℕ) (f : Flow)
        → Serving held s log
        → s.stages id ≡ plain f
        → Serving held (record s { stages = update id (plain (finish f)) s.stages }) log
    ends_plain :
        {s : Whole} {log : ℕ → Bytes} (id : ℕ) (p : Participant) (f : Flow) (rest : List Task)
        (stored : Bool)
        → Serving held s log
        → s.stages id ≡ plain f
        → s.asked id ≡ some p
        → f.tasks ≡ finalize_json ∷ rest
        → Serving held (through_plain id p f stored s) log
    takes :
        {s : Whole} {log : ℕ → Bytes} (j : Job) (queue : List Job)
        → Serving held s log
        → s.world.queue ≡ j ∷ queue
        → length s.world.busy < cfg.workers
        → Serving held (record s { world = receive j queue s.world }) log
    stores :
        {s : Whole} {log : ℕ → Bytes} (before : List Job) (j : Job) (behind : List Job)
        → Serving held s log
        → s.world.busy ≡ before ++ j ∷ behind
        → Serving held (record s { world = finish_job true true before j behind s.world }) log
    loses :
        {s : Whole} {log : ℕ → Bytes} (kept : Bool) (before : List Job) (j : Job)
        (behind : List Job)
        → Serving held s log
        → s.world.busy ≡ before ++ j ∷ behind
        → Serving held (record s { world = finish_job false kept before j behind s.world }) log
    pages_expire :
        {s : Whole} {log : ℕ → Bytes} (id : ℕ)
        → Serving held s log
        → Serving held (record s { expired = update id true s.expired }) log
    expires :
        {s : Whole} {log : ℕ → Bytes} (key : Bytes)
        → Serving held s log
        → Serving held (record s { mappings = expire key s.mappings }) log

  -- A request that `ServeHTTP` forwarded in a run of the gateway, and that takes part: its session was
  -- looked up in the mappings of the state in which it came.
  pub record IsTaken (held : Mappings) (p : Participant) : Type 0 where
    pub earlier : Whole
    pub written : ℕ → Bytes
    pub reached : Serving held earlier written
    pub fate : Fate
    pub errors : StoreErrors
    pub fresh : Bytes
    pub request : Request
    pub before : Resolutions
    pub behind : Resolutions
    pub sent : Forward
    pub served :
        serve_http json sha256
          (λ c h. (try_get_session fate c h earlier.mappings errors).0)
          fresh
          max
          request
          before
        ≡ (forward sent, behind)
    pub taking : sent.participant ≡ some p
