-- ===== src/Proxy/Whole/Progress.antt =====
-- internal/proxy/handler.go with internal/collector: a `Finalize` at the sentinel that waits ends with a
-- mapping, if the store takes what it is given.
use opgate.Base.{
  ℕ, zero, suc, ◌<◌, true, false, List, [], ◌∷◌, some, ◌≡◌, refl, ap, ◌∙◌, length, arith,
}
use opgate.Base.Bytes.{Bytes, equal_refl}
use opgate.Canon.Hash.{full_state, hash_bytes}
use opgate.Openai.{Json}
use opgate.Openai.Accumulator.{ok}
use opgate.Openai.Assistant.{assistant_from_sse}
use opgate.Store.Keys.{session_key}
use opgate.Collector.{Collector}
use opgate.Collector.Delivery.{Reach-AllHold}
use opgate.Collector.Drain.{
  Work, rest, finish_job-IsKept, load, length-receive, length-finish_job, no_pages,
}
use opgate.Collector.Finalize.{found, judge, finalize, finalize-log}
use opgate.Collector.Pool.{Config, Job, World, update_self, receive, finish_job, Reach}
use opgate.Session.Continuity.{Mappings, put_session, put_mapping}
use opgate.Proxy.{Participant}
use opgate.Proxy.Whole.{
  at_done, over, Whole, next_stage, outcome, put_found, through, Serving, takes, stores,
  ends_at_done,
}
use opgate.Proxy.Whole.Stands.{Stands}
use opgate.Proxy.Whole.Worth.{entry_read}
use opgate.Proxy.Whole.Reached.{Serving-Reach, Serving-AllStand, Stands-at}

-- The workers alone can finish all pages under way; what their steps keep is kept.
drain_all :
    (cfg : Config) (P : World → Type 0)
    → 0 < cfg.workers
    → ((j : Job) (queue : List Job) (w : World)
        → P w
        → w.queue ≡ j ∷ queue
        → length w.busy < cfg.workers
        → P (receive j queue w))
    → ((j : Job) (behind : List Job) (w : World)
        → P w
        → w.busy ≡ j ∷ behind
        → P (finish_job true true [] j behind w))
    → (n : ℕ) (w : World) (busy queue : List Job) → w.busy ≡ busy
    → w.queue ≡ queue
    → load w ≡ n
    → P w
    → (w' : World) × Work cfg n w w' × (load w' ≡ 0) × P w'
unfolding load
drain_all cfg P some_worker take store zero w [] [] e f h p =
    (w, rest w, omega (arith, ap length e, ap length f), p)
drain_all cfg P some_worker take store (suc n) w [] [] e f h p =
    absurd (omega (arith, h, ap length e, ap length f))
drain_all cfg P some_worker take store zero w (j ∷ js) queue e f h p =
    absurd (omega (arith, h, ap length e))
drain_all cfg P some_worker take store zero w [] (j ∷ js) e f h p =
    absurd (omega (arith, h, ap length f))
drain_all cfg P some_worker take store (suc n) w (j ∷ js) queue e f h p =
    let (w', steps, empty, x) =
      drain_all cfg P some_worker take store n (finish_job true true [] j js w) _ _ refl refl
        (omega (arith, h, length-finish_job true true [] j js w e)) (store j js w p e) in
    (w', Work.ends true true [] j js e steps, empty, x)
drain_all cfg P some_worker take store (suc n) w [] (j ∷ js) e f h p =
    let room : length w.busy < cfg.workers = omega (arith, ap length e, some_worker) in
    let (w', steps, empty, x) =
      drain_all cfg P some_worker take store n (receive j js w) _ _ refl refl
        (omega (arith, h, length-receive j js w f)) (take j js w p f room) in
    (w', Work.takes j js f room steps, empty, x)

put-there :
    (client_hash hash v : Bytes) (m : Mappings)
    → put_session client_hash hash v m (session_key client_hash hash) ≡ some v
unfolding put_session
put-there client_hash hash v m = rw (equal_refl (session_key client_hash hash)) refl

module _ (json : Json) (sha256 : Bytes → Bytes) (max : ℕ) (cfg : Config) (held : Mappings) where
  -- With at least one worker: in a state `s` that can be reached, the `Finalize` that a streamed response
  -- called when it met its sentinel waits; its cache has not failed, its pages have not expired, and what
  -- was written is a whole stream with the answer `a`. Then the workers, by some steps of theirs from the
  -- world of `s` and nothing else, can come to a world in which this `Finalize` can go on; and if it then
  -- reads and deletes the pages and the store takes the mapping, the state behind it, which the gateway
  -- can reach, has the response through and the session of its request stored under the hash of its
  -- history with the answer.
  pub waiting-mapped :
      {s : Whole} {log : ℕ → Bytes} (id : ℕ) (p : Participant) (called : Collector) (a : Bytes)
      → 0 < cfg.workers
      → Serving json sha256 max cfg held s log
      → s.stages id ≡ at_done called
      → s.asked id ≡ some p
      → called.failed ≡ false
      → (s.world.collectors id).failed ≡ false
      → s.expired id ≡ false
      → assistant_from_sse json (log id) ≡ (ok a, true)
      → (n : ℕ) × (w' : World) × Work cfg n s.world w'
        × ((w'.collectors id).inflight ≡ 0)
        × (let met = record s { world = w' } in
            let s' =
              through json sha256 max cfg true id p called true [] true true
                (next_stage (outcome json sha256 max cfg id called true [] met))
                met in
            Serving json sha256 max cfg held s' log
            × (s'.stages id ≡ over)
            × (s'.mappings
                  (session_key p.client_hash (hash_bytes sha256 (full_state p.canon_msgs a)))
                ≡ some p.decision.session_id))
  unfolding Stands receive outcome judge through next_stage put_found put_mapping
  waiting-mapped {s} {log} id p called a some_worker v e q fine good there whole =
      let (w, steps, empty, (served, good')) =
        drain_all cfg
          (λ w.
            Serving json sha256 max cfg held (record s { world = w }) log
            × ((w.collectors id).failed ≡ false))
          some_worker (λ j queue w x f room. (takes j queue x.0 f room, x.1))
          (λ j behind w x f.
            (stores [] j behind x.0 f, (finish_job-IsKept [] j behind w id).0 ∙ x.1))
          (load s.world) s.world s.world.busy s.world.queue refl refl refl (v, good) in
      let reached : Reach cfg w log = Serving-Reach json sha256 max cfg served in
      let idle : (w.collectors id).inflight ≡ 0 =
        (Reach-AllHold cfg reached id).counts ∙ no_pages w id empty in
      let live : (w.collectors id).finalized ≡ false =
        (Stands-at json sha256 max cfg w s.stages s.troubled id (at_done called)
          (Serving-AllStand json sha256 max cfg served) e).0 in
      let result : outcome json sha256 max cfg id called true [] (record s { world = w })
          ≡ found a =
        ap (λ o. (finalize json called (w.collectors id) o).0)
          (entry_read true (s.expired id) [] (w.entries id) refl there)
        ∙ ap (λ x. x.0) (finalize-log json cfg id called reached fine good' live idle)
        ∙ ap judge whole in
      (
        load s.world,
        w,
        steps,
        idle,
        (
          ends_at_done id p called true [] true true served e q (λ _. idle),
          update_self id _ s.stages ∙ ap next_stage result,
          ap
                (λ o.
                  put_found json sha256 max cfg o true p s.mappings
                    (session_key p.client_hash (hash_bytes sha256 (full_state p.canon_msgs a))))
                result
              ∙ put-there p.client_hash _ p.decision.session_id s.mappings,
        ),
      )
