-- ===== src/Collector/Drain.antt =====
-- internal/collector/collector.go: what the workers do with the pages under way while a `Finalize` waits.
use opgate.Base.{
  ℕ, zero, suc, ◌+◌, ◌*◌, ◌<◌, Bool, true, false, List, [], ◌∷◌, ◌++◌, ◌≡◌, refl, sym, ap, ◌∙◌,
  length, length-append, arith,
}
use opgate.Base.{Bool-cases, inl, inr, ==_iff, ◌==◌}
use opgate.Base.Bytes.{Bytes}
use opgate.Collector.{page_done}
use opgate.Collector.Assemble.{assemble}
use opgate.Collector.Delivery.{pages_of, pending, Reach-AllHold, assemble-log}
use opgate.Collector.Pool.{
  Config, Job, World, update, receive, finish_job, Reach, receives, finishes,
}

-- Some steps of the workers alone, and how many.
pub data Work (cfg : Config) : ℕ → World → World → Type 0 where
  rest : (w : World) → Work cfg 0 w w
  takes :
      {n : ℕ} {w w' : World} (j : Job) (queue : List Job)
      → w.queue ≡ j ∷ queue
      → length w.busy < cfg.workers
      → Work cfg n (receive j queue w) w'
      → Work cfg (suc n) w w'
  ends :
      {n : ℕ} {w w' : World} (ok stored : Bool) (before : List Job) (j : Job) (behind : List Job)
      → w.busy ≡ before ++ j ∷ behind
      → Work cfg n (finish_job ok stored before j behind w) w'
      → Work cfg (suc n) w w'

-- How many steps the workers have before them: two for a page in the queue, one for a page in hand.
unfoldable pub load : World → ℕ
load w = 2 * length w.queue + length w.busy

pub length-receive :
    (j : Job) (queue : List Job) (w : World)
    → w.queue ≡ j ∷ queue
    → suc (load (receive j queue w)) ≡ load w
unfolding load receive
length-receive j queue w e = omega (arith, ap length e, length-append {0} w.busy (j ∷ []))

pub length-finish_job :
    (ok stored : Bool) (before : List Job) (j : Job) (behind : List Job) (w : World)
    → w.busy ≡ before ++ j ∷ behind
    → suc (load (finish_job ok stored before j behind w)) ≡ load w
unfolding load finish_job
length-finish_job ok stored before j behind w e =
    omega
      (arith, ap length e, length-append {0} before (j ∷ behind), length-append {0} before behind)

-- Every run of the workers alone comes to an end: each step takes one off the load.
Work-load : (cfg : Config) {n : ℕ} {w w' : World} → Work cfg n w w' → n + load w' ≡ load w
Work-load cfg (rest w) = omega arith
Work-load cfg (takes {n} {w} {w'} j queue e room r) =
    omega (arith, Work-load cfg r, length-receive j queue w e)
Work-load cfg (ends {n} {w} {w'} ok stored before j behind e r) =
    omega (arith, Work-load cfg r, length-finish_job ok stored before j behind w e)

-- What no worker changes if the store takes its page.
abbrev pub IsKept : World → World → Type 0
IsKept w w' =
    (id : ℕ)
    → ((w'.collectors id).failed ≡ (w.collectors id).failed)
      × ((w'.collectors id).finalized ≡ (w.collectors id).finalized)

pub finish_job-IsKept :
    (before : List Job) (j : Job) (behind : List Job) (w : World)
    → IsKept w (finish_job true true before j behind w)
unfolding finish_job page_done update
finish_job-IsKept before j behind w id = elim (Bool-cases (id == j.owner)) [
  | inl e ↦ kept e
  | inr e ↦ rw e (refl, refl)
]
  where
    kept :
        (id == j.owner) ≡ true
        → (((finish_job true true before j behind w).collectors id).failed
            ≡ (w.collectors id).failed)
          × (((finish_job true true before j behind w).collectors id).finalized
              ≡ (w.collectors id).finalized)
    kept e = rw e (
      ap (λ i. (w.collectors i).failed) (sym ((==_iff id j.owner).0 e)),
      ap (λ i. (w.collectors i).finalized) (sym ((==_iff id j.owner).0 e)),
    )

receive-IsKept : (j : Job) (js : List Job) (w : World) → IsKept w (receive j js w)
unfolding receive
receive-IsKept j js w id = (refl, refl)

IsKept-trans : (u v w : World) → IsKept u v → IsKept v w → IsKept u w
IsKept-trans u v w h k id = ((k id).0 ∙ (h id).0, (k id).1 ∙ (h id).1)

module _ (cfg : Config) (some_worker : 0 < cfg.workers) where
  -- The workers take pages and store them as long as there are any.
  work :
      (n : ℕ) (w : World) (busy queue : List Job) {log : ℕ → Bytes}
      → w.busy ≡ busy
      → w.queue ≡ queue
      → load w ≡ n
      → Reach cfg w log
      → (w' : World) × Work cfg n w w' × Reach cfg w' log × IsKept w w'
  unfolding load
  work zero w (j ∷ js) queue e f h r = absurd (omega (arith, h, ap length e))
  work (suc n) w (j ∷ js) queue e f h r =
      let (w', steps, r', k) =
        work n (finish_job true true [] j js w) _ _ refl refl
          (omega (arith, h, length-finish_job true true [] j js w e)) (finishes [] j js r e) in
      (
        w',
        ends true true [] j js e steps,
        r',
        IsKept-trans w (finish_job true true [] j js w) w' (finish_job-IsKept [] j js w) k,
      )
  work zero w [] (j ∷ js) e f h r = absurd (omega (arith, h, ap length f))
  work (suc n) w [] (j ∷ js) e f h r =
      let room : length w.busy < cfg.workers = omega (arith, ap length e, some_worker) in
      let (w', steps, r', k) =
        work n (receive j js w) _ _ refl refl (omega (arith, h, length-receive j js w f))
          (receives j js r f room) in
      (
        w',
        takes j js f room steps,
        r',
        IsKept-trans w (receive j js w) w' (receive-IsKept j js w) k,
      )
  work zero w [] [] e f h r = (w, rest w, r, λ id. (refl, refl))
  work (suc n) w [] [] e f h r = absurd (omega (arith, h, ap length e, ap length f))

pub nil_of_length : (js : List Job) → length js ≡ 0 → js ≡ []
nil_of_length [] h = refl
nil_of_length (j ∷ js) h = absurd (omega (arith, h))

pub no_pages : (w : World) (id : ℕ) → load w ≡ 0 → length (pending id w) ≡ 0
unfolding load pending pages_of
no_pages w id h =
    ap (λ l. length (pages_of id l))
      (nil_of_length (w.busy ++ w.queue) (omega (arith, h, length-append {0} w.busy w.queue)))

-- With at least one worker, the wait of a `Finalize` can come to its end: from every reachable world, the
-- workers alone, by some steps, can come to a world with no page in the queue and none with a worker. For a request whose cache has not failed and that no finalize has been
-- through, `inflight` is then 0, and the payload is what was written.
pub drained-log :
    (cfg : Config) {w : World} {log : ℕ → Bytes} (id : ℕ)
    → 0 < cfg.workers
    → Reach cfg w log
    → (w.collectors id).failed ≡ false
    → (w.collectors id).finalized ≡ false
    → (n : ℕ) × (w' : World) × Work cfg n w w'
      × (w'.queue ≡ [])
      × (w'.busy ≡ [])
      × ((w'.collectors id).inflight ≡ 0)
      × (assemble (w'.entries id) (w'.collectors id).tail ≡ log id)
unfolding load
drained-log cfg {w} id some_worker r good live =
    let (w', steps, r', k) = work cfg some_worker (load w) w w.busy w.queue refl refl refl r in
    let done : load w' ≡ 0 = omega (arith, Work-load cfg steps) in
    let idle : (w'.collectors id).inflight ≡ 0 =
      (Reach-AllHold cfg r' id).counts ∙ no_pages w' id done in
    (
      load w,
      w',
      steps,
      nil_of_length w'.queue (omega (arith, done)),
      nil_of_length w'.busy (omega (arith, done)),
      idle,
      assemble-log cfg id r' ((k id).0 ∙ good) ((k id).1 ∙ live) idle,
    )
