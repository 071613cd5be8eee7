-- ===== src/Collector/Delivery.antt =====
-- internal/collector/collector.go: the bytes of every request along the steps of the pool.
use opgate.Base.{
  ◌<◌, length-append, ℕ, Bool, true, false, List, [], ◌∷◌, ◌++◌, Option, none, some, ◌≡◌, ◌≢◌, refl,
  sym, ap, subst, ◌∙◌, length, ◌==◌, if◌then◌else◌, arith, append_assoc, append-nil, Bool-cases,
  inl, inr, ==_iff,
}
use opgate.Base.Bytes.{Bytes}
use opgate.Store.{Page, Pages}
use opgate.Collector.Assemble.{assemble}
use opgate.Collector.Integrity.{
  Holds, job_pages, write-Holds, stored-Holds, lost-Holds, ended-Holds, fail-Holds,
  new_collector-Holds, assemble-Holds,
}
use opgate.Collector.Pool.{
  Config, Job, World, update, update_self, update_ne, new_pool, enqueue, is_full, pool_write,
  receive, finish_job, end_finalize, abort, Reach, start, writes, receives, finishes, errs,
  finalizes, aborts,
}

-- The pages of one request among some jobs.
unfoldable pub pages_of : ℕ → List Job → Pages
pages_of id [] = []
pages_of id (j ∷ js) = if j.owner == id then j.page ∷ pages_of id js else pages_of id js

-- The pages of one request that no worker has finished.
unfoldable pub pending : ℕ → World → Pages
unfolding pages_of
pending id w = pages_of id (w.busy ++ w.queue)

pub pages_of-append :
    (id : ℕ) (xs ys : List Job) → pages_of id (xs ++ ys) ≡ pages_of id xs ++ pages_of id ys
unfolding pages_of
pages_of-append id [] ys = refl
pages_of-append id (j ∷ xs) ys = ground (arith, pages_of-append id xs ys)

pages_of-enqueue_self :
    (id : ℕ) (o : Option Page) (busy queue : List Job)
    → pages_of id (busy ++ enqueue id o queue) ≡ pages_of id (busy ++ queue) ++ job_pages o
pages_of-enqueue_self id none busy queue = sym (append-nil _)
pages_of-enqueue_self id (some page) busy queue =
    rw (← append_assoc busy queue (record { owner = id; page = page } ∷ []), pages_of-append)
      (unfold pages_of in ground arith)

pages_of-enqueue_ne :
    (id j : ℕ) (o : Option Page) (busy queue : List Job)
    → j ≢ id
    → pages_of j (busy ++ enqueue id o queue) ≡ pages_of j (busy ++ queue)
pages_of-enqueue_ne id j none busy queue h = refl
pages_of-enqueue_ne id j (some page) busy queue h =
    rw (← append_assoc busy queue (record { owner = id; page = page } ∷ []), pages_of-append)
      (unfold pages_of in ground (arith, append-nil (pages_of j (busy ++ queue))))

-- To show something of every request, when a step is one request's.
pub by_request : (P : ℕ → Type 0) (id : ℕ) → P id → ((j : ℕ) → j ≢ id → P j) → (j : ℕ) → P j
by_request P id at others j = elim (Bool-cases (j == id)) [
  | inl same ↦ subst P (sym ((==_iff j id).0 same)) at
  | inr other ↦ others j (ground arith)
]

abbrev pub AllHold : World → (ℕ → Bytes) → Type 0
AllHold w log = (id : ℕ) → Holds (w.collectors id) (w.entries id) (pending id w) (log id)

pool_write-AllHold :
    (cfg : Config) (id : ℕ) (p : Bytes) (w : World) (log : ℕ → Bytes)
    → (w.collectors id).sealed ≡ false
    → AllHold w log
    → AllHold (pool_write cfg id p w) (update id (log id ++ p) log)
unfolding pool_write pending
pool_write-AllHold cfg id p w log open_ h =
    by_request _ id
      (rw (update_self, update_self, pages_of-enqueue_self)
        (write-Holds (is_full cfg w) p (w.collectors id) open_ (h id)))
      λ j ne.
        rw (update_ne _ j _ _ ne, update_ne _ j _ _ ne, pages_of-enqueue_ne id j _ _ _ ne) (h j)

receive-AllHold :
    (j : Job) (rest : List Job) (w : World) (log : ℕ → Bytes)
    → w.queue ≡ j ∷ rest
    → AllHold w log
    → AllHold (receive j rest w) log
unfolding receive pending
receive-AllHold j rest w log e h id = rw (append_assoc w.busy (j ∷ []) rest, ← e) (h id)

module _ (before : List Job) (j : Job) (behind queue : List Job) where
  pages_of_without :
      (id : ℕ)
      → pages_of id ((before ++ behind) ++ queue)
        ≡ pages_of id before ++ pages_of id (behind ++ queue)
  pages_of_without id =
      ap (pages_of id) (append_assoc before behind queue)
      ∙ pages_of-append id before (behind ++ queue)

  pages_of_self :
      pages_of j.owner ((before ++ j ∷ behind) ++ queue)
      ≡ pages_of j.owner before ++ j.page ∷ pages_of j.owner (behind ++ queue)
  pages_of_self =
      ap (pages_of j.owner) (append_assoc before (j ∷ behind) queue)
      ∙ pages_of-append j.owner before (j ∷ (behind ++ queue))
      ∙ ap (λ l. pages_of j.owner before ++ l) (unfold pages_of in ground arith)

  pages_of_other :
      (id : ℕ)
      → id ≢ j.owner
      → pages_of id ((before ++ j ∷ behind) ++ queue)
        ≡ pages_of id before ++ pages_of id (behind ++ queue)
  pages_of_other id ne =
      ap (pages_of id) (append_assoc before (j ∷ behind) queue)
      ∙ pages_of-append id before (j ∷ (behind ++ queue))
      ∙ ap (λ l. pages_of id before ++ l) (unfold pages_of in ground arith)

module _ (before : List Job) (j : Job) (behind : List Job) (w : World) (log : ℕ → Bytes)
    (e : w.busy ≡ before ++ j ∷ behind) (h : AllHold w log) where
  -- The hypothesis on the owner and on the others, with the job in the open.
  owner-Holds :
      Holds
        (w.collectors j.owner)
        (w.entries j.owner)
        (pages_of j.owner before ++ j.page ∷ pages_of j.owner (behind ++ w.queue))
        (log j.owner)
  unfolding pending
  owner-Holds =
      subst (λ l. Holds (w.collectors j.owner) (w.entries j.owner) l (log j.owner))
        (ap (λ b. pages_of j.owner (b ++ w.queue)) e ∙ pages_of_self before j behind w.queue)
        (h j.owner)

  -- The owner of a page that a worker has in hand waits for it.
  pub finish_job-inflight : 0 < (w.collectors j.owner).inflight
  finish_job-inflight = omega (
    arith,
    owner-Holds.counts,
    length-append {0} (pages_of j.owner before) (j.page ∷ pages_of j.owner (behind ++ w.queue)),
  )

  others_hold :
      (id : ℕ)
      → id ≢ j.owner
      → Holds
          (w.collectors id)
          (w.entries id)
          (pages_of id ((before ++ behind) ++ w.queue))
          (log id)
  unfolding pending
  others_hold id ne =
      subst (λ l. Holds (w.collectors id) (w.entries id) l (log id))
        (ap (λ b. pages_of id (b ++ w.queue)) e
          ∙ pages_of_other before j behind w.queue id ne
          ∙ sym (pages_of_without before j behind w.queue id))
        (h id)

  finish_job-AllHold : AllHold (finish_job true true before j behind w) log
  unfolding finish_job pending
  finish_job-AllHold =
      by_request _ j.owner
        (simp (update_self, pages_of_without before j behind w.queue j.owner)
          (stored-Holds _ j.page _ (w.collectors j.owner) owner-Holds))
        λ id ne. rw (update_ne _ id _ _ ne, update_ne _ id _ _ ne) (others_hold id ne)

  fail_job-AllHold : (stored : Bool) → AllHold (finish_job false stored before j behind w) log
  unfolding finish_job pending
  fail_job-AllHold true =
      by_request _ j.owner
        (simp (update_self, pages_of_without before j behind w.queue j.owner)
          (lost-Holds _ j.page _ (w.collectors j.owner) owner-Holds _))
        λ id ne. rw (update_ne _ id _ _ ne, update_ne _ id _ _ ne) (others_hold id ne)
  fail_job-AllHold false =
      by_request _ j.owner
        (simp (update_self, pages_of_without before j behind w.queue j.owner)
          (lost-Holds _ j.page _ (w.collectors j.owner) owner-Holds _))
        λ id ne. rw (update_ne _ id _ _ ne) (others_hold id ne)

module _ (id : ℕ) (w : World) (log : ℕ → Bytes) (h : AllHold w log) where
  end_finalize-AllHold : (at_done deleted : Bool) → AllHold (end_finalize at_done deleted id w) log
  unfolding end_finalize pending
  end_finalize-AllHold at_done true =
      by_request _ id (rw (update_self, update_self) (ended-Holds at_done (w.collectors id) (h id)))
        λ j ne. rw (update_ne _ j _ _ ne, update_ne _ j _ _ ne) (h j)
  end_finalize-AllHold at_done false =
      by_request _ id (rw update_self (ended-Holds at_done (w.collectors id) (h id)))
        λ j ne. rw (update_ne _ j _ _ ne) (h j)

  abort-AllHold : AllHold (abort id w) log
  unfolding abort pending
  abort-AllHold =
      by_request _ id (rw (update_self, update_self) (fail-Holds (w.collectors id) (h id)))
        λ j ne. rw (update_ne _ j _ _ ne, update_ne _ j _ _ ne) (h j)

-- In every reachable world each request holds its invariant.
pub Reach-AllHold : (cfg : Config) {w : World} {log : ℕ → Bytes} → Reach cfg w log → AllHold w log
Reach-AllHold cfg start =
    λ id. unfold new_pool pending pages_of in new_collector-Holds cfg.page_size true
Reach-AllHold cfg (writes {w} {log} id p r open_) =
    pool_write-AllHold cfg id p w log open_ (Reach-AllHold cfg r)
Reach-AllHold cfg (receives {w} {log} j rest r e _) =
    receive-AllHold j rest w log e (Reach-AllHold cfg r)
Reach-AllHold cfg (finishes {w} {log} before j behind r e) =
    finish_job-AllHold before j behind w log e (Reach-AllHold cfg r)
Reach-AllHold cfg (errs {w} {log} stored before j behind r e) =
    fail_job-AllHold before j behind w log e (Reach-AllHold cfg r) stored
Reach-AllHold cfg (finalizes {w} {log} at_done deleted id r) =
    end_finalize-AllHold id w log (Reach-AllHold cfg r) at_done deleted
Reach-AllHold cfg (aborts {w} {log} id r) = abort-AllHold id w log (Reach-AllHold cfg r)

nil_of_length : (ps : Pages) → length ps ≡ 0 → ps ≡ []
nil_of_length [] h = refl
nil_of_length (p ∷ ps) h = absurd (omega arith)

-- In every reachable world, for every request whose cache has not failed and that no finalize has
-- been through: once `inflight` is 0, the payload that `Finalize` assembles is what was written.
pub assemble-log :
    (cfg : Config) {w : World} {log : ℕ → Bytes} (id : ℕ)
    → Reach cfg w log
    → (w.collectors id).failed ≡ false
    → (w.collectors id).finalized ≡ false
    → (w.collectors id).inflight ≡ 0
    → assemble (w.entries id) (w.collectors id).tail ≡ log id
assemble-log cfg {w} {log} id r good live idle =
    let h = Reach-AllHold cfg r id in
    assemble-Holds (w.collectors id)
      (subst (λ l. Holds (w.collectors id) (w.entries id) l (log id))
        (nil_of_length (pending id w) (omega (arith, h.counts))) h)
      good live
