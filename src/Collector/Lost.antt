-- ===== src/Collector/Lost.antt =====
-- internal/collector/collector.go: a page is lost while `Finalize` waits for it.
use mathlib.Core.List.Permᴰ
use opgate.Base.{
  ℕ, ◌+◌, true, false, List, [], ◌∷◌, ◌++◌, some, ◌≡◌, ◌≢◌, refl, sym, ap, subst, ◌∙◌, length,
  length-append, append_assoc, arith, All,
}
use opgate.Base.Bytes.{Bytes}
use opgate.Store.{Page, Pages, keys, page_at}
use opgate.Openai.{Json}
use opgate.Openai.Assistant.{assistant_from_sse}
use opgate.Collector.{Collector, fail, page_done}
use opgate.Collector.Assemble.{
  insert, sort_ints, join_pages, assemble, assemble-perm, assemble-number, Distinct, Distinct-perm,
  Distinct-number,
}
use opgate.Collector.Delivery.{pages_of, pending, pages_of-append, Reach-AllHold}
use opgate.Collector.Finalize.{judge, on_pages, finalize}
use opgate.Collector.Integrity.{Kept, Holds}
use opgate.Collector.Pool.{Config, Job, World, update_self, finish_job, Reach}

-- How many bytes some pages hold together.
total : Pages → ℕ
total [] = 0
total ((_, b) ∷ ps) = length b + total ps

length-insert :
    (m : Pages) (a : ℕ) (l : List ℕ)
    → length (join_pages m (insert a l)) ≡ length (page_at a m) + length (join_pages m l)
unfolding insert join_pages
length-insert m a [] = ground (arith, length-append {0} (page_at a m) [])
length-insert m a (b ∷ l) = ground (
  arith,
  length-insert m a l,
  length-append {0} (page_at b m) (join_pages m (insert a l)),
  length-append {0} (page_at b m) (join_pages m l),
  length-append {0} (page_at a m) (page_at b m ++ join_pages m l),
)

length-sort_ints :
    (m : Pages) (l : List ℕ) → length (join_pages m (sort_ints l)) ≡ length (join_pages m l)
unfolding sort_ints join_pages
length-sort_ints m [] = refl
length-sort_ints m (a ∷ l) = omega (
  arith,
  length-insert m a (sort_ints l),
  length-sort_ints m l,
  length-append {0} (page_at a m) (join_pages m l),
)

join_pages-other :
    (k : ℕ) (b : Bytes) (m ps : Pages)
    → All (λ q. q.0 ≢ k) ps
    → join_pages ((k, b) ∷ m) (keys ps) ≡ join_pages m (keys ps)
unfolding join_pages page_at
join_pages-other k b m [] h = refl
join_pages-other k b m ((j, c) ∷ ps) (h, hs) = ground (arith, join_pages-other k b m ps hs)

length-join_pages : (ps : Pages) → Distinct ps → length (join_pages ps (keys ps)) ≡ total ps
unfolding join_pages page_at total
length-join_pages [] h = refl
length-join_pages ((k, b) ∷ ps) (h, hs) =
    rw (join_pages-other k b ps ps h)
      (ground (arith, length-append {0} b (join_pages ps (keys ps)), length-join_pages ps hs))

-- The length of the payload.
length-assemble :
    (ps : Pages) (tail : Bytes) → Distinct ps → length (assemble ps tail) ≡ total ps + length tail
unfolding assemble
length-assemble ps tail h = omega (
  arith,
  length-append {0} (join_pages ps (sort_ints (keys ps))) tail,
  length-sort_ints ps (keys ps),
  length-join_pages ps h,
)

total-append : (ps : Pages) (q : Page) → total (ps ++ q ∷ []) ≡ total ps + length q.1
unfolding total
total-append [] q = omega arith
total-append (p ∷ ps) q = omega (arith, total-append ps q)

All-front : (P : Page → Type 0) (ps qs : Pages) → All P (ps ++ qs) → All P ps
All-front P [] qs h = tt
All-front P (p ∷ ps) qs (h, hs) = (h, All-front P ps qs hs)

Distinct-front : (ps qs : Pages) → Distinct (ps ++ qs) → Distinct ps
Distinct-front [] qs h = tt
Distinct-front ((k, _) ∷ ps) qs (h, hs) = (All-front _ ps qs h, Distinct-front ps qs hs)

-- Without its last pending page, the payload is short by that page.
length-lost :
    (c : Collector) (stored : Pages) (page : Page) {bytes : Bytes}
    → Kept c.seq c.tail stored (page ∷ []) bytes
    → length (assemble stored c.tail) + length page.1 ≡ length bytes
length-lost c stored page {bytes} k =
    let distinct = Distinct-perm (Permᴰ.symm k.placed) (Distinct-number 1 k.cut) in
    omega (
      arith,
      length-assemble stored c.tail (Distinct-front stored (page ∷ []) distinct),
      length-assemble (stored ++ page ∷ []) c.tail distinct,
      total-append stored page,
      ap length (assemble-perm c.tail k.placed distinct),
      ap length (assemble-number 1 k.cut c.tail),
      ap length k.whole,
    )

single : (xs ys : Pages) (p : Page) → length (xs ++ p ∷ ys) ≡ 1 → xs ++ p ∷ ys ≡ p ∷ []
single [] [] p h = refl
single [] (y ∷ ys) p h = absurd (omega arith)
single (x ∷ xs) ys p h = absurd (omega (arith, length-append {0} xs (p ∷ ys)))

owned :
    (id : ℕ) (js : List Job) (j : Job)
    → j.owner ≡ id
    → pages_of id (j ∷ js) ≡ j.page ∷ pages_of id js
unfolding pages_of
owned id js j h = ground arith

one_left :
    (id : ℕ) (before behind queue : List Job) (j : Job)
    → j.owner ≡ id
    → length (pages_of id ((before ++ j ∷ behind) ++ queue)) ≡ 1
    → pages_of id ((before ++ j ∷ behind) ++ queue) ≡ j.page ∷ []
one_left id before behind queue j h n =
    split
    ∙ single (pages_of id before) (pages_of id (behind ++ queue)) j.page (sym (ap length split) ∙ n)
  where
    split :
        pages_of id ((before ++ j ∷ behind) ++ queue)
        ≡ pages_of id before ++ j.page ∷ pages_of id (behind ++ queue)
    split =
        ap (pages_of id) (append_assoc before (j ∷ behind) queue)
        ∙ pages_of-append id before (j ∷ behind ++ queue)
        ∙ ap (λ l. pages_of id before ++ l) (owned id (behind ++ queue) j h)

-- In every reachable world: a request has written its stream, nothing failed, and one page is still
-- with a worker when `Finalize` is called. If the store then fails to take that page, the failure is
-- recorded, and yet `Finalize` goes on and judges a payload that is short by the page.
pub finalize-lost_page :
    (json : Json) (cfg : Config) {w : World} {log : ℕ → Bytes} (before : List Job) (j : Job)
    (behind : List Job)
    → Reach cfg w log
    → w.busy ≡ before ++ j ∷ behind
    → (w.collectors j.owner).failed ≡ false
    → (w.collectors j.owner).finalized ≡ false
    → (w.collectors j.owner).inflight ≡ 1
    → let w' = finish_job false false before j behind w in
      let payload = assemble (w'.entries j.owner) (w'.collectors j.owner).tail in
      ((w'.collectors j.owner).failed ≡ true)
      × ((w'.collectors j.owner).inflight ≡ 0)
      × (length payload + length j.page.1 ≡ length (log j.owner))
      × ((finalize json
            (w.collectors j.owner)
            (w'.collectors j.owner)
            (some (w'.entries j.owner))).0
          ≡ judge (assistant_from_sse json payload))
unfolding finalize on_pages finish_job page_done fail pending
finalize-lost_page json cfg {w} {log} before j behind r held good live one =
    rw (update_self, good)
      (
        refl,
        omega (arith, one),
        length-lost (w.collectors j.owner) (w.entries j.owner) j.page (
            subst
              (λ l.
                Kept (w.collectors j.owner).seq (w.collectors j.owner).tail (w.entries j.owner) l
                  (log j.owner))
              left (h.keeps good live)),
        refl,
      )
  where
    h : Holds (w.collectors j.owner) (w.entries j.owner) (pending j.owner w) (log j.owner)
    h = Reach-AllHold cfg r j.owner

    left : pending j.owner w ≡ j.page ∷ []
    left =
        ap (λ b. pages_of j.owner (b ++ w.queue)) held
        ∙ one_left j.owner before behind w.queue j refl
            (sym (ap (λ b. length (pages_of j.owner (b ++ w.queue))) held) ∙ sym h.counts ∙ one)
