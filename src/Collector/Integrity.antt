-- ===== src/Collector/Integrity.antt =====
-- internal/collector/collector.go: the bytes of one request between `Write` and `Finalize`, through
-- each operation.
use mathlib.Core.List.{Permᴰ}
use mathlib.Core.List.Permᴰ
use opgate.Base.{
  ℕ, ◌+◌, Bool, true, false, not, ◌||◌, List, [], ◌∷◌, ◌++◌, Option, none, some, ◌≡◌, ◌≢◌, refl,
  sym, ap, subst, ◌∙◌, length, length-append, leb, if◌then◌else◌, arith, concat, append_assoc,
  append-nil, Bool-cases, inl, inr, All,
}
use opgate.Base.Bytes.{Bytes}
use opgate.Store.{Page, Pages, put_page, remove, number}
use opgate.Collector.{
  Collector, new_collector, fail, submit, cut_page, watch_lines, watch_done, append, write,
  write-failed, write-append, drop_tail, page_done,
}
use opgate.Collector.Assemble.{
  Distinct, Distinct-perm, assemble, assemble-perm, assemble-number, Distinct-number,
}

-- What was written is the pages cut so far and the tail; each page is in the store or pending.
pub record Kept (seq : ℕ) (tail : Bytes) (stored pending : Pages) (bytes : Bytes) : Type 0 where
  pub cut : List Bytes
  pub counted : length cut ≡ seq
  pub whole : concat cut ++ tail ≡ bytes
  pub placed : Permᴰ (stored ++ pending) (number 1 cut)

-- The state of one request: the pages that `inflight` counts, and the bytes, unless the cache failed
-- or the request is through.
pub record Holds (c : Collector) (stored pending : Pages) (bytes : Bytes) : Type 0 where
  pub counts : c.inflight ≡ length pending
  pub keeps : c.failed ≡ false → c.finalized ≡ false → Kept c.seq c.tail stored pending bytes

abbrev pub job_pages : Option Page → Pages
job_pages none = []
job_pages (some page) = page ∷ []

number-append :
    (k : ℕ) (bs : List Bytes) (b : Bytes)
    → number k (bs ++ b ∷ []) ≡ number k bs ++ (k + length bs, b) ∷ []
unfolding number
number-append k [] b = ground arith
number-append k (c ∷ bs) b = ground (arith, number-append (k + 1) bs b)

concat-append : (bs : List Bytes) (b : Bytes) → concat (bs ++ b ∷ []) ≡ concat bs ++ b
concat-append [] b = append-nil b
concat-append (c ∷ bs) b = rw (concat-append bs b) (sym (append_assoc c (concat bs) b))

Kept-grow :
    (c : Collector) (p : Bytes) {stored pending : Pages} {bytes : Bytes}
    → Kept c.seq c.tail stored pending bytes
    → Kept c.seq (c.tail ++ p) stored pending (bytes ++ p)
Kept-grow c p k = record {
  cut = k.cut;
  counted = k.counted;
  whole = sym (append_assoc (concat k.cut) c.tail p) ∙ ap (λ x. x ++ p) k.whole;
  placed = k.placed;
}

Kept-submit :
    (c : Collector) {stored pending : Pages} {bytes : Bytes}
    → Kept c.seq c.tail stored pending bytes
    → Kept (c.seq + 1) [] stored (pending ++ (c.seq + 1, c.tail) ∷ []) bytes
Kept-submit c {stored} {pending} k = record {
  cut = k.cut ++ c.tail ∷ [];
  counted = omega (arith, length-append {0} k.cut (c.tail ∷ []), k.counted);
  whole = append-nil _ ∙ concat-append k.cut c.tail ∙ k.whole;
  placed =
      subst (λ l. Permᴰ l (number 1 (k.cut ++ c.tail ∷ []))) (append_assoc stored pending _)
        (rw (number-append 1 k.cut c.tail, position) (Permᴰ.append_right _ k.placed));
}
  where
    position : 1 + length k.cut ≡ c.seq + 1
    position = omega (arith, k.counted)

module _ {stored pending : Pages} {bytes : Bytes} where
  watch_done-Holds :
      (p : Bytes) (c : Collector)
      → Holds c stored pending bytes
      → Holds (watch_done p c).0 stored pending bytes
  unfolding watch_done
  watch_done-Holds p c h = elim (Bool-cases (not c.on_done || c.saw_done)) [
    | inl idle ↦ rw idle h
    | inr live ↦ elim (Bool-cases (watch_lines (length (c.scan_buf ++ p)) (c.scan_buf ++ p)).0) [
      | inl met ↦ rw (live, met) (record { counts = h.counts; keeps = h.keeps })
      | inr more ↦ rw (live, more) (record { counts = h.counts; keeps = h.keeps })
    ]
  ]

  submit-Holds :
      (full : Bool) (c : Collector)
      → Holds c stored pending bytes
      → Holds
          (record (submit full c.tail c).0 { tail = [] })
          stored
          (pending ++ job_pages (submit full c.tail c).1)
          bytes
  unfolding submit fail
  submit-Holds true c h =
      rw append-nil (record { counts = omega (arith, h.counts); keeps = λ x _. cc })
  submit-Holds false c h = record {
    counts = omega (arith, h.counts, length-append {0} pending ((c.seq + 1, c.tail) ∷ []));
    keeps = λ x y. Kept-submit c (h.keeps x y);
  }

  cut_page-Holds :
      (full : Bool) (c : Collector)
      → Holds c stored pending bytes
      → Holds (cut_page full c).0 stored (pending ++ job_pages (cut_page full c).1) bytes
  unfolding cut_page
  cut_page-Holds full c h = elim (Bool-cases (leb c.page_size (length c.tail))) [
    | inl full_page ↦ rw full_page (submit-Holds full c h)
    | inr small ↦ rw small (rw append-nil h)
  ]

-- A write keeps the state of its own request, with the page that it hands over among the pending.
append-Holds :
    {stored pending : Pages} {bytes : Bytes} (full : Bool) (p : Bytes) (c : Collector)
    → Holds c stored pending bytes
    → Holds (append full p c).0 stored (pending ++ job_pages (append full p c).1) (bytes ++ p)
unfolding append
append-Holds full p c h = watch_done-Holds p _ (
    cut_page-Holds full (record c { tail = c.tail ++ p })
      (record { counts = h.counts; keeps = λ x y. Kept-grow c p (h.keeps x y) }))

pub write-Holds :
    {stored pending : Pages} {bytes : Bytes} (full : Bool) (p : Bytes) (c : Collector)
    → c.sealed ≡ false
    → Holds c stored pending bytes
    → Holds (write full p c).0 stored (pending ++ job_pages (write full p c).1) (bytes ++ p)
write-Holds full p c open_ h = elim (Bool-cases c.failed) [
  | inl bad ↦
      rw (write-failed full p c bad, append-nil) (record { counts = h.counts; keeps = λ x _. cc })
  | inr good ↦ rw (write-append full p c open_ good) (append-Holds full p c h)
]

All-left {ℓ κ} : {A : Type ℓ} (P : A → Type κ) (xs ys : List A) → All P (xs ++ ys) → All P xs
All-left P [] ys h = tt
All-left P (x ∷ xs) ys (p, h) = (p, All-left P xs ys h)

remove_absent : (k : ℕ) (ps : Pages) → All (λ q. q.0 ≢ k) ps → remove k ps ≡ ps
unfolding remove
remove_absent k [] h = refl
remove_absent k ((j, b) ∷ ps) (n, h) = ground (arith, remove_absent k ps h)

put_page-perm :
    (page : Page) (stored before behind : Pages)
    → Distinct (stored ++ (before ++ page ∷ behind))
    → Permᴰ
        (put_page page.0 page.1 stored ++ (before ++ behind))
        (stored ++ (before ++ page ∷ behind))
unfolding put_page
put_page-perm page stored before behind d =
    rw
      (
        remove_absent page.0 stored absent,
        ← append_assoc stored before (page ∷ behind),
        ← append_assoc stored before behind,
      )
      (Permᴰ.symm moved)
  where
    moved : Permᴰ ((stored ++ before) ++ page ∷ behind) (page ∷ ((stored ++ before) ++ behind))
    moved = Permᴰ.middle page (stored ++ before) behind

    apart : Distinct (page ∷ ((stored ++ before) ++ behind))
    apart = Distinct-perm moved (rw (append_assoc stored before (page ∷ behind)) d)

    absent : All (λ q. q.0 ≢ page.0) stored
    absent = All-left _ stored before (All-left _ (stored ++ before) behind apart.0)

length-middle :
    (before behind : Pages) (page : Page)
    → length (before ++ page ∷ behind) ≡ length (before ++ behind) + 1
length-middle before behind page =
    omega (arith, length-append {0} before (page ∷ behind), length-append {0} before behind)

module _ {stored : Pages} {bytes : Bytes} (before : Pages) (page : Page) (behind : Pages)
    (c : Collector) (h : Holds c stored (before ++ page ∷ behind) bytes) where
  -- A page that is written moves from the pending pages into the entry.
  pub stored-Holds :
      Holds (page_done true c) (put_page page.0 page.1 stored) (before ++ behind) bytes
  unfolding page_done
  stored-Holds = record {
    counts = omega (arith, h.counts, length-middle before behind page);
    keeps = λ x y.
        let k = h.keeps x y in
        record {
          cut = k.cut;
          counted = k.counted;
          whole = k.whole;
          placed =
              Permᴰ.trans
                (put_page-perm page stored before behind
                  (Distinct-perm (Permᴰ.symm k.placed) (Distinct-number 1 k.cut)))
                k.placed;
        };
  }

  -- A write error marks the request, whatever the store then holds.
  pub lost-Holds : (stored' : Pages) → Holds (page_done false c) stored' (before ++ behind) bytes
  unfolding page_done fail
  lost-Holds stored' = record {
    counts = omega (arith, h.counts, length-middle before behind page);
    keeps = λ x _. cc;
  }

pub ended-Holds :
    (at_done : Bool) (c : Collector) {stored left pending : Pages} {bytes : Bytes}
    → Holds c stored pending bytes
    → Holds (if at_done then drop_tail c else record c { finalized = true }) left pending bytes
unfolding drop_tail
ended-Holds true c h = record { counts = h.counts; keeps = λ _ y. cc }
ended-Holds false c h = record { counts = h.counts; keeps = λ _ y. cc }

pub fail-Holds :
    (c : Collector) {stored pending : Pages} {bytes : Bytes}
    → Holds c stored pending bytes
    → Holds (fail c) [] pending bytes
unfolding fail
fail-Holds c h = record { counts = h.counts; keeps = λ x _. cc }

pub new_collector-Holds :
    (page_size : ℕ) (on_done : Bool) → Holds (new_collector page_size on_done) [] [] []
unfolding new_collector
new_collector-Holds page_size on_done = record {
  counts = refl;
  keeps =
      λ _ _. record { cut = []; counted = refl; whole = refl; placed = unfold number in Permᴰ.nil };
}

-- With no page pending, what `Finalize` assembles is what was written.
pub assemble-Holds :
    (c : Collector) {stored : Pages} {bytes : Bytes}
    → Holds c stored [] bytes
    → c.failed ≡ false
    → c.finalized ≡ false
    → assemble stored c.tail ≡ bytes
assemble-Holds c {stored} h x y =
    let k = h.keeps x y in
    let p : Permᴰ stored (number 1 k.cut) = rw append-nil at k.placed in
    assemble-perm c.tail p (Distinct-perm (Permᴰ.symm p) (Distinct-number 1 k.cut))
    ∙ assemble-number 1 k.cut c.tail
    ∙ k.whole
