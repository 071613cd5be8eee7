-- ===== src/Collector/Assemble.antt =====
-- internal/collector/collector.go, the assembly of `Finalize`: the pages in the order of their numbers, and the tail.
use mathlib.Core.List.{Permᴰ}
use mathlib.Core.List.Permᴰ.{nil, cons, swap, trans}
use opgate.Base.{
  ℕ, ◌+◌, ◌≤◌, ◌<◌, List, [], ◌∷◌, ◌++◌, ◌≡◌, ◌≢◌, refl, sym, ap, subst, ◌∙◌, leb, ◌==◌,
  if◌then◌else◌, arith, concat, All,
}
use opgate.Base.Bytes.{Bytes}
use opgate.Store.{Page, Pages, keys, page_at, number}

-- `sort.Ints`
unfoldable pub insert : ℕ → List ℕ → List ℕ
insert a [] = a ∷ []
insert a (b ∷ l) = if leb a b then a ∷ b ∷ l else b ∷ insert a l

unfoldable pub sort_ints : List ℕ → List ℕ
unfolding insert
sort_ints [] = []
sort_ints (a ∷ l) = insert a (sort_ints l)

unfoldable pub join_pages : Pages → List ℕ → Bytes
unfolding page_at
join_pages pages [] = []
join_pages pages (k ∷ ks) = page_at k pages ++ join_pages pages ks

-- The payload that `Finalize` parses.
unfoldable pub assemble : Pages → Bytes → Bytes
unfolding sort_ints join_pages
assemble pages tail = join_pages pages (sort_ints (keys pages)) ++ tail

-- No two pages have the same number.
abbrev pub Distinct : Pages → Type 0
Distinct [] = Unit
Distinct ((k, _) ∷ ps) = All (λ q. q.0 ≢ k) ps × Distinct ps

insert_comm : (a b : ℕ) (l : List ℕ) → insert a (insert b l) ≡ insert b (insert a l)
unfolding insert
insert_comm a b [] = ground arith
insert_comm a b (c ∷ l) = ground (arith, insert_comm a b l)

sort_ints-perm : {xs ys : Pages} → Permᴰ xs ys → sort_ints (keys xs) ≡ sort_ints (keys ys)
unfolding sort_ints
sort_ints-perm nil = refl
sort_ints-perm (cons {b} {l₁} e p) = rw e (ap (insert b.0) (sort_ints-perm p))
sort_ints-perm (swap {a'} {b'} {l} e f) = rw (e, f) (insert_comm b'.0 a'.0 (sort_ints (keys l)))
sort_ints-perm (trans p q) = sort_ints-perm p ∙ sort_ints-perm q

All-perm : (P : Page → Type 0) {xs ys : Pages} → Permᴰ xs ys → All P xs → All P ys
All-perm P nil h = tt
All-perm P (cons e p) (h, hs) = (subst P e h, All-perm P p hs)
All-perm P (swap e f) (h, (k, hs)) = (subst P f k, (subst P e h, hs))
All-perm P (trans p q) h = All-perm P q (All-perm P p h)

Distinct-swap : (a b : Page) (l : Pages) → Distinct (a ∷ b ∷ l) → Distinct (b ∷ a ∷ l)
Distinct-swap a b l ((n, h), (k, hs)) = (((λ x. n (sym x)), k), (h, hs))

pub Distinct-perm : {xs ys : Pages} → Permᴰ xs ys → Distinct xs → Distinct ys
Distinct-perm nil h = tt
Distinct-perm (cons e p) (h, hs) = (rw (← e) (All-perm _ p h), Distinct-perm p hs)
Distinct-perm (swap {a} {b} {a'} {b'} {l} e f) h =
    subst (λ x. Distinct (a' ∷ x ∷ l)) e
      (subst (λ x. Distinct (x ∷ a ∷ l)) f (Distinct-swap a b l h))
Distinct-perm (trans p q) h = Distinct-perm q (Distinct-perm p h)

page_at-perm : (k : ℕ) {xs ys : Pages} → Permᴰ xs ys → Distinct xs → page_at k xs ≡ page_at k ys
unfolding page_at
page_at-perm k nil h = refl
page_at-perm k (cons {b} {l₁} e p) h =
    rw e (ap (λ x. if b.0 == k then b.1 else x) (page_at-perm k p h.1))
page_at-perm k (swap {a} {b} e f) ((n, _), _) = rw (← e, ← f) (ground arith)
page_at-perm k (trans p q) h = page_at-perm k p h ∙ page_at-perm k q (Distinct-perm p h)

join_pages-ext :
    (xs ys : Pages)
    → ((k : ℕ) → page_at k xs ≡ page_at k ys)
    → (ks : List ℕ) → join_pages xs ks ≡ join_pages ys ks
unfolding join_pages
join_pages-ext xs ys h [] = refl
join_pages-ext xs ys h (k ∷ ks) = rw (h k, join_pages-ext xs ys h ks)

-- The order in which the store returns the pages does not matter to the payload, if no two of them
-- have the same number.
pub assemble-perm :
    {xs ys : Pages} (tail : Bytes) → Permᴰ xs ys → Distinct xs → assemble xs tail ≡ assemble ys tail
unfolding assemble
assemble-perm {xs} {ys} tail p h =
    rw (sort_ints-perm p, join_pages-ext xs ys (λ k. page_at-perm k p h))

All-number : (j k : ℕ) (bs : List Bytes) → j < k → All (λ q. q.0 ≢ j) (number k bs)
unfolding number
All-number j k [] h = tt
All-number j k (b ∷ bs) h = (omega arith, All-number j (k + 1) bs (omega arith))

pub Distinct-number : (k : ℕ) (bs : List Bytes) → Distinct (number k bs)
unfolding number
Distinct-number k [] = tt
Distinct-number k (b ∷ bs) = (All-number k (k + 1) bs (omega arith), Distinct-number (k + 1) bs)

insert-number :
    (j k : ℕ) (bs : List Bytes) → j ≤ k → insert j (keys (number k bs)) ≡ j ∷ keys (number k bs)
unfolding insert number
insert-number j k [] h = refl
insert-number j k (b ∷ bs) h = ground arith

sort_ints-number : (k : ℕ) (bs : List Bytes) → sort_ints (keys (number k bs)) ≡ keys (number k bs)
unfolding sort_ints number
sort_ints-number k [] = refl
sort_ints-number k (b ∷ bs) =
    rw (sort_ints-number (k + 1) bs) (insert-number k (k + 1) bs (omega arith))

join_pages-skip :
    (j : ℕ) (b : Bytes) (m : Pages) (k : ℕ) (bs : List Bytes)
    → j < k
    → join_pages ((j, b) ∷ m) (keys (number k bs)) ≡ join_pages m (keys (number k bs))
unfolding join_pages number
join_pages-skip j b m k [] h = refl
join_pages-skip j b m k (c ∷ bs) h = ground (arith, join_pages-skip j b m (k + 1) bs)

join_pages-number :
    (k : ℕ) (bs : List Bytes) → join_pages (number k bs) (keys (number k bs)) ≡ concat bs
unfolding number join_pages
join_pages-number k [] = refl
join_pages-number k (b ∷ bs) =
    rw
      (
        join_pages-skip k b (number (k + 1) bs) (k + 1) bs (omega arith),
        join_pages-number (k + 1) bs,
      )
      (ground arith)

-- Pages numbered upwards are assembled in that order.
pub assemble-number :
    (k : ℕ) (bs : List Bytes) (tail : Bytes) → assemble (number k bs) tail ≡ concat bs ++ tail
unfolding assemble
assemble-number k bs tail = rw (sort_ints-number, join_pages-number)
