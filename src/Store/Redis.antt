-- ===== src/Store/Redis.antt =====
-- internal/store/redis.go: `PutPage`, `GetPages` and `DeletePages` over a server of hashes. The server
-- and its client are a parameter: what is used of HSET, HGETALL and DEL is in `HashServer`.
use mathlib.Core.List.{Permᴰ}
use mathlib.Core.List.Permᴰ.{cons, trans}
use opgate.Base.{
  ℕ, ◌^◌, ◌<◌, List, [], ◌∷◌, ◌++◌, Option, none, some, ◌≡◌, ◌≢◌, refl, sym, ap, subst, ◌∙◌,
  if◌then◌else◌, arith, All, gather, gather-perm,
}
use opgate.Base.Bytes.{Bytes, equal, equal_iff}
use opgate.Base.Int.{ℤ, pos}
use opgate.Store.{Pages, remove, put_page}
use opgate.Store.Keys.{temp_key}
use opgate.Store.Fields.{page_field, atoi, atoi-page_field}

abbrev pub Hash : Type 0
Hash = List (Bytes × Bytes)

-- A hash without one field.
abbrev keep : Bytes → Bytes × Bytes → Hash
keep f (g, v) = if equal g f then [] else (g, v) ∷ []

unfoldable pub without : Bytes → Hash → Hash
without f h = gather (keep f) h

-- A server of hashes. HGETALL returns the fields in no particular order, HSET replaces a field or
-- adds it, DEL leaves no field, and neither touches another key.
pub record HashServer (S : Type 0) : Type 0 where
  pub hset : Bytes → Bytes → Bytes → S → S
  pub hgetall : Bytes → S → Hash
  pub del : Bytes → S → S
  pub hgetall-hset :
      (key f v : Bytes) (s : S)
      → Permᴰ (hgetall key (hset key f v s)) ((f, v) ∷ without f (hgetall key s))
  pub hgetall-hset_ne :
      (key other f v : Bytes) (s : S)
      → other ≢ key
      → hgetall other (hset key f v s) ≡ hgetall other s
  pub hgetall-del : (key : Bytes) (s : S) → hgetall key (del key s) ≡ []
  pub hgetall-del_ne :
      (key other : Bytes) (s : S) → other ≢ key → hgetall other (del key s) ≡ hgetall other s

-- The loop of `GetPages`, as the entries of its map: a field that is not a number is passed over.
abbrev assign : Option ℤ → Bytes → List (ℤ × Bytes)
assign none v = []
assign (some k) v = (k, v) ∷ []

abbrev parse_page : Bytes × Bytes → List (ℤ × Bytes)
parse_page (f, v) = assign (atoi f) v

unfoldable pub parse_pages : Hash → List (ℤ × Bytes)
parse_pages h = gather parse_page h

module _ {S : Type 0} (server : HashServer S) where
  -- `PutPage`, on a server that answers.
  unfoldable pub store_page : Bytes → ℕ → Bytes → S → S
  store_page request_id seq page s = server.hset (temp_key request_id) (page_field seq) page s

  -- `GetPages`, on a server that answers.
  unfoldable pub get_pages : Bytes → S → List (ℤ × Bytes)
  unfolding parse_pages
  get_pages request_id s = parse_pages (server.hgetall (temp_key request_id) s)

  -- `DeletePages`
  unfoldable pub delete_pages : Bytes → S → S
  delete_pages request_id s = server.del (temp_key request_id) s

-- The hash in which an entry is kept, and the pages as `GetPages` returns them.
abbrev pub as_hash : Pages → Hash
as_hash [] = []
as_hash ((k, b) ∷ ps) = (page_field k, b) ∷ as_hash ps

abbrev pub as_pages : Pages → List (ℤ × Bytes)
as_pages [] = []
as_pages ((k, b) ∷ ps) = (pos k, b) ∷ as_pages ps

-- Page numbers that an int holds.
abbrev pub Small : Pages → Type 0
Small = All (λ p. p.0 < 2 ^ 63)

parse_pages-as_hash : (ps : Pages) → Small ps → parse_pages (as_hash ps) ≡ as_pages ps
unfolding parse_pages
parse_pages-as_hash [] h = refl
parse_pages-as_hash ((k, b) ∷ ps) (h, hs) =
    ap (λ o. assign o b ++ gather parse_page (as_hash ps)) (atoi-page_field k h)
    ∙ ap (◌∷◌ (pos k, b)) (parse_pages-as_hash ps hs)

page_field-injective : (j k : ℕ) → j < 2 ^ 63 → k < 2 ^ 63 → page_field j ≡ page_field k → j ≡ k
page_field-injective j k h l e = same (sym (atoi-page_field j h) ∙ ap atoi e ∙ atoi-page_field k l)
  where
    same : some (pos j) ≡ some (pos k) → j ≡ k
    same p = ground (arith, p)

page_field-eq : (j k : ℕ) → j ≡ k → page_field j ≡ page_field k
page_field-eq j k e = ap page_field e

without-as_hash :
    (k : ℕ) (ps : Pages)
    → k < 2 ^ 63
    → Small ps
    → without (page_field k) (as_hash ps) ≡ as_hash (remove k ps)
unfolding without remove
without-as_hash k [] h hs = refl
without-as_hash k ((j, b) ∷ ps) h (l, ls) = ground (
  arith,
  without-as_hash k ps h ls,
  page_field-injective j k l h,
  equal_iff (page_field j) (page_field k),
  page_field-eq j k,
)

remove-Small : (k : ℕ) (ps : Pages) → Small ps → Small (remove k ps)
unfolding remove
remove-Small k [] h = tt
remove-Small k ((j, b) ∷ ps) (h, hs) = ground (arith, h, remove-Small k ps hs)

temp_key-injective : (r r' : Bytes) → temp_key r ≡ temp_key r' → r ≡ r'
unfolding temp_key
temp_key-injective r r' e = ground (arith, e)

module _ {S : Type 0} (server : HashServer S) where
  -- The server holds these pages for a request: the fields of its hash are theirs, in some order.
  pub record Represents (s : S) (request_id : Bytes) (ps : Pages) : Type 0 where
    pub fields : Permᴰ (server.hgetall (temp_key request_id) s) (as_hash ps)
    pub small : Small ps

  pub store_page-Represents :
      (s : S) (r : Bytes) (ps : Pages) (k : ℕ) (b : Bytes)
      → k < 2 ^ 63
      → Represents s r ps
      → Represents (store_page server r k b s) r (put_page k b ps)
  unfolding store_page put_page without
  store_page-Represents s r ps k b h p = record {
    fields = trans (server.hgetall-hset (temp_key r) (page_field k) b s) (
        cons refl (
          subst (λ x. Permᴰ (without (page_field k) (server.hgetall (temp_key r) s)) x)
            (without-as_hash k ps h p.small) (gather-perm (keep (page_field k)) p.fields)));
    small = (h, remove-Small k ps p.small);
  }

  pub get_pages-Represents :
      (s : S) (r : Bytes) (ps : Pages)
      → Represents s r ps
      → Permᴰ (get_pages server r s) (as_pages ps)
  unfolding get_pages
  get_pages-Represents s r ps q =
      subst (λ x. Permᴰ (get_pages server r s) x) (parse_pages-as_hash ps q.small)
        (gather-perm parse_page q.fields)

  pub get_pages-delete : (s : S) (r : Bytes) → get_pages server r (delete_pages server r s) ≡ []
  unfolding get_pages delete_pages
  get_pages-delete s r = ap parse_pages (server.hgetall-del (temp_key r) s)

  apart : (r other : Bytes) → other ≢ r → temp_key other ≢ temp_key r
  apart r other n e = n (temp_key-injective other r e)

  pub get_pages-delete_ne :
      (s : S) (r other : Bytes)
      → other ≢ r
      → get_pages server other (delete_pages server r s) ≡ get_pages server other s
  unfolding get_pages delete_pages
  get_pages-delete_ne s r other n =
      ap parse_pages (server.hgetall-del_ne (temp_key r) (temp_key other) s (apart r other n))

  -- On a server that holds some pages for a request, for page numbers that an int holds: a `PutPage` leaves it holding what the page map
  -- says, and `GetPages` then returns these pages, with their numbers, in some order. `DeletePages`
  -- leaves none. The pages of another request stay as they are in both.
  pub store_page-refines :
      (s : S) (r other : Bytes) (ps : Pages) (k : ℕ) (b : Bytes)
      → Represents s r ps
      → k < 2 ^ 63
      → other ≢ r
      → Represents (store_page server r k b s) r (put_page k b ps)
        × Permᴰ (get_pages server r (store_page server r k b s)) (as_pages (put_page k b ps))
        × (get_pages server r (delete_pages server r s) ≡ [])
        × (get_pages server other (store_page server r k b s) ≡ get_pages server other s)
        × (get_pages server other (delete_pages server r s) ≡ get_pages server other s)
  unfolding get_pages delete_pages store_page
  store_page-refines s r other ps k b p h n =
      let q = store_page-Represents s r ps k b h p in
      (
        q,
        get_pages-Represents (store_page server r k b s) r (put_page k b ps) q,
        get_pages-delete s r,
        ap parse_pages (
            server.hgetall-hset_ne (temp_key r) (temp_key other) (page_field k) b s
              (apart r other n)),
        get_pages-delete_ne s r other n,
      )
