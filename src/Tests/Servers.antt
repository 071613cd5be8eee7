-- ===== src/Tests/Servers.antt =====
-- A server of hashes in memory, and a page stored on it.
use mathlib.Core.List.{Permᴰ}
use mathlib.Core.List.Permᴰ
use opgate.Base.{[], ◌∷◌, ◌≡◌, ◌≢◌, refl, arith, if◌then◌else◌}
use opgate.Base.Bytes.{Bytes, codes, equal, equal_refl, equal_iff}
use opgate.Store.{put_page}
use opgate.Store.Fields.{page_field, decimal}
use opgate.Store.Redis.{
  Hash, without, HashServer, store_page, get_pages, delete_pages, as_pages, Represents,
  store_page-refines,
}

abbrev pub Memory : Type 0
Memory = Bytes → Hash

pub set : Bytes → Hash → Memory → Memory
set key h s k = if equal k key then h else s k

pub set_self : (key : Bytes) (h : Hash) (s : Memory) → set key h s key ≡ h
unfolding set
set_self key h s = rw (equal_refl key) refl

pub set_ne : (key other : Bytes) (h : Hash) (s : Memory) → other ≢ key → set key h s other ≡ s other
unfolding set
set_ne key other h s n = ground (arith, (equal_iff other key).0)

abbrev pub memory : HashServer Memory
memory = record {
  hset = λ key f v s. set key ((f, v) ∷ without f (s key)) s;
  hgetall = λ key s. s key;
  del = λ key s. set key [] s;
  hgetall-hset = λ key f v s. rw (set_self key ((f, v) ∷ without f (s key)) s) (Permᴰ.refl _);
  hgetall-hset_ne = λ key other f v s n. set_ne key other ((f, v) ∷ without f (s key)) s n;
  hgetall-del = λ key s. set_self key [] s;
  hgetall-del_ne = λ key other s n. set_ne key other [] s n;
}

abbrev pub empty : Memory
empty key = []

pub empty-Represents : Represents memory empty (codes "r") []
empty-Represents = record { fields = Permᴰ.nil; small = tt }

store_page-refines_example :
    Represents memory
      (store_page memory (codes "r") 7 (codes "page") empty)
      (codes "r")
      (put_page 7 (codes "page") [])
    × Permᴰ
        (get_pages memory (codes "r") (store_page memory (codes "r") 7 (codes "page") empty))
        (as_pages (put_page 7 (codes "page") []))
    × (get_pages memory (codes "r") (delete_pages memory (codes "r") empty) ≡ [])
    × (get_pages memory (codes "q") (store_page memory (codes "r") 7 (codes "page") empty)
        ≡ get_pages memory (codes "q") empty)
    × (get_pages memory (codes "q") (delete_pages memory (codes "r") empty)
        ≡ get_pages memory (codes "q") empty)
store_page-refines_example =
    store_page-refines memory empty (codes "r") (codes "q") [] 7 (codes "page") empty-Represents
      (omega arith) (λ e. ground (arith, e))

page_field-test : page_field 123 ≡ codes "000123"
unfolding page_field decimal
page_field-test = refl
