-- ===== src/Store.antt =====
-- internal/store/store.go: what the gateway asks of a store. A temporary entry is a Go map from page
-- numbers to pages, here an association list whose order means nothing and whose keys differ.
pub mod Keys
pub mod Fields
pub mod Redis
pub mod Faults
use opgate.Base.{ℕ, suc, ◌+◌, List, [], ◌∷◌, map, ◌==◌, if◌then◌else◌}
use opgate.Base.Bytes.{Bytes}

abbrev pub Page : Type 0
Page = ℕ × Bytes

abbrev pub Pages : Type 0
Pages = List Page

abbrev pub keys : Pages → List ℕ
keys [] = []
keys ((k, _) ∷ ps) = k ∷ keys ps

-- `m[seq]`, with the zero value on a missing key.
unfoldable pub page_at : ℕ → Pages → Bytes
page_at k [] = []
page_at k ((j, b) ∷ ps) = if j == k then b else page_at k ps

unfoldable pub remove : ℕ → Pages → Pages
remove k [] = []
remove k ((j, b) ∷ ps) = let rest = remove k ps in if j == k then rest else (j, b) ∷ rest

-- What `PutPage` leaves in an entry: a field that is there already is replaced.
unfoldable pub put_page : ℕ → Bytes → Pages → Pages
unfolding remove
put_page seq page ps = (seq, page) ∷ remove seq ps

-- Pages numbered from `k` on, in the order in which a collector cuts them.
unfoldable pub number : ℕ → List Bytes → Pages
number k [] = []
number k (b ∷ bs) = (k, b) ∷ number (k + 1) bs
