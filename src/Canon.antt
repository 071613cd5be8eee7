-- ===== src/Canon.antt =====
-- internal/canon/canon.go: canonical JSON. A value is what the decoder gives: numbers keep their
-- text, and an object is a Go map, here a list of fields in some order with keys that differ.
pub mod Text
pub mod Hash
pub mod Order
pub mod Reader
pub mod Joined
pub mod Regular
pub mod Messages
pub mod Unescape
pub mod Sorted
pub mod Sound
pub mod Injective
pub mod Abstract
use opgate.Base.{ℕ, Bool, true, false, List, [], ◌∷◌, ◌++◌, Option, none, some, map, if◌then◌else◌}
use opgate.Base.Bytes.{Bytes, codes, leb_bytes}
use opgate.Canon.Text.{Runes, utf8_text, write_string}

mutual
  pub data Value : Type 0 where
    null : Value
    boolean : Bool → Value
    number : Bytes → Value
    text : Runes → Value
    array : Items → Value
    object : Fields → Value

  pub data Items : Type 0 where
    nil : Items
    cons : Value → Items → Items

  pub data Fields : Type 0 where
    end : Fields
    field : Runes → Value → Fields → Fields

-- A key of an object with its value already written.
pub record Member : Type 0 where
  pub key : Runes
  pub written : Bytes

-- The loops that write `,` in front of every element but the first.
unfoldable pub join_commas : List Bytes → Bytes
join_commas [] = []
join_commas (x ∷ []) = x
join_commas (x ∷ y ∷ xs) = x ++ b',' ∷ join_commas (y ∷ xs)

unfoldable pub write_member : Member → Bytes
write_member m = write_string m.key ++ b':' ∷ m.written

-- `sort.Strings` on the keys, which compares their bytes, carrying each key's value along.
unfoldable pub insert_member : Member → List Member → List Member
insert_member m [] = m ∷ []
insert_member m (n ∷ ns) =
    if leb_bytes (utf8_text m.key) (utf8_text n.key) then m ∷ n ∷ ns else n ∷ insert_member m ns

unfoldable pub sort_members : List Member → List Member
sort_members [] = []
sort_members (m ∷ ms) = insert_member m (sort_members ms)

unfoldable pub emit_object : List Member → Bytes
emit_object ms = b'{' ∷ (join_commas (map write_member (sort_members ms)) ++ b'}' ∷ [])

-- `emit`: what it appends to the buffer. The values that the decoder gives are of its six kinds, so
-- the error of the `default` case does not arise.
unfoldable mutual
  pub emit : Value → Bytes
  emit null = codes "null"
  emit (boolean true) = codes "true"
  emit (boolean false) = codes "false"
  emit (number lexeme) = lexeme
  emit (text s) = write_string s
  emit (array xs) = b'[' ∷ (join_commas (emit_items xs) ++ b']' ∷ [])
  emit (object fs) = emit_object (emit_fields fs)

  pub emit_items : Items → List Bytes
  emit_items nil = []
  emit_items (cons v vs) = emit v ∷ emit_items vs

  pub emit_fields : Fields → List Member
  emit_fields end = []
  emit_fields (field k v fs) = record { key = k; written = emit v } ∷ emit_fields fs

-- `Canonicalize`, over the decoder; `none` is its error.
unfoldable pub canonicalize : (Bytes → Option Value) → Bytes → Option Bytes
canonicalize decode raw = elim (decode raw) [ none ↦ none | some v ↦ some (emit v) ]

-- `CanonicalValue`, over `json.Marshal` of a value that the gateway built.
unfoldable pub canonical_value : (Bytes → Option Value) → (Value → Bytes) → Value → Option Bytes
unfolding canonicalize
canonical_value decode marshal v = canonicalize decode (marshal v)
