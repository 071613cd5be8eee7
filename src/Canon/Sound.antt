-- ===== src/Canon/Sound.antt =====
-- internal/canon/canon.go: the values that the decoder gives, and how the first byte of a canonical form
-- says of which kind a value is.
use opgate.Base.{ℕ, true, false, [], ◌∷◌, ◌≡◌, refl, All, ◌==◌, if◌then◌else◌, arith}
use opgate.Base.Bytes.{Bytes}
use opgate.Canon.Text.{Runes, write_string}
use opgate.Canon.{
  Value, null, boolean, number, text, array, object, Items, nil, cons, Fields, end, field,
  emit_object, emit,
}
use opgate.Canon.Reader.{IsLexeme}
use opgate.Canon.Regular.{IsRegular, AreRegular, HaveRegular}
use opgate.Canon.Unescape.{IsScalar}
use opgate.Canon.Sorted.{Apart}

-- A value as the decoder gives it: numbers as JSON writes them, texts of scalar values, and no key
-- twice in an object.
unfoldable mutual
  pub IsSound : Value → Type 0
  IsSound null = Unit
  IsSound (boolean b) = Unit
  IsSound (number x) = IsLexeme x
  IsSound (text s) = All IsScalar s
  IsSound (array xs) = AreSound xs
  IsSound (object fs) = HaveSound fs

  pub AreSound : Items → Type 0
  AreSound nil = Unit
  AreSound (cons v vs) = IsSound v × AreSound vs

  pub HaveSound : Fields → Type 0
  HaveSound end = Unit
  HaveSound (field k v fs) = All IsScalar k × IsSound v × Apart k fs × HaveSound fs

mutual
  unfolding IsSound IsRegular

  pub sound-IsRegular : (v : Value) → IsSound v → IsRegular v
  sound-IsRegular null h = tt
  sound-IsRegular (boolean b) h = tt
  sound-IsRegular (number x) h = h
  sound-IsRegular (text s) h = tt
  sound-IsRegular (array xs) h = sound-AreRegular xs h
  sound-IsRegular (object fs) h = sound-HaveRegular fs h

  pub sound-AreRegular : (xs : Items) → AreSound xs → AreRegular xs
  sound-AreRegular nil h = tt
  sound-AreRegular (cons v vs) (h, hs) = (sound-IsRegular v h, sound-AreRegular vs hs)

  pub sound-HaveRegular : (fs : Fields) → HaveSound fs → HaveRegular fs
  sound-HaveRegular end h = tt
  sound-HaveRegular (field k v fs) (_, h, _, hs) = (sound-IsRegular v h, sound-HaveRegular fs hs)

-- The kind of a value, and what the first byte of a text says of it.
unfoldable pub kind : Value → ℕ
kind null = 0
kind (boolean true) = 1
kind (boolean false) = 2
kind (text s) = 3
kind (array xs) = 4
kind (object fs) = 5
kind (number x) = 6

unfoldable pub tag : Bytes → ℕ
tag [] = 7
tag (c ∷ cs) =
    if c == b'n'
    then 0
    else if c == b't'
    then 1
    else if c == b'f'
    then 2
    else if c == b'"'
    then 3
    else if c == b'['
    then 4
    else if c == b'{'
    then 5
    else 6

tag-lexeme : (x : Bytes) → IsLexeme x → tag x ≡ 6
unfolding tag
tag-lexeme [] (h, _) = absurd (h refl)
tag-lexeme (c ∷ x) (_, (h, _)) = ground (arith, h)

pub tag-emit : (v : Value) → IsSound v → tag (emit v) ≡ kind v
unfolding tag emit kind IsSound write_string emit_object
tag-emit null h = refl
tag-emit (boolean true) h = refl
tag-emit (boolean false) h = refl
tag-emit (number x) h = tag-lexeme x h
tag-emit (text s) h = refl
tag-emit (array xs) h = refl
tag-emit (object fs) h = refl

-- A value of a kind, by what it holds.
unfoldable pub bytes_of : Value → Bytes
bytes_of (number x) = x
bytes_of _ = []

unfoldable pub runes_of : Value → Runes
runes_of (text s) = s
runes_of _ = []

unfoldable pub items_of : Value → Items
items_of (array xs) = xs
items_of _ = nil

unfoldable pub fields_of : Value → Fields
fields_of (object fs) = fs
fields_of _ = end

pub forms :
    (w : Value)
    → (kind w ≡ 0 → w ≡ null)
      × (kind w ≡ 1 → w ≡ boolean true)
      × (kind w ≡ 2 → w ≡ boolean false)
      × (kind w ≡ 3 → w ≡ text (runes_of w))
      × (kind w ≡ 4 → w ≡ array (items_of w))
      × (kind w ≡ 5 → w ≡ object (fields_of w))
      × (kind w ≡ 6 → w ≡ number (bytes_of w))
unfolding kind bytes_of runes_of items_of fields_of
forms w = ground arith
