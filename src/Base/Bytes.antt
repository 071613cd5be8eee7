-- ===== src/Base/Bytes.antt =====
-- Byte strings, and the functions of Go's package bytes (and strings) that the gateway calls.
use Prim.Native.Nat.{ℕ, ◌-◌}
use Prim.Native.Char.{code}
use Prim.Native.String.{String}
use mathlib.Core.Path.{◌≡◌, refl}
use mathlib.Core.Logic.{◌↔◌}
use mathlib.Core.Bool.{Bool, true, false, ◌&&◌, ◌||◌}
use mathlib.Core.List.{List, [], ◌∷◌, ◌++◌, reverse}
use native.Mathlib.Omega.{arith}
use opgate.Base.Lists.{length, take, drop, length-append, take-length-append, drop-length-append}
use opgate.Base.Tests.{◌==◌, leb, if◌then◌else◌}

abbrev pub Bytes : Type 0
Bytes = List ℕ

-- The code points of a literal: its bytes, when it is ASCII.
abbrev pub codes : String → Bytes
codes String.[] = []
codes (String.◌∷◌ c s) = code c ∷ codes s

-- bytes.Equal, and == on strings.
unfoldable pub equal : Bytes → Bytes → Bool
equal [] [] = true
equal (x ∷ xs) (y ∷ ys) = x == y && equal xs ys
equal _ _ = false

pub equal_refl : (xs : Bytes) → equal xs xs ≡ true
unfolding equal
equal_refl [] = refl
equal_refl (x ∷ xs) = ground (arith, equal_refl xs)

pub equal→eq : (xs ys : Bytes) → equal xs ys ≡ true → xs ≡ ys
unfolding equal
equal→eq [] [] h = refl
equal→eq [] (y ∷ ys) h = cc
equal→eq (x ∷ xs) [] h = cc
equal→eq (x ∷ xs) (y ∷ ys) h = ground (arith, equal→eq xs ys)

pub equal_iff : (xs ys : Bytes) → (equal xs ys ≡ true) ↔ (xs ≡ ys)
equal_iff xs ys = (equal→eq xs ys, λ e. rw e (equal_refl ys))

-- `<=` on strings: the order of their bytes.
unfoldable pub leb_bytes : Bytes → Bytes → Bool
leb_bytes [] ys = true
leb_bytes (x ∷ xs) [] = false
leb_bytes (x ∷ xs) (y ∷ ys) = if x == y then leb_bytes xs ys else leb x y

pub leb_bytes_antisym : (xs ys : Bytes) → leb_bytes xs ys ≡ true → leb_bytes ys xs ≡ true → xs ≡ ys
unfolding leb_bytes
leb_bytes_antisym [] [] h k = refl
leb_bytes_antisym [] (y ∷ ys) h k = cc
leb_bytes_antisym (x ∷ xs) [] h k = cc
leb_bytes_antisym (x ∷ xs) (y ∷ ys) h k = ground (arith, leb_bytes_antisym xs ys)

pub leb_bytes_total : (xs ys : Bytes) → leb_bytes xs ys ≡ false → leb_bytes ys xs ≡ true
unfolding leb_bytes
leb_bytes_total [] ys h = cc
leb_bytes_total (x ∷ xs) [] h = refl
leb_bytes_total (x ∷ xs) (y ∷ ys) h = ground (arith, leb_bytes_total xs ys)

pub leb_bytes_trans :
    (xs ys zs : Bytes) → leb_bytes xs ys ≡ true → leb_bytes ys zs ≡ true → leb_bytes xs zs ≡ true
unfolding leb_bytes
leb_bytes_trans [] ys zs h k = refl
leb_bytes_trans (x ∷ xs) [] zs h k = cc
leb_bytes_trans (x ∷ xs) (y ∷ ys) [] h k = cc
leb_bytes_trans (x ∷ xs) (y ∷ ys) (z ∷ zs) h k = ground (arith, leb_bytes_trans xs ys zs)

-- bytes.HasPrefix, bytes.TrimPrefix
unfoldable pub has_prefix : Bytes → Bytes → Bool
has_prefix s [] = true
has_prefix [] (c ∷ p) = false
has_prefix (x ∷ s) (c ∷ p) = x == c && has_prefix s p

unfoldable pub trim_prefix : Bytes → Bytes → Bytes
unfolding has_prefix
trim_prefix s p = if has_prefix s p then drop (length p) s else s

-- bytes.HasSuffix, bytes.TrimSuffix
unfoldable pub has_suffix : Bytes → Bytes → Bool
unfolding equal
has_suffix s p = leb (length p) (length s) && equal (drop (length s - length p) s) p

unfoldable pub trim_suffix : Bytes → Bytes → Bytes
unfolding has_suffix
trim_suffix s p = if has_suffix s p then take (length s - length p) s else s

pub has_prefix-append : (p s : Bytes) → has_prefix (p ++ s) p ≡ true
unfolding has_prefix
has_prefix-append [] s = refl
has_prefix-append (c ∷ p) s = ground (arith, has_prefix-append p s)

length-append-sub : (s p : Bytes) → length (s ++ p) - length p ≡ length s
length-append-sub s p = omega (arith, length-append {0} s p)

has_suffix-append : (s p : Bytes) → has_suffix (s ++ p) p ≡ true
unfolding has_suffix
has_suffix-append s p =
    rw (length-append-sub, drop-length-append, equal_refl) (ground (arith, length-append s p))

pub trim_suffix-append : (s p : Bytes) → trim_suffix (s ++ p) p ≡ s
unfolding trim_suffix
trim_suffix-append s p = rw (has_suffix-append, length-append-sub) (take-length-append s p)

-- unicode.IsSpace on UTF-8: the space characters of one, two and three bytes.
ascii_space : ℕ → Bool
ascii_space a = leb 9 a && leb a 13 || a == 32

two_space : ℕ → ℕ → Bool
two_space a b = a == 0xc2 && (b == 0x85 || b == 0xa0)

three_space : ℕ → ℕ → ℕ → Bool
three_space a b c =
    a == 0xe1 && b == 0x9a && c == 0x80
    || a == 0xe2 && b == 0x80 && (leb 0x80 c && leb c 0x8a || c == 0xa8 || c == 0xa9 || c == 0xaf)
    || a == 0xe2 && b == 0x81 && c == 0x9f
    || a == 0xe3 && b == 0x80 && c == 0x80

-- Drops the space characters in front, whose bytes the two tests see in reading order.
drop_spaces : (ℕ → ℕ → Bool) → (ℕ → ℕ → ℕ → Bool) → Bytes → Bytes
unfolding ascii_space
drop_spaces two three [] = []
drop_spaces two three (a ∷ []) = if ascii_space a then [] else a ∷ []
drop_spaces two three (a ∷ b ∷ []) =
    let after_one = drop_spaces two three (b ∷ []) in
    if ascii_space a then after_one else if two a b then [] else a ∷ b ∷ []
drop_spaces two three (a ∷ b ∷ c ∷ r) =
    let after_one = drop_spaces two three (b ∷ c ∷ r) in
    let after_two = drop_spaces two three (c ∷ r) in
    let after_three = drop_spaces two three r in
    if ascii_space a
    then after_one
    else if two a b
    then after_two
    else if three a b c
    then after_three
    else a ∷ b ∷ c ∷ r

-- bytes.TrimSpace. The right end is trimmed on the reversed bytes, where the tests read backwards.
unfoldable pub trim_space : Bytes → Bytes
unfolding drop_spaces two_space three_space
trim_space s = reverse (
    drop_spaces (λ a b. two_space b a) (λ a b c. three_space c b a)
      (reverse (drop_spaces two_space three_space s)))

trim_space_ascii : trim_space (codes " \t[DONE]\r\n") ≡ codes "[DONE]"
unfolding trim_space
trim_space_ascii = refl

trim_space_wide : trim_space (0xc2 ∷ 0xa0 ∷ b'x' ∷ 0xe3 ∷ 0x80 ∷ 0x80 ∷ []) ≡ codes "x"
unfolding trim_space
trim_space_wide = refl
