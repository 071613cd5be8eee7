-- ===== src/Store/Fields.antt =====
-- internal/store/redis.go: `PageField`, and `strconv.Atoi`, which reads it back.
use opgate.Base.{
  ℕ, zero, suc, ◌+◌, ◌-◌, ◌*◌, ◌/◌, ◌%◌, ◌^◌, ◌≤◌, ◌<◌, Bool, true, false, ◌&&◌, [], ◌∷◌, ◌++◌,
  Option, none, some, ◌≡◌, ◌≢◌, refl, ◌∙◌, length, ltb, leb, ◌==◌, if◌then◌else◌, arith,
}
use opgate.Base.Bytes.{Bytes}
use opgate.Base.Int.{ℤ, pos, negsuc}

-- `%d` on a number: its decimal digits. The number itself is fuel enough, since a tenth is less.
unfoldable pub decimal : ℕ → ℕ → Bytes
decimal zero n = (b'0' + n % 10) ∷ []
decimal (suc fuel) n =
    let front = decimal fuel (n / 10) in
    if ltb n 10 then (b'0' + n) ∷ [] else front ++ (b'0' + n % 10) ∷ []

unfoldable pub zeros : ℕ → Bytes
zeros zero = []
zeros (suc n) = b'0' ∷ zeros n

-- `PageField`: `%06d`.
unfoldable pub page_field : ℕ → Bytes
unfolding decimal zeros
page_field seq = zeros (6 - length (decimal seq seq)) ++ decimal seq seq

is_digit : ℕ → Bool
is_digit c = leb b'0' c && leb c b'9'

-- The number that digits read as, behind a number already read.
unfoldable pub read_digits : ℕ → Bytes → Option ℕ
unfolding is_digit
read_digits n [] = some n
read_digits n (c ∷ cs) =
    let rest = read_digits (n * 10 + (c - b'0')) cs in if is_digit c then rest else none

abbrev in_range : Bool → ℕ → Option ℤ
in_range false n = if ltb n (2 ^ 63) then some (pos n) else none
in_range true zero = some (pos zero)
in_range true (suc n) = if ltb n (2 ^ 63) then some (negsuc n) else none

abbrev on_digits : Bool → Option ℕ → Option ℤ
on_digits negative none = none
on_digits negative (some n) = in_range negative n

unsigned : Bool → Bytes → Option ℤ
unfolding read_digits
unsigned negative [] = none
unsigned negative (c ∷ cs) = on_digits negative (read_digits 0 (c ∷ cs))

-- `strconv.Atoi`: an optional sign, then digits, within int64.
unfoldable pub atoi : Bytes → Option ℤ
unfolding unsigned
atoi [] = none
atoi (c ∷ cs) =
    if c == b'-'
    then unsigned true cs
    else if c == b'+'
    then unsigned false cs
    else unsigned false (c ∷ cs)

read_digits-append :
    (xs ys : Bytes) (n m : ℕ)
    → read_digits n xs ≡ some m
    → read_digits n (xs ++ ys) ≡ read_digits m ys
unfolding read_digits
read_digits-append [] ys n m h = ground arith
read_digits-append (x ∷ xs) ys n m h =
    ground (arith, read_digits-append xs ys (n * 10 + (x - b'0')) m)

pub read_digits-decimal : (fuel n : ℕ) → n ≤ fuel → read_digits 0 (decimal fuel n) ≡ some n
unfolding read_digits decimal is_digit
read_digits-decimal zero n h = ground arith
read_digits-decimal (suc fuel) n h = ground (
  arith,
  read_digits-append (decimal fuel (n / 10)) ((b'0' + n % 10) ∷ []) 0 (n / 10),
  read_digits-decimal fuel (n / 10),
)

read_digits-zeros : (k : ℕ) (xs : Bytes) → read_digits 0 (zeros k ++ xs) ≡ read_digits 0 xs
unfolding read_digits zeros is_digit
read_digits-zeros zero xs = refl
read_digits-zeros (suc k) xs = read_digits-zeros k xs

read_digits-page_field : (n : ℕ) → read_digits 0 (page_field n) ≡ some n
unfolding page_field
read_digits-page_field n =
    read_digits-zeros (6 - length (decimal n n)) (decimal n n)
    ∙ read_digits-decimal n n (omega arith)

pub atoi-digits :
    (xs : Bytes) (n : ℕ) → xs ≢ [] → read_digits 0 xs ≡ some n → n < 2 ^ 63 → atoi xs ≡ some (pos n)
unfolding atoi unsigned read_digits is_digit
atoi-digits [] n k h l = absurd (k refl)
atoi-digits (c ∷ cs) n k h l = ground (arith, h)

append_nonempty : (xs ys : Bytes) → ys ≢ [] → xs ++ ys ≢ []
append_nonempty [] ys h e = h e
append_nonempty (x ∷ xs) ys h e = cc

pub decimal_nonempty : (fuel n : ℕ) → decimal fuel n ≢ []
unfolding decimal
decimal_nonempty zero n e = cc
decimal_nonempty (suc fuel) n e =
    ground (arith, e, append_nonempty (decimal fuel (n / 10)) ((b'0' + n % 10) ∷ []) (λ x. cc))

page_field_nonempty : (n : ℕ) → page_field n ≢ []
unfolding page_field
page_field_nonempty n =
    append_nonempty (zeros (6 - length (decimal n n))) (decimal n n) (decimal_nonempty n n)

-- `Atoi` reads back the field of every page number that an int holds.
pub atoi-page_field : (n : ℕ) → n < 2 ^ 63 → atoi (page_field n) ≡ some (pos n)
atoi-page_field n h =
    atoi-digits (page_field n) n (page_field_nonempty n) (read_digits-page_field n) h
