-- ===== src/Config/Exact.antt =====
-- internal/config/config.go: which values the formats give for whole numbers.
use opgate.Base.{
  ℕ, zero, suc, ◌*◌, ◌/◌, ◌%◌, ◌^◌, ◌≤◌, ◌<◌, true, false, [], ◌∷◌, ◌++◌, Option, some, ◌≡◌, ◌≢◌,
  ◌↔◌, refl, ap, ◌∙◌, All, All-append, ltb, if_case, arith,
}
use opgate.Base.Bytes.{Bytes, trim_space}
use opgate.Base.Int.{ℤ, pos}
use opgate.Session.{is_empty}
use opgate.Store.Fields.{decimal, atoi, atoi-digits, decimal_nonempty, read_digits-decimal}
use opgate.Config.{second}
use opgate.Config.Formats.{
  value, value_or_invalid, to_int64, in_seconds, upper, to_upper, in_number, split_number, exponent,
  Floats, size_of, to_value, unmarshal_duration, unmarshal_byte_size,
}

atoi-decimal : (n : ℕ) → n < 2 ^ 63 → atoi (decimal n n) ≡ some (pos n)
atoi-decimal n h =
    atoi-digits (decimal n n) n (decimal_nonempty n n) (read_digits-decimal n n (omega arith)) h

to_int64-pos : (n : ℕ) → (to_int64 (n % 2 ^ 64) ≡ pos n) ↔ (n < 2 ^ 63)
unfolding to_int64
to_int64-pos n = ground arith

-- A duration that is a whole number of seconds, as an int64 holds it, is read without an error; and
-- as that many seconds exactly if an int64 holds their nanoseconds: a greater one wraps around.
pub unmarshal_duration-in_range :
    (parse_duration : Bytes → Option ℤ) (n : ℕ)
    → n < 2 ^ 63
    → (d : ℤ) × (unmarshal_duration parse_duration (record { is_int = true; content = decimal n n })
        ≡ value d)
      × ((d ≡ pos (n * second)) ↔ (n * second < 2 ^ 63))
unfolding unmarshal_duration in_seconds
unmarshal_duration-in_range parse_duration n h = (
  in_seconds (pos n),
  ap (value_or_invalid in_seconds) (atoi-decimal n h),
  to_int64-pos (n * second),
)

IsDigit : ℕ → Type 0
IsDigit c = (b'0' ≤ c) × (c ≤ b'9')

decimal-IsDigit : (fuel n : ℕ) → n ≤ fuel → All IsDigit (decimal fuel n)
unfolding decimal IsDigit
decimal-IsDigit zero n h = ((omega arith, omega arith), tt)
decimal-IsDigit (suc fuel) n h =
    if_case (All IsDigit) (ltb n 10) _ _ (λ e. ((omega arith, ground (arith, e)), tt))
      (λ e.
        All-append IsDigit (decimal fuel (n / 10)) _ (decimal-IsDigit fuel (n / 10) (omega arith))
          ((omega arith, omega arith), tt))

to_upper-digit : (c : ℕ) (cs : Bytes) → IsDigit c → to_upper (c ∷ cs) ≡ c ∷ to_upper cs
unfolding to_upper upper IsDigit
to_upper-digit c [] h = ground (arith, h)
to_upper-digit c (d ∷ cs) h = ground (arith, h)

to_upper-digits : (ds cs : Bytes) → All IsDigit ds → to_upper (ds ++ cs) ≡ ds ++ to_upper cs
to_upper-digits [] cs h = refl
to_upper-digits (d ∷ ds) cs (h, hs) =
    to_upper-digit d (ds ++ cs) h ∙ ap (◌∷◌ d) (to_upper-digits ds cs hs)

split_number-digits :
    (ds cs : Bytes)
    → All IsDigit ds
    → split_number cs ≡ ([], cs)
    → split_number (ds ++ cs) ≡ (ds, cs)
unfolding split_number in_number IsDigit
split_number-digits [] cs h e = e
split_number-digits (d ∷ ds) cs (h, hs) e = rw (split_number-digits ds cs hs e) (ground (arith, h))

nonempty-false : (xs : Bytes) → xs ≢ [] → is_empty xs ≡ false
nonempty-false [] h = absurd (h refl)
nonempty-false (x ∷ xs) h = refl

module _ {F : Type 0} (floats : Floats F) where
  size_of-decimal :
      (n k : ℕ) (suffix : Bytes)
      → exponent (trim_space suffix) ≡ some k
      → n < 2 ^ 53
      → k ≤ 40
      → n * 2 ^ k < 2 ^ 63
      → size_of floats (decimal n n, suffix) ≡ value (pos (n * 2 ^ k))
  unfolding size_of
  size_of-decimal n k suffix e small scale h =
      rw (nonempty-false (decimal n n) (decimal_nonempty n n), e)
        (ap (to_value floats k) (floats.parse-decimal n small)
          ∙ ap value (
              ap floats.to_int (floats.scale-of_nat n k small scale)
              ∙ floats.to_int-of_nat n k small scale h))

  -- A byte size that is, but for the space around it, the digits of a number below 2^53, and behind
  -- them a text that does not go on as a number does and that is, in upper case and but for the space
  -- around it, a suffix of the table: it is read as the number times the power of two of the suffix,
  -- if an int64 holds that, and if floats are as exact as IEEE 754 has them.
  pub unmarshal_byte_size-exact :
      (n k : ℕ) (content unit : Bytes)
      → trim_space content ≡ decimal n n ++ unit
      → split_number (to_upper unit) ≡ ([], to_upper unit)
      → exponent (trim_space (to_upper unit)) ≡ some k
      → n < 2 ^ 53
      → k ≤ 40
      → n * 2 ^ k < 2 ^ 63
      → unmarshal_byte_size floats (record { is_int = false; content = content })
        ≡ value (pos (n * 2 ^ k))
  unfolding unmarshal_byte_size
  unmarshal_byte_size-exact n k content unit e ends suffix small scale h =
      ap (λ s. size_of floats (split_number (to_upper s))) e
      ∙ ap (λ s. size_of floats (split_number s))
          (to_upper-digits (decimal n n) unit (decimal-IsDigit n n (omega arith)))
      ∙ ap (size_of floats) (
          split_number-digits (decimal n n) (to_upper unit) (decimal-IsDigit n n (omega arith))
            ends)
      ∙ size_of-decimal n k (to_upper unit) suffix small scale h
