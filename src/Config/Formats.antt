-- ===== src/Config/Formats.antt =====
-- internal/config/config.go: the scalar formats `Duration` and `ByteSize` of the configuration file, and
-- `Load`. The YAML library is a parameter, of which a scalar node with its tag and text is seen here.
use opgate.Base.{
  ℕ, ◌-◌, ◌*◌, ◌%◌, ◌^◌, ◌<◌, Bool, ◌&&◌, ◌||◌, [], ◌∷◌, Option, none, some, ◌≡◌, leb, ltb, ◌==◌,
  if◌then◌else◌, ◌≤◌, suc,
}
use opgate.Base.Bytes.{Bytes, codes, equal, trim_space}
use opgate.Base.Int.{ℤ, pos, negsuc}
use opgate.Session.{is_empty}
use opgate.Store.Fields.{atoi, decimal}
use opgate.Config.{Settings, Invalid, second, default, validate}

-- A scalar `yaml.Node`: whether its tag is `!!int`, and its value.
pub record Scalar : Type 0 where
  pub is_int : Bool
  pub content : Bytes

-- The int64 with these 64 bits.
unfoldable pub to_int64 : ℕ → ℤ
to_int64 bits = if ltb bits (2 ^ 63) then pos bits else negsuc (2 ^ 64 - 1 - bits)

-- `time.Duration(secs) * time.Second`, which wraps around.
unfoldable pub in_seconds : ℤ → ℤ
unfolding to_int64
in_seconds (pos n) = to_int64 (n * second % 2 ^ 64)
in_seconds (negsuc n) = to_int64 ((2 ^ 64 - suc n * second % 2 ^ 64) % 2 ^ 64)

-- What `UnmarshalYAML` makes of a scalar: a value, or one of its errors.
pub data Scanned : Type 0 where
  value : ℤ → Scanned
  invalid unknown_suffix : Scanned

abbrev pub value_or_invalid : (ℤ → ℤ) → Option ℤ → Scanned
value_or_invalid f none = invalid
value_or_invalid f (some n) = value (f n)

-- `Duration.UnmarshalYAML`. `time.ParseDuration` is an argument.
unfoldable pub unmarshal_duration : (Bytes → Option ℤ) → Scalar → Scanned
unfolding in_seconds
unmarshal_duration parse_duration node =
    if node.is_int
    then value_or_invalid in_seconds (atoi node.content)
    else value_or_invalid (λ d. d) (parse_duration (trim_space node.content))

unfoldable pub upper : ℕ → ℕ
upper c = if leb b'a' c && leb c b'z' then c - 32 else c

-- `strings.ToUpper`. Of the letters outside ASCII it maps two to ASCII letters, the dotless i and the
-- long s; the others stay outside ASCII, where no suffix is, and are left alone here.
unfoldable pub to_upper : Bytes → Bytes
unfolding upper
to_upper [] = []
to_upper (c ∷ []) = upper c ∷ []
to_upper (c ∷ d ∷ cs) =
    let after_one = to_upper (d ∷ cs) in
    let after_two = to_upper cs in
    if c == 0xc4 && d == 0xb1
    then b'I' ∷ after_two
    else if c == 0xc5 && d == 0xbf
    then b'S' ∷ after_two
    else upper c ∷ after_one

-- The characters over which the loop runs that finds the number.
unfoldable pub in_number : ℕ → Bool
in_number c = leb b'0' c && leb c b'9' || c == b'.'

-- `s[:i]` and `s[i:]`
unfoldable pub split_number : Bytes → Bytes × Bytes
unfolding in_number
split_number [] = ([], [])
split_number (c ∷ cs) =
    let rest = split_number cs in if in_number c then (c ∷ rest.0, rest.1) else ([], c ∷ cs)

-- The switch on the suffix: the power of two that it stands for.
unfoldable pub exponent : Bytes → Option ℕ
unfolding equal
exponent suffix =
    if equal suffix [] || equal suffix (codes "B")
    then some 0
    else if equal suffix (codes "K") || equal suffix (codes "KB") || equal suffix (codes "KIB")
    then some 10
    else if equal suffix (codes "M") || equal suffix (codes "MB") || equal suffix (codes "MIB")
    then some 20
    else if equal suffix (codes "G") || equal suffix (codes "GB") || equal suffix (codes "GIB")
    then some 30
    else if equal suffix (codes "T") || equal suffix (codes "TB") || equal suffix (codes "TIB")
    then some 40
    else none

-- The 64-bit floats, as far as they are used: `strconv.ParseFloat`, the product with a power of two,
-- and the conversion to int64. A numeral below 2^53 is read exactly, and so is its product with a power
-- of two, which the conversion gives back if an int64 holds it.
pub record Floats (F : Type 0) : Type 0 where
  pub parse : Bytes → Option F
  pub scale : F → ℕ → F
  pub to_int : F → ℤ
  pub of_nat : ℕ → F
  pub parse-decimal : (n : ℕ) → n < 2 ^ 53 → parse (decimal n n) ≡ some (of_nat n)
  pub scale-of_nat : (n k : ℕ) → n < 2 ^ 53 → k ≤ 40 → scale (of_nat n) k ≡ of_nat (n * 2 ^ k)
  pub to_int-of_nat :
      (n k : ℕ)
      → n < 2 ^ 53
      → k ≤ 40
      → n * 2 ^ k < 2 ^ 63
      → to_int (of_nat (n * 2 ^ k)) ≡ pos (n * 2 ^ k)

module _ {F : Type 0} (floats : Floats F) where
  abbrev pub to_value : ℕ → Option F → Scanned
  to_value k none = invalid
  to_value k (some f) = value (floats.to_int (floats.scale f k))

  abbrev pub convert : Bytes → Option ℕ → Scanned
  convert number none = unknown_suffix
  convert number (some k) = to_value k (floats.parse number)

  -- The tests behind the loop, on the number and the suffix.
  unfoldable pub size_of : Bytes × Bytes → Scanned
  unfolding exponent
  size_of (number, suffix) =
      if is_empty number then invalid else convert number (exponent (trim_space suffix))

  -- `ByteSize.UnmarshalYAML`
  unfoldable pub unmarshal_byte_size : Scalar → Scanned
  unfolding size_of split_number to_upper
  unmarshal_byte_size node =
      if node.is_int
      then value_or_invalid (λ n. n) (atoi node.content)
      else size_of (split_number (to_upper (trim_space node.content)))

-- What `Load` returns.
pub data Loaded : Type 0 where
  ok : Settings → Loaded
  not_read not_parsed : Loaded
  not_valid : Invalid → Loaded

abbrev pub checked : Option Invalid → Settings → Loaded
checked none c = ok c
checked (some e) c = not_valid e

module _ (unmarshal : Bytes → Settings → Option Settings)
    (url_parse : Bytes → Option (Bytes × Bytes)) where
  abbrev pub on_parsed : Option Settings → Loaded
  on_parsed none = not_parsed
  on_parsed (some cfg) = checked (validate url_parse cfg) cfg

  abbrev pub on_read : Option Bytes → Loaded
  on_read none = not_read
  on_read (some raw) = on_parsed (unmarshal raw default)

-- `Load`, over the reading of the file, the decoding of YAML on top of a configuration, and
-- `url.Parse`.
unfoldable pub load :
    (Bytes → Option Bytes)
    → (Bytes → Settings → Option Settings)
    → (Bytes → Option (Bytes × Bytes))
    → Bytes
    → Loaded
unfolding default validate
load read_file unmarshal url_parse path = on_read unmarshal url_parse (read_file path)
