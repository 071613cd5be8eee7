-- ===== src/Canon/Text.antt =====
-- internal/canon/canon.go, `WriteString`. A string is the runes over which `range` goes, which are
-- written in UTF-8.
use opgate.Base.{
  ℕ, ◌+◌, ◌-◌, ◌/◌, ◌%◌, ◌&&◌, ◌||◌, List, [], ◌∷◌, ◌++◌, ltb, leb, ◌==◌, if◌then◌else◌, ◌≡◌, refl,
}
use opgate.Base.Bytes.{Bytes, codes}

abbrev pub Runes : Type 0
Runes = List ℕ

-- `utf8.AppendRune` of a code point that is one.
unfoldable pub encode_rune : ℕ → Bytes
encode_rune r =
    if ltb r 0x80
    then r ∷ []
    else if ltb r 0x800
    then (0xc0 + r / 64) ∷ (0x80 + r % 64) ∷ []
    else if ltb r 0x10000
    then (0xe0 + r / 4096) ∷ (0x80 + r / 64 % 64) ∷ (0x80 + r % 64) ∷ []
    else (0xf0 + r / 262144) ∷ (0x80 + r / 4096 % 64) ∷ (0x80 + r / 64 % 64) ∷ (0x80 + r % 64) ∷ []

-- `WriteRune`: what is no code point is written as U+FFFD.
unfoldable pub write_rune : ℕ → Bytes
unfolding encode_rune
write_rune r =
    if leb 0xd800 r && leb r 0xdfff || ltb 0x10ffff r then encode_rune 0xfffd else encode_rune r

unfoldable pub utf8_text : Runes → Bytes
unfolding write_rune
utf8_text [] = []
utf8_text (r ∷ rs) = write_rune r ++ utf8_text rs

hex_digit : ℕ → ℕ
hex_digit d = if ltb d 10 then b'0' + d else b'a' + d - 10

-- `\u%04x` of a rune below 0x20.
unfoldable pub hex_escape : ℕ → Bytes
unfolding hex_digit
hex_escape r = codes "\\u00" ++ hex_digit (r / 16) ∷ hex_digit (r % 16) ∷ []

-- One round of the loop of `WriteString`.
unfoldable pub escape_rune : ℕ → Bytes
unfolding hex_escape write_rune
escape_rune r =
    if r == b'"'
    then codes "\\\""
    else if r == b'\\'
    then codes "\\\\"
    else if r == b'\n'
    then codes "\\n"
    else if r == b'\r'
    then codes "\\r"
    else if r == b'\t'
    then codes "\\t"
    else if r == 8
    then codes "\\b"
    else if r == 12
    then codes "\\f"
    else if ltb r 0x20
    then hex_escape r
    else write_rune r

unfoldable pub escape_runes : Runes → Bytes
unfolding escape_rune
escape_runes [] = []
escape_runes (r ∷ rs) = escape_rune r ++ escape_runes rs

-- `WriteString`: what it appends to the buffer.
unfoldable pub write_string : Runes → Bytes
unfolding escape_runes
write_string s = b'"' ∷ (escape_runes s ++ b'"' ∷ [])

write_string_test :
    write_string (codes "a\"b\\c" ++ 10 ∷ 27 ∷ 0x1f600 ∷ [])
    ≡ codes "\"a\\\"b\\\\c\\n\\u001b" ++ 0xf0 ∷ 0x9f ∷ 0x98 ∷ 0x80 ∷ codes "\""
unfolding write_string
write_string_test = refl
