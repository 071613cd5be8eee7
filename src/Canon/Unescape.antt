-- ===== src/Canon/Unescape.antt =====
-- internal/canon/canon.go, `WriteString`: a reader of the runes that it writes.
use opgate.Base.{
  ℕ, ◌+◌, ◌-◌, ◌*◌, ◌≤◌, ◌<◌, Bool, true, false, ◌&&◌, ◌||◌, [], ◌∷◌, ◌++◌, ◌≡◌, ◌≢◌, ◌⊎◌, refl,
  sym, ap, ◌∙◌, All, ◌==◌, ==_iff, drop, ltb, leb, if◌then◌else◌, if_case, arith, append_assoc,
}
use opgate.Base.Bytes.{Bytes}
use opgate.Canon.Text.{
  Runes, encode_rune, write_rune, hex_escape, escape_rune, escape_runes, write_string,
}

-- A Unicode scalar value, as `range` over a string gives it.
abbrev pub IsScalar : ℕ → Type 0
IsScalar r = (r < 0xd800) ⊎ ((0xdfff < r) × (r ≤ 0x10ffff))

hex_value : ℕ → ℕ
hex_value c = if ltb c b'a' then c - b'0' else c - b'a' + 10

-- The rune behind a backslash, and the rest.
read_escape : Bytes → ℕ × Bytes
unfolding hex_value
read_escape [] = (0, [])
read_escape (c ∷ cs) =
    if c == b'n'
    then (b'\n', cs)
    else if c == b'r'
    then (b'\r', cs)
    else if c == b't'
    then (b'\t', cs)
    else if c == b'b'
    then (8, cs)
    else if c == b'f'
    then (12, cs)
    else if c == b'u'
    then read_hex cs
    else (c, cs)
  where
    read_hex : Bytes → ℕ × Bytes
    read_hex (a ∷ b ∷ c ∷ d ∷ cs) = (hex_value c * 16 + hex_value d, cs)
    read_hex other = (0, other)

-- The rune of some bytes of UTF-8, and the rest.
read_utf8 : Bytes → ℕ × Bytes
read_utf8 (a ∷ b ∷ c ∷ d ∷ cs) =
    if ltb a 0x80
    then (a, b ∷ c ∷ d ∷ cs)
    else if ltb a 0xe0
    then ((a - 0xc0) * 64 + (b - 0x80), c ∷ d ∷ cs)
    else if ltb a 0xf0
    then ((a - 0xe0) * 4096 + (b - 0x80) * 64 + (c - 0x80), d ∷ cs)
    else ((a - 0xf0) * 262144 + (b - 0x80) * 4096 + (c - 0x80) * 64 + (d - 0x80), cs)
read_utf8 (a ∷ b ∷ c ∷ []) =
    if ltb a 0x80
    then (a, b ∷ c ∷ [])
    else if ltb a 0xe0
    then ((a - 0xc0) * 64 + (b - 0x80), c ∷ [])
    else ((a - 0xe0) * 4096 + (b - 0x80) * 64 + (c - 0x80), [])
read_utf8 (a ∷ b ∷ []) = if ltb a 0x80 then (a, b ∷ []) else ((a - 0xc0) * 64 + (b - 0x80), [])
read_utf8 (a ∷ []) = (a, [])
read_utf8 [] = (0, [])

-- One rune as `WriteString` writes it, and the rest.
read_rune : Bytes → ℕ × Bytes
unfolding read_escape read_utf8
read_rune [] = (0, [])
read_rune (c ∷ cs) = if c == b'\\' then read_escape cs else read_utf8 (c ∷ cs)

-- Where an escaped rune begins: not with the quote that ends the string.
starts : Bytes → Bool
starts [] = false
starts (c ∷ cs) = if c == b'"' then false else true

read_one : (a : ℕ) (x : Bytes) → a < 0x80 → read_utf8 (a ∷ x) ≡ (a, x)
unfolding read_utf8
read_one a [] h = refl
read_one a (b ∷ []) h = ground arith
read_one a (b ∷ c ∷ []) h = ground arith
read_one a (b ∷ c ∷ d ∷ x) h = ground arith

read_two :
    (a b : ℕ) (x : Bytes)
    → 0x80 ≤ a
    → a < 0xe0
    → read_utf8 (a ∷ b ∷ x) ≡ ((a - 0xc0) * 64 + (b - 0x80), x)
unfolding read_utf8
read_two a b [] h k = ground arith
read_two a b (c ∷ []) h k = ground arith
read_two a b (c ∷ d ∷ x) h k = ground arith

read_three :
    (a b c : ℕ) (x : Bytes)
    → 0xe0 ≤ a
    → a < 0xf0
    → read_utf8 (a ∷ b ∷ c ∷ x) ≡ ((a - 0xe0) * 4096 + (b - 0x80) * 64 + (c - 0x80), x)
unfolding read_utf8
read_three a b c [] h k = ground arith
read_three a b c (d ∷ x) h k = ground arith

read_four :
    (a b c d : ℕ) (x : Bytes)
    → 0xf0 ≤ a
    → read_utf8 (a ∷ b ∷ c ∷ d ∷ x)
      ≡ ((a - 0xf0) * 262144 + (b - 0x80) * 4096 + (c - 0x80) * 64 + (d - 0x80), x)
unfolding read_utf8
read_four a b c d x h = ground arith

no_slash : (a : ℕ) (x : Bytes) → a ≢ b'\\' → read_rune (a ∷ x) ≡ read_utf8 (a ∷ x)
unfolding read_rune
no_slash a x h = ground (arith, h)

Reads : ℕ → Bytes → Bytes → Type 0
Reads r x e = read_rune (e ++ x) ≡ (r, x)

read-encode_rune : (r : ℕ) (x : Bytes) → r ≤ 0x10ffff → r ≢ b'\\' → Reads r x (encode_rune r)
unfolding encode_rune Reads
read-encode_rune r x h k =
    if_case (Reads r x) (ltb r 0x80) _ _
      (λ one. no_slash r x k ∙ read_one r x (ground (arith, one)))
      λ _.
        if_case (Reads r x) (ltb r 0x800) _ _
          (λ two.
            no_slash _ _ (λ e. omega (arith, e))
            ∙ read_two _ _ x (omega arith) (ground (arith, two))
            ∙ ap (λ n. (n, x)) (omega arith))
          λ _.
            if_case (Reads r x) (ltb r 0x10000) _ _
              (λ three.
                no_slash _ _ (λ e. omega (arith, e))
                ∙ read_three _ _ _ x (omega arith) (ground (arith, three))
                ∙ ap (λ n. (n, x)) (omega arith))
              (λ _.
                no_slash _ _ (λ e. omega (arith, e))
                ∙ read_four _ _ _ _ x (omega arith)
                ∙ ap (λ n. (n, x)) (omega arith))

-- A rune that is written as a backslash and a letter.
escaped :
    (r a c : ℕ) (x : Bytes)
    → (r == a) ≡ true
    → read_escape (c ∷ x) ≡ (a, x)
    → Reads r x (b'\\' ∷ c ∷ [])
unfolding Reads read_rune
escaped r a c x e h = h ∙ ap (λ n. (n, x)) (sym ((==_iff r a).0 e))

hex_escaped : (r : ℕ) (x : Bytes) → r < 0x20 → Reads r x (hex_escape r)
unfolding Reads read_rune read_escape hex_escape hex_value
hex_escaped r x h = ap (λ n. (n, x)) (ground arith)

plain : (r : ℕ) (x : Bytes) → IsScalar r → r ≢ b'\\' → Reads r x (write_rune r)
unfolding write_rune
plain r x h k =
    if_case (Reads r x) (leb 0xd800 r && leb r 0xdfff || ltb 0x10ffff r) _ _
      (λ e. absurd (ground (arith, e, h))) (λ _. read-encode_rune r x (ground (arith, h)) k)

read-escape_rune : (r : ℕ) (x : Bytes) → IsScalar r → Reads r x (escape_rune r)
unfolding escape_rune read_escape
read-escape_rune r x h =
    if_case (Reads r x) (r == b'"') _ _ (λ e. escaped r b'"' b'"' x e refl)
      λ _.
        if_case (Reads r x) (r == b'\\') _ _ (λ e. escaped r b'\\' b'\\' x e refl)
          λ slash.
            if_case (Reads r x) (r == b'\n') _ _ (λ e. escaped r b'\n' b'n' x e refl)
              λ _.
                if_case (Reads r x) (r == b'\r') _ _ (λ e. escaped r b'\r' b'r' x e refl)
                  λ _.
                    if_case (Reads r x) (r == b'\t') _ _ (λ e. escaped r b'\t' b't' x e refl)
                      λ _.
                        if_case (Reads r x) (r == 8) _ _ (λ e. escaped r 8 b'b' x e refl)
                          λ _.
                            if_case (Reads r x) (r == 12) _ _ (λ e. escaped r 12 b'f' x e refl)
                              λ _.
                                if_case (Reads r x) (ltb r 0x20) _ _
                                  (λ low. hex_escaped r x (ground (arith, low)))
                                  (λ _. plain r x h (ground (arith, slash)))

starts-write_rune : (r : ℕ) (x : Bytes) → r ≢ b'"' → starts (write_rune r ++ x) ≡ true
unfolding starts write_rune
starts-write_rune r x h = ground (arith, h)

starts-escape_rune : (r : ℕ) (x : Bytes) → starts (escape_rune r ++ x) ≡ true
unfolding starts escape_rune hex_escape
starts-escape_rune r x = ground (arith, starts-write_rune r x)

same_rest :
    (a b : ℕ) (x y : Bytes)
    → IsScalar a
    → IsScalar b
    → escape_rune a ++ x ≡ escape_rune b ++ y
    → ◌≡◌ {A = ℕ × Bytes} (a, x) (b, y)
unfolding Reads
same_rest a b x y h k e = sym (read-escape_rune a x h) ∙ ap read_rune e ∙ read-escape_rune b y k

quote_apart : (b : ℕ) (x u : Bytes) → ◌≢◌ {A = Bytes} (b'"' ∷ x) (escape_rune b ++ u)
unfolding starts
quote_apart b x u e = true_false (sym (starts-escape_rune b u) ∙ sym (ap starts e))
  where
    true_false : true ≢ false
    true_false k = cc

-- The runes of a text and what stands behind its closing quote are determined.
escape_runes-injective :
    (s t : Runes) (x y : Bytes)
    → All IsScalar s
    → All IsScalar t
    → escape_runes s ++ b'"' ∷ x ≡ escape_runes t ++ b'"' ∷ y
    → (s ≡ t) × (x ≡ y)
unfolding escape_runes
escape_runes-injective [] [] x y h k e = (refl, ap (drop 1) e)
escape_runes-injective [] (b ∷ t) x y h k e =
    absurd (quote_apart b x _ (e ∙ append_assoc (escape_rune b) (escape_runes t) (b'"' ∷ y)))
escape_runes-injective (a ∷ s) [] x y h k e =
    absurd (quote_apart a y _ (sym e ∙ append_assoc (escape_rune a) (escape_runes s) (b'"' ∷ x)))
escape_runes-injective (a ∷ s) (b ∷ t) x y (h, hs) (k, ks) e =
    let p = same_rest a b (escape_runes s ++ b'"' ∷ x) (escape_runes t ++ b'"' ∷ y) h k (
      sym (append_assoc (escape_rune a) (escape_runes s) (b'"' ∷ x))
      ∙ e
      ∙ append_assoc (escape_rune b) (escape_runes t) (b'"' ∷ y)) in
    let (same, rest) = escape_runes-injective s t x y hs ks (ap (λ z. z.1) p) in
    (ap (λ z. z.0 ∷ s) p ∙ ap (◌∷◌ b) same, rest)

pub write_string-injective :
    (s t : Runes) (x y : Bytes)
    → All IsScalar s
    → All IsScalar t
    → write_string s ++ x ≡ write_string t ++ y
    → (s ≡ t) × (x ≡ y)
unfolding write_string
write_string-injective s t x y h k e = escape_runes-injective s t x y h k (
    sym (append_assoc (escape_runes s) (b'"' ∷ []) x)
    ∙ ap (drop 1) e
    ∙ append_assoc (escape_runes t) (b'"' ∷ []) y)
