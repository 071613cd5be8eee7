-- ===== src/Canon/Reader.antt =====
-- A reader of JSON text that knows strings and brackets, and what it does on the texts that
-- internal/canon/canon.go writes.
use opgate.Base.{
  ℕ, zero, suc, ◌-◌, ◌<◌, Bool, true, false, ◌&&◌, ◌||◌, List, [], ◌∷◌, ◌++◌, ◌≡◌, ◌≢◌, refl, sym,
  ap, ◌∙◌, All, ◌==◌, leb, ltb, drop, if◌then◌else◌, if_case, arith, append_assoc, ◌⊎◌, inl, inr,
}
use opgate.Base.Bytes.{Bytes, codes}
use opgate.Canon.Text.{Runes, write_rune, hex_escape, escape_rune, escape_runes, write_string}
use opgate.Canon.{boolean, join_commas, emit}

-- Whether a reader of JSON stands outside a string, inside one, or behind a backslash in one.
pub data Mode : Type 0 where
  outside inside escaped : Mode

next_mode : Mode → ℕ → Mode
next_mode outside c = if c == b'"' then inside else outside
next_mode inside c = if c == b'\\' then escaped else if c == b'"' then outside else inside
next_mode escaped c = inside

next_depth : Mode → ℕ → ℕ → ℕ
next_depth outside c d =
    if c == b'[' || c == b'{' then suc d else if c == b']' || c == b'}' then d - 1 else d
next_depth inside c d = d
next_depth escaped c d = d

-- A comma or a closing bracket that belongs to no bracket read so far.
stops : Mode → ℕ → ℕ → Bool
stops outside zero c = c == b',' || c == b']' || c == b'}'
stops outside (suc d) c = false
stops inside d c = false
stops escaped d c = false

abbrev pub prepend : Bytes → Bytes × Bytes → Bytes × Bytes
prepend x (a, b) = (x ++ a, b)

-- The text up to the first byte that stops, and the rest.
unfoldable pub cut : ℕ → Mode → Bytes → Bytes × Bytes
unfolding next_mode next_depth stops
cut d m [] = ([], [])
cut d m (c ∷ cs) =
    let behind = cut (next_depth m c d) (next_mode m c) cs in
    if stops m d c then ([], c ∷ cs) else prepend (c ∷ []) behind

-- The reader goes through the text from one depth and mode to others.
abbrev pub Passes : ℕ → Mode → ℕ → Mode → Bytes → Type 0
Passes d m e n x = (r : Bytes) → cut d m (x ++ r) ≡ prepend x (cut e n r)

abbrev pub Quoted : ℕ → Bytes → Type 0
Quoted d = Passes d inside d inside

abbrev pub Whole : ℕ → Bytes → Type 0
Whole d = Passes d outside d outside

Passes-append :
    (d : ℕ) (l : Mode) (e : ℕ) (m : Mode) (f : ℕ) (n : Mode) (x y : Bytes)
    → Passes d l e m x
    → Passes e m f n y
    → Passes d l f n (x ++ y)
Passes-append d l e m f n x y h k r =
    ap (cut d l) (append_assoc x y r)
    ∙ h (y ++ r)
    ∙ ap (prepend x) (k r)
    ∙ ap (λ z. (z, (cut f n r).1)) (sym (append_assoc x y (cut f n r).0))

pub Whole-append : (d : ℕ) (x y : Bytes) → Whole d x → Whole d y → Whole d (x ++ y)
Whole-append d x y h k r = Passes-append d outside d outside d outside x y h k r

Quoted-append : (d : ℕ) (x y : Bytes) → Quoted d x → Quoted d y → Quoted d (x ++ y)
Quoted-append d x y h k r = Passes-append d inside d inside d inside x y h k r

-- Bytes that are neither a quote nor a backslash.
abbrev IsPlain : Bytes → Type 0
IsPlain = All (λ c. (c ≢ b'"') × (c ≢ b'\\'))

Quoted-plain : (d : ℕ) (x : Bytes) → IsPlain x → Quoted d x
unfolding cut
Quoted-plain d [] h r = refl
Quoted-plain d (c ∷ x) (h, hs) r = ground (arith, Quoted-plain d x hs r)

Quoted-escape : (d c : ℕ) → Quoted d (b'\\' ∷ c ∷ [])
unfolding cut
Quoted-escape d c r = refl

write_rune-IsPlain : (r : ℕ) → r ≢ b'"' → r ≢ b'\\' → IsPlain (write_rune r)
unfolding write_rune
write_rune-IsPlain r h k = ground arith

hex-IsPlain : (r : ℕ) → r < 0x20 → IsPlain (drop 2 (hex_escape r))
unfolding hex_escape
hex-IsPlain r h = ground arith

hex_escape-Quoted : (d r : ℕ) → r < 0x20 → Quoted d (hex_escape r)
unfolding hex_escape
hex_escape-Quoted d r h =
    Quoted-append d (codes "\\u") (drop 2 (hex_escape r)) (Quoted-escape d b'u')
      (Quoted-plain d (drop 2 (hex_escape r)) (hex-IsPlain r h))

escape_rune-Quoted : (d r : ℕ) → Quoted d (escape_rune r)
unfolding escape_rune
escape_rune-Quoted d r =
    if_case (Quoted d) (r == b'"') _ _ (λ _. Quoted-escape d b'"')
      λ quote.
        if_case (Quoted d) (r == b'\\') _ _ (λ _. Quoted-escape d b'\\')
          λ slash.
            if_case (Quoted d) (r == b'\n') _ _ (λ _. Quoted-escape d b'n')
              λ _.
                if_case (Quoted d) (r == b'\r') _ _ (λ _. Quoted-escape d b'r')
                  λ _.
                    if_case (Quoted d) (r == b'\t') _ _ (λ _. Quoted-escape d b't')
                      λ _.
                        if_case (Quoted d) (r == 8) _ _ (λ _. Quoted-escape d b'b')
                          λ _.
                            if_case (Quoted d) (r == 12) _ _ (λ _. Quoted-escape d b'f')
                              λ _.
                                if_case (Quoted d) (ltb r 0x20) _ _
                                  (λ low. hex_escape-Quoted d r (ground arith))
                                  (λ _.
                                    Quoted-plain d (write_rune r)
                                      (write_rune-IsPlain r (ground arith) (ground arith)))

escape_runes-Quoted : (d : ℕ) (s : Runes) → Quoted d (escape_runes s)
unfolding escape_runes
escape_runes-Quoted d [] = λ r. refl
escape_runes-Quoted d (c ∷ s) =
    Quoted-append d (escape_rune c) (escape_runes s) (escape_rune-Quoted d c)
      (escape_runes-Quoted d s)

opening_quote : (d : ℕ) → Passes d outside d inside (b'"' ∷ [])
unfolding cut
opening_quote zero r = refl
opening_quote (suc d) r = refl

closing_quote : (d : ℕ) → Passes d inside d outside (b'"' ∷ [])
unfolding cut
closing_quote d r = refl

pub write_string-Whole : (d : ℕ) (s : Runes) → Whole d (write_string s)
unfolding write_string
write_string-Whole d s =
    Passes-append d outside d inside d outside (b'"' ∷ []) (escape_runes s ++ b'"' ∷ [])
      (opening_quote d)
      (Passes-append d inside d inside d outside (escape_runes s) (b'"' ∷ [])
        (escape_runes-Quoted d s) (closing_quote d))

-- The bytes of a JSON number.
abbrev pub is_lexeme : ℕ → Bool
is_lexeme c =
    leb b'0' c && leb c b'9' || c == b'-' || c == b'+' || c == b'.' || c == b'e' || c == b'E'

abbrev pub IsLexeme : Bytes → Type 0
IsLexeme x = (x ≢ []) × All (λ c. is_lexeme c ≡ true) x

pub lexeme-Whole : (d : ℕ) (x : Bytes) → All (λ c. is_lexeme c ≡ true) x → Whole d x
unfolding cut
lexeme-Whole d [] h = λ r. refl
lexeme-Whole zero (c ∷ x) (h, hs) = λ r. ground (arith, lexeme-Whole zero x hs r)
lexeme-Whole (suc d) (c ∷ x) (h, hs) = λ r. ground (arith, lexeme-Whole (suc d) x hs r)

pub null-Whole : (d : ℕ) → Whole d (codes "null")
unfolding cut
null-Whole zero r = refl
null-Whole (suc d) r = refl

pub boolean-Whole : (d : ℕ) (b : Bool) → Whole d (emit (boolean b))
unfolding cut emit
boolean-Whole zero true r = refl
boolean-Whole zero false r = refl
boolean-Whole (suc d) true r = refl
boolean-Whole (suc d) false r = refl

pub colon-Whole : (d : ℕ) → Whole d (b':' ∷ [])
unfolding cut
colon-Whole zero r = refl
colon-Whole (suc d) r = refl

comma-Whole : (d : ℕ) → Whole (suc d) (b',' ∷ [])
unfolding cut
comma-Whole d r = refl

-- Within brackets, texts joined by commas.
pub join_commas-Whole :
    (d : ℕ) (xs : List Bytes) → All (Whole (suc d)) xs → Whole (suc d) (join_commas xs)
unfolding join_commas
join_commas-Whole d [] h = λ r. refl
join_commas-Whole d (x ∷ []) (h, _) = h
join_commas-Whole d (x ∷ y ∷ xs) (h, hs) = Whole-append (suc d) x (b',' ∷ join_commas (y ∷ xs)) h (
    Whole-append (suc d) (b',' ∷ []) (join_commas (y ∷ xs)) (comma-Whole d)
      (join_commas-Whole d (y ∷ xs) hs))

enter : (d c : ℕ) → (c ≡ b'[') ⊎ (c ≡ b'{') → Passes d outside (suc d) outside (c ∷ [])
unfolding cut
enter zero c (inl e) r = rw e refl
enter zero c (inr e) r = rw e refl
enter (suc d) c (inl e) r = rw e refl
enter (suc d) c (inr e) r = rw e refl

leave : (d c : ℕ) → (c ≡ b']') ⊎ (c ≡ b'}') → Passes (suc d) outside d outside (c ∷ [])
unfolding cut
leave d c (inl e) r = rw e (ap (λ k. prepend (b']' ∷ []) (cut k outside r)) (omega arith))
leave d c (inr e) r = rw e (ap (λ k. prepend (b'}' ∷ []) (cut k outside r)) (omega arith))

pub enclosed-Whole :
    (d o c : ℕ) (x : Bytes)
    → (o ≡ b'[') ⊎ (o ≡ b'{')
    → (c ≡ b']') ⊎ (c ≡ b'}')
    → Whole (suc d) x
    → Whole d (o ∷ (x ++ c ∷ []))
enclosed-Whole d o c x p q h =
    Passes-append d outside (suc d) outside d outside (o ∷ []) (x ++ c ∷ []) (enter d o p)
      (Passes-append (suc d) outside (suc d) outside d outside x (c ∷ []) h (leave d c q))
