-- ===== src/Canon/Joined.antt =====
-- internal/canon: texts joined by commas in front of a closing bracket, as the elements of an array, the
-- members of an object and the messages of `MessageArray` are; where one ends and the next begins.
use opgate.Base.{
  zero, ℕ, ◌≤◌, List, [], ◌∷◌, ◌++◌, ◌≡◌, ◌≢◌, ◌⊎◌, inl, inr, refl, sym, ap, ◌∙◌, length,
  length-append, All, drop, arith, append_assoc, append-nil,
}
use opgate.Base.Bytes.{Bytes}
use opgate.Canon.{join_commas}
use opgate.Canon.Reader.{outside, cut, prepend, Whole}

-- A text that the reader goes through, and that is not empty.
abbrev pub IsPart : Bytes → Type 0
IsPart x = Whole zero x × (x ≢ [])

abbrev pub IsClosing : ℕ → Type 0
IsClosing c = (c ≡ b']') ⊎ (c ≡ b'}')

module _ (c : ℕ) where
  -- What stands behind the first of some texts.
  behind : List Bytes → Bytes
  behind [] = c ∷ []
  behind (x ∷ xs) = b',' ∷ (join_commas (x ∷ xs) ++ c ∷ [])

  join_commas-behind :
      (x : Bytes) (xs : List Bytes) → join_commas (x ∷ xs) ++ c ∷ [] ≡ x ++ behind xs
  unfolding join_commas behind
  join_commas-behind x [] = refl
  join_commas-behind x (y ∷ ys) = append_assoc x (b',' ∷ join_commas (y ∷ ys)) (c ∷ [])

  behind-le : (xs : List Bytes) → 1 ≤ length (behind xs)
  unfolding behind
  behind-le [] = omega arith
  behind-le (x ∷ xs) = omega arith

longer : (c : ℕ) (x r : Bytes) → x ≢ [] → 1 ≤ length r → ◌≢◌ {A = Bytes} (c ∷ []) (x ++ r)
longer c [] r h k e = h refl
longer c (d ∷ x) r h k e = omega (arith, ap length e, length-append {0} x r)

not_empty :
    (c : ℕ) (x : Bytes) (xs : List Bytes)
    → IsPart x
    → ◌≢◌ {A = Bytes} (c ∷ []) (join_commas (x ∷ xs) ++ c ∷ [])
not_empty c x xs h e = longer c x (behind c xs) h.1 (behind-le c xs) (e ∙ join_commas-behind c x xs)

module _ (c : ℕ) (closing : IsClosing c) where
  cut-closing : cut zero outside (c ∷ []) ≡ ([], c ∷ [])
  unfolding cut
  cut-closing = elim closing [ inl e ↦ rw e refl | inr e ↦ rw e refl ]

  cut-behind : (xs : List Bytes) → cut zero outside (behind c xs) ≡ ([], behind c xs)
  unfolding cut behind
  cut-behind [] = cut-closing
  cut-behind (x ∷ xs) = refl

  cut-join_commas :
      (x : Bytes) (xs : List Bytes)
      → IsPart x
      → cut zero outside (join_commas (x ∷ xs) ++ c ∷ []) ≡ (x, behind c xs)
  cut-join_commas x xs h =
      ap (cut zero outside) (join_commas-behind c x xs)
      ∙ h.0 (behind c xs)
      ∙ ap (prepend x) (cut-behind xs)
      ∙ ap (λ z. (z, behind c xs)) (append-nil x)

  comma_apart : (x : Bytes) → ◌≢◌ {A = Bytes} (c ∷ []) (b',' ∷ x)
  comma_apart x e = ground (arith, e, closing)

  behind-injective :
      (xs ys : List Bytes) → All IsPart xs → All IsPart ys → behind c xs ≡ behind c ys → xs ≡ ys
  unfolding behind
  behind-injective [] [] h k e = refl
  behind-injective [] (y ∷ ys) h k e = absurd (comma_apart _ e)
  behind-injective (x ∷ xs) [] h k e = absurd (comma_apart _ (sym e))
  behind-injective (x ∷ xs) (y ∷ ys) (h, hs) (k, ks) e =
      ap (λ z. z ∷ xs) (ap (λ z. z.0) same)
      ∙ ap (◌∷◌ y) (behind-injective xs ys hs ks (ap (λ z. z.1) same))
    where
      same : ◌≡◌ {A = Bytes × Bytes} (x, behind c xs) (y, behind c ys)
      same =
          sym (cut-join_commas x xs h)
          ∙ ap (λ z. cut zero outside (drop 1 z)) e
          ∙ cut-join_commas y ys k

  -- Joined and closed, parts are determined.
  pub join_commas-injective :
      (xs ys : List Bytes)
      → All IsPart xs
      → All IsPart ys
      → join_commas xs ++ c ∷ [] ≡ join_commas ys ++ c ∷ []
      → xs ≡ ys
  unfolding join_commas behind
  join_commas-injective [] [] h k e = refl
  join_commas-injective [] (y ∷ ys) h k e = absurd (not_empty c y ys k.0 e)
  join_commas-injective (x ∷ xs) [] h k e = absurd (not_empty c x xs h.0 (sym e))
  join_commas-injective (x ∷ xs) (y ∷ ys) h k e =
      behind-injective (x ∷ xs) (y ∷ ys) h k (ap (◌∷◌ b',') e)
