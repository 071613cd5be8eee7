-- ===== src/Canon/Messages.antt =====
-- internal/canon/hash.go, `MessageArray`, on canonical messages.
use opgate.Base.{zero, List, [], ◌∷◌, ◌≡◌, refl, ap, subst, ◌∙◌, All, drop, inl}
use opgate.Base.Bytes.{Bytes}
use opgate.Canon.{Value, emit}
use opgate.Canon.Hash.{message_array}
use opgate.Canon.Reader.{Whole}
use opgate.Canon.Joined.{IsPart, join_commas-injective}
use opgate.Canon.Regular.{IsRegular, emit-Whole, emit-nonempty}

-- A message as `prepare` stores it: the canonical form of a value.
pub record IsCanonical (x : Bytes) : Type 0 where
  pub value : Value
  pub regular : IsRegular value
  pub written : emit value ≡ x

IsCanonical-IsPart : (x : Bytes) → IsCanonical x → IsPart x
IsCanonical-IsPart x h = (
  subst (Whole zero) h.written (emit-Whole zero h.value h.regular),
  λ e. emit-nonempty h.value h.regular (h.written ∙ e),
)

All-IsPart : (xs : List Bytes) → All IsCanonical xs → All IsPart xs
All-IsPart [] h = tt
All-IsPart (x ∷ xs) (h, hs) = (IsCanonical-IsPart x h, All-IsPart xs hs)

-- The array of canonical messages determines the messages: no two histories are hashed as one text.
pub message_array-injective :
    (xs ys : List Bytes)
    → All IsCanonical xs
    → All IsCanonical ys
    → message_array xs ≡ message_array ys
    → xs ≡ ys
unfolding message_array
message_array-injective xs ys h k e =
    join_commas-injective b']' (inl refl) xs ys (All-IsPart xs h) (All-IsPart ys k) (ap (drop 1) e)
