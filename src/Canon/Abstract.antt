-- ===== src/Canon/Abstract.antt =====
-- internal/canon: messages as values whose fields have no order, and what the canonical form and
-- `MessageArray` say of them.
use mathlib.Core.Quot
use mathlib.Core.Quot.{Quot, Quot-set}
use opgate.Base.{
  zero, List, [], ◌∷◌, map, ◌≡◌, ◌≢◌, ◌↔◌, ◌<◌, ◌∙◌, Option, none, some, Option-cases,
  some_injective, refl, ap, All, head, drop, inl, inr,
}
use opgate.Base.Bytes.{Bytes}
use opgate.Canon.{Value, emit, canonicalize}
use opgate.Canon.Hash.{message_array, hash_bytes, hex-injective, history_hash}
use opgate.Canon.Order.{Same, emit-Same}
use opgate.Canon.Joined.{IsPart, join_commas-injective}
use opgate.Canon.Regular.{emit-Whole, emit-nonempty}
use opgate.Canon.Sound.{IsSound, sound-IsRegular}
use opgate.Canon.Injective.{emit-Same_iff}

abbrev pub SoundValue : Type 0
SoundValue = (v : Value) × IsSound v

abbrev pub SameSound : SoundValue → SoundValue → Type 0
SameSound a b = Same a.0 b.0

-- A message: a value, whatever the order of its fields.
abbrev pub Message : Type 0
Message = Quot SameSound

Bytes-set : IsSet Bytes
Bytes-set = hlevel

-- The canonical form of a message.
unfoldable pub form : Message → Bytes
unfolding Bytes-set
form = Quot.lift Bytes-set (λ a. emit a.0) (λ a b h. emit-Same h)

-- Messages with one canonical form are one message.
form-injective : (p q : Message) → form p ≡ form q → p ≡ q
unfolding form
form-injective p q =
    Quot.ind {β = λ p. form p ≡ form q → p ≡ q} (λ p. hlevel (Quot-set))
      (λ a.
        Quot.ind {β = λ q. form (Quot.mk a) ≡ form q → Quot.mk a ≡ q} (λ q. hlevel (Quot-set))
          (λ b e. Quot.sound ((emit-Same_iff a.0 b.0 a.1 b.1).0 e)) q)
      p

IsPart-prop : (x : Bytes) → IsProp (IsPart x)
IsPart-prop x = hlevel

form-IsPart : (p : Message) → IsPart (form p)
unfolding form
form-IsPart =
    Quot.ind (λ p. IsPart-prop (form p))
      (λ a. (
        emit-Whole zero a.0 (sound-IsRegular a.0 a.1),
        emit-nonempty a.0 (sound-IsRegular a.0 a.1),
      ))

forms-All : (ps : List Message) → All IsPart (map form ps)
forms-All [] = tt
forms-All (p ∷ ps) = (form-IsPart p, forms-All ps)

map-injective : (ps qs : List Message) → map form ps ≡ map form qs → ps ≡ qs
map-injective [] [] e = refl
map-injective [] (q ∷ qs) e = cc
map-injective (p ∷ ps) [] e = cc
map-injective (p ∷ ps) (q ∷ qs) e =
    ap (λ x. x ∷ ps) (form-injective p q (ap (head []) e))
    ∙ ap (◌∷◌ q) (map-injective ps qs (ap (drop 1) e))

-- The text that is hashed for a history determines its messages.
message_array-form :
    (ps qs : List Message) → message_array (map form ps) ≡ message_array (map form qs) → ps ≡ qs
unfolding message_array
message_array-form ps qs e = map-injective ps qs (
    join_commas-injective b']' (inl refl) (map form ps) (map form qs) (forms-All ps) (forms-All qs)
      (ap (drop 1) e))

-- The hash of a history determines its messages, as values whose fields have no order, if SHA-256
-- gives bytes and tells the two texts that are hashed apart when they differ: two histories are one
-- state exactly if they say the same.
pub history_hash-form :
    (sha256 : Bytes → Bytes) (ps qs : List Message)
    → ((x : Bytes) → All (λ b. b < 256) (sha256 x))
    → (sha256 (message_array (map form ps)) ≡ sha256 (message_array (map form qs))
        → message_array (map form ps) ≡ message_array (map form qs))
    → (history_hash sha256 (map form ps) ≡ history_hash sha256 (map form qs)) ↔ (ps ≡ qs)
unfolding history_hash hash_bytes
history_hash-form sha256 ps qs bytes apart = (
  λ e. message_array-form ps qs (apart (hex-injective _ _ (bytes _) (bytes _) e)),
  λ e. ap (λ ms. history_hash sha256 (map form ms)) e,
)

-- A decoder that gives values as JSON has them.
abbrev pub IsSoundDecoder : (Bytes → Option Value) → Type 0
IsSoundDecoder decode = (raw : Bytes) (v : Value) → decode raw ≡ some v → IsSound v

pub canonicalize-form :
    (decode : Bytes → Option Value) (raw c : Bytes)
    → IsSoundDecoder decode
    → canonicalize decode raw ≡ some c
    → (p : Message) × (form p ≡ c)
unfolding canonicalize form
canonicalize-form decode raw c sound e = elim (Option-cases (decode raw)) [
  | inl none_there ↦ absurd (no_value (rw (none_there, canonicalize) at e))
  | inr (v, there) ↦
      (Quot.mk (v, sound raw v there), some_injective (rw (there, canonicalize) at e))
]
  where
    no_value : none ≢ some c
    no_value k = cc
