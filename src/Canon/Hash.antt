-- ===== src/Canon/Hash.antt =====
-- internal/canon/hash.go. SHA-256 is a parameter.
use opgate.Base.{
  ℕ, ◌+◌, ◌-◌, ◌/◌, ◌%◌, List, [], ◌∷◌, ◌++◌, length, take, ltb, if◌then◌else◌, ◌≡◌, refl, All,
  arith, ◌<◌,
}
use opgate.Base.Bytes.{Bytes}
use opgate.Canon.{join_commas}

nibble : ℕ → ℕ
nibble d = if ltb d 10 then b'0' + d else b'a' + d - 10

-- `hex.EncodeToString`
unfoldable pub hex : Bytes → Bytes
unfolding nibble
hex [] = []
hex (b ∷ bs) = nibble (b / 16) ∷ nibble (b % 16) ∷ hex bs

nibble-injective : (c d : ℕ) → c < 16 → d < 16 → nibble c ≡ nibble d → c ≡ d
unfolding nibble
nibble-injective c d h k e = ground arith

-- The print of bytes in hexadecimal determines them.
pub hex-injective :
    (xs ys : Bytes) → All (λ b. b < 256) xs → All (λ b. b < 256) ys → hex xs ≡ hex ys → xs ≡ ys
unfolding hex
hex-injective [] [] h k e = refl
hex-injective [] (y ∷ ys) h k e = cc
hex-injective (x ∷ xs) [] h k e = cc
hex-injective (x ∷ xs) (y ∷ ys) (h, hs) (k, ks) e = ground (
  arith,
  nibble-injective (x / 16) (y / 16),
  nibble-injective (x % 16) (y % 16),
  hex-injective xs ys hs ks,
)

-- `MessageArray`
unfoldable pub message_array : List Bytes → Bytes
message_array msgs = b'[' ∷ (join_commas msgs ++ b']' ∷ [])

-- `FullState`
unfoldable pub full_state : List Bytes → Bytes → Bytes
full_state msgs assistant = message_array (msgs ++ assistant ∷ [])

-- `Short`
unfoldable pub short : Bytes → Bytes
short s = if ltb 12 (length s) then take 12 s else s

module _ (sha256 : Bytes → Bytes) where
  -- `HashBytes`
  unfoldable pub hash_bytes : Bytes → Bytes
  unfolding hex
  hash_bytes contents = hex (sha256 contents)

  -- `HistoryHash`
  unfoldable pub history_hash : List Bytes → Bytes
  unfolding hash_bytes message_array
  history_hash msgs = hash_bytes (message_array msgs)
