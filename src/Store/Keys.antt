-- ===== src/Store/Keys.antt =====
-- internal/store/redis.go: the keys and fields under which the gateway stores.
use opgate.Base.{[], ◌∷◌, ◌++◌, ◌≡◌, ◌≢◌, All, arith}
use opgate.Base.Bytes.{Bytes, codes}

-- `SessionKey`
unfoldable pub session_key : Bytes → Bytes → Bytes
session_key client_hash state_hash =
    codes "oc:v1" ++ (codes ":session:" ++ (client_hash ++ b':' ∷ state_hash))

-- `TempKey`
unfoldable pub temp_key : Bytes → Bytes
temp_key request_id = codes "oc:v1" ++ (codes ":tmp:" ++ request_id)

cut_colon :
    (xs ys : Bytes) (u v : Bytes)
    → All (λ c. c ≢ b':') xs
    → All (λ c. c ≢ b':') ys
    → xs ++ b':' ∷ u ≡ ys ++ b':' ∷ v
    → (xs ≡ ys) × (u ≡ v)
cut_colon [] [] u v h k e = ground arith
cut_colon [] (y ∷ ys) u v h k e = ground arith
cut_colon (x ∷ xs) [] u v h k e = ground arith
cut_colon (x ∷ xs) (y ∷ ys) u v (h, hs) (k, ks) e = ground (arith, cut_colon xs ys u v hs ks)

-- Session keys determine the client and the state, if client hashes hold no colon, as hexadecimal
-- text does; and no session key is the key of a temporary entry.
pub session_key-injective :
    (c c' s s' r : Bytes)
    → All (λ b. b ≢ b':') c
    → All (λ b. b ≢ b':') c'
    → (session_key c s ≡ session_key c' s' → (c ≡ c') × (s ≡ s')) × (session_key c s ≢ temp_key r)
unfolding session_key temp_key
session_key-injective c c' s s' r h k =
    (λ e. cut_colon c c' s s' h k (ground (arith, e)), λ e. ground (arith, e))
