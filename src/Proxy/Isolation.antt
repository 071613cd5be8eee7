-- ===== src/Proxy/Isolation.antt =====
-- internal/proxy/handler.go: what a stored turn means for the requests that do not continue it.
use opgate.Base.{
  ℕ, ◌-◌, ◌<◌, List, [], ◌∷◌, ◌++◌, Option, none, some, ◌≡◌, ◌≢◌, inl, inr, refl, All, All-append,
  zero, suc, Bool-cases, take, length, arith, Option-cases, subst,
}
use opgate.Base.Bytes.{Bytes, codes}
use opgate.Canon.{Value, canonicalize, canonical_value}
use opgate.Canon.Hash.{hex, hash_bytes, full_state, message_array}
use opgate.Canon.Regular.{IsRegular}
use opgate.Canon.Messages.{IsCanonical, message_array-injective}
use opgate.Openai.{Json}
use opgate.Openai.Request.{member, parse_chat_request}
use opgate.Openai.Accumulator.{Accumulator, is_blank, message_value, ok, canonical}
use opgate.Openai.Assistant.{assistant_from_message, with_calls, message_content, set_tools}
use opgate.Session.{Resolutions, but_last, resolve}
use opgate.Session.Continuity.{Mappings, get_session, put_mapping, resolve-put_other}
use opgate.Proxy.{Request, client_identity, canonical_messages, chat_messages, prepare}

hex-colon : (xs : Bytes) → All (λ b. b < 256) xs → All (λ b. b ≢ b':') (hex xs)
unfolding hex
hex-colon [] h = tt
hex-colon (x ∷ xs) (h, hs) = (ground arith, (ground arith, hex-colon xs hs))

-- What the gateway relies on in the decoder: it keeps the text of a number, and that text is a number.
abbrev pub IsExact : Json → Type 0
IsExact json = (raw : Bytes) (v : Value) → json.decode raw ≡ some v → IsRegular v

module _ (json : Json) (exact : IsExact json) where
  canonicalize-IsCanonical : (raw x : Bytes) → canonicalize json.decode raw ≡ some x → IsCanonical x
  unfolding canonicalize
  canonicalize-IsCanonical raw x h = elim (Option-cases (json.decode raw)) [
    | inl e ↦ cc
    | inr (v, e) ↦ record { value = v; regular = exact raw v e; written = cc }
  ]

  canonical_messages-All :
      (ms xs : List Bytes) → canonical_messages json.decode ms ≡ some xs → All IsCanonical xs
  unfolding canonical_messages
  canonical_messages-All [] [] h = tt
  canonical_messages-All [] (x ∷ xs) h = cc
  canonical_messages-All (m ∷ ms) xs h = elim (Option-cases (canonicalize json.decode m)) [
    | inl e ↦ cc
    | inr (c, e) ↦ elim (Option-cases (canonical_messages json.decode ms)) [
      | inl e' ↦ cc
      | inr (cs, e') ↦
          subst (All IsCanonical) (the_list c cs e e')
            (canonicalize-IsCanonical m c e, canonical_messages-All ms cs e')
    ]
  ]
    where
      the_list :
          (c : Bytes) (cs : List Bytes)
          → canonicalize json.decode m ≡ some c
          → canonical_messages json.decode ms ≡ some cs
          → ◌≡◌ {A = List Bytes} (c ∷ cs) xs
      the_list c cs e e' = cc

  chat_messages-All :
      (body : Bytes) (xs : List Bytes) → chat_messages json body ≡ some xs → All IsCanonical xs
  unfolding chat_messages
  chat_messages-All body xs h = elim (Option-cases (parse_chat_request json body)) [
    | inl e ↦ cc
    | inr ([], e) ↦ cc
    | inr (m ∷ ms, e) ↦ canonical_messages-All (m ∷ ms) xs (cc)
  ]

  canonical-IsCanonical : (a : Accumulator) (x : Bytes) → canonical json a ≡ ok x → IsCanonical x
  unfolding canonical canonical_value
  canonical-IsCanonical a x h = elim (Bool-cases a.complex) [
    | inl c ↦ cc
    | inr c ↦ elim (Bool-cases (is_blank a)) [
      | inl b ↦ cc
      | inr b ↦ elim (Option-cases (message_value a)) [
        | inl e ↦ cc
        | inr (v, e) ↦ elim (Option-cases (canonicalize json.decode (json.marshal v))) [
          | inl k ↦ cc
          | inr (y, k) ↦ canonicalize-IsCanonical (json.marshal v) x (cc)
        ]
      ]
    ]
  ]

  with_calls-IsCanonical :
      (a : Accumulator) (calls : Option Bytes) (x : Bytes)
      → with_calls json a calls ≡ ok x
      → IsCanonical x
  unfolding with_calls
  with_calls-IsCanonical a none x h = canonical-IsCanonical a x h
  with_calls-IsCanonical a (some calls) x h = elim (Option-cases (json.tool_calls_of calls)) [
    | inl e ↦ cc
    | inr (tcs, e) ↦ canonical-IsCanonical (set_tools 0 tcs a) x (cc)
  ]

  message-IsCanonical : (raw x : Bytes) → assistant_from_message json raw ≡ ok x → IsCanonical x
  unfolding assistant_from_message
  message-IsCanonical raw x h = elim (Option-cases (json.object_of raw)) [
    | inl e ↦ cc
    | inr (m, e) ↦
        with_calls-IsCanonical (message_content json (member (codes "content") m))
          (member (codes "tool_calls") m) x (cc)
  ]

take-All {ℓ} : {A : Type 0} (P : A → Type ℓ) (n : ℕ) (xs : List A) → All P xs → All P (take n xs)
take-All P zero xs h = tt
take-All P (suc n) [] h = tt
take-All P (suc n) (x ∷ xs) (h, hs) = (h, take-All P n xs hs)

pub client_identity-colon :
    (sha256 : Bytes → Bytes) (r : Request)
    → ((x : Bytes) → All (λ b. b < 256) (sha256 x))
    → All (λ b. b ≢ b':') (client_identity sha256 r)
unfolding client_identity hash_bytes
client_identity-colon sha256 r bytes = hex-colon (sha256 _) (bytes _)

-- No conversation is continued by another. The answer to a request `q` was stored under its session.
-- For a request of the same or another client whose messages but the last are not the messages of `q`
-- and that answer, `prepare` does just what it did before, if the decoder keeps the text of numbers,
-- and SHA-256 gives bytes and tells the two histories apart when they differ.
pub prepare-apart :
    (json : Json) (sha256 : Bytes → Bytes) (fresh : Bytes) (q r : Request) (q_body r_body : Bytes)
    (qs rs : List Bytes) (answer a id : Bytes) (s : Mappings) (m : Resolutions)
    → IsExact json
    → ((x : Bytes) → All (λ b. b < 256) (sha256 x))
    → (sha256 (message_array (but_last rs)) ≡ sha256 (full_state qs a)
        → message_array (but_last rs) ≡ full_state qs a)
    → chat_messages json q_body ≡ some qs
    → assistant_from_message json answer ≡ ok a
    → chat_messages json r_body ≡ some rs
    → but_last rs ≢ qs ++ a ∷ []
    → prepare json sha256
        (get_session (put_mapping sha256 (client_identity sha256 q) qs id a s))
        fresh
        r
        r_body
        m
      ≡ prepare json sha256 (get_session s) fresh r r_body m
unfolding prepare full_state
prepare-apart json sha256 fresh q r q_body r_body qs rs answer a id s m exact bytes apart hq ha hr
      differ =
    rw (hr, prepare) (rw same refl)
  where
    texts : message_array (but_last rs) ≢ full_state qs a
    texts e = differ (
        message_array-injective (but_last rs) (qs ++ a ∷ [])
          (take-All IsCanonical (length rs - 1) rs (chat_messages-All json exact r_body rs hr))
          (All-append IsCanonical qs (a ∷ []) (chat_messages-All json exact q_body qs hq)
            (message-IsCanonical json exact answer a ha, tt))
          e)

    same :
        resolve sha256
          (get_session (put_mapping sha256 (client_identity sha256 q) qs id a s))
          fresh
          (client_identity sha256 r)
          rs
          r.session
          m
        ≡ resolve sha256 (get_session s) fresh (client_identity sha256 r) rs r.session m
    same =
        resolve-put_other sha256 fresh (client_identity sha256 q) (client_identity sha256 r) id a
          r.session qs rs s m (client_identity-colon sha256 q bytes)
          (client_identity-colon sha256 r bytes) bytes apart (inr texts)
