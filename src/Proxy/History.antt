-- ===== src/Proxy/History.antt =====
-- internal/proxy/handler.go, `prepare`: what the hash of a history says of the messages of a request.
use opgate.Base.{
  List, [], ◌∷◌, map, some, ◌≡◌, ◌↔◌, ◌<◌, ap, ◌∙◌, subst, All, Option-cases, some_injective, inl,
  inr,
}
use opgate.Base.Bytes.{Bytes}
use opgate.Canon.{canonicalize}
use opgate.Canon.Hash.{message_array, history_hash}
use opgate.Canon.Abstract.{Message, form, IsSoundDecoder, canonicalize-form, history_hash-form}
use opgate.Openai.{Json}
use opgate.Openai.Request.{parse_chat_request}
use opgate.Proxy.{canonical_messages, chat_messages}

module _ (json : Json) (sound : IsSoundDecoder json.decode) where
  -- The messages that a list of canonical forms stands for.
  abbrev pub Stands : List Bytes → Type 0
  Stands cs = (ps : List Message) × (map form ps ≡ cs)

  canonical_messages-Stands :
      (ms cs : List Bytes) → canonical_messages json.decode ms ≡ some cs → Stands cs
  unfolding canonical_messages
  canonical_messages-Stands [] cs e = ([], some_injective e)
  canonical_messages-Stands (m ∷ ms) cs e = elim (Option-cases (canonicalize json.decode m)) [
    | inl k ↦ cc
    | inr (c, k) ↦ elim (Option-cases (canonical_messages json.decode ms)) [
      | inl k' ↦ cc
      | inr (ds, k') ↦
          let (p, here) = canonicalize-form json.decode m c sound k in
          let (ps, there) = canonical_messages-Stands ms ds k' in
          (p ∷ ps, ap (λ x. x ∷ map form ps) here ∙ ap (◌∷◌ c) there ∙ the_list c ds k k')
    ]
  ]
    where
      the_list :
          (c : Bytes) (ds : List Bytes)
          → canonicalize json.decode m ≡ some c
          → canonical_messages json.decode ms ≡ some ds
          → ◌≡◌ {A = List Bytes} (c ∷ ds) cs
      the_list c ds k k' = cc

  chat_messages-Stands :
      (body : Bytes) (cs : List Bytes) → chat_messages json body ≡ some cs → Stands cs
  unfolding chat_messages
  chat_messages-Stands body cs e = elim (Option-cases (parse_chat_request json body)) [
    | inl k ↦ cc
    | inr ([], k) ↦ cc
    | inr (m ∷ ms, k) ↦ canonical_messages-Stands (m ∷ ms) cs (cc)
  ]

  -- What the hash of a history says, for lists that stand for messages.
  same_state :
      (sha256 : Bytes → Bytes) (ps qs : List Message) (cs ds : List Bytes)
      → ((x : Bytes) → All (λ b. b < 256) (sha256 x))
      → map form ps ≡ cs
      → map form qs ≡ ds
      → (sha256 (message_array cs) ≡ sha256 (message_array ds)
          → message_array cs ≡ message_array ds)
      → (history_hash sha256 cs ≡ history_hash sha256 ds) ↔ (ps ≡ qs)
  same_state sha256 ps qs cs ds bytes of_cs of_ds =
      let About : List Bytes → List Bytes → Type 0 = λ xs ys.
        (sha256 (message_array xs) ≡ sha256 (message_array ys)
          → message_array xs ≡ message_array ys)
        → (history_hash sha256 xs ≡ history_hash sha256 ys) ↔ (ps ≡ qs) in
      subst (λ xs. About xs ds) of_cs
        (subst (λ ys. About (map form ps) ys) of_ds (history_hash-form sha256 ps qs bytes))

  -- The messages of two chat requests, as `prepare` stores them, stand for messages whose fields have
  -- no order; and the two histories have one hash exactly if these messages are the same, one by one.
  -- The decoder gives values as JSON has them, and SHA-256 gives bytes and tells the two texts that are
  -- hashed apart when they differ.
  pub chat_messages-state :
      (sha256 : Bytes → Bytes) (body body' : Bytes) (cs ds : List Bytes)
      → ((x : Bytes) → All (λ b. b < 256) (sha256 x))
      → (sha256 (message_array cs) ≡ sha256 (message_array ds)
          → message_array cs ≡ message_array ds)
      → chat_messages json body ≡ some cs
      → chat_messages json body' ≡ some ds
      → (ps : List Message) × (qs : List Message) × (map form ps ≡ cs)
        × (map form qs ≡ ds)
        × ((history_hash sha256 cs ≡ history_hash sha256 ds) ↔ (ps ≡ qs))
  chat_messages-state sha256 body body' cs ds bytes apart e k =
      let (ps, of_cs) = chat_messages-Stands body cs e in
      let (qs, of_ds) = chat_messages-Stands body' ds k in
      (ps, qs, of_cs, of_ds, same_state sha256 ps qs cs ds bytes of_cs of_ds apart)
