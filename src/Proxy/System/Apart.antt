-- ===== src/Proxy/System/Apart.antt =====
-- internal/proxy/handler.go with internal/session and internal/store: no session crosses from one
-- client to another.
use opgate.Base.{
  ℕ, ◌<◌, false, [], ◌∷◌, List, ◌≡◌, ◌≢◌, refl, sym, ap, ◌∙◌, subst, ◌⊎◌, inl, inr, All,
}
use opgate.Base.Bytes.{Bytes, codes}
use opgate.Canon.Hash.{hash_bytes, hex-injective}
use opgate.Openai.{Json}
use opgate.Session.{is_empty, hit}
use opgate.Session.Continuity.{Mappings, get_session}
use opgate.Proxy.{Request, client_identity}
use opgate.Proxy.System.{
  Presents, by_authorization, by_x_api_key, by_api_key, as_anonymous, Call, System, Served, latest,
  earlier, Issued, here, there, Running,
}
use opgate.Proxy.System.Safe.{IssuedTo, issued, issued_before, IsSafe, Running-IsSafe}

is_empty_ne : (b : Bytes) → b ≢ [] → is_empty b ≡ false
is_empty_ne [] h = absurd (h refl)
is_empty_ne (x ∷ xs) h = refl

empty-cases : (b : Bytes) → (b ≡ []) ⊎ (b ≢ [])
empty-cases [] = inl refl
empty-cases (x ∷ xs) = inr (λ e. cc)

-- The identity of a client is the hash of the credential that its request presents.
pub client_identity-Presents :
    (sha256 : Bytes → Bytes) (r : Request) (v : Bytes)
    → Presents r v
    → client_identity sha256 r ≡ hash_bytes sha256 v
unfolding client_identity
client_identity-Presents sha256 r v (by_authorization h e) =
    rw (is_empty_ne r.authorization h, e) refl
client_identity-Presents sha256 r v (by_x_api_key a h e) = rw (a, is_empty_ne r.x_api_key h, e) refl
client_identity-Presents sha256 r v (by_api_key a b h e) =
    rw (a, b, is_empty_ne r.api_key h, e) refl
client_identity-Presents sha256 r v (as_anonymous a b c e) = rw (a, b, c, e) refl

-- Each request presents a credential.
some_credential : (r : Request) → (v : Bytes) × Presents r v
some_credential r = elim (empty-cases r.authorization) [
  | inr h ↦ (r.authorization, by_authorization h refl)
  | inl a ↦ elim (empty-cases r.x_api_key) [
    | inr h ↦ (r.x_api_key, by_x_api_key a h refl)
    | inl b ↦ elim (empty-cases r.api_key) [
      | inr h ↦ (r.api_key, by_api_key a b h refl)
      | inl c ↦ (codes "anonymous", as_anonymous a b c refl)
    ]
  ]
]

hash_bytes-injective :
    (sha256 : Bytes → Bytes) (x y : Bytes)
    → ((z : Bytes) → All (λ b. b < 256) (sha256 z))
    → hash_bytes sha256 x ≡ hash_bytes sha256 y
    → sha256 x ≡ sha256 y
unfolding hash_bytes
hash_bytes-injective sha256 x y bytes e = hex-injective (sha256 x) (sha256 y) (bytes x) (bytes y) e

module _ (json : Json) (sha256 : Bytes → Bytes) (max : ℕ) (held : Mappings) where
  -- SHA-256 tells the credentials apart that two of these requests present.
  abbrev pub TellsApart : List Call → Type 0
  TellsApart cs =
      (c d : Call) (x y : Bytes)
      → Served c cs
      → Served d cs
      → Presents c.request x
      → Presents d.request y
      → sha256 x ≡ sha256 y
      → x ≡ y

  -- A request whose client has the hash of a credential presented it.
  IssuedTo-Presents :
      (s : System) (cs : List Call) (c : Call) (v id : Bytes)
      → ((x : Bytes) → All (λ b. b < 256) (sha256 x))
      → TellsApart s.served
      → ((d : Call) → Served d cs → Served d s.served)
      → IsSafe json sha256 max held s
      → Served c s.served
      → Presents c.request v
      → IssuedTo c.participant.client_hash id cs
      → Issued v id cs
  IssuedTo-Presents s [] c v id bytes apart within safe k shown none_issued = elim none_issued [ ]
  IssuedTo-Presents s (d ∷ cs) c v id bytes apart within safe k shown (issued client session own) =
      let (w, presented) = some_credential d.request in
      let same : hash_bytes sha256 w ≡ hash_bytes sha256 v =
        sym (client_identity-Presents sha256 d.request w presented)
        ∙ sym (safe.served_client d (within d latest))
        ∙ client
        ∙ safe.served_client c k
        ∙ client_identity-Presents sha256 c.request v shown in
      let w_v : w ≡ v =
        apart d c w v (within d latest) k presented shown
          (hash_bytes-injective sha256 w v bytes same) in
      here (subst (Presents d.request) w_v presented) session own
  IssuedTo-Presents s (d ∷ cs) c v id bytes apart within safe k shown (issued_before i) =
      there (IssuedTo-Presents s cs c v id bytes apart (λ e l. within e (earlier l)) safe k shown i)

  -- Sessions never cross clients. In every run of the gateway, from a store that holds any mappings, in
  -- which requests are served while the store answers or not, answers are mapped at any time, and
  -- mappings expire: the session with which a request goes upstream is one that a request with the same
  -- credential brought, or that was made fresh for a request with the same credential, or it was held
  -- from the start under the hash of this credential. It is assumed that SHA-256 gives bytes, and that
  -- it tells the credentials apart that the requests of the run present.
  pub sessions_apart :
      {s : System} (c : Call) (v : Bytes)
      → ((x : Bytes) → All (λ b. b < 256) (sha256 x))
      → TellsApart s.served
      → Running json sha256 max held s
      → Served c s.served
      → Presents c.request v
      → Issued v c.participant.decision.session_id s.served
        ⊎ ((h : Bytes) × (get_session held (hash_bytes sha256 v) h
              ≡ hit c.participant.decision.session_id))
  sessions_apart {s} c v bytes apart reached k shown =
      let safe = Running-IsSafe json sha256 max held bytes reached in
      elim (safe.served_issued c k) [
        | inl i ↦ inl (IssuedTo-Presents s s.served c v _ bytes apart (λ d l. l) safe k shown i)
        | inr (h, e) ↦ inr (
          h,
          ap (λ x. get_session held x h)
                (sym (safe.served_client c k ∙ client_identity-Presents sha256 c.request v shown))
              ∙ e,
        )
      ]
