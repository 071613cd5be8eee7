-- ===== src/Session.antt =====
-- internal/session/resolver.go. The store's answer and the fresh UUID are arguments.
pub mod Continuity
pub mod Faults
use opgate.Base.{
  ℕ, ◌+◌, ◌-◌, Bool, true, false, List, [], ◌∷◌, Option, none, some, length, take, ltb,
  if◌then◌else◌,
}
use opgate.Base.Bytes.{Bytes}
use opgate.Canon.Hash.{history_hash}

-- `Source`
pub data Source : Type 0 where
  client resolved new : Source

pub record Decision : Type 0 where
  pub session_id : Bytes
  pub source : Source
  pub history_hash : Bytes

-- What `GetSession` returns: an error, or whether the key is there and its value.
pub data Lookup : Type 0 where
  store_error : Lookup
  missing : Lookup
  hit : Bytes → Lookup

-- The counters of `Metrics` that `Resolve` changes.
pub record Resolutions : Type 0 where
  pub client_supplied : ℕ
  pub resolve_hit : ℕ
  pub resolve_miss : ℕ
  pub store_errors : ℕ

abbrev pub is_empty : Bytes → Bool
is_empty [] = true
is_empty (_ ∷ _) = false

-- `canonMsgs[:len(canonMsgs)-1]`
abbrev pub but_last : List Bytes → List Bytes
but_last msgs = take (length msgs - 1) msgs

-- The switch on the store's answer, for the hash of the history.
unfoldable pub on_lookup : Bytes → Bytes → Lookup → Resolutions → Decision × Resolutions
on_lookup fresh hash store_error m = (
  record { session_id = fresh; source = new; history_hash = hash },
  record m { store_errors = m.store_errors + 1 },
)
on_lookup fresh hash missing m = (
  record { session_id = fresh; source = new; history_hash = hash },
  record m { resolve_miss = m.resolve_miss + 1 },
)
on_lookup fresh hash (hit id) m = (
  record { session_id = id; source = resolved; history_hash = hash },
  record m { resolve_hit = m.resolve_hit + 1 },
)

module _ (sha256 : Bytes → Bytes) (get_session : Bytes → Bytes → Lookup) (fresh : Bytes) where
  -- `Resolve`
  unfoldable pub resolve : Bytes → List Bytes → Bytes → Resolutions → Decision × Resolutions
  unfolding on_lookup
  resolve client_hash msgs client_session m =
      if is_empty client_session
      then (if ltb 1 (length msgs)
          then (let hash = history_hash sha256 (but_last msgs) in
              on_lookup fresh hash (get_session client_hash hash) m)
          else (record { session_id = fresh; source = new; history_hash = [] }, m))
      else (
        record { session_id = client_session; source = client; history_hash = [] },
        record m { client_supplied = m.client_supplied + 1 },
      )
