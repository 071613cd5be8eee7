-- ===== src/Sse.antt =====
-- internal/sse/sse.go: the scanner that splits a text/event-stream payload into events.
pub mod Events
pub mod Framing
use opgate.Base.{
  ℕ, zero, suc, Bool, true, false, List, [], ◌∷◌, ◌++◌, length, drop, ◌==◌, if◌then◌else◌,
}
use opgate.Base.Bytes.{Bytes, codes, has_prefix, trim_prefix, trim_suffix}

abbrev pub newline : ℕ
newline = b'\n'

abbrev pub data_field : Bytes
data_field = codes "data:"

-- The bytes before the first newline, and those behind it: `payload[i : i+j]` and `i += j + 1`, or
-- all that is left and nothing.
unfoldable pub cut_line : Bytes → Bytes × Bytes
cut_line [] = ([], [])
cut_line (c ∷ cs) =
    let (line, rest) = cut_line cs in if c == newline then ([], cs) else (c ∷ line, rest)

-- The cases of the switch on one line.
pub data Kind : Type 0 where
  blank : Kind
  comment : Kind
  field : Bytes → Kind
  ignored : Kind

unfoldable pub kind : Bytes → Kind
unfolding has_prefix trim_prefix
kind [] = blank
kind (c ∷ cs) =
    if c == b':'
    then comment
    else if has_prefix (c ∷ cs) data_field
    then field (trim_prefix (drop (length data_field) (c ∷ cs)) (codes " "))
    else ignored

-- `bytes.Join(data, "\n")`
unfoldable pub join : List Bytes → Bytes
join [] = []
join (d ∷ []) = d
join (d ∷ e ∷ ds) = d ++ newline ∷ join (e ∷ ds)

-- The callback of `Scan` works on a state of its caller, and says whether to go on.
module _ {ℓ} {S : Type ℓ} (fn : Bytes → S → S × Bool) where
  -- `dispatch`: calls back unless no data line is pending.
  unfoldable pub dispatch : List Bytes → S → S × Bool
  unfolding join
  dispatch [] s = (s, true)
  dispatch (d ∷ ds) s = fn (join (d ∷ ds)) s

  -- The switch on a line, where `go` is the rest of the loop from the pending data lines.
  unfoldable pub on_line : Kind → (List Bytes → S → S) → List Bytes → S → S
  unfolding dispatch
  on_line blank go pending s =
      let (s', more) = dispatch pending s in let after = go [] s' in if more then after else s'
  on_line comment go pending s = go pending s
  on_line (field value) go pending s = go (pending ++ value ∷ []) s
  on_line ignored go pending s = go pending s

  -- The loop of `Scan` on the unread bytes, and the dispatch behind it. Each round reads a byte.
  unfoldable pub scan_loop : ℕ → Bytes → List Bytes → S → S
  unfolding on_line kind cut_line trim_suffix
  scan_loop zero payload pending s = (dispatch pending s).0
  scan_loop (suc fuel) [] pending s = (dispatch pending s).0
  scan_loop (suc fuel) (c ∷ cs) pending s =
      let (line, rest) = cut_line (c ∷ cs) in
      on_line (kind (trim_suffix line (codes "\r"))) (scan_loop fuel rest) pending s

  unfoldable pub scan : Bytes → S → S
  unfolding scan_loop
  scan payload s = scan_loop (length payload) payload [] s
