-- ===== src/Sse/Events.antt =====
-- internal/sse/sse.go: the events of a payload by a description that has no loop: its lines, their kinds, and groups of
-- data lines that blank lines end.
use opgate.Base.{
  ℕ, zero, suc, ◌≤◌, Bool, List, [], ◌∷◌, ◌++◌, ◌≡◌, refl, map, length, ◌==◌, if◌then◌else◌, arith,
}
use opgate.Base.Bytes.{Bytes, codes, trim_suffix}
use opgate.Sse.{
  newline, cut_line, Kind, blank, comment, field, ignored, kind, join, dispatch, on_line, scan_loop,
  scan,
}

push : ℕ → List Bytes → List Bytes
push c [] = (c ∷ []) ∷ []
push c (l ∷ ls) = (c ∷ l) ∷ ls

-- The lines of a payload. Bytes behind the last newline are a line, if there are any.
unfoldable pub lines : Bytes → List Bytes
unfolding push
lines [] = []
lines (c ∷ cs) = if c == newline then [] ∷ lines cs else push c (lines cs)

abbrev pub line_kind : Bytes → Kind
line_kind line = kind (trim_suffix line (codes "\r"))

unfoldable pub flush : List Bytes → List Bytes
flush [] = []
flush (d ∷ ds) = join (d ∷ ds) ∷ []

unfoldable pub group : List Bytes → List Kind → List Bytes
unfolding flush
group pending [] = flush pending
group pending (blank ∷ ks) = flush pending ++ group [] ks
group pending (field value ∷ ks) = group (pending ++ value ∷ []) ks
group pending (comment ∷ ks) = group pending ks
group pending (ignored ∷ ks) = group pending ks

-- The payloads of the events of a stream, in order.
unfoldable pub events : Bytes → List Bytes
unfolding group lines
events payload = group [] (map line_kind (lines payload))

-- The callback on each event in turn, until it says stop.
unfoldable pub deliver {ℓ} : {S : Type ℓ} → (Bytes → S → S × Bool) → List Bytes → S → S
deliver fn [] s = s
deliver fn (e ∷ es) s =
    let (s', more) = fn e s in let after = deliver fn es s' in if more then after else s'

lines-cut_line :
    (c : ℕ) (cs : Bytes) → lines (c ∷ cs) ≡ (cut_line (c ∷ cs)).0 ∷ lines (cut_line (c ∷ cs)).1
unfolding lines cut_line
lines-cut_line c [] = ground arith
lines-cut_line c (d ∷ ds) = ground (arith, lines-cut_line d ds)

cut_line-le : (c : ℕ) (cs : Bytes) → length (cut_line (c ∷ cs)).1 ≤ length cs
unfolding cut_line
cut_line-le c [] = ground arith
cut_line-le c (d ∷ ds) = ground (arith, cut_line-le d ds)

module _ {ℓ} {S : Type ℓ} (fn : Bytes → S → S × Bool) where
  deliver-flush :
      (pending es : List Bytes) (s : S)
      → (if (dispatch fn pending s).1
          then deliver fn es (dispatch fn pending s).0
          else (dispatch fn pending s).0)
        ≡ deliver fn (flush pending ++ es) s
  unfolding deliver flush dispatch
  deliver-flush [] es s = refl
  deliver-flush (d ∷ ds) es s = refl

  deliver-flush_last :
      (pending : List Bytes) (s : S) → (dispatch fn pending s).0 ≡ deliver fn (flush pending) s
  unfolding deliver flush dispatch
  deliver-flush_last [] s = refl
  deliver-flush_last (d ∷ ds) s = ground arith

  on_line-deliver :
      (k : Kind) (ks : List Kind) (go : List Bytes → S → S) (pending : List Bytes) (s : S)
      → ((ds : List Bytes) (t : S) → go ds t ≡ deliver fn (group ds ks) t)
      → on_line fn k go pending s ≡ deliver fn (group pending (k ∷ ks)) s
  unfolding on_line group
  on_line-deliver blank ks go pending s ih =
      rw (ih [] (dispatch fn pending s).0) (deliver-flush pending (group [] ks) s)
  on_line-deliver comment ks go pending s ih = ih pending s
  on_line-deliver (field value) ks go pending s ih = ih (pending ++ value ∷ []) s
  on_line-deliver ignored ks go pending s ih = ih pending s

  scan_loop-deliver :
      (fuel : ℕ) (payload : Bytes) (pending : List Bytes) (s : S)
      → length payload ≤ fuel
      → scan_loop fn fuel payload pending s
        ≡ deliver fn (group pending (map line_kind (lines payload))) s
  unfolding scan_loop
  scan_loop-deliver zero [] pending s h = unfold lines group in deliver-flush_last pending s
  scan_loop-deliver zero (c ∷ cs) pending s h = absurd (omega arith)
  scan_loop-deliver (suc fuel) [] pending s h = unfold lines group in deliver-flush_last pending s
  scan_loop-deliver (suc fuel) (c ∷ cs) pending s h = rw lines-cut_line (
      on_line-deliver _ _ (scan_loop fn fuel (cut_line (c ∷ cs)).1) pending s
        λ ds t. scan_loop-deliver fuel (cut_line (c ∷ cs)).1 ds t (omega (arith, cut_line-le c cs)))

  -- `Scan` calls back on the events of the payload in order, until the callback says stop.
  pub scan-deliver : (payload : Bytes) (s : S) → scan fn payload s ≡ deliver fn (events payload) s
  unfolding scan events
  scan-deliver payload s = scan_loop-deliver (length payload) payload [] s (omega arith)
