-- ===== src/Sse/Framing.antt =====
-- What the scanner reads from a well-formed stream: events of one data line, keep-alive comments,
-- and the three line fields that the gateway has no use for, with either line ending.
use opgate.Base.{
  ◌≡◌, ◌≢◌, refl, ap, ◌∙◌, Bool, true, false, List, [], ◌∷◌, ◌++◌, map, concat, All, All-append,
  append_assoc, arith, length, drop, ℕ, zero, suc, ◌-◌,
}
use opgate.Base.Bytes.{Bytes, codes, equal, has_suffix, trim_suffix, trim_suffix-append}
use opgate.Sse.{newline, field, comment, blank, kind, join, scan}
use opgate.Sse.Events.{lines, line_kind, group, events, deliver, scan-deliver}

abbrev pub IsText : Bytes → Type 0
IsText = All (λ c. (c ≢ newline) × (c ≢ b'\r'))

pub data Frame : Type 0 where
  event : Bytes → Frame
  keep_alive : Bytes → Frame

-- The line ending; the flag says whether it has a carriage return.
abbrev pub ending : Bool → Bytes
ending true = b'\r' ∷ newline ∷ []
ending false = newline ∷ []

unfoldable pub render : Bool → Frame → Bytes
render crlf (event text) = codes "data: " ++ (text ++ (ending crlf ++ ending crlf))
render crlf (keep_alive text) = b':' ∷ (text ++ ending crlf)

abbrev pub text_of : Frame → Bytes
text_of (event text) = text
text_of (keep_alive text) = text

unfoldable pub texts : List Frame → List Bytes
texts [] = []
texts (event text ∷ fs) = text ∷ texts fs
texts (keep_alive _ ∷ fs) = texts fs

unfoldable pub stream : Bool → List Frame → Bytes
unfolding render
stream crlf fs = concat (map (render crlf) fs)

lines-line :
    (text rest : Bytes)
    → All (λ c. c ≢ newline) text
    → lines (text ++ newline ∷ rest) ≡ text ∷ lines rest
unfolding lines
lines-line [] rest h = refl
lines-line (c ∷ cs) rest (hc, hs) = ground (arith, lines-line cs rest hs)

-- A line as it stands in the payload, without its newline.
abbrev ended : Bool → Bytes → Bytes
ended true text = text ++ b'\r' ∷ []
ended false text = text

not-equal-drop : (k : ℕ) (text : Bytes) → IsText text → equal (drop k text) (codes "\r") ≡ false
unfolding equal
not-equal-drop zero [] h = refl
not-equal-drop zero (c ∷ cs) h = ground arith
not-equal-drop (suc k) [] h = refl
not-equal-drop (suc k) (c ∷ cs) h = not-equal-drop k cs h.1

trim_suffix_none : (text : Bytes) → IsText text → trim_suffix text (codes "\r") ≡ text
unfolding trim_suffix has_suffix
trim_suffix_none text h = ground (arith, not-equal-drop (length text - 1) text h)

line_kind-ended :
    (crlf : Bool) (text : Bytes) → IsText text → line_kind (ended crlf text) ≡ kind text
line_kind-ended true text h = rw trim_suffix-append
line_kind-ended false text h = rw (trim_suffix_none text h)

IsText-lacks : (text : Bytes) → IsText text → All (λ c. c ≢ newline) text
IsText-lacks [] h = tt
IsText-lacks (c ∷ cs) ((n, _), hs) = (n, IsText-lacks cs hs)

cr-lacks : All (λ c. c ≢ newline) (codes "\r")
cr-lacks = omega arith

lines-ended :
    (crlf : Bool) (text rest : Bytes)
    → IsText text
    → lines (text ++ (ending crlf ++ rest)) ≡ ended crlf text ∷ lines rest
lines-ended true text rest h = rw (← append_assoc text (codes "\r") (newline ∷ rest)) (
    lines-line (text ++ codes "\r") rest
      (All-append _ text (codes "\r") (IsText-lacks text h) cr-lacks))
lines-ended false text rest h = lines-line text rest (IsText-lacks text h)

-- The kind of a line in the payload, and the lines behind it.
kinds-ended :
    (crlf : Bool) (text rest : Bytes)
    → IsText text
    → map line_kind (lines (text ++ (ending crlf ++ rest))) ≡ kind text ∷ map line_kind (lines rest)
kinds-ended crlf text rest h = rw (lines-ended crlf text rest h) (rw (line_kind-ended crlf text h))

kind-event : (text : Bytes) → kind (codes "data: " ++ text) ≡ field text
unfolding kind
kind-event text = refl

kind-keep_alive : (text : Bytes) → kind (b':' ∷ text) ≡ comment
unfolding kind
kind-keep_alive text = refl

IsText-event : (text : Bytes) → IsText text → IsText (codes "data: " ++ text)
IsText-event text h = All-append _ (codes "data: ") text (omega arith) h

kinds-event :
    (crlf : Bool) (text rest : Bytes)
    → IsText text
    → map line_kind (lines (render crlf (event text) ++ rest))
      ≡ field text ∷ blank ∷ map line_kind (lines rest)
unfolding render
kinds-event crlf text rest h =
    rw
      (
        append_assoc text (ending crlf ++ ending crlf) rest,
        append_assoc (ending crlf) (ending crlf) rest,
      )
      (kinds-ended crlf (codes "data: " ++ text) (ending crlf ++ rest) (IsText-event text h)
        ∙ rw (kind-event text)
            (ap (λ ks. field text ∷ ks) (unfold kind in kinds-ended crlf [] rest tt)))

kinds-keep_alive :
    (crlf : Bool) (text rest : Bytes)
    → IsText text
    → map line_kind (lines (render crlf (keep_alive text) ++ rest))
      ≡ comment ∷ map line_kind (lines rest)
unfolding render
kinds-keep_alive crlf text rest h = rw (append_assoc text (ending crlf) rest) (
    kinds-ended crlf (b':' ∷ text) rest ((omega arith, omega arith), h) ∙ rw (kind-keep_alive text))

group-frames :
    (crlf : Bool) (fs : List Frame)
    → All (λ f. IsText (text_of f)) fs
    → group [] (map line_kind (lines (stream crlf fs))) ≡ texts fs
unfolding stream texts group join
group-frames crlf [] h = unfold lines in refl
group-frames crlf (event text ∷ fs) (h, hs) =
    rw (kinds-event crlf text (stream crlf fs) h) (ap (◌∷◌ text) (group-frames crlf fs hs))
group-frames crlf (keep_alive text ∷ fs) (h, hs) =
    rw (kinds-keep_alive crlf text (stream crlf fs) h) (group-frames crlf fs hs)

-- From a stream of framed events and keep-alive comments, with either line ending, `Scan` delivers
-- the texts of the events, in order and unchanged, if no text holds a line break.
pub scan-stream {ℓ} :
    {S : Type ℓ} (fn : Bytes → S → S × Bool) (crlf : Bool) (fs : List Frame) (s : S)
    → All (λ f. IsText (text_of f)) fs
    → scan fn (stream crlf fs) s ≡ deliver fn (texts fs) s
scan-stream fn crlf fs s h =
    scan-deliver fn (stream crlf fs) s
    ∙ ap (λ es. deliver fn es s) (unfold events in group-frames crlf fs h)
