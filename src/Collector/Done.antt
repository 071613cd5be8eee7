-- ===== src/Collector/Done.antt =====
-- internal/collector/collector.go, `watchDone` over a sequence of writes, beside a description of its
-- search that has no buffer.
use opgate.Base.{
  ℕ, zero, suc, ◌+◌, ◌≤◌, Bool, true, false, ◌||◌, List, [], ◌∷◌, ◌++◌, none, some, ◌≡◌, refl,
  length, concat, if◌then◌else◌, ◌==◌, arith, append_assoc, append-nil, Bool-cases, Option-cases,
  inl, inr,
}
use opgate.Base.Bytes.{Bytes}
use opgate.Collector.{
  Collector, new_collector, newline, scan_cap, split_line, is_done, watch_lines, watch_done,
}

push : ℕ → List Bytes × Bytes → List Bytes × Bytes
push c ([], rest) = ([], c ∷ rest)
push c (l ∷ ls, rest) = ((c ∷ l) ∷ ls, rest)

-- The lines of a byte string that a newline ends, and what stands behind the last newline.
unfoldable pub terminated : Bytes → List Bytes × Bytes
unfolding push
terminated [] = ([], [])
terminated (c ∷ cs) =
    let (ls, rest) = terminated cs in if c == newline then ([] ∷ ls, rest) else push c (ls, rest)

-- Whether one of the lines is the sentinel.
unfoldable pub any_done : List Bytes → Bool
any_done [] = false
any_done (l ∷ ls) = is_done l || any_done ls

terminated-split_none : (b : Bytes) → split_line b ≡ none → terminated b ≡ ([], b)
unfolding split_line terminated
terminated-split_none [] h = refl
terminated-split_none (c ∷ cs) h = ground (arith, terminated-split_none cs)

terminated-split_some :
    (b line rest : Bytes)
    → split_line b ≡ some (line, rest)
    → terminated b ≡ (line ∷ (terminated rest).0, (terminated rest).1)
unfolding split_line terminated
terminated-split_some [] line rest h = cc
terminated-split_some (c ∷ cs) line rest h = elim (Option-cases (split_line cs)) [
  | inl e ↦ ground arith
  | inr ((l, r), e) ↦ ground (arith, terminated-split_some cs l r e)
]

split_line-le :
    (b line rest : Bytes) → split_line b ≡ some (line, rest) → length rest + 1 ≤ length b
unfolding split_line
split_line-le [] line rest h = cc
split_line-le (c ∷ cs) line rest h = elim (Option-cases (split_line cs)) [
  | inl e ↦ ground arith
  | inr ((l, r), e) ↦ ground (arith, split_line-le cs l r e)
]

any_done-nil : any_done [] ≡ false
unfolding any_done
any_done-nil = refl

any_done-cons : (l : Bytes) (ls : List Bytes) → any_done (l ∷ ls) ≡ (is_done l || any_done ls)
unfolding any_done
any_done-cons l ls = refl

watch_lines_lem :
    (fuel : ℕ) (b : Bytes)
    → length b ≤ fuel
    → ((watch_lines fuel b).0 ≡ any_done (terminated b).0)
      × ((watch_lines fuel b).0 ≡ false → (watch_lines fuel b).1 ≡ (terminated b).1)
unfolding watch_lines
watch_lines_lem zero [] h = (unfold terminated any_done in refl, λ _. unfold terminated in refl)
watch_lines_lem zero (c ∷ cs) h = absurd (omega arith)
watch_lines_lem (suc fuel) b h = elim (Option-cases (split_line b)) [
  | inl e ↦ ground (arith, terminated-split_none b e, any_done-nil)
  | inr ((l, r), e) ↦ ground (
    arith,
    terminated-split_some b l r e,
    any_done-cons l (terminated r).0,
    split_line-le b l r e,
    watch_lines_lem fuel r,
  )
]

-- `terminated` of more bytes, from the lines and the rest so far.
abbrev resume : List Bytes × Bytes → Bytes → List Bytes × Bytes
resume (ls, rest) p = (ls ++ (terminated (rest ++ p)).0, (terminated (rest ++ p)).1)

push-resume :
    (c : ℕ) (t : List Bytes × Bytes) (p : Bytes)
    → (c == newline) ≡ false
    → push c (resume t p) ≡ resume (push c t) p
unfolding push terminated
push-resume c ([], rest) p h = rw h
push-resume c (l ∷ ls, rest) p h = refl

terminated-append : (x p : Bytes) → terminated (x ++ p) ≡ resume (terminated x) p
unfolding terminated
terminated-append [] p = refl
terminated-append (c ∷ cs) p = elim (Bool-cases (c == newline)) [
  | inl line ↦ rw line (rw (terminated-append cs p))
  | inr more ↦ rw more (rw (terminated-append cs p) (push-resume c (terminated cs) p more))
]

any_done-append : (xs ys : List Bytes) → any_done (xs ++ ys) ≡ (any_done xs || any_done ys)
unfolding any_done
any_done-append [] ys = refl
any_done-append (x ∷ xs) ys = ground (arith, any_done-append xs ys)

-- What the search knows after some bytes.
record Watches (c : Collector) (bytes : Bytes) : Type 0 where
  enabled : c.on_done ≡ true
  seen : c.saw_done ≡ any_done (terminated bytes).0
  left : c.saw_done ≡ false → c.scan_buf ≡ (terminated bytes).1

seen-append :
    (b p : Bytes)
    → any_done (terminated (b ++ p)).0
      ≡ (any_done (terminated b).0 || any_done (terminated ((terminated b).1 ++ p)).0)
seen-append b p = rw terminated-append (any_done-append (terminated b).0 _)

watch_done-found :
    (p b : Bytes) (c : Collector)
    → Watches c b
    → c.saw_done ≡ true
    → Watches (watch_done p c).0 (b ++ p)
unfolding watch_done
watch_done-found p b c h e =
    simp (h.enabled, e)
      (record {
        enabled = h.enabled;
        seen = ground (arith, seen-append b p, h.seen);
        left = λ x. cc;
      })

watch_done-search :
    (p b : Bytes) (c : Collector)
    → Watches c b
    → c.saw_done ≡ false
    → length (terminated (b ++ p)).1 ≤ scan_cap
    → Watches (watch_done p c).0 (b ++ p)
unfolding watch_done
watch_done-search p b c h e fits = ground (
  arith,
  h.left e,
  terminated-append b p,
  seen-append b p,
  watch_lines_lem (length (c.scan_buf ++ p)) (c.scan_buf ++ p),
)

-- `watchDone` on the chunks of a stream in turn.
unfoldable pub feed : List Bytes → Collector → Collector
feed [] c = c
feed (p ∷ ps) c = feed ps (watch_done p c).0

-- Behind no chunk has an unterminated line grown over the cap of the scan buffer.
abbrev pub Fits : Bytes → List Bytes → Type 0
Fits b [] = Unit
Fits b (p ∷ ps) = (length (terminated (b ++ p)).1 ≤ scan_cap) × Fits (b ++ p) ps

feed-Watches :
    (ps : List Bytes) (b : Bytes) (c : Collector)
    → Watches c b
    → Fits b ps
    → Watches (feed ps c) (b ++ concat ps)
unfolding feed
feed-Watches [] b c h k = rw append-nil h
feed-Watches (p ∷ ps) b c h (k, ks) = elim (Bool-cases c.saw_done) [
  | inl e ↦
      rw (← append_assoc b p (concat ps))
        (feed-Watches ps (b ++ p) _ (watch_done-found p b c h e) ks)
  | inr e ↦
      rw (← append_assoc b p (concat ps))
        (feed-Watches ps (b ++ p) _ (watch_done-search p b c h e k) ks)
]

-- However a stream is cut into chunks, if no unterminated line outgrows the scan buffer: the search
-- has seen the sentinel exactly if one of the stream's terminated lines is the sentinel.
pub feed-saw_done :
    (page_size : ℕ) (ps : List Bytes)
    → Fits [] ps
    → (feed ps (new_collector page_size true)).saw_done ≡ any_done (terminated (concat ps)).0
feed-saw_done page_size ps h =
    (feed-Watches ps [] (new_collector page_size true)
      (unfold new_collector terminated any_done in
        record { enabled = refl; seen = refl; left = λ _. refl })
      h).seen
