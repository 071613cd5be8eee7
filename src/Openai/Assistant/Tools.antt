-- ===== src/Openai/Assistant/Tools.antt =====
-- internal/openai/assistant.go: the order list and the map of tool calls.
use opgate.Base.{
  ℕ, suc, List, [], ◌∷◌, ◌++◌, Option, none, some, ◌≡◌, ◌≢◌, refl, sym, ap, ◌∙◌, arith, All,
  Bool-cases, Option-cases, inl, inr,
}
use opgate.Openai.Request.{member}
use opgate.Base.Bytes.{Bytes, codes, equal, trim_space}
use opgate.Canon.Text.{Runes}
use opgate.Base.Int.{ℤ, pos, eq_ℤ, eq_ℤ_iff, leb_ℤ}
use opgate.Sse.Events.{deliver, scan-deliver}
use opgate.Openai.{ToolCallDelta, Delta, Choice, Json}
use opgate.Openai.Accumulator.{
  ToolCall, new_call, Accumulator, new_accumulator, find_tool, change_tool, add_tool, with_tool,
  merge_tools, merge_call, index_or_zero, merge_content, merge_delta, insert_index, sort_indices,
  call_values, message_value, nil_call, err, canonical,
}
use opgate.Openai.Assistant.{
  merge_optional, add_text, done_mark, merge_choice, merge_choices, Progress, begin, on_event,
  assistant_from_sse, set_call, set_tools, message_content, with_calls, assistant_from_message,
}

abbrev pub indices : List (ℤ × ToolCall) → List ℤ
indices [] = []
indices ((i, _) ∷ ts) = i ∷ indices ts

-- The tool indices in the order of their first appearance are the keys of the map.
pub record IsTracked (a : Accumulator) : Type 0 where
  pub tracked : a.tool_order ≡ indices a.tools

indices-append :
    (ts : List (ℤ × ToolCall)) (i : ℤ) (st : ToolCall)
    → indices (ts ++ (i, st) ∷ []) ≡ indices ts ++ i ∷ []
indices-append [] i st = refl
indices-append (t ∷ ts) i st = ap (◌∷◌ t.0) (indices-append ts i st)

indices-change_tool :
    (i : ℤ) (f : ToolCall → ToolCall) (ts : List (ℤ × ToolCall))
    → indices (change_tool i f ts) ≡ indices ts
unfolding change_tool
indices-change_tool i f [] = refl
indices-change_tool i f ((j, st) ∷ ts) = ground (arith, indices-change_tool i f ts)

add_tool-IsTracked : (i : ℤ) (a : Accumulator) → IsTracked a → IsTracked (add_tool i a)
unfolding add_tool
add_tool-IsTracked i a h = ground (arith, h.tracked, indices-append a.tools i new_call)

with_tool-IsTracked :
    (i : ℤ) (f : ToolCall → ToolCall) (a : Accumulator) → IsTracked a → IsTracked (with_tool i f a)
unfolding with_tool
with_tool-IsTracked i f a h = record {
  tracked = (add_tool-IsTracked i a h).tracked ∙ sym (indices-change_tool i f (add_tool i a).tools);
}

merge_tools-IsTracked :
    (tcs : List ToolCallDelta) (a : Accumulator) → IsTracked a → IsTracked (merge_tools tcs a)
unfolding merge_tools
merge_tools-IsTracked [] a h = h
merge_tools-IsTracked (tc ∷ tcs) a h =
    merge_tools-IsTracked tcs _ (with_tool-IsTracked (index_or_zero tc.index) (merge_call tc) a h)

set_tools-IsTracked :
    (i : ℕ) (tcs : List ToolCallDelta) (a : Accumulator)
    → IsTracked a
    → IsTracked (set_tools i tcs a)
unfolding set_tools
set_tools-IsTracked i [] a h = h
set_tools-IsTracked i (tc ∷ tcs) a h =
    set_tools-IsTracked (suc i) tcs _ (with_tool-IsTracked (pos i) (set_call tc) a h)

new-IsTracked : IsTracked new_accumulator
new-IsTracked = record { tracked = refl }

module _ (json : Json) where
  merge_content-IsTracked :
      (raw : Bytes) (a : Accumulator) → IsTracked a → IsTracked (merge_content json raw a)
  unfolding merge_content
  merge_content-IsTracked [] a h = h
  merge_content-IsTracked (c ∷ cs) a h = ground (arith, h.tracked)

  merge_delta-IsTracked :
      (d : Delta) (a : Accumulator) → IsTracked a → IsTracked (merge_delta json d a)
  unfolding merge_delta
  merge_delta-IsTracked d a h =
      merge_tools-IsTracked d.tool_calls _ (merge_content-IsTracked d.content a h)

  merge_optional-IsTracked :
      (o : Option Delta) (a : Accumulator) → IsTracked a → IsTracked (merge_optional json o a)
  merge_optional-IsTracked none a h = h
  merge_optional-IsTracked (some d) a h = merge_delta-IsTracked d a h

  add_text-IsTracked : (o : Option Runes) (a : Accumulator) → IsTracked a → IsTracked (add_text o a)
  add_text-IsTracked none a h = h
  add_text-IsTracked (some []) a h = h
  add_text-IsTracked (some (r ∷ rs)) a h = record { tracked = h.tracked }

  merge_choice-IsTracked :
      (c : Choice) (a : Accumulator) → IsTracked a → IsTracked (merge_choice json c a)
  unfolding merge_choice
  merge_choice-IsTracked c a h = elim (Bool-cases (eq_ℤ (index_or_zero c.index) (pos 0))) [
    | inl primary ↦ rw primary (
        add_text-IsTracked c.text _
          (merge_optional-IsTracked c.message _ (merge_optional-IsTracked c.delta a h)))
    | inr other ↦ rw other h
  ]

  merge_choices-IsTracked :
      (cs : List Choice) (a : Accumulator) → IsTracked a → IsTracked (merge_choices json cs a)
  unfolding merge_choices
  merge_choices-IsTracked [] a h = h
  merge_choices-IsTracked (c ∷ cs) a h = merge_choices-IsTracked cs _ (merge_choice-IsTracked c a h)

  on_event-IsTracked :
      (e : Bytes) (s : Progress) → IsTracked s.root → IsTracked (on_event json e s).0.root
  unfolding on_event
  on_event-IsTracked e s h = elim (Bool-cases (equal (trim_space e) done_mark)) [
    | inl done ↦ rw done h
    | inr event ↦ elim (Option-cases (json.chunk_of (trim_space e))) [
      | inl bad ↦ rw (event, bad) h
      | inr (choices, good) ↦ rw (event, good) (merge_choices-IsTracked choices s.root h)
    ]
  ]

  deliver-IsTracked :
      (es : List Bytes) (s : Progress)
      → IsTracked s.root
      → IsTracked (deliver (on_event json) es s).root
  unfolding deliver
  deliver-IsTracked [] s h = h
  deliver-IsTracked (e ∷ es) s h = elim (Bool-cases (on_event json e s).1) [
    | inl go ↦ rw go (deliver-IsTracked es _ (on_event-IsTracked e s h))
    | inr stop ↦ rw stop (on_event-IsTracked e s h)
  ]

abbrev Found : List (ℤ × ToolCall) → ℤ → Type 0
Found ts i = (st : ToolCall) × (find_tool i ts ≡ some st)

Found-cons : (t : ℤ × ToolCall) (ts : List (ℤ × ToolCall)) (i : ℤ) → Found ts i → Found (t ∷ ts) i
unfolding find_tool
Found-cons (j, st) ts i (st', h) = elim (Bool-cases (eq_ℤ j i)) [
  | inl at ↦ (st, rw at refl)
  | inr past ↦ (st', rw past h)
]

All-Found-cons :
    (t : ℤ × ToolCall) (ts : List (ℤ × ToolCall)) (is : List ℤ)
    → All (Found ts) is
    → All (Found (t ∷ ts)) is
All-Found-cons t ts [] h = tt
All-Found-cons t ts (i ∷ is) (h, hs) = (Found-cons t ts i h, All-Found-cons t ts is hs)

indices-Found : (ts : List (ℤ × ToolCall)) → All (Found ts) (indices ts)
unfolding find_tool
indices-Found [] = tt
indices-Found ((i, st) ∷ ts) = (
  (st, rw ((eq_ℤ_iff i i).1 refl) refl),
  All-Found-cons (i, st) ts (indices ts) (indices-Found ts),
)

insert_index-All : (P : ℤ → Type 0) (i : ℤ) (l : List ℤ) → P i → All P l → All P (insert_index i l)
unfolding insert_index
insert_index-All P i [] p h = (p, tt)
insert_index-All P i (j ∷ l) p (q, h) = elim (Bool-cases (leb_ℤ i j)) [
  | inl first ↦ rw first (p, (q, h))
  | inr later ↦ rw later (q, insert_index-All P i l p h)
]

sort_indices-All : (P : ℤ → Type 0) (l : List ℤ) → All P l → All P (sort_indices l)
unfolding sort_indices
sort_indices-All P [] h = tt
sort_indices-All P (i ∷ l) (p, h) = insert_index-All P i _ p (sort_indices-All P l h)

call_values-ne-none :
    (ts : List (ℤ × ToolCall)) (is : List ℤ) → All (Found ts) is → call_values ts is ≢ none
unfolding call_values
call_values-ne-none ts [] h = ground arith
call_values-ne-none ts (i ∷ is) ((st, e), h) = ground (arith, call_values-ne-none ts is h)

message_value-ne-none : (a : Accumulator) → IsTracked a → message_value a ≢ none
unfolding message_value
message_value-ne-none a h = ground (
  arith,
  call_values-ne-none a.tools (sort_indices a.tool_order)
      (sort_indices-All _ a.tool_order (rw h.tracked (indices-Found a.tools))),
)

pub canonical-ne-nil_call :
    (json : Json) (a : Accumulator) → IsTracked a → canonical json a ≢ err nil_call
unfolding canonical
canonical-ne-nil_call json a h = ground (arith, message_value-ne-none a h)

message_content-IsTracked : (json : Json) (o : Option Bytes) → IsTracked (message_content json o)
unfolding message_content
message_content-IsTracked json none = new-IsTracked
message_content-IsTracked json (some raw) =
    merge_delta-IsTracked json _ new_accumulator new-IsTracked

sse-ne-nil_call :
    (json : Json) (payload : Bytes) → (assistant_from_sse json payload).0 ≢ err nil_call
unfolding assistant_from_sse
sse-ne-nil_call json payload =
    rw scan-deliver (canonical-ne-nil_call json _ (deliver-IsTracked json _ begin new-IsTracked))

with_calls-ne-nil_call :
    (json : Json) (a : Accumulator) (o : Option Bytes)
    → IsTracked a
    → with_calls json a o ≢ err nil_call
unfolding with_calls
with_calls-ne-nil_call json a none h = canonical-ne-nil_call json a h
with_calls-ne-nil_call json a (some calls) h = elim (Option-cases (json.tool_calls_of calls)) [
  | inl bad ↦ rw (bad, with_calls) (λ e. cc)
  | inr (tcs, good) ↦
      rw (good, with_calls) (canonical-ne-nil_call json _ (set_tools-IsTracked 0 tcs a h))
]

message-ne-nil_call : (json : Json) (raw : Bytes) → assistant_from_message json raw ≢ err nil_call
unfolding assistant_from_message
message-ne-nil_call json raw = elim (Option-cases (json.object_of raw)) [
  | inl bad ↦ rw (bad, assistant_from_message) (λ e. cc)
  | inr (m, good) ↦
      rw (good, assistant_from_message)
        (with_calls-ne-nil_call json _ (member (codes "tool_calls") m)
          (message_content-IsTracked json _))
]

-- Whatever a stream or a plain response holds, `canonical` never reads a tool call that is not in
-- the map.
pub canonical_total :
    (json : Json) (payload raw : Bytes)
    → ((assistant_from_sse json payload).0 ≢ err nil_call)
      × (assistant_from_message json raw ≢ err nil_call)
canonical_total json payload raw = (sse-ne-nil_call json payload, message-ne-nil_call json raw)
