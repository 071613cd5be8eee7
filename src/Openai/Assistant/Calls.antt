-- ===== src/Openai/Assistant/Calls.antt =====
-- internal/openai/assistant.go: tool calls that come in fragments, beside the same calls in a plain
-- response.
use opgate.Base.{
  ℕ, suc, ◌≤◌, true, false, not, ◌&&◌, List, [], ◌∷◌, ◌++◌, Option, none, some, map, ◌≡◌, refl, sym,
  ap, ◌∙◌, concat, if◌then◌else◌, append_assoc, append-nil, arith,
}
use opgate.Base.Int.{ℤ, pos, eq_ℤ}
use opgate.Canon.Text.{Runes}
use opgate.Openai.{ToolCallDelta}
use opgate.Openai.Accumulator.{
  ToolCall, new_call, Accumulator, find_tool, change_tool, add_tool, with_tool, is_empty,
  merge_call, merge_tools,
}
use opgate.Openai.Assistant.{set_call, set_tools}

-- The first fragment of a call names it, the others carry on its arguments.
abbrev pub opening : ℕ → Runes → Runes → Runes → Runes → ToolCallDelta
opening k id type name a = record {
  index = some (pos k);
  id = id;
  type = type;
  name = some name;
  arguments = some a;
}

abbrev pub continuing : ℕ → Runes → ToolCallDelta
continuing k a = record {
  index = some (pos k);
  id = [];
  type = [];
  name = none;
  arguments = some a;
}

-- Fragments of the calls from number `k` on, one call after another, and the calls whole.
pub data Calls : ℕ → List ToolCallDelta → List ToolCallDelta → Type 0 where
  ends : (k : ℕ) → Calls k [] []
  call :
      {k : ℕ} {ds tcs : List ToolCallDelta} (index : Option ℤ) (id type name a : Runes)
      (pieces : List Runes)
      → Calls (suc k) ds tcs
      → Calls k (opening k id type name a ∷ (map (continuing k) pieces ++ ds)) (
          record {
            index = index;
            id = id;
            type = type;
            name = some name;
            arguments = some (a ++ concat pieces);
          }
          ∷ tcs)

pub merge_tools-append :
    (xs ys : List ToolCallDelta) (a : Accumulator)
    → merge_tools (xs ++ ys) a ≡ merge_tools ys (merge_tools xs a)
unfolding merge_tools
merge_tools-append [] ys a = refl
merge_tools-append (x ∷ xs) ys a = merge_tools-append xs ys _

-- Tools with numbers below `k`.
abbrev Below : ℕ → List (ℤ × ToolCall) → Type 0
Below k [] = Unit
Below k ((i, _) ∷ ts) = ((j : ℕ) → k ≤ j → eq_ℤ i (pos j) ≡ false) × Below k ts

find_tool-Below : (k : ℕ) (ts : List (ℤ × ToolCall)) → Below k ts → find_tool (pos k) ts ≡ none
unfolding find_tool
find_tool-Below k [] h = refl
find_tool-Below k ((i, st) ∷ ts) (h, hs) = rw (h k (omega arith)) (find_tool-Below k ts hs)

-- A change at the last tool.
change_tool-last :
    (k : ℕ) (f : ToolCall → ToolCall) (ts : List (ℤ × ToolCall)) (st : ToolCall)
    → Below k ts
    → change_tool (pos k) f (ts ++ (pos k, st) ∷ []) ≡ ts ++ (pos k, f st) ∷ []
unfolding change_tool
change_tool-last k f [] st h = ground arith
change_tool-last k f ((i, u) ∷ ts) st (h, hs) =
    rw (h k (omega arith)) (ap (◌∷◌ (i, u)) (change_tool-last k f ts st hs))

-- The accumulator with one more call.
abbrev more_call : Accumulator → ℕ → ToolCall → Accumulator
more_call a k st = record a {
  tools = a.tools ++ (pos k, st) ∷ [];
  tool_order = a.tool_order ++ pos k ∷ [];
}

find_tool-last :
    (k : ℕ) (ts : List (ℤ × ToolCall)) (st : ToolCall)
    → Below k ts
    → find_tool (pos k) (ts ++ (pos k, st) ∷ []) ≡ some st
unfolding find_tool
find_tool-last k [] st h = ground arith
find_tool-last k ((i, u) ∷ ts) st (h, hs) = rw (h k (omega arith)) (find_tool-last k ts st hs)

add_tool-new :
    (k : ℕ) (a : Accumulator) → Below k a.tools → add_tool (pos k) a ≡ more_call a k new_call
unfolding add_tool
add_tool-new k a h = rw (find_tool-Below k a.tools h, add_tool) refl

add_tool-last :
    (k : ℕ) (a : Accumulator) (st : ToolCall)
    → Below k a.tools
    → add_tool (pos k) (more_call a k st) ≡ more_call a k st
unfolding add_tool
add_tool-last k a st h = rw (find_tool-last k a.tools st h, add_tool) refl

with_tool-at :
    (k : ℕ) (f : ToolCall → ToolCall) (a b : Accumulator) (st : ToolCall)
    → Below k a.tools
    → add_tool (pos k) b ≡ more_call a k st
    → with_tool (pos k) f b ≡ more_call a k (f st)
unfolding with_tool
with_tool-at k f a b st h e =
    ap (λ (c : Accumulator). record c { tools = change_tool (pos k) f c.tools }) e
    ∙ ap (λ ts. record a { tools = ts; tool_order = a.tool_order ++ pos k ∷ [] })
        (change_tool-last k f a.tools st h)

merge_call-continuing :
    (k : ℕ) (a : Runes) (st : ToolCall)
    → merge_call (continuing k a) st ≡ record st { arguments = st.arguments ++ a }
unfolding merge_call
merge_call-continuing k a st = refl

-- The later fragments of a call, at the last tool.
merge_tools-continuing :
    (k : ℕ) (pieces : List Runes) (a : Accumulator) (st : ToolCall)
    → Below k a.tools
    → merge_tools (map (continuing k) pieces) (more_call a k st)
      ≡ more_call a k (record st { arguments = st.arguments ++ concat pieces })
unfolding merge_tools
merge_tools-continuing k [] a st h =
    ap (λ x. more_call a k (record st { arguments = x })) (sym (append-nil st.arguments))
merge_tools-continuing k (p ∷ pieces) a st h =
    ap (merge_tools (map (continuing k) pieces)) (
      with_tool-at k (merge_call (continuing k p)) a (more_call a k st) st h
        (add_tool-last k a st h)
      ∙ ap (more_call a k) (merge_call-continuing k p st))
    ∙ merge_tools-continuing k pieces a (record st { arguments = st.arguments ++ p }) h
    ∙ ap (λ x. more_call a k (record st { arguments = x }))
        (append_assoc st.arguments p (concat pieces))

or_empty : (x : Runes) → (if is_empty x then [] else x) ≡ x
or_empty [] = refl
or_empty (c ∷ cs) = refl

unless_empty : (x : Runes) → (if not (is_empty x) && true then x else []) ≡ x
unless_empty [] = refl
unless_empty (c ∷ cs) = refl

merge_call-opening :
    (k : ℕ) (id type name a : Runes)
    → merge_call (opening k id type name a) new_call
      ≡ record { id = id; type = type; name = name; arguments = a }
unfolding merge_call
merge_call-opening k id type name a = cc (unless_empty id, unless_empty type, or_empty name)

set_call-full :
    (index : Option ℤ) (id type name a : Runes)
    → set_call
        (record { index = index; id = id; type = type; name = some name; arguments = some a })
        new_call
      ≡ record { id = id; type = type; name = name; arguments = a }
unfolding set_call
set_call-full index id type name a = cc (or_empty id, or_empty type)

Below-more :
    (k : ℕ) (ts : List (ℤ × ToolCall)) (st : ToolCall)
    → Below k ts
    → Below (suc k) (ts ++ (pos k, st) ∷ [])
Below-more k [] st h = ((λ j l. ground arith), tt)
Below-more k ((i, u) ∷ ts) st (h, hs) = ((λ j l. h j (omega arith)), Below-more k ts st hs)

-- Fragments and whole calls come to one accumulator.
pub merge_tools-set_tools :
    {k : ℕ} {ds tcs : List ToolCallDelta} (a : Accumulator)
    → Calls k ds tcs
    → Below k a.tools
    → merge_tools ds a ≡ set_tools k tcs a
unfolding set_tools merge_tools
merge_tools-set_tools a (ends k) h = refl
merge_tools-set_tools a (call {k} {ds} {tcs} index id type name p pieces c) h =
    whole
    ∙ merge_tools-set_tools (more_call a k full) c (Below-more k a.tools full h)
    ∙ sym (ap (set_tools (suc k) tcs) set)
  where
    full : ToolCall
    full = record { id = id; type = type; name = name; arguments = p ++ concat pieces }

    opened :
        with_tool (pos k) (merge_call (opening k id type name p)) a
        ≡ more_call a k (record { id = id; type = type; name = name; arguments = p })
    opened =
        with_tool-at k (merge_call (opening k id type name p)) a a new_call h (add_tool-new k a h)
        ∙ ap (more_call a k) (merge_call-opening k id type name p)

    whole :
        merge_tools (opening k id type name p ∷ (map (continuing k) pieces ++ ds)) a
        ≡ merge_tools ds (more_call a k full)
    whole =
        ap (merge_tools (map (continuing k) pieces ++ ds)) opened
        ∙ merge_tools-append (map (continuing k) pieces) ds _
        ∙ ap (merge_tools ds) (
            merge_tools-continuing k pieces a
              (record { id = id; type = type; name = name; arguments = p }) h)

    set :
        with_tool
          (pos k)
          (set_call (record {
            index = index;
            id = id;
            type = type;
            name = some name;
            arguments = some (p ++ concat pieces);
          }))
          a
        ≡ more_call a k full
    set =
        with_tool-at k _ a a new_call h (add_tool-new k a h)
        ∙ ap (more_call a k) (set_call-full index id type name (p ++ concat pieces))
