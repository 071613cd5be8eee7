-- ===== src/Proxy/Whole/Worth.antt =====
-- internal/proxy/handler.go with internal/collector, internal/session and internal/store: what an
-- answer is worth that `Finalize` found.
use opgate.Base.{
  ℕ, Bool, true, false, [], some, ◌≡◌, ◌≢◌, refl, sym, ap, ◌∙◌, ◌⊎◌, inl, inr, Bool-cases, arith,
}
use opgate.Base.Bytes.{Bytes}
use opgate.Openai.{Json}
use opgate.Openai.Accumulator.{
  complex_content, no_assistant_content, bad_value, bad_message, bad_tool_calls, nil_call, Reply,
  ok, err, canonical, is_blank,
}
use opgate.Collector.Assemble.{assemble}
use opgate.Sse.{scan}
use opgate.Openai.Assistant.{assistant_from_sse}
use opgate.Store.{Pages}
use opgate.Collector.{Collector}
use opgate.Collector.Finalize.{
  Failure, no_assistant_message, on_pages, found, failure, finalize, finalize-log, judge,
}
use opgate.Collector.Pool.{Config, Reach}
use opgate.Proxy.Whole.{Whole, pages_read, is_troubled, outcome}
use opgate.Proxy.Whole.Stands.{Spent}

nothing_left :
    (json : Json) (called c : Collector) (pages : Pages)
    → called.failed ≡ false
    → c.tail ≡ []
    → pages ≡ []
    → (finalize json called c (some pages)).0 ≡ failure no_assistant_message
unfolding finalize on_pages assemble assistant_from_sse scan canonical is_blank judge
nothing_left json called c pages h tail gone = rw (h, tail, gone) refl

-- Without trouble nothing has failed.
pub record IsGood (before : Bool) (called c : Collector) (gone got deleted : Bool) : Type 0 where
  pub none_before : before ≡ false
  pub good_called : called.failed ≡ false
  pub good : c.failed ≡ false
  pub none_gone : gone ≡ false
  pub were_read : got ≡ true
  pub pages_deleted : deleted ≡ true

pub untroubled :
    (before : Bool) (called c : Collector) (gone got deleted : Bool)
    → is_troubled before called c gone got deleted ≡ false
    → IsGood before called c gone got deleted
unfolding is_troubled
untroubled before called c gone got deleted h = record {
  none_before = ground (arith, h);
  good_called = ground (arith, h);
  good = ground (arith, h);
  none_gone = ground (arith, h);
  were_read = ground (arith, h);
  pages_deleted = ground (arith, h);
}

pub entry_read :
    (got gone : Bool) (left entry : Pages)
    → got ≡ true
    → gone ≡ false
    → pages_read got gone left entry ≡ some entry
unfolding pages_read
entry_read got gone left entry e k = rw (e, k) refl

-- Only a whole stream with an answer is judged as found.
judge-found : (r : Reply × Bool) (a : Bytes) → judge r ≡ found a → r ≡ (ok a, true)
unfolding judge
judge-found (err no_assistant_content, b) a e = cc
judge-found (err complex_content, b) a e = cc
judge-found (err bad_value, b) a e = cc
judge-found (err bad_message, b) a e = cc
judge-found (err bad_tool_calls, b) a e = cc
judge-found (err nil_call, b) a e = cc
judge-found (ok x, false) a e = cc
judge-found (ok x, true) a e = cc

no_outcome : {f : Failure} {a : Bytes} → failure f ≢ found a
no_outcome e = cc

module _ (json : Json) (sha256 : Bytes → Bytes) (max : ℕ) (cfg : Config) where
  -- What an answer that `Finalize` found is worth.
  abbrev pub Worth : Bool → Bytes → Bytes → Type 0
  Worth t written a = (t ≡ true) ⊎ (assistant_from_sse json written ≡ (ok a, true))

  pub first-Worth :
      (s : Whole) (log : ℕ → Bytes) (id : ℕ) (called : Collector) (got : Bool) (left : Pages)
      (deleted : Bool) (a : Bytes)
      → Reach cfg s.world log
      → (s.world.collectors id).finalized ≡ false
      → (called.failed ≡ false → (s.world.collectors id).inflight ≡ 0)
      → outcome json sha256 max cfg id called got left s ≡ found a
      → Worth
          (is_troubled (s.troubled id) called (s.world.collectors id) (s.expired id) got deleted)
          (log id)
          a
  unfolding outcome
  first-Worth s log id called got left deleted a r live idle e =
      elim (Bool-cases
        (is_troubled (s.troubled id) called (s.world.collectors id) (s.expired id) got deleted)) [
          | inl bad ↦ inl bad
          | inr fine ↦
              let k =
                untroubled (s.troubled id) called (s.world.collectors id) (s.expired id) got deleted
                  fine in
              inr (
                judge-found _ a (
                  sym (
                    ap (λ x. x.0)
                      (finalize-log json cfg id called r k.good_called k.good live
                        (idle k.good_called)))
                  ∙ sym (
                      ap (λ o. (finalize json called (s.world.collectors id) o).0)
                        (entry_read got (s.expired id) left (s.world.entries id) k.were_read
                          k.none_gone))
                  ∙ e))
        ]

  -- Behind a `Finalize` at the sentinel that failed without trouble, nothing is found.
  pub Spent-outcome :
      (s : Whole) (id : ℕ) (called : Collector) (left : Pages)
      → called.failed ≡ false
      → s.expired id ≡ false
      → s.troubled id ≡ false
      → Spent (s.world.collectors id) (s.world.entries id) (s.troubled id)
      → outcome json sha256 max cfg id called true left s ≡ failure no_assistant_message
  unfolding outcome
  Spent-outcome s id called left fine k t (_, inl bad) = absurd (true_false (sym bad ∙ t))
    where
      true_false : true ≢ false
      true_false x = cc
  Spent-outcome s id called left fine k t (_, inr (tail, gone, _)) =
      ap (λ o. (finalize json called (s.world.collectors id) o).0)
        (entry_read true (s.expired id) left (s.world.entries id) refl k)
      ∙ nothing_left json called (s.world.collectors id) (s.world.entries id) fine tail gone

  pub last-Worth :
      (s : Whole) (log : ℕ → Bytes) (id : ℕ) (called : Collector) (got : Bool) (left : Pages)
      (deleted : Bool) (a : Bytes)
      → Reach cfg s.world log
      → ((s.world.collectors id).finalized ≡ false)
        ⊎ Spent (s.world.collectors id) (s.world.entries id) (s.troubled id)
      → (called.failed ≡ false → (s.world.collectors id).inflight ≡ 0)
      → outcome json sha256 max cfg id called got left s ≡ found a
      → Worth
          (is_troubled (s.troubled id) called (s.world.collectors id) (s.expired id) got deleted)
          (log id)
          a
  last-Worth s log id called got left deleted a r (inl live) idle e =
      first-Worth s log id called got left deleted a r live idle e
  last-Worth s log id called got left deleted a r (inr spent) idle e =
      elim (Bool-cases
        (is_troubled (s.troubled id) called (s.world.collectors id) (s.expired id) got deleted)) [
          | inl bad ↦ inl bad
          | inr fine ↦
              let k =
                untroubled (s.troubled id) called (s.world.collectors id) (s.expired id) got deleted
                  fine in
              absurd (
                no_outcome (
                  sym (Spent-outcome s id called left k.good_called k.none_gone k.none_before spent)
                  ∙ ap (λ b. outcome json sha256 max cfg id called b left s) (sym k.were_read)
                  ∙ e))
        ]
