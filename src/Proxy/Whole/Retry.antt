-- ===== src/Proxy/Whole/Retry.antt =====
-- internal/proxy/handler.go with internal/collector: a second `Finalize` of a response.
use opgate.Base.{ℕ, true, false, ◌≡◌, ◌≢◌, sym, ◌∙◌, inl, inr}
use opgate.Base.Bytes.{Bytes}
use opgate.Openai.{Json}
use opgate.Store.{Pages}
use opgate.Collector.{Collector}
use opgate.Collector.Finalize.{failure, no_assistant_message}
use opgate.Collector.Pool.{Config}
use opgate.Session.Continuity.{Mappings}
use opgate.Proxy.Whole.{ending, Whole, outcome, Serving}
use opgate.Proxy.Whole.Stands.{Stands}
use opgate.Proxy.Whole.Worth.{Spent-outcome}
use opgate.Proxy.Whole.Reached.{Serving-AllStand, Stands-at}

module _ (json : Json) (sha256 : Bytes → Bytes) (max : ℕ) (cfg : Config) (held : Mappings) where
  -- In every state that can be reached: the `Finalize` at the end of a streamed response has been called,
  -- and another, at its sentinel, has been through before. If nothing went wrong for that one and for the
  -- cache, the pages have not expired, and this one can read them, then it fails with "no assistant message", whatever was
  -- written.
  pub retry-Serving :
      {s : Whole} {log : ℕ → Bytes} (id : ℕ) (called : Collector) (left : Pages)
      → Serving json sha256 max cfg held s log
      → s.stages id ≡ ending called
      → (s.world.collectors id).finalized ≡ true
      → s.troubled id ≡ false
      → s.expired id ≡ false
      → called.failed ≡ false
      → outcome json sha256 max cfg id called true left s ≡ failure no_assistant_message
  unfolding Stands
  retry-Serving {s} id called left v e through_before untroubled there fine =
      elim (Stands-at json sha256 max cfg s.world s.stages s.troubled id (ending called)
        (Serving-AllStand json sha256 max cfg v) e) [
          | inl live ↦ absurd (distinct (sym through_before ∙ live))
          | inr spent ↦
              Spent-outcome json sha256 max cfg s id called left fine there untroubled spent
        ]
    where
      distinct : true ≢ false
      distinct x = cc
