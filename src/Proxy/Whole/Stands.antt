-- ===== src/Proxy/Whole/Stands.antt =====
-- internal/proxy/handler.go with internal/collector, internal/session and internal/store: what
-- holds of each streamed response.
use opgate.Base.{
  ℕ, Bool, true, false, List, [], ◌++◌, ◌≡◌, ◌<◌, refl, sym, ◌∙◌, subst, ◌⊎◌, inl, inr, arith,
}
use opgate.Base.Bytes.{Bytes}
use opgate.Store.{Pages}
use opgate.Collector.{
  Collector, write, append, cut_page, submit, watch_done, write-fired, drop_tail, page_done,
}
use opgate.Collector.Delivery.{by_request}
use opgate.Collector.Pool.{
  Config, Job, World, update, update_self, update_ne, is_full, pool_write, finish_job, end_finalize,
}
use opgate.Proxy.Whole.{Stage, unasked, reading, closed, over, at_done, ending, plain, answered}

-- What holds of a response that a `Finalize` at the sentinel failed for: nothing is written any more,
-- and nothing of it is left, unless there was trouble.
abbrev pub Spent : Collector → Pages → Bool → Type 0
Spent c pages t =
    (c.sealed ≡ true) × ((t ≡ true) ⊎ ((c.tail ≡ []) × (pages ≡ []) × (c.inflight ≡ 0)))

unfoldable pub Stands : Stage → Collector → Pages → Bool → Type 0
Stands unasked c pages t = c.finalized ≡ false
Stands (at_done _) c pages t = (c.finalized ≡ false) × (c.sealed ≡ true)
Stands over c pages t = Unit
Stands (plain f) c pages t = Unit
Stands (answered f) c pages t = Unit
Stands reading c pages t = (c.finalized ≡ false) ⊎ Spent c pages t
Stands closed c pages t = (c.finalized ≡ false) ⊎ Spent c pages t
Stands (ending _) c pages t = (c.finalized ≡ false) ⊎ Spent c pages t

over_Stands : (x : Stage) (c : Collector) (pages : Pages) (t : Bool) → x ≡ over → Stands x c pages t
unfolding Stands
over_Stands x c pages t e = subst (λ y. Stands y c pages t) (sym e) tt

kept_or :
    (c c' : Collector) (pages pages' : Pages) (t : Bool)
    → c'.finalized ≡ c.finalized
    → c'.sealed ≡ c.sealed
    → (c.inflight ≡ 0 → (c'.tail ≡ c.tail) × (pages' ≡ pages) × (c'.inflight ≡ c.inflight))
    → (c.finalized ≡ false) ⊎ Spent c pages t
    → (c'.finalized ≡ false) ⊎ Spent c' pages' t
kept_or c c' pages pages' t f s same (inl h) = inl (f ∙ h)
kept_or c c' pages pages' t f s same (inr (k, inl bad)) = inr (s ∙ k, inl bad)
kept_or c c' pages pages' t f s same (inr (k, inr (none_left, gone, idle))) =
    let (a, b, d) = same idle in inr (s ∙ k, inr (a ∙ none_left, b ∙ gone, d ∙ idle))

-- A step that keeps what was sealed and what was through, and touches nothing that is spent.
pub Stands-keeps :
    (g : Stage) (c c' : Collector) (pages pages' : Pages) (t : Bool)
    → c'.finalized ≡ c.finalized
    → c'.sealed ≡ c.sealed
    → (c.inflight ≡ 0 → (c'.tail ≡ c.tail) × (pages' ≡ pages) × (c'.inflight ≡ c.inflight))
    → Stands g c pages t
    → Stands g c' pages' t
unfolding Stands
Stands-keeps unasked c c' pages pages' t f s same h = f ∙ h
Stands-keeps (at_done _) c c' pages pages' t f s same (h, k) = (f ∙ h, s ∙ k)
Stands-keeps over c c' pages pages' t f s same h = tt
Stands-keeps (plain _) c c' pages pages' t f s same h = tt
Stands-keeps (answered _) c c' pages pages' t f s same h = tt
Stands-keeps reading c c' pages pages' t f s same h = kept_or c c' pages pages' t f s same h
Stands-keeps closed c c' pages pages' t f s same h = kept_or c c' pages pages' t f s same h
Stands-keeps (ending _) c c' pages pages' t f s same h = kept_or c c' pages pages' t f s same h

page_done-finalized : (ok : Bool) (c : Collector) → (page_done ok c).finalized ≡ c.finalized
unfolding page_done
page_done-finalized true c = refl
page_done-finalized false c = refl

page_done-sealed : (ok : Bool) (c : Collector) → (page_done ok c).sealed ≡ c.sealed
unfolding page_done
page_done-sealed true c = refl
page_done-sealed false c = refl

submit-finalized :
    (full : Bool) (page : Bytes) (c : Collector) → (submit full page c).0.finalized ≡ c.finalized
unfolding submit
submit-finalized true page c = refl
submit-finalized false page c = refl

cut_page-finalized : (full : Bool) (c : Collector) → (cut_page full c).0.finalized ≡ c.finalized
unfolding cut_page
cut_page-finalized full c = ground (arith, submit-finalized full c.tail c)

watch_done-finalized : (p : Bytes) (c : Collector) → (watch_done p c).0.finalized ≡ c.finalized
unfolding watch_done
watch_done-finalized p c = ground arith

write-finalized :
    (full : Bool) (p : Bytes) (c : Collector) → (write full p c).0.finalized ≡ c.finalized
unfolding write append
write-finalized full p c =
    let cut = (cut_page full (record c { tail = c.tail ++ p })).0 in
    ground
      (arith, watch_done-finalized p cut, cut_page-finalized full (record c { tail = c.tail ++ p }))

-- All responses stand.
abbrev pub AllStand : World → (ℕ → Stage) → (ℕ → Bool) → Type 0
AllStand w g t = (id : ℕ) → Stands (g id) (w.collectors id) (w.entries id) (t id)

unwritten :
    (c : Collector) (pages : Pages) (t : Bool)
    → c.sealed ≡ false
    → (c.finalized ≡ false) ⊎ Spent c pages t
    → c.finalized ≡ false
unwritten c pages t open_ (inl h) = h
unwritten c pages t open_ (inr (k, _)) = absurd (cc)

module _ (cfg : Config) (w : World) (g : ℕ → Stage) (t : ℕ → Bool) (h : AllStand w g t) where
  reading-fresh :
      (id : ℕ)
      → g id ≡ reading
      → (w.collectors id).sealed ≡ false
      → (w.collectors id).finalized ≡ false
  unfolding Stands
  reading-fresh id e open_ =
      unwritten (w.collectors id) (w.entries id) (t id) open_
        (subst (λ x. Stands x (w.collectors id) (w.entries id) (t id)) e (h id))

  pub reads-AllStand :
      (id : ℕ) (chunk : Bytes)
      → g id ≡ reading
      → (w.collectors id).sealed ≡ false
      → AllStand (pool_write cfg id chunk w) g t
  unfolding pool_write Stands
  reads-AllStand id chunk e open_ =
      by_request _ id
        (rw (update_self, e) (inl (write-finalized _ chunk _ ∙ reading-fresh id e open_)))
        λ j ne. rw (update_ne _ j _ _ ne) (h j)

  pub meets_done-AllStand :
      (id : ℕ) (chunk : Bytes) (c : Collector)
      → g id ≡ reading
      → (w.collectors id).sealed ≡ false
      → (write (is_full cfg w) chunk (w.collectors id)).2 ≡ true
      → AllStand (pool_write cfg id chunk w) (update id (at_done c) g) t
  unfolding pool_write Stands
  meets_done-AllStand id chunk c e open_ fired =
      by_request _ id
        (rw (update_self, update_self)
          (write-finalized _ chunk _ ∙ reading-fresh id e open_, write-fired _ chunk _ fired))
        λ j ne. rw (update_ne _ j _ _ ne, update_ne _ j _ _ ne) (h j)

  pub finish_job-AllStand :
      (ok stored : Bool) (before : List Job) (j : Job) (behind : List Job)
      → 0 < (w.collectors j.owner).inflight
      → AllStand (finish_job ok stored before j behind w) g t
  unfolding finish_job
  finish_job-AllStand ok true before j behind busy =
      by_request _ j.owner
        (rw (update_self, update_self)
          (Stands-keeps (g j.owner) (w.collectors j.owner) _ (w.entries j.owner) _ (t j.owner)
            (page_done-finalized ok _) (page_done-sealed ok _)
            (λ e. absurd (omega (arith, e, busy))) (h j.owner)))
        λ id ne. rw (update_ne _ id _ _ ne, update_ne _ id _ _ ne) (h id)
  finish_job-AllStand ok false before j behind busy =
      by_request _ j.owner
        (rw update_self (
          Stands-keeps (g j.owner) (w.collectors j.owner) _ (w.entries j.owner) _ (t j.owner)
            (page_done-finalized ok _) (page_done-sealed ok _)
            (λ e. absurd (omega (arith, e, busy))) (h j.owner)))
        λ id ne. rw (update_ne _ id _ _ ne) (h id)

  -- A stage that asks for no more than the one before.
  pub to_stage :
      (id : ℕ) (x : Stage)
      → Stands x (w.collectors id) (w.entries id) (t id)
      → AllStand w (update id x g) t
  to_stage id x at_x = by_request _ id (rw update_self at_x) λ j ne. rw (update_ne _ j _ _ ne) (h j)

  pub ends-AllStand :
      (is_at_done deleted : Bool) (id : ℕ) (b : Bool)
      → AllStand (end_finalize is_at_done deleted id w) (update id over g) (update id b t)
  unfolding end_finalize Stands
  ends-AllStand is_at_done true id b =
      by_request _ id (over_Stands _ _ _ _ (update_self id over g)) λ j ne.
        rw (update_ne _ j _ _ ne, update_ne _ j _ _ ne, update_ne _ j _ _ ne, update_ne _ j _ _ ne)
          (h j)
  ends-AllStand is_at_done false id b =
      by_request _ id (over_Stands _ _ _ _ (update_self id over g))
        λ j ne. rw (update_ne _ j _ _ ne, update_ne _ j _ _ ne, update_ne _ j _ _ ne) (h j)

  pub retry-AllStand :
      (deleted : Bool) (id : ℕ) (b : Bool)
      → (w.collectors id).sealed ≡ true
      → (b ≡ true) ⊎ ((deleted ≡ true) × ((w.collectors id).inflight ≡ 0))
      → AllStand (end_finalize true deleted id w) (update id reading g) (update id b t)
  unfolding end_finalize Stands drop_tail
  retry-AllStand true id b shut why =
      by_request _ id
        (rw (update_self, update_self, update_self, update_self)
          (inr (shut, elim why [ inl bad ↦ inl bad | inr (_, idle) ↦ inr (refl, refl, idle) ])))
        λ j ne.
          rw
            (update_ne _ j _ _ ne, update_ne _ j _ _ ne, update_ne _ j _ _ ne, update_ne _ j _ _ ne)
            (h j)
  retry-AllStand false id b shut why =
      by_request _ id
        (rw (update_self, update_self, update_self)
          (inr (shut, elim why [ inl bad ↦ inl bad | inr (kept, _) ↦ absurd (cc) ])))
        λ j ne. rw (update_ne _ j _ _ ne, update_ne _ j _ _ ne, update_ne _ j _ _ ne) (h j)
