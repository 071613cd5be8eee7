-- ===== src/Proxy/Reads.antt =====
-- internal/proxy/handler.go: the start, the reads and the close in the runs of a response.
use opgate.Base.{
  ℕ, ◌+◌, not, ltb, Bool, true, false, ◌||◌, [], ◌∷◌, ◌++◌, Option, none, some, ◌≡◌, refl, arith,
  subst, length, length-append, if_case, leb, Bool-cases, Option-cases, inl, inr, if◌then◌else◌,
}
use opgate.Base.Bytes.{Bytes, codes, has_prefix}
use opgate.Session.{is_empty}
use opgate.Collector.{Collector, new_collector, write, drop_tail, write-sealed, write-fired}
use opgate.Collector.Finalize.{Outcome, found, failure}
use opgate.Proxy.Response.{
  Task, finalize_stream, finalize_on_close, finalize_json, Flow, new_flow, contains,
  modify_response, put_mapping, finalize_at_done, finish_once, finish, tee, stream_read, json_read,
  is_some, schedule, count_completed, count_aborted, fill, json_buffer_limit,
}
use opgate.Proxy.Runs.{closing, IsSealed, IsOnce}

new-IsOnce :
    (c : Option Collector) (b : Option Bytes)
    → IsOnce (record new_flow { collector = c; json_buf = b })
new-IsOnce c b = record {
  counted = refl;
  succeeded = refl;
  bounded = omega arith;
  ended = omega arith;
  idle = λ _. refl;
  quiet = λ _ _. refl;
  sealed = λ e. cc;
  settled = λ _. refl;
}

pub started-IsOnce :
    (page_size : ℕ) (participates : Bool) (status : ℕ) (content_type : Bytes)
    → IsOnce (modify_response page_size participates status content_type new_flow)
unfolding modify_response
started-IsOnce page_size participates status content_type =
    if_case IsOnce (not participates || ltb status 200 || ltb 299 status) _ _
      (λ _. new-IsOnce none none)
      λ _.
        if_case IsOnce (has_prefix content_type (codes "text/event-stream")) _ _
          (λ _. new-IsOnce (some (new_collector page_size true)) none)
          λ _.
            if_case IsOnce (contains content_type (codes "json")) _ _
              (λ _. new-IsOnce none (some [])) (λ _. new-IsOnce none none)

-- What `finish` does to a response that is still open and not finalized.
module _ (f : Flow) (h : IsOnce f) (open_ : f.finished ≡ false)
    (early : f.early_finalized ≡ false) where
  scheduled-IsOnce :
      (t : Task)
      → closing (t ∷ []) ≡ 0
      → IsOnce (schedule t (count_completed (record f { finished = true })))
  scheduled-IsOnce t n = ground (arith, h.idle open_, h.quiet open_ early)

  on_close-IsOnce : IsOnce (schedule finalize_on_close (record f { finished = true }))
  on_close-IsOnce = ground (arith, h.idle open_, h.quiet open_ early)

  completed-IsOnce : IsOnce (count_completed (record f { finished = true }))
  completed-IsOnce = ground (arith, h.idle open_, h.quiet open_ early)

  aborted-IsOnce : IsOnce (count_aborted (record f { finished = true }))
  aborted-IsOnce = ground (arith, h.idle open_, h.quiet open_ early)

closed-IsOnce : (f : Flow) → IsOnce f → IsOnce (record f { finished = true })
closed-IsOnce f h = ground (arith, h.settled)

pub finish-IsOnce : (f : Flow) → IsOnce f → IsOnce (finish f)
unfolding finish finish_once
finish-IsOnce f h =
    if_case IsOnce f.finished _ _ (λ _. h)
      λ open_.
        if_case IsOnce f.early_finalized _ _ (λ _. closed-IsOnce f h)
          λ early.
            if_case IsOnce f.eof _ _
              (λ _.
                if_case IsOnce (is_some f.collector) _ _
                  (λ _. scheduled-IsOnce f h open_ early finalize_stream refl)
                  λ _.
                    if_case IsOnce (is_some f.json_buf) _ _
                      (λ _. scheduled-IsOnce f h open_ early finalize_json refl)
                      (λ _. completed-IsOnce f h open_ early))
              (λ _.
                if_case IsOnce (is_some f.collector) _ _ (λ _. on_close-IsOnce f h open_ early)
                  (λ _. aborted-IsOnce f h open_ early))

-- A mapping at the sentinel is the first, and settles the response.
at_done-IsOnce :
    (outcome : Outcome) (stored : Bool) (c : Collector) (f : Flow)
    → IsOnce f
    → f.finished ≡ false
    → f.early_finalized ≡ false
    → c.sealed ≡ true
    → IsOnce (finalize_at_done outcome stored (record f { collector = some c }))
unfolding finalize_at_done put_mapping
at_done-IsOnce (failure e) stored c f h x y z = ground (arith, h.idle x, h.quiet x y)
at_done-IsOnce (found a) true c f h x y z =
    ground (arith, h.idle x, h.quiet x y, length-append f.puts (a ∷ []))
at_done-IsOnce (found a) false c f h x y z =
    ground (arith, h.idle x, h.quiet x y, length-append f.puts (a ∷ []))

drop_tail-sealed : (c : Collector) → c.sealed ≡ true → (drop_tail c).sealed ≡ true
unfolding drop_tail
drop_tail-sealed c h = h

written-IsOnce :
    (c : Collector) (f : Flow)
    → IsOnce f
    → (f.early_finalized ≡ true → c.sealed ≡ true)
    → IsOnce (record f { collector = some c })
written-IsOnce c f h k = record {
  counted = h.counted;
  succeeded = h.succeeded;
  bounded = h.bounded;
  ended = h.ended;
  idle = h.idle;
  quiet = h.quiet;
  sealed = k;
  settled = h.settled;
}

tee_some-IsOnce :
    (full : Bool) (outcome : Outcome) (stored : Bool) (p : Bytes) (c : Collector) (f : Flow)
    → IsOnce f
    → f.finished ≡ false
    → (f.early_finalized ≡ true → c.sealed ≡ true)
    → IsOnce (
        if (write full p c).2
        then finalize_at_done outcome stored
            (record f { collector = some (drop_tail (write full p c).0) })
        else record f { collector = some (write full p c).0 })
tee_some-IsOnce full outcome stored p c f h open_ k = elim (Bool-cases f.early_finalized) [
  | inl early ↦ simp (write-sealed full p c (k early)) (written-IsOnce c f h k)
  | inr early ↦
      if_case IsOnce (write full p c).2 _ _
        (λ fired.
          at_done-IsOnce outcome stored (drop_tail (write full p c).0) f h open_ early
            (drop_tail-sealed (write full p c).0 (write-fired full p c fired)))
        (λ _. written-IsOnce _ f h (λ e. cc))
]

tee-IsOnce :
    (full : Bool) (outcome : Outcome) (stored : Bool) (p : Bytes) (f : Flow)
    → IsOnce f
    → f.finished ≡ false
    → IsOnce (tee full outcome stored p f)
unfolding tee
tee-IsOnce full outcome stored p f h open_ = elim (Option-cases f.collector) [
  | inl e ↦ rw (e, tee) h
  | inr (c, e) ↦
      rw (e, tee)
        (tee_some-IsOnce full outcome stored p c f h open_ (λ x. subst IsSealed e (h.sealed x)))
]

eof-IsOnce : (f : Flow) → IsOnce f → IsOnce (record f { eof = true })
eof-IsOnce f h = record {
  counted = h.counted;
  succeeded = h.succeeded;
  bounded = h.bounded;
  ended = h.ended;
  idle = h.idle;
  quiet = h.quiet;
  sealed = h.sealed;
  settled = h.settled;
}

at_end-IsOnce :
    (at_eof : Bool) (f : Flow)
    → IsOnce f
    → IsOnce (if at_eof then finish (record f { eof = true }) else f)
at_end-IsOnce at_eof f h =
    if_case IsOnce at_eof _ _ (λ _. finish-IsOnce _ (eof-IsOnce f h)) (λ _. h)

pub stream_read-IsOnce :
    (full : Bool) (outcome : Outcome) (stored : Bool) (p : Bytes) (at_eof : Bool) (f : Flow)
    → IsOnce f
    → f.finished ≡ false
    → IsOnce (stream_read full outcome stored p at_eof f)
unfolding stream_read
stream_read-IsOnce full outcome stored p at_eof f h open_ =
    at_end-IsOnce at_eof _
      (if_case IsOnce (is_empty p) _ _ (λ _. h) (λ _. tee-IsOnce full outcome stored p f h open_))

fill-IsOnce : (p : Bytes) (b : Option Bytes) (f : Flow) → IsOnce f → IsOnce (fill p b f)
fill-IsOnce p none f h = h
fill-IsOnce p (some buf) f h =
    if_case IsOnce (leb (length buf + length p) json_buffer_limit) _ _
      (λ _. buffer-IsOnce (some (buf ++ p)) f.json_trunc) (λ _. buffer-IsOnce none true)
  where
    buffer-IsOnce :
        (o : Option Bytes) (t : Bool) → IsOnce (record f { json_buf = o; json_trunc = t })
    buffer-IsOnce o t = record {
      counted = h.counted;
      succeeded = h.succeeded;
      bounded = h.bounded;
      ended = h.ended;
      idle = h.idle;
      quiet = h.quiet;
      sealed = h.sealed;
      settled = h.settled;
    }

pub json_read-IsOnce :
    (p : Bytes) (at_eof : Bool) (f : Flow) → IsOnce f → IsOnce (json_read p at_eof f)
unfolding json_read
json_read-IsOnce p at_eof f h =
    at_end-IsOnce at_eof _
      (if_case IsOnce (is_empty p) _ _ (λ _. h) (λ _. fill-IsOnce p f.json_buf f h))
