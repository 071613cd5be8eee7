-- ===== src/Collector.antt =====
-- internal/collector/collector.go: the state of one request's collector and its methods. `Finalize`
-- is in Collector/Finalize, the pool that writes the pages in Collector/Pool.
pub mod Done
pub mod Assemble
pub mod Pool
pub mod Integrity
pub mod Delivery
pub mod Finalize
pub mod Bounds
pub mod Lost
pub mod Drain
pub mod Shutdown
use opgate.Base.{
  ℕ, zero, suc, ◌+◌, ◌-◌, ◌^◌, Bool, true, false, not, ◌||◌, List, [], ◌∷◌, ◌++◌, ◌≡◌, refl, ap,
  ◌∙◌, arith, Option, none, some, length, ltb, leb, ◌==◌, if◌then◌else◌,
}
use opgate.Base.Bytes.{Bytes, codes, equal, trim_suffix, trim_space}
use opgate.Store.{Page}

-- `finalized` is no field of the source: it says that a `Finalize` has been through, behind which the
-- entry in the store may be deleted.
pub record Collector : Type 0 where
  pub page_size : ℕ
  pub tail : Bytes
  pub seq : ℕ
  pub inflight : ℕ
  pub failed : Bool
  pub on_done : Bool
  pub scan_buf : Bytes
  pub saw_done : Bool
  pub sealed : Bool
  pub finalized : Bool

-- `NewCollector`; the flag says whether there is an `onDone`.
unfoldable pub new_collector : ℕ → Bool → Collector
new_collector page_size on_done = record {
  page_size = page_size;
  tail = [];
  seq = 0;
  inflight = 0;
  failed = false;
  on_done = on_done;
  scan_buf = [];
  saw_done = false;
  sealed = false;
  finalized = false;
}

unfoldable pub fail : Collector → Collector
fail c = record c { failed = true }

-- `submit`, given whether the bounded queue is full: the page that it hands over, if it does.
unfoldable pub submit : Bool → Bytes → Collector → Collector × Option Page
unfolding fail
submit true page c = (fail (record c { seq = c.seq + 1; inflight = c.inflight + 1 - 1 }), none)
submit false page c =
    (record c { seq = c.seq + 1; inflight = c.inflight + 1 }, some (c.seq + 1, page))

abbrev pub newline : ℕ
newline = b'\n'

abbrev pub scan_cap : ℕ
scan_cap = 2 ^ 20

abbrev pub done_line : Bytes
done_line = codes "data: [DONE]"

-- `bytes.IndexByte(buf, '\n')`: the bytes before the first newline and those behind it, or none.
unfoldable pub split_line : Bytes → Option (Bytes × Bytes)
split_line [] = none
split_line (c ∷ cs) =
    if c == newline
    then some ([], cs)
    else elim (split_line cs) [ none ↦ none | some (line, rest) ↦ some (c ∷ line, rest) ]

-- Whether a complete line is the sentinel.
unfoldable pub is_done : Bytes → Bool
is_done line = equal (trim_space (trim_suffix line (codes "\r"))) done_line

-- The loop of `watchDone`: whether the sentinel was met, and what is left of the scan buffer. Each
-- round takes a line off the buffer, so its length is fuel enough.
unfoldable pub watch_lines : ℕ → Bytes → Bool × Bytes
unfolding split_line
watch_lines zero buf = (false, buf)
watch_lines (suc fuel) buf = elim (split_line buf) [
  | none ↦ (false, buf)
  | some (line, rest) ↦
      let next = watch_lines fuel rest in if is_done line then (true, rest) else next
]

-- `watchDone`, up to the call of `onDone`: the flag says that the call is made.
unfoldable pub watch_done : Bytes → Collector → Collector × Bool
watch_done p c =
    if not c.on_done || c.saw_done
    then (c, false)
    else let (met, rest) = watch_lines (length (c.scan_buf ++ p)) (c.scan_buf ++ p) in
      if met
      then (record c { scan_buf = rest; saw_done = true; sealed = true }, true)
      else (record c { scan_buf = if ltb scan_cap (length rest) then [] else rest }, false)

-- The page cut of `Write`: a tail that has reached the page size is handed over.
unfoldable pub cut_page : Bool → Collector → Collector × Option Page
cut_page full c =
    if leb c.page_size (length c.tail)
    then (let (c', job) = submit full c.tail c in (record c' { tail = [] }, job))
    else (c, none)

-- The body of `Write` behind its guard. Data first, so that a finalize at the sentinel sees this chunk.
unfoldable pub append : Bool → Bytes → Collector → Collector × Option Page × Bool
append full p c =
    let (c', job) = cut_page full (record c { tail = c.tail ++ p }) in
    let (c'', fired) = watch_done p c' in (c'', job, fired)

-- `Write`, up to the call of `onDone`: the new state, the page that is handed to the queue and
-- whether `onDone` is called.
unfoldable pub write : Bool → Bytes → Collector → Collector × Option Page × Bool
write full p c = if c.sealed || c.failed then (c, none, false) else append full p c

pub write-failed :
    (full : Bool) (p : Bytes) (c : Collector) → c.failed ≡ true → write full p c ≡ (c, none, false)
unfolding write
write-failed full p c h = ground arith

pub write-append :
    (full : Bool) (p : Bytes) (c : Collector)
    → c.sealed ≡ false
    → c.failed ≡ false
    → write full p c ≡ append full p c
unfolding write
write-append full p c h k = ground arith

pub write-sealed :
    (full : Bool) (p : Bytes) (c : Collector) → c.sealed ≡ true → write full p c ≡ (c, none, false)
unfolding write
write-sealed full p c h = ground arith

watch_done-fired :
    (p : Bytes) (c : Collector) → (watch_done p c).1 ≡ true → (watch_done p c).0.sealed ≡ true
unfolding watch_done
watch_done-fired p c h = ground arith

-- A `Write` that calls `onDone` seals the collector.
pub write-fired :
    (full : Bool) (p : Bytes) (c : Collector)
    → (write full p c).2 ≡ true
    → (write full p c).0.sealed ≡ true
unfolding write append
write-fired full p c h =
    ground (arith, watch_done-fired p (cut_page full (record c { tail = c.tail ++ p })).0)

-- The end of `Write` when `onDone`, hence a `Finalize`, has returned: the tail is dropped.
unfoldable pub drop_tail : Collector → Collector
drop_tail c = record c { tail = []; finalized = true }

-- What a worker does to the owner of a page: `inflight.Done()`, behind `fail()` on a write error.
unfoldable pub page_done : Bool → Collector → Collector
unfolding fail
page_done true c = record c { inflight = c.inflight - 1 }
page_done false c = record (fail c) { inflight = c.inflight - 1 }
