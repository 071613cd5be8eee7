-- ===== src/Proxy/Whole/Plain.antt =====
-- internal/proxy/handler.go: a plain response of a participant along the steps of the system.
use opgate.Base.{
  Bool, true, false, List, [], ◌∷◌, ◌++◌, Option, none, some, some_injective, ◌≡◌, ◌≢◌, refl, sym,
  ap, ◌∙◌, ◌⊎◌, inl, inr, length, leb, append-nil, subst, if_case, if◌then◌else◌, ◌+◌, arith,
}
use opgate.Base.Bytes.{Bytes}
use opgate.Session.{is_empty}
use opgate.Openai.{Json}
use opgate.Openai.Request.{parse_completion_response}
use opgate.Openai.Accumulator.{Reply, ok, err}
use opgate.Openai.Assistant.{assistant_from_message}
use opgate.Proxy.Response.{
  Flow, new_flow, put_mapping, on_reply, on_message, on_buffer, run_json, finish_once, finish, fill,
  json_read, json_buffer_limit,
}

-- What holds of a plain response of which `b` has been read.
pub record IsPlain (f : Flow) (b : Bytes) : Type 0 where
  pub no_collector : f.collector ≡ none
  pub buffered : (f.json_buf ≡ none) ⊎ (f.json_buf ≡ some b)
  pub at_end : (f.tasks ≡ []) ⊎ (f.eof ≡ true)
  pub no_puts : f.puts ≡ []

pub new-IsPlain : IsPlain (record new_flow { json_buf = some [] }) []
new-IsPlain = record { no_collector = refl; buffered = inr refl; at_end = inl refl; no_puts = refl }

finish_once-IsPlain : (f : Flow) (b : Bytes) → IsPlain f b → IsPlain (finish_once f) b
unfolding finish_once
finish_once-IsPlain f b h = record {
  no_collector = ground (arith, h.no_collector);
  buffered = ground (arith, h.no_collector, h.buffered);
  at_end = ground (arith, h.no_collector, h.at_end);
  no_puts = ground (arith, h.no_collector, h.no_puts);
}

pub finish-IsPlain : (f : Flow) (b : Bytes) → IsPlain f b → IsPlain (finish f) b
unfolding finish
finish-IsPlain f b h =
    if_case (λ g. IsPlain g b) f.finished _ _ (λ _. h)
      (λ _.
        finish_once-IsPlain (record f { finished = true }) b
          (record {
            no_collector = h.no_collector;
            buffered = h.buffered;
            at_end = h.at_end;
            no_puts = h.no_puts;
          }))

fill-IsPlain :
    (p b : Bytes) (o : Option Bytes) (f : Flow)
    → f.json_buf ≡ o
    → IsPlain f b
    → IsPlain (fill p o f) (b ++ p)
fill-IsPlain p b none f e h = record {
  no_collector = h.no_collector;
  buffered = inl e;
  at_end = h.at_end;
  no_puts = h.no_puts;
}
fill-IsPlain p b (some buf) f e h =
    if_case (λ g. IsPlain g (b ++ p)) (leb (length buf + length p) json_buffer_limit) _ _
      (λ _. record {
        no_collector = h.no_collector;
        buffered = elim h.buffered [
          | inl gone ↦ absurd (none_there (sym gone ∙ e))
          | inr same ↦ inr (ap (λ x. some (x ++ p)) (some_injective (sym e ∙ same)))
        ];
        at_end = h.at_end;
        no_puts = h.no_puts;
      })
      (λ _. record {
        no_collector = h.no_collector;
        buffered = inl refl;
        at_end = h.at_end;
        no_puts = h.no_puts;
      })
  where
    none_there : none ≢ some buf
    none_there x = cc

buffer-IsPlain :
    (p b : Bytes) (f : Flow)
    → IsPlain f b
    → IsPlain (if is_empty p then f else fill p f.json_buf f) (b ++ p)
buffer-IsPlain [] b f h = subst (IsPlain f) (sym (append-nil b)) h
buffer-IsPlain (c ∷ cs) b f h = fill-IsPlain (c ∷ cs) b f.json_buf f refl h

pub json_read-IsPlain :
    (p : Bytes) (at_eof : Bool) (f : Flow) (b : Bytes)
    → IsPlain f b
    → IsPlain (json_read p at_eof f) (b ++ p)
unfolding json_read
json_read-IsPlain p false f b h = buffer-IsPlain p b f h
json_read-IsPlain p true f b h =
    let k = buffer-IsPlain p b f h in
    finish-IsPlain (record (if is_empty p then f else fill p f.json_buf f) { eof = true }) (b ++ p)
      (record {
        no_collector = k.no_collector;
        buffered = k.buffered;
        at_end = inr refl;
        no_puts = k.no_puts;
      })

-- The completion that was read has a message, which gives the answer.
pub record Tells (json : Json) (b a : Bytes) : Type 0 where
  pub message : Bytes
  pub parsed : parse_completion_response json b ≡ some message
  pub told : assistant_from_message json message ≡ ok a

abbrev Puts : Json → Bytes → List Bytes → Type 0
Puts json b answers = (answers ≡ []) ⊎ ((a : Bytes) × (answers ≡ a ∷ []) × Tells json b a)

on_reply-Puts :
    (json : Json) (b message : Bytes) (r : Reply) (f : Flow)
    → f.puts ≡ []
    → parse_completion_response json b ≡ some message
    → assistant_from_message json message ≡ r
    → Puts json b (on_reply r true f).puts
unfolding put_mapping
on_reply-Puts json b message (err x) f h e k = inl h
on_reply-Puts json b message (ok a) f h e k =
    inr (a, ap (λ l. l ++ a ∷ []) h, record { message = message; parsed = e; told = k })

on_message-Puts :
    (json : Json) (b : Bytes) (o : Option Bytes) (f : Flow)
    → f.puts ≡ []
    → parse_completion_response json b ≡ o
    → Puts json b (on_message json o true f).puts
on_message-Puts json b none f h e = inl h
on_message-Puts json b (some message) f h e =
    on_reply-Puts json b message (assistant_from_message json message) f h e refl

on_buffer-Puts :
    (json : Json) (b : Bytes) (o : Option Bytes) (f : Flow)
    → f.puts ≡ []
    → (o ≡ none) ⊎ (o ≡ some b)
    → Puts json b (on_buffer json o true f).puts
on_buffer-Puts json b none f h k = inl h
on_buffer-Puts json b (some buf) f h (inl k) = absurd (cc)
on_buffer-Puts json b (some buf) f h (inr k) =
    if_case {A = Flow} (λ g. Puts json b g.puts) f.json_trunc _ _ (λ _. inl h)
      (λ _.
        on_message-Puts json b (parse_completion_response json buf) f h
          (ap (parse_completion_response json) (sym (some_injective k))))

-- What `finalizeJSON` puts: nothing, or the answer of the whole that was read.
pub run_json-Puts :
    (json : Json) (f : Flow) (b : Bytes) → IsPlain f b → Puts json b (run_json json true f).puts
unfolding run_json
run_json-Puts json f b h = on_buffer-Puts json b f.json_buf f h.no_puts h.buffered
