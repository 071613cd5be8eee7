-- ===== src/Proxy/Whole/Origin.antt =====
-- internal/proxy/handler.go with internal/collector, internal/session and internal/store: where the
-- mappings in the store come from.
use opgate.Base.{ℕ, true, false, [], some, ◌≡◌, refl, ◌⊎◌, inr}
use opgate.Base.Bytes.{Bytes}
use opgate.Openai.{Json}
use opgate.Collector.Pool.{Config, update_ne}
use opgate.Session.Continuity.{Mappings}
use opgate.Proxy.Response.{finalize_json, json_read, new_flow}
use opgate.Proxy.Whole.{
  unasked, reading, closed, over, at_done, ending, plain, is_through, Whole, blank, Serving, start,
  serves, streams, reads, meets_done, ends_at_done, closes, calls, ends, answers, reads_plain,
  closes_plain, ends_plain, takes, stores, loses, pages_expire, expires,
}
use opgate.Proxy.Whole.Worth.{first-Worth, last-Worth}
use opgate.Proxy.Whole.Reached.{Serving-Reach, Serving-AllStand}
use opgate.Proxy.Whole.Plain.{new-IsPlain, json_read-IsPlain}
use opgate.Proxy.Whole.Sources.{IsOrigin, IsSourced}
use opgate.Proxy.Whole.Steps.{
  Lets-IsSourced, at_stage, touches, through-IsSourced, through_plain-IsSourced,
}
use opgate.Proxy.Whole.Moves.{
  task_left, next_over, next-streamed, new_asked, still_asked, at_done_live, ending_left,
  to_world-IsSourced, to_stage-IsSourced, to_plain-IsSourced, finished_plains, expire-mapped,
}

module _ (json : Json) (sha256 : Bytes → Bytes) (max : ℕ) (cfg : Config) (held : Mappings) where
  Serving-IsSourced :
      {s : Whole} {log : ℕ → Bytes}
      → Serving json sha256 max cfg held s log
      → IsSourced json sha256 max cfg held s log
  unfolding blank is_through
  Serving-IsSourced start = record {
    asked_taken = λ id p e. cc;
    mapped = λ key v e. inr e;
    plains = λ id f e. cc;
  }
  Serving-IsSourced (serves {s} {log} id fate errors fresh r m m' f p v e n k t) =
      let i = Serving-IsSourced v in
      Lets-IsSourced json sha256 max cfg held s _ log log refl
        (new_asked json sha256 max cfg held s log id p i (record {
          earlier = s;
          written = log;
          reached = v;
          fate = fate;
          errors = errors;
          fresh = fresh;
          request = r;
          before = m;
          behind = m';
          sent = f;
          served = k;
          taking = t;
        }))
        i.plains
        (record {
          same_asked = still_asked json sha256 max cfg held s id p n;
          same_stage = λ j x. refl;
          same_trouble = λ j x. refl;
          same_body = λ j x. refl;
          same_log = λ j x. refl;
        })
        i
  Serving-IsSourced (streams {s} {log} id p status content_type c v e q k) =
      to_stage-IsSourced json sha256 max cfg held s s.world log log id reading
        (at_stage json sha256 max cfg held s id unasked e refl) (λ f x. cc) (λ j ne. refl)
        (Serving-IsSourced v)
  Serving-IsSourced (reads {s} {log} id chunk v e open_ n) =
      let i = Serving-IsSourced v in
      Lets-IsSourced json sha256 max cfg held s _ log _ refl i.asked_taken i.plains
        (touches json sha256 max cfg held s _ log _ id
          (at_stage json sha256 max cfg held s id reading e refl) (λ j p x. x)
          (λ j ne. (refl, refl, refl, update_ne id j _ _ ne)))
        i
  Serving-IsSourced (meets_done {s} {log} id chunk v e open_ n) =
      to_stage-IsSourced json sha256 max cfg held s _ log _ id (at_done _)
        (at_stage json sha256 max cfg held s id reading e refl) (λ f x. cc)
        (λ j ne. update_ne id j _ _ ne) (Serving-IsSourced v)
  Serving-IsSourced (ends_at_done {s} {log} id p called got left deleted stored v e q idle) =
      through-IsSourced json sha256 max cfg held true s log id p called got left deleted stored _
        (at_stage json sha256 max cfg held s id (at_done called) e refl) (next-streamed _) q
        (λ a found_it. (
          next_over _ a found_it,
          first-Worth json sha256 max cfg s log id called got left deleted a
              (Serving-Reach json sha256 max cfg v)
              (at_done_live json sha256 max cfg held s id called e
                (Serving-AllStand json sha256 max cfg v))
              idle found_it,
        ))
        (Serving-IsSourced v)
  Serving-IsSourced (closes {s} {log} id v e) =
      to_stage-IsSourced json sha256 max cfg held s s.world log log id closed
        (at_stage json sha256 max cfg held s id reading e refl) (λ f x. cc) (λ j ne. refl)
        (Serving-IsSourced v)
  Serving-IsSourced (calls {s} {log} id v e) =
      to_stage-IsSourced json sha256 max cfg held s s.world log log id (ending _)
        (at_stage json sha256 max cfg held s id closed e refl) (λ f x. cc) (λ j ne. refl)
        (Serving-IsSourced v)
  Serving-IsSourced (ends {s} {log} id p called got left deleted stored v e q idle) =
      through-IsSourced json sha256 max cfg held false s log id p called got left deleted stored
        over (at_stage json sha256 max cfg held s id (ending called) e refl) (λ f x. cc) q
        (λ a found_it. (
          refl,
          last-Worth json sha256 max cfg s log id called got left deleted a
              (Serving-Reach json sha256 max cfg v)
              (ending_left json sha256 max cfg held s id called e
                (Serving-AllStand json sha256 max cfg v))
              idle found_it,
        ))
        (Serving-IsSourced v)
  Serving-IsSourced (answers {s} {log} id p status content_type v e q k) =
      to_plain-IsSourced json sha256 max cfg held s log id (record new_flow { json_buf = some [] })
        [] (at_stage json sha256 max cfg held s id unasked e refl) new-IsPlain (Serving-IsSourced v)
  Serving-IsSourced (reads_plain {s} {log} id chunk at_eof f v e n) =
      let i = Serving-IsSourced v in
      to_plain-IsSourced json sha256 max cfg held s log id (json_read chunk at_eof f) _
        (at_stage json sha256 max cfg held s id (plain f) e refl)
        (json_read-IsPlain chunk at_eof f (s.bodies id) (i.plains id f e)) i
  Serving-IsSourced (closes_plain {s} {log} id f v e) =
      let i = Serving-IsSourced v in
      Lets-IsSourced json sha256 max cfg held s _ log log refl i.asked_taken
        (finished_plains json sha256 max cfg held s id f log i e)
        (touches json sha256 max cfg held s _ log log id
          (at_stage json sha256 max cfg held s id (plain f) e refl) (λ j p x. x)
          (λ j ne. (update_ne id j _ _ ne, refl, refl, refl)))
        i
  Serving-IsSourced (ends_plain {s} {log} id p f rest stored v e q t) =
      let i = Serving-IsSourced v in
      through_plain-IsSourced json sha256 max cfg held s log id p f stored e q
        (task_left f finalize_json rest t (i.plains id f e).at_end) i
  Serving-IsSourced (takes {s} {log} j queue v e room) =
      to_world-IsSourced json sha256 max cfg held s _ s.expired log (Serving-IsSourced v)
  Serving-IsSourced (stores {s} {log} before j behind v e) =
      to_world-IsSourced json sha256 max cfg held s _ s.expired log (Serving-IsSourced v)
  Serving-IsSourced (loses {s} {log} kept before j behind v e) =
      to_world-IsSourced json sha256 max cfg held s _ s.expired log (Serving-IsSourced v)
  Serving-IsSourced (pages_expire {s} {log} id v) =
      to_world-IsSourced json sha256 max cfg held s s.world _ log (Serving-IsSourced v)
  Serving-IsSourced (expires {s} {log} key v) =
      let i = Serving-IsSourced v in
      record {
        asked_taken = i.asked_taken;
        mapped = expire-mapped json sha256 max cfg held s log key i;
        plains = i.plains;
      }

  -- In every state that the gateway can reach, from a store that holds any mappings, each mapping was
  -- held by the store from the start, or it was put under the key, and with the session, of a request
  -- that took part: `ServeHTTP` had forwarded it, with a lookup in the mappings of its time, and the
  -- mapping is for an answer to this request. Either this is the answer of its plain response, which
  -- was read to its end, and all that was read of it is a completion whose message gives the answer.
  -- Or its response was streamed and is through, and all that was written of it is a whole stream that
  -- gives the answer, unless its cache failed, or its pages expired, were not read or were not deleted.
  pub mapping-IsOrigin :
      {s : Whole} {log : ℕ → Bytes} (key v : Bytes)
      → Serving json sha256 max cfg held s log
      → s.mappings key ≡ some v
      → IsOrigin json sha256 max cfg held s log key v ⊎ (held key ≡ some v)
  mapping-IsOrigin key v r e = (Serving-IsSourced r).mapped key v e
