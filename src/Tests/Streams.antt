-- ===== src/Tests/Streams.antt =====
-- Tests of the scanner and of the search for the sentinel.
use opgate.Base.{Bool, true, false, List, [], ◌∷◌, ◌++◌, ◌≡◌, refl, arith, concat}
use opgate.Base.Bytes.{Bytes, codes, equal, trim_space, trim_suffix}
use opgate.Sse.{scan}
use opgate.Sse.Events.{events, deliver, scan-deliver}
use opgate.Sse.Framing.{Frame, event, keep_alive, stream, texts, scan-stream}
use opgate.Collector.{new_collector, split_line, is_done, watch_lines, watch_done}
use opgate.Collector.Done.{feed, any_done, terminated, feed-saw_done}

-- A callback that collects the events and stops behind "b".
abbrev collect : Bytes → List Bytes → List Bytes × Bool
collect e es = (es ++ e ∷ [], elim (equal e (codes "b")) [ true ↦ false | false ↦ true ])

abbrev payload : Bytes
payload = codes ": hi\ndata: a\r\ndata:b2\n\nevent: x\ndata: b\n\ndata: c"

scan-payload : scan collect payload [] ≡ codes "a\nb2" ∷ codes "b" ∷ []
unfolding scan equal
scan-payload = refl

scan-deliver_example : scan collect payload [] ≡ deliver collect (events payload) []
scan-deliver_example = scan-deliver collect payload []

abbrev frames : List Frame
frames = event (codes "a") ∷ keep_alive (codes "x") ∷ event (codes "b") ∷ event (codes "c") ∷ []

scan-stream_example : scan collect (stream true frames) [] ≡ deliver collect (texts frames) []
scan-stream_example = scan-stream collect true frames [] (omega arith)

abbrev chunks : List Bytes
chunks = codes "data: {}\n\ndata: [DO" ∷ codes "NE]\r" ∷ codes "\n\n" ∷ []

feed-chunks : (feed chunks (new_collector 4 true)).saw_done ≡ true
unfolding feed new_collector watch_done watch_lines split_line is_done trim_suffix trim_space equal
feed-chunks = refl

feed-saw_done_example :
    (feed chunks (new_collector 4 true)).saw_done ≡ any_done (terminated (concat chunks)).0
unfolding terminated
feed-saw_done_example = feed-saw_done 4 chunks (omega arith)
