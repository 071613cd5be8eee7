-- ===== src/Lib.antt =====
-- OPGate is a gateway in front of an OpenAI-compatible service. For each chat completion it finds the
-- session of the conversation by a hash of the history, forwards the request with that session, passes
-- the response through unchanged, and, when the response is complete, stores the session under the hash
-- of the history with the assistant's answer, where the next turn will look it up. A streamed response
-- is cached in pages by background workers and parsed only at its end, which is marked by a sentinel, the
-- last event of a stream.
--
-- The parts, and the files that model them:
--   internal/sse/sse.go               Sse: `Scan` is `scan`, over a callback on a state of its caller.
--                                     Sse/Events describes the events of a payload without a loop,
--                                     Sse/Framing renders well-formed streams.
--   internal/canon/canon.go           Canon, Canon/Text, Canon/Order: `emit`, `WriteString`,
--                                     `Canonicalize`, `CanonicalValue`. Canon/Reader is a reader of JSON
--                                     text that finds where a value ends, Canon/Unescape one of escaped
--                                     texts; Canon/Regular, Canon/Joined, Canon/Sorted and
--                                     Canon/Messages are about the text of `emit` and of `MessageArray`,
--                                     Canon/Sound and Canon/Injective about the values that have one
--                                     form. Canon/Abstract makes messages of them, a quotient.
--   internal/canon/hash.go            Canon/Hash: `MessageArray`, `FullState`, `HistoryHash`, `HashBytes`.
--   internal/openai/request.go        Openai/Request: `parse_chat_request`, `parse_completion_response`.
--   internal/openai/assistant.go      Openai/Accumulator (the accumulator and `canonical`),
--                                     Openai/Assistant (`AssistantFromSSE` is `assistant_from_sse`,
--                                     `AssistantFromMessage` is `assistant_from_message`); the children
--                                     of Openai/Assistant are about both; Calls and CallStream are
--                                     about tool calls that come in fragments.
--   internal/collector/collector.go   Collector: one request's `Collector` with `Write`, `watchDone`,
--                                     `submit` and `fail`. Collector/Assemble and Collector/Finalize:
--                                     `Finalize`. Collector/Pool: the queue, the workers and the
--                                     collectors of all requests as a world that takes steps (`Reach`).
--                                     Integrity, Delivery, Bounds, Done, Drain and Lost
--                                     are about these; Shutdown has `Drain` and `Stop`,
--                                     which Shutdown/Stop is about.
--   internal/store                    Store: a temporary entry as a map of pages, and `PutPage`.
--                                     Store/Keys: the keys, Store/Fields: `PageField` and its reading.
--                                     Store/Redis: the pages on a server of hashes.
--                                     Store/Faults: the operations on pages when the server does not
--                                     answer, with `observe`. Session/Continuity:
--                                     `GetSession` and `PutSession` over what the server holds.
--   internal/session/resolver.go      Session: `Resolve` is `resolve`. Session/Continuity: a turn and
--                                     the next one. Session/Faults: `Resolve`, `GetSession` and
--                                     `PutSession` when the server does not answer.
--   internal/proxy/handler.go         Proxy: `ServeHTTP` up to the reverse proxy is `serve_http`, with
--                                     `prepare`, `readBody`, `clientIdentity`. Proxy/Response:
--                                     `modifyResponse`, `streamBody`, `jsonBody`, `finish` and the
--                                     goroutines that it starts, on the state of a request. Proxy/Runs:
--                                     the orders in which they come (`Run`). Reads, Once, Buffered, Turn,
--                                     Isolation, History, Conversation and Streamed are about these.
--                                     Proxy/Answers: the answers that the gateway gives by itself.
--                                     Proxy/System: the requests, the mappings and their expiry as a
--                                     system that takes steps (`Running`), which Proxy/System/Safe and
--                                     Proxy/System/Apart are about, with the credentials that requests
--                                     present. Proxy/Whole: these with the streamed and the plain
--                                     responses, their `Finalize` and `finalizeJSON`, the pool, and the
--                                     expiry of pages (`Serving`); its children are about it.
--   internal/metrics/metrics.go       Metrics: `New`, which Metrics/Registered is about. The counters are
--                                     fields of `Resolutions`, `Counters` and `World`, and
--                                     `StoreErrors`.
--   internal/config/config.go         Config: `Default`, `Validate` and the sizes that cmd/ocgate/main.go
--                                     hands to the pool. Config/Formats: the formats `Duration` and
--                                     `ByteSize`, and `Load`. Config/Checked and Config/Exact are
--                                     about these.
--   cmd/ocgate/main.go                Gateway: the start of `main` and its routes; Gateway/Startup is
--                                     about these. Its pool is in Config; Gateway/Wiring: what it gives
--                                     to the parts that it makes. Gateway/Exit: the life of the
--                                     gateway up to the end of `main`, with `WaitFinalize`, as a system
--                                     that takes steps (`Living`), which Gateway/Exit/Order is about.
--   scripts/smoke/main.go             Smoke: the upstream, the configuration, the rounds and the checks of
--                                     the smoke test. Smoke/Start, Smoke/Texts and Smoke/Affinity run
--                                     it through the models of the other parts.
-- Base has what all parts share, Tests the tests and the theorems at concrete inputs.
--
-- State and order. A handler is a function from the state to the state. Where goroutines interleave, the
-- steps are the sections that a lock or a channel makes atomic: a `Write` up to `onDone`, a worker that
-- receives a page, a worker that has the store's answer, the end of a `Finalize`, a read or a close of a
-- response body, a goroutine of `finish`. `Reach`, `Run`, `Shutdown`, `Running`, `Serving` and `Living`
-- allow every order of them, except that the reverse proxy does not read behind the end or the close of a
-- body, and that nothing is written during a `Shutdown`. In `Living`, steps stay possible in a process that
-- has ended, which claims nothing. `Running` and `Serving` start from a store that holds any mappings. In
-- `Serving` an entry of pages may expire at any time: from then on `GetPages` may return any pages. Whether
-- a `Finalize` met an error, a failed cache or an expiry is recorded (`troubled`), and so are the bytes that
-- a response has written, for the statements only.
--
-- Parameters. encoding/json is the record `Json` of decoders; a value is a tree in which a number keeps
-- its text. The Redis server is the record `HashServer`, as far as hashes go; a command to it may be
-- answered, lose its answer, or never arrive. The registry of metrics is the record `Registry`, floats are
-- the record `Floats`, each with the behaviour that is relied on. `url.Parse`, `time.ParseDuration`,
-- SHA-256, the fresh UUID, the reading of the configuration file and the YAML library are arguments. In a
-- step of the response side, what `Finalize` returns and whether the store takes a mapping are arguments,
-- and so is whether the page queue is full; Conversation and Streamed put the parts together.
--
-- Numbers and bounds. Bytes are natural numbers; a string that the code iterates over is a list of code
-- points. Counters and lengths are natural numbers without a bound: they count bytes and pages of one
-- response. Where the width of an integer shows, it is written out: `max+1` of `readBody`, the
-- numbers that `GetPages` reads back, and the nanoseconds of a `Duration`.
-- The loops of `Scan` and of `watchDone` take the length of their input as fuel: each round takes at
-- least one byte off it.
--
-- Not modelled: the transport (httputil.ReverseProxy and `NewHandler`, which sets it up, flushing,
-- hijacked connections, what the client receives), the Redis client and its time-outs, logging and the
-- observations of histograms, clocks and deadlines, the decoding of the YAML file, and the listener of
-- the command. Of the waits of the shutdown only that they end by their condition or by their deadline
-- is modelled.
pub mod Base
pub mod Sse
pub mod Store
pub mod Collector
pub mod Canon
pub mod Metrics
pub mod Openai
pub mod Session
pub mod Proxy
pub mod Config
pub mod Gateway
pub mod Smoke
pub mod Tests
