-- ===== src/Lib.antt =====
-- A verification library for hudsucker, an intercepting HTTP/S proxy.
--
-- The program. For each connection the proxy serves HTTP, and every request goes through
-- `InternalProxy::proxy`: the user's handler sees it first, then it is a CONNECT request, whose
-- connection becomes a tunnel that is intercepted or copied, or a WebSocket upgrade, or a request
-- that is normalised and sent to the server. Requests in an intercepted tunnel are made absolute and
-- come back to `proxy`. Users may decode the bodies of messages by their Content-Encoding.
--
-- The parts, and the files of the repository that they model:
--   Http, Bstr: the crates `http` and `bstr`, as interfaces with the laws that the code relies on
--   Error: src/error.rs
--   Body: src/body.rs; a body is polled with an explicit state, Body/Frames polls it repeatedly,
--     Body/Sizes is about what it says of its size and its end
--   Platform: the crates below the proxy together, as one interface
--   Handler: src/lib.rs and src/noop.rs; a handler is a type of states and its methods, which
--     return the new state; Handler/Messages is about the default `handle_websocket`
--   Rewind: src/rewind.rs; Rewind/Replay reads through it, Rewind/Writing writes through it
--   Decoder: src/decoder.rs; Decoder/Stream is `IoStream`, Decoder/Readers the interface to
--     `async-compression`, `tokio` and `tokio-util`, Decoder/Encodings, /Roundtrip, /Message and
--     /Decoded are about the operations
--   Internal: src/proxy/internal.rs; Internal/Runtime is the interface to what does input and
--     output and the proxy's state, Internal/Effect what a request does beside its answer,
--     Internal/Routing `proxy` and the answer of `process_connect`, Internal/Connect the task that
--     `process_connect` spawns, Internal/Serve and Internal/Service the service of `serve_stream`,
--     Internal/Upgrade `upgrade_websocket` and `handle_websocket`, Internal/Normalize
--     `normalize_request`; each has its laws below it. Connect/Protocols is all that the task
--     does by the protocol of a connection, Connect/Lossless reads what a tunnel hands on,
--     Connect/Requests and Connect/Upgrades follow the requests in a tunnel to their server,
--     Connect/Certified gives the proxy an authority, Upgrade/Ends is all that the task of a
--     WebSocket does, Upgrade/Session runs both its forwarders, and Internal/Transparent, with the
--     modules of that name, compares a handler that changes nothing with the one that does nothing
--   Authority: src/certificate_authority/mod.rs and what both authorities share, their common text
--     of `gen_server_config` included; Authority/Certificate is about a certificate, /Validity about
--     one call, /Series about calls one after another, /Concurrent about calls that overlap
--   Authority/Rcgen: src/certificate_authority/rcgen_authority.rs
--   Authority/Openssl: src/certificate_authority/openssl_authority.rs; Openssl/Library is the
--   interface
--     to the crate `openssl`, /Times is about the 64-bit times, /Built and /Certifying about
--     what it puts into a certificate, /Ready about when
--     it succeeds, /Issuing about what it issues
--   Builder: src/proxy/builder.rs and the type of src/proxy/mod.rs; Builder/Chains is the series of
--     calls that the types of the builder's states allow
--   Start: `Proxy::start` of src/proxy/mod.rs and the task of a connection; Start/Shutdown is the
--     run of the loop beside the tasks as a step relation, with the shutdown and the wait for the
--     tasks
--   Examples: the handler of examples/log.rs and examples/openssl.rs; Examples/Mains is the proxies
--     that these and examples/noop.rs build, Examples/Programs the programs, Examples/Interception
--     follows an HTTPS request through the proxy of examples/noop.rs
--   Prelude: shared names, lists over the native numbers, byte strings, results; Prelude/Int has
--     integers and 64-bit patterns
--   Tests: implementations of the interfaces, tests, and the theorems at concrete inputs
--
-- How code becomes definitions. `&mut self` is a state that is passed on and returned. A panic is
-- the outcome `panic`. What an asynchronous operation finds in the world is a parameter: a run is
-- one choice of them, and the theorems hold for all. A task that is spawned is an effect of the
-- request, and what it does is a list of events in order, the lines that it logs as errors or
-- warnings among them. Bytes are lists of numbers.
--
-- Bounds and fuel. The one loop that need not end is that of `IoStream::poll_next`, over frames
-- that hold no data; `poll_next` bounds how many of them one call passes over. When the bound is
-- reached it answers `pending`. For a body that ends, a bound above the number of the frames and
-- errors that it yields is never reached; and what a reader reads from the stream, polled until it
-- ends, is the same for every bound but zero.
--
-- Times are seconds since some first moment: for the crate `time` the first that it can hold, so
-- that
-- no subtraction stops at zero where the code would go on; out of range the code panics, and so does
-- the model. The Unix times of the OpenSSL authority are 64-bit patterns, which wrap round in a
-- build
-- without overflow checks and panic in one with them: a flag of the interface says which it is.
--
-- Interleavings. Where tasks share a state, the model is a step relation: one step is what a
-- task does
-- between two points at which it waits, or a part of it. For certificates the shared state is
-- the cache: a call
-- waits at both operations on it, and the time between making a certificate and inserting it is
-- bounded by a
-- parameter, for which the theorems hold. For the shutdown it is what `tokio-graceful` counts; the
-- tasks of tunnels and WebSockets run beside that. The requests of a connection share no state,
-- so they are
-- given in the order in which their futures end, whichever of them arrived first.
--
-- Not modelled: what a request has done by the time at which `hyper` drops its future before it is
-- answered; tracing spans and the subscriber of the example programs; the texts of log lines; tests
-- and benchmarks.
pub mod Prelude
pub mod Http
pub mod Bstr
pub mod Error
pub mod Body
pub mod Platform
pub mod Handler
pub mod Rewind
pub mod Authority
pub mod Decoder
pub mod Internal
pub mod Builder
pub mod Start
pub mod Examples
mod Tests
