-- ===== src/Lib.antt =====
-- QED64: the workers that run a Lean server in the browser.
--
-- The page talks LSP to a Lean FileWorker that is compiled to WASM. Between them stand two scripts
-- of public/workers, both without access to the browser.
--   * public/workers/lsp-frames.js cuts the FileWorker's output into messages (Frames). `Decoder` is
--     the class with its growing buffer, byte by byte (`push`) and in bulk (`pushBytes`); `Stream` is
--     the same machine over the list of the pending bytes, its specification. `residentFrame` of
--     public/workers/lean.worker.js writes the frames (Encoder).
--     `TextDecoder` and `String.trim` are a parameter, of which nothing is assumed.
--   * public/workers/lsp-front-door.js decides about each message (FrontDoor). `Machine` is the state
--     that `initialState` returns, `Turn` the effects of one step so far, `handle` the switch of
--     `step`; `admit` takes a client frame (Replies has the fixed answers), and `emit` writes one to the ring or parks it. A message
--     is a `Json` with its fields in order. Rules lists what a call of `admit` may do, Live and Valid
--     what holds of the machine, Log what the ring gets over the life of the machine.
--
-- The liveness monitor of public/workers/lean.worker.js watches the FileWorker (Liveness): Types has
-- `createLiveness`, Monitor `livenessClientRequest`, `livenessServerFrame`, `livenessTick`,
-- `mailboxTick` and `mailboxConfirm`, Silence the events that can happen to it, and Heard when a frame
-- came last. Differences of times stop at 0: the clock of the source does not go back.
--
-- infra/edge-worker.js answers the HTTP requests of the site (Edge). Keys has the paths (`artifactKey`,
-- `isImmutable`, `validR2Prefix`), Range the Range header, Release the record that maps paths to
-- releases (`releaseRoutes`, `releaseRel`), Headers `finish`, Isolate `withIsolationHeaders`, Store the
-- bucket and the parts of an answer, Serve `serveArtifact`, and Route `handle` with the assets and the extra routes. The bucket is a
-- parameter, a function from keys to objects, as are the assets and the routes' handlers; what they
-- are relied on for is a hypothesis.
--
-- `residentRingWrite` and `residentPump` of public/workers/lean.worker.js put the frames into the
-- ring from which the FileWorker reads (Stdin). Ring has the two indices, the bytes and the queue; a
-- round of the pump is `round`, and the FileWorker may take bytes before each. A frame that has a
-- callback or none is acked alike.
--
-- lib/edit-coalescer.ts throttles what the page sends (Coalescer): Frames tells the frames apart,
-- Machine has the inner functions of `createEditCoalescer`, Send its methods, and Newest defines the
-- newest text of a session. The clock is an argument,
-- a timer the time at which it fires, and the calls of `forward`, `reject` and `onEvent` are a list;
-- of an event its kind and the time held are kept.
--
-- lib/lsp-relay.ts stands between the editor and the sessions (Relay). Types has the state of
-- `LspRelay`, Machine `onDied`, `halt`, `reboot`, `restart` and `rearm`, Run `fromClient`, the handlers of a
-- session, and `boot` in the parts between its waits; Told reads off the client's frames what it said
-- last. A session is a number, and what is done to the
-- sessions and the client is a list of effects.
--
-- pipeline/release/release-manifest.mjs builds the manifest of a release from the records and indexes
-- of the repository (Manifest). Checked has `refuse`, Shapes the tests of single values, Record
-- `toolchainRecordOf`, Tree and Paired `baseTreeOf`, and Runtime, Indexes and Build
-- `buildReleaseManifest` up to the base tree. The source that is read, `JSON.parse`, `JSON.stringify`
-- and SHA-256 are parameters, of which nothing is assumed.
--
-- Bounds and fuel. `pushBytes` loops on the number of the bytes, of which each round takes one or
-- more. The doubling of the buffer loops on the wanted size. `admit` and `drain` call each other;
-- `admit 1` stands for the code's (see
-- FrontDoor.Depth). The pump has a round for each byte that waits and one for each frame, and ends
-- before they are used up (see Stdin.Settled). Versions are
-- integers and lengths natural numbers: JavaScript numbers that are no integers, and those beyond
-- 2^53, are not modelled. A regular expression is a scanner by clauses.
--
-- Not modelled: the rest of public/workers/lean.worker.js (WASM, Atomics, IndexedDB, the boot), the
-- option checks and the exceptions of infra/edge-worker.js, the shell section, the digest and the
-- command line of pipeline/release/release-manifest.mjs, the rest of the page (lib, frontend), and the
-- other build and release scripts (pipeline, scripts, toolchain): they are glue around the browser,
-- Node, Git and the file system, or do not keep state of their own.
mod Common
pub mod Frames
pub mod FrontDoor
pub mod Edge
pub mod Liveness
pub mod Coalescer
pub mod Stdin
pub mod Manifest
pub mod Relay
