-- ===== src/Frames.antt =====
-- public/workers/lsp-frames.js: the decoder of `Content-Length` framed messages. `Decoder` is the
-- class with its growing buffer, `Stream` the same machine over the list of the pending bytes.
pub mod Buffer
pub mod Scan
pub mod Decoder
pub mod Stream
pub mod Settled
mod Views
mod Fits
pub mod Refines
pub mod Chunks
pub mod Encoder
mod Header
pub mod RoundTrip
mod Reports
mod Rolling
pub mod Resync
mod Tests
