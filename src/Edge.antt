-- ===== src/Edge.antt =====
-- infra/edge-worker.js: the HTTP worker in front of the static assets and the artifact bucket.
pub mod Keys
pub mod Range
pub mod Release
pub mod Mounts
pub mod Headers
pub mod Isolate
pub mod Store
pub mod Serve
pub mod Answers
pub mod Refused
pub mod Guarded
pub mod Bounds
pub mod Partial
pub mod Route
pub mod Routed
mod Tests
