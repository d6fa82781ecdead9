-- ===== src/Liveness.antt =====
-- The liveness monitor of public/workers/lean.worker.js.
pub mod Types
pub mod Monitor
pub mod Silence
pub mod Heard
pub mod Patience
pub mod Mailbox
mod Tests
