-- ===== src/Stdin.antt =====
-- The stdin ring of public/workers/lean.worker.js.
pub mod Ring
pub mod Contents
pub mod Used
pub mod Whole
pub mod Lines
pub mod Session
pub mod Settled
mod Tests
