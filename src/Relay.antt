-- ===== src/Relay.antt =====
-- lib/lsp-relay.ts: the relay between the editor and the sessions of the checker.
pub mod Types
pub mod Machine
pub mod Run
pub mod Memory
pub mod Told
pub mod Remembers
pub mod Recalled
pub mod Replay
pub mod Answered
pub mod Halted
pub mod Breaker
pub mod Stays
mod Tests
