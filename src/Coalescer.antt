-- ===== src/Coalescer.antt =====
-- lib/edit-coalescer.ts: what is sent to a resident session, throttled.
pub mod Frames
pub mod Machine
pub mod Send
pub mod Order
pub mod Fifo
pub mod Held
pub mod Sound
pub mod Session
pub mod Stream
pub mod Newest
pub mod Released
pub mod Latest
pub mod Wins
mod Tests
