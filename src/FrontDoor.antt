-- ===== src/FrontDoor.antt =====
-- public/workers/lsp-front-door.js: the reducer between the page's language client and the
-- FileWorker in the Lean worker.
pub mod Words
pub mod Collision
pub mod Machine
pub mod Wire
pub mod Replies
pub mod Admit
pub mod Step
pub mod Rules
pub mod Live
pub mod Valid
pub mod Keeps
pub mod Served
pub mod Handled
pub mod Started
pub mod Log
pub mod Depth
pub mod Versions
pub mod Ready
pub mod Coalesce
pub mod Tests
