-- ===== src/Runtime/Loop.antt =====
-- packages/runtime/src/loop.ts: `runAgentLoop`.
pub mod Defs
pub mod Model
pub mod Calls
pub mod Run
pub mod Walk
pub mod Whole
pub mod Closing
pub mod Allowlist
pub mod Ending
pub mod Settled
pub mod Bounds
pub mod ToolCallsClosed
