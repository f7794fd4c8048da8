-- ===== src/Runtime.antt =====
-- packages/runtime: deadlines, tool validation, the context builder, the agent loop.
pub mod Deadlines
pub mod Tools
pub mod Exec
pub mod Loop
pub mod SessionLock
pub mod Memory
pub mod Ssrf
pub mod Engine
pub mod Executors
pub mod Context
pub mod Service
