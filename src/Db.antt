-- ===== src/Db.antt =====
-- packages/db: tables as lists of rows, and the repositories that the runtime writes through.
pub mod Runs
pub mod ToolCalls
pub mod Table
pub mod Spend
pub mod Drift
pub mod FirstWins
