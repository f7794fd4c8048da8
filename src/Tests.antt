-- ===== src/Tests.antt =====
-- Concrete runs, ledgers, guests and sockets, and the theorems applied to them.
mod Run
mod Spending
mod Guest
mod Sockets
mod Chat
mod Session
mod Service
mod Context
mod Runner
mod Schema
mod Executors
mod Models
