-- ===== src/Gateway.antt =====
-- packages/gateway: the WebSocket side of a session.
pub mod Connections
pub mod Channels
pub mod Bridge
pub mod Heartbeat
