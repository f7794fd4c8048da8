-- ===== src/Mediator.antt =====
-- apps/playground/backend/src/mediator: the guard between a browser and the runtime.
pub mod RateLimit
pub mod Defs
pub mod Inbound
pub mod Observe
pub mod Upstream
