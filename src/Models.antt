-- ===== src/Models.antt =====
-- packages/models/src: model strings and the registry of providers.
pub mod Parser
pub mod Registry
