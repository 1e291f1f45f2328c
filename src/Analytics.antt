-- ===== src/Analytics.antt =====
-- The package analytics: the client that sends events through the hooks to the providers.
pub mod Context
pub mod Dispatch
pub mod Message
