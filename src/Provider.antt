-- ===== src/Provider.antt =====
-- The package provider: the event queue, the HTTP transport and the secrets of a provider.
pub mod Queue
pub mod Transport
