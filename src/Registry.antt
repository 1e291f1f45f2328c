-- ===== src/Registry.antt =====
-- The registries of event specs: the package registry, the resolvers of registry/local and
-- registry/git, and the server with its store.
pub mod Latest
pub mod Local
pub mod Git
pub mod Client
pub mod Server
pub mod Store
