-- ===== src/Spec.antt =====
-- The package spec: event definitions, their versions, and the differences between them.
pub mod Status
pub mod Schema
pub mod Workspace
pub mod Validator
pub mod Secrets
pub mod JsonSchema
pub mod Version
pub mod Change
pub mod Equal
pub mod Names
pub mod Diff
pub mod Bump
