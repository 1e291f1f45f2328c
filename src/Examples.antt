-- ===== src/Examples.antt =====
-- The theorems at concrete inputs.
mod Versions
mod Diffs
mod Queues
mod Pipeline
mod Registries
mod Access
mod Tables
mod Stores
mod Servers
mod Gits
mod Clients
mod Changelogs
