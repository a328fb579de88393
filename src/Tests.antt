-- ===== src/Tests.antt =====
-- Concrete runs of the model, and the theorems at concrete inputs.
mod Hashes
mod Lookups
mod Merges
mod Readers
mod Chains
mod Formats
mod Targets
mod Queues
mod Servers
mod Tools
mod Joins
mod Controls
mod Indexes
mod Terminals
mod Uuids
mod Clients
