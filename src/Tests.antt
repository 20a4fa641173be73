-- ===== src/Tests.antt =====
-- Concrete inputs.
mod Graph
mod Fixtures
mod Policy
mod Pipelines
mod Ledger
mod Histories
mod Keys
mod Upgrades
mod Questions
mod Caches
