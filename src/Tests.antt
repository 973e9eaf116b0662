-- ===== src/Tests.antt =====
-- Concrete tables and callers, and the theorems at them.
mod Data
mod Access
mod Work
mod Content
mod Calls
mod Registries
mod Pipeline
mod Accounts
mod Configs
mod Settings
mod Slugs
