-- ===== src/Ledger.antt =====
-- internal/ledger: the aggregates, their events and decisions, and the command handlers.
pub mod Events
pub mod State
pub mod Decide
pub mod Command
pub mod Interleaving
pub mod Service
pub mod Account
pub mod Inventory
pub mod Versions
pub mod Proposals
pub mod Conflicts
pub mod Solvency
pub mod Guarantees
pub mod Transfer
