-- ===== src/Quarantine.antt =====
-- pkg/quarantine/quarantine.go: revocation events, runtime snapshots and the runtime monitor.
-- The ledger file of pkg/quarantine/persistence.go is the child module Ledger.
pub mod Event
pub mod Snapshot
pub mod Monitor
pub mod Swaps
pub mod Ledger
