-- ===== src/Reconciliation.antt =====
-- Reconciliation: backend/src/execution/reconciliation.service.ts. A run asks the operator about the
-- orders of one account, resolves what it can, compares the rest, and stops execution on a critical
-- difference.
pub mod Defs
pub mod Lookup
pub mod Compare
pub mod Cause
pub mod Repair
pub mod Balance
pub mod Inspect
pub mod Opening
pub mod Service
pub mod Once
pub mod Stops
pub mod Lookups
pub mod Critical
pub mod Agreement
pub mod Repairs
pub mod Steps
pub mod Texts
pub mod Gaps
pub mod Backing
pub mod Opened
pub mod Items
pub mod Kept
pub mod Silence
