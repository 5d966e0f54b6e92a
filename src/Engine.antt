-- ===== src/Engine.antt =====
-- The risk engine over the control and the ledger: backend/src/execution/risk-engine.service.ts.
pub mod Defs
pub mod Service
pub mod Stages
pub mod Reservation
pub mod Safety
pub mod Bounds
pub mod Moves
pub mod Keyed
pub mod Outcomes
pub mod Reachable
pub mod Stopped
pub mod Once
pub mod Amounts
