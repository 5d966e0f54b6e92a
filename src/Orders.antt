-- ===== src/Orders.antt =====
-- The life of an order: backend/src/execution/order-execution.service.ts with the entities BetOrder,
-- BetDecision and BetReceipt.
pub mod Defs
pub mod Lifecycle
pub mod Entries
pub mod Steps
pub mod Acceptance
pub mod Reserving
pub mod Verifying
pub mod Service
pub mod Following
pub mod Abandoned
pub mod Changes
pub mod Locked
pub mod Cancelling
pub mod Entering
pub mod Accepting
pub mod Columns
pub mod Contract
pub mod Closing
pub mod Inserting
pub mod Preparing
pub mod Concluding
pub mod Settling
pub mod Selecting
pub mod Batching
pub mod Reachable
pub mod Once
pub mod Methods
pub mod Submitting
pub mod Resolving
