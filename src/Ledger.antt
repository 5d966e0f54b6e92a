-- ===== src/Ledger.antt =====
-- The ledger of stakes: backend/src/execution/ledger.service.ts with the entities BankrollAccount
-- and BankrollLedgerEntry. Amounts are the cents of the decimal columns; a row lock is the order
-- in which transactions run.
pub mod Defs
pub mod Service
pub mod Checks
pub mod Effects
pub mod Append
pub mod Invariant
pub mod AppendLaws
pub mod Audit
pub mod Opening
pub mod History
pub mod Batch
pub mod BatchLaws
pub mod BatchSound
pub mod BatchHistory
