-- ===== src/Control.antt =====
-- The kill switch and the mode of execution: backend/src/execution/execution-control.service.ts
-- with the entities ExecutionControl and OperationAuditEvent.
pub mod Defs
pub mod Service
pub mod Changes
pub mod Switch
pub mod Ladder
pub mod Governed
pub mod Permit
