-- ===== src/Sandbox.antt =====
-- The deterministic operator of the mode SANDBOX: adapters/deterministic-sandbox.adapter.ts of
-- backend/src/execution, and `winningProfitCents` of execution.types.ts. Maps are lists, the oldest
-- entry first; SHA-256 and the clock are arguments.
pub mod Defs
pub mod Place
pub mod Service
pub mod Placing
