-- ===== src/Examples.antt =====
-- Runs of the modelled code on concrete inputs.
pub mod Books
pub mod Batches
pub mod Switches
pub mod Stakes
pub mod Flows
pub mod Bets
pub mod Pipeline
pub mod Acceptances
pub mod Suggestions
pub mod Operators
pub mod Reconciled
