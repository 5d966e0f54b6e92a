-- ===== src/Lib.antt =====
-- Execution of bets with real or simulated money: backend/src/execution of the repository, and
-- how bets on goals are suggested and decided: backend/src/recommendations/rules.
--
-- The program reserves, releases and settles stakes on bankroll accounts. Every movement is an
-- entry of a ledger (`LedgerService`); a stake is reserved only within the ceilings of the active
-- policy (`RiskEngineService`), and only while the control row lets it (`ExecutionControlService`),
-- whose mode climbs one step at a time on recorded evidence (`GatePolicyService`). The pipeline
-- (`OrderExecutionService`) makes an order of a decision together with its reservation, hands it to
-- an operator, enters or disputes the acceptance, and releases or settles the stake. The
-- reconciliation (`ReconciliationService`) asks the operator about these orders, resolves those in
-- doubt, compares the rest with the ledger, and stops execution on a critical difference.
--
-- Files:
-- - Money: `toCents` and `fromCents` of execution.types.ts. Domain: the other types of that file.
-- - Risk: `evaluateRisk` of risk-engine.service.ts, and the entity RiskPolicy.
-- - Ledger/Defs, Ledger/Service, Ledger/Checks: ledger.service.ts; `movementEffect` and
--   `planEntry` are `movement_effect` and `plan_entry`, and the methods keep their names.
--   Ledger/Batch: `appendBatch`.
-- - Gate: gate-policy.service.ts. Control/Defs, Control/Service, Control/Changes:
--   execution-control.service.ts.
-- - Sandbox: adapters/deterministic-sandbox.adapter.ts, an operator with scenarios.
-- - Rules, Rules/Halves: recommendations/rules/rules-evaluator.ts, which suggests bets on goals
--   from signals of a running match; Outcome: outcome-resolver.ts beside it, which decides them.
-- - Engine/Defs, Engine/Service: the class `RiskEngineService` of risk-engine.service.ts.
-- - Operator: operator.port.ts. Orders: order-execution.service.ts, with the entities of orders,
--   decisions and receipts. Orders/Steps, Orders/Acceptance, Orders/Verifying, Orders/Reserving,
--   Orders/Abandoned: the transactions; Orders/Service, Orders/Following: the methods that are made
--   of them.
--   Orders/Lifecycle: which status may follow which. Orders/Reachable: the transactions as steps.
-- - Reconciliation: reconciliation.service.ts. Reconciliation/Lookup, Reconciliation/Compare,
--   Reconciliation/Cause: its functions; Reconciliation/Repair, Reconciliation/Balance,
--   Reconciliation/Inspect, Reconciliation/Service: `execute`, in the order of its code;
--   Reconciliation/Opening: `open` and `openBatch`.
-- - Base: lists as tables, the integers over the native numbers, transactions. Examples: runs on
--   concrete inputs. The other files hold proofs about the file or folder that they stand under.
--
-- How the code is modelled:
-- * A table is a list of rows, the newest first. A transaction is a function from the tables to
--   a result: an error carries no tables, which is the rollback. The order of transactions stands
--   for the locks, which serialise those that touch the same row.
-- * A reservation also signals stops to `onAutoStop`. The signal outlives the error that rolls the
--   tables back, so the type `Attempt` keeps it beside the result, and `concluded` applies it.
-- * Amounts are integers in cents where the code holds decimal texts between `toCents` and
--   `fromCents`; `fromCents` refuses integers that are not safe, which the check `prints` keeps.
--   Where an order keeps a text that an operator wrote, its column DECIMAL(14,2) gives it back with
--   two decimals, which is `column_amount`.
-- * Identifiers, currencies and keys are numbers, since they are only compared. The key of an
--   entry is a constructor for its prefix, with the identifier. Identifiers that the database
--   draws are arguments, and so is a call's view of the outside: the interlock variable, the
--   drift of the clock, whether the database answers (`Env`), the application's clock and whether
--   the transaction of a stop fails (`EngineEnv`). The database's clock is a field of the tables.
-- * A method of the pipeline is a sequence of transactions, and several callers' transactions may
--   stand between two of them: `Orders.Reachable.Step` has one constructor for each, so that its
--   sequences are the interleavings. Nothing else in the repository calls the engine to reserve
--   or release a stake. What an operator answers, the keys of its adapters and SHA-256
--   are arguments of the methods; odds are numbers of thousandths. The list `placed` records
--   the calls of `placeOrder`. An error of a method leaves what was committed before it.
-- * A run of the reconciliation is a call of the pipeline's methods, with what the operator answers
--   to its one lookup and its one question for the balance as an argument. The texts of an item are
--   the constructors of `Detail`. A field of the operator that is not there is null, and equals
--   a column that is null. Of several runs at once, each one alone is modelled.
-- * The one recursion on fuel is `decimal`, which prints a number: its fuel is one more than the
--   number, and each step divides by ten.
--
-- Not modelled: the list of orders with its cursor, the adapter of the mode PAPER, the methods
-- `start` and `executeBatch` of the reconciliation (each run that they execute is `execute`) and
-- its schedule; the reasons kept beside a status, the slippage and the redacted receipts; column
-- widths; messages, log lines, trace identifiers and the JSON of audits beyond its scalars; the
-- statistics, ingestion, session and front-end parts of the repository.
pub mod Base
pub mod Domain
pub mod Money
pub mod Risk
pub mod Ledger
pub mod Gate
pub mod Control
pub mod Engine
pub mod Operator
pub mod Orders
pub mod Reconciliation
pub mod Outcome
pub mod Rules
pub mod Sandbox
pub mod Examples
