-- ===== src/Domain.antt =====
-- The shared vocabulary of execution: backend/src/execution/execution.types.ts, and the columns
-- that entities share. Identifiers, currencies and user keys are only compared, so they are
-- numbers; times are milliseconds.
use api_score.Base.{ℕ, ◌*◌, Bool, false, Option, none, some, List, [], ◌∷◌, ◌==◌}

-- EXECUTION_MODES
pub data ExecutionMode : Type 0 where
  disabled simulation sandbox live_canary : ExecutionMode

-- Place of a mode in MODE_ORDER.
abbrev pub mode_index : ExecutionMode → ℕ
mode_index disabled = 0
mode_index simulation = 1
mode_index sandbox = 2
mode_index live_canary = 3

abbrev pub mode_eq : ExecutionMode → ExecutionMode → Bool
mode_eq a b = mode_index a == mode_index b

-- A `mode` column is a varchar: one of the modes, or text that names none of them.
pub data StoredMode : Type 0 where
  known : ExecutionMode → StoredMode
  unrecognised : ℕ → StoredMode

abbrev pub stored_mode_eq : StoredMode → StoredMode → Bool
stored_mode_eq (known a) (known b) = mode_eq a b
stored_mode_eq (unrecognised a) (unrecognised b) = a == b
stored_mode_eq _ _ = false

-- `isExecutionMode`, with the mode that it finds.
abbrev pub execution_mode? : StoredMode → Option ExecutionMode
execution_mode? (known m) = some m
execution_mode? (unrecognised _) = none

-- DECISION_STATUSES
pub data DecisionStatus : Type 0 where
  rejected eligible order_reserved completed : DecisionStatus

-- ORDER_STATUSES
pub data OrderStatus : Type 0 where
  reserved submitting accepted rejected : OrderStatus
  unknown settled voided reconciliation_required : OrderStatus

-- REJECTION_CODES
pub data RejectionCode : Type 0 where
  no_executable_odd stale_odd suspended_market odd_moved limit_exceeded : RejectionCode
  control_disabled risk_check_failed operator_unavailable below_min_odd : RejectionCode

-- GATE_KEYS
pub data GateKey : Type 0 where
  g1 g2 g3 g4 g5 g6 : GateKey

abbrev pub gate_index : GateKey → ℕ
gate_index g1 = 1
gate_index g2 = 2
gate_index g3 = 3
gate_index g4 = 4
gate_index g5 = 5
gate_index g6 = 6

abbrev pub gate_eq : GateKey → GateKey → Bool
gate_eq a b = gate_index a == gate_index b

-- GATES_REQUIRED_TO_ENTER
abbrev pub gates_required_to_enter : ExecutionMode → List GateKey
gates_required_to_enter disabled = []
gates_required_to_enter simulation = g1 ∷ g2 ∷ []
gates_required_to_enter sandbox = g3 ∷ []
gates_required_to_enter live_canary = g4 ∷ g5 ∷ g6 ∷ []

-- GATE_VERDICTS
pub data GateVerdict : Type 0 where
  go no_go : GateVerdict

-- LEDGER_ENTRY_TYPES
pub data LedgerEntryType : Type 0 where
  reserve release settle adjustment : LedgerEntryType

abbrev pub entry_type_index : LedgerEntryType → ℕ
entry_type_index reserve = 0
entry_type_index release = 1
entry_type_index settle = 2
entry_type_index adjustment = 3

abbrev pub entry_type_eq : LedgerEntryType → LedgerEntryType → Bool
entry_type_eq a b = entry_type_index a == entry_type_index b

-- STOP_SOURCES
pub data StopSource : Type 0 where
  bootstrap manual automatic : StopSource

-- AUTO_STOP_TRIGGERS
pub data AutoStopTrigger : Type 0 where
  control_unreadable stale_or_suspended_odd daily_limit_reached : AutoStopTrigger
  operator_balance_mismatch unknown_order_too_old receipt_missing : AutoStopTrigger
  reconciliation_late operator_error_rate clock_out_of_tolerance : AutoStopTrigger
  ledger_invariant_broken receipt_invalid operator_contract_violation : AutoStopTrigger

-- CLOCK_TOLERANCE_MS
abbrev pub clock_tolerance_ms : ℕ
clock_tolerance_ms = 2000

-- RISK_LIMITS
pub data RiskLimit : Type 0 where
  max_stake_per_bet daily_stake daily_loss : RiskLimit
  open_exposure available_balance quote_age : RiskLimit

-- DECISION_BUCKET_MS, UNKNOWN_GRACE_MS, UNKNOWN_MAX_AGE_MS, SUBMITTING_STALE_MS and
-- SUBMISSION_TIMEOUT_MS
abbrev pub decision_bucket_ms : ℕ
decision_bucket_ms = 15 * 60 * 1000

abbrev pub unknown_grace_ms : ℕ
unknown_grace_ms = 5 * 60 * 1000

abbrev pub unknown_max_age_ms : ℕ
unknown_max_age_ms = 30 * 60 * 1000

abbrev pub submitting_stale_ms : ℕ
submitting_stale_ms = 60 * 1000
