-- ===== src/Control/Service.antt =====
-- The reads, locks and stops of `ExecutionControlService`. Each is the body of a transaction.
use api_score.Base.{ℕ, ◌+◌, Bool, true, false, not, Option, none, some, [], ◌∷◌, ltb, if◌then◌else◌}
use api_score.Base.Tx.{
  Result, ok, err, blocked, Tx, pure, gets, lift, modify, throw_if, ◌>>=◌, ◌>>◌,
}
use api_score.Money.{Text}
use api_score.Domain.{
  ExecutionMode, disabled, known, stored_mode_eq, StopSource, automatic, clock_tolerance_ms,
}
use api_score.Control.Defs.{
  ControlRow, AuditAction, stop_recreated, stopped, ControlStore, ControlSnapshot,
  is_interlock_open, to_snapshot, execution_allowed, sanitize_reason,
}

-- What a call meets outside the tables: the variable REAL_MONEY_INTERLOCK, whether the database
-- answers the read of the control row, and the drift that `clockDriftMs` measures.
pub record Env : Type 0 where
  pub interlock : Option Text
  pub control_answers : Bool
  pub drift_ms : ℕ

-- `readControl`: never throws.
unfoldable pub read_control : Env → ControlStore → ControlSnapshot
unfolding to_snapshot
read_control env s =
    to_snapshot (if env.control_answers then s.control else none) (is_interlock_open env.interlock)

-- The checks of `lockForExecution` on the row that it read.
abbrev pub admit : Env → Option ControlRow → Result ControlRow
admit env none = err (blocked true)
admit env (some row) =
    let snapshot = to_snapshot (some row) (is_interlock_open env.interlock) in
    if not snapshot.readable
    then err (blocked true)
    else if not (execution_allowed snapshot.mode snapshot.interlock_open)
    then err (blocked false)
    else ok row

unfoldable pub lock_for_execution : Env → Tx ControlStore ControlRow
unfolding to_snapshot execution_allowed
lock_for_execution env = do
  throw_if (not env.control_answers) (blocked true)
  row ← gets (λ s. s.control)
  lift (admit env row)

-- `withSubmissionPermit`: `submit` runs under the shared lock, in the expected mode only.
unfoldable pub with_submission_permit :
    {A : Type 0} → Env → ExecutionMode → Tx ControlStore A → Tx ControlStore A
unfolding lock_for_execution
with_submission_permit env expected submit = do
  row ← lock_for_execution env
  throw_if (not (stored_mode_eq row.mode (known expected))) (blocked false)
  submit

unfoldable pub assert_clock_within_tolerance : {S : Type 0} → Env → Tx S (Unit {0})
assert_clock_within_tolerance env = throw_if (ltb clock_tolerance_ms env.drift_ms) (blocked false)

abbrev pub audit : Option ℕ → ℕ → AuditAction → ControlStore → ControlStore
audit actor target action s = record s {
  audits = record { actor_user_id = actor; target_id = target; action = action } ∷ s.audits;
}

-- "Arrêt", used for an empty reason.
abbrev pub reason_or_default : Text → Text
reason_or_default [] = b'A' ∷ b'r' ∷ b'r' ∷ 0xea ∷ b't' ∷ []
reason_or_default (c ∷ cs) = c ∷ cs

abbrev pub stopped_row : Text → Option ℕ → StopSource → ControlRow → ControlRow
stopped_row reason actor source row = record row {
  mode = known disabled;
  version = row.version + 1;
  stop_reason = some reason;
  stop_source = some source;
  changed_by_user_id = actor;
}

abbrev pub recreated_row : ℕ → Text → Option ℕ → StopSource → ControlRow
recreated_row id reason actor source = record {
  id = id;
  mode = known disabled;
  version = 1;
  active_risk_policy_id = none;
  stop_reason = some reason;
  stop_source = some source;
  changed_by_user_id = actor;
}

-- The three cases of `stop`: no row, stopped already, running.
abbrev pub stop_row :
    Text → Option ℕ → StopSource → Option ℕ → ℕ → Option ControlRow → ControlStore → ControlStore
stop_row reason actor source expected new_id none s =
    audit actor new_id (stop_recreated 1 source reason)
      (record s { control = some (recreated_row new_id reason actor source) })
stop_row reason actor source expected new_id (some row) s =
    if stored_mode_eq row.mode (known disabled)
    then s
    else audit actor row.id (stopped row.mode (row.version + 1) expected source reason)
        (record s { control = some (stopped_row reason actor source row) })

-- `stop`; `new_id` is the identifier of a row that has to be made anew.
unfoldable pub stop :
    Env → Text → Option ℕ → StopSource → Option ℕ → ℕ → Tx ControlStore ControlSnapshot
unfolding sanitize_reason to_snapshot
stop env reason actor source expected new_id = do
  modify (λ s.
      stop_row (reason_or_default (sanitize_reason reason)) actor source expected new_id s.control
        s)
  row ← gets (λ s. s.control)
  pure (to_snapshot row (is_interlock_open env.interlock))

-- `autoStop`: a failed transaction (`tx_fails`) is only logged; `reason` is the text that names
-- the trigger and its details.
unfoldable pub auto_stop : Env → Bool → Text → ℕ → ControlStore → Bool × ControlStore
unfolding stop
auto_stop env tx_fails reason new_id s =
    if tx_fails then (false, s) else elim (stop env reason none automatic none new_id s) [
      | ok r ↦ (true, r.1)
      | err _ ↦ (false, s)
    ]
