-- ===== src/Control/Defs.antt =====
-- The control row, how it is read, and whether it lets money be engaged.
use api_score.Base.{
  ℕ, zero, suc, Bool, true, false, ◌&&◌, ◌||◌, Option, none, some, List, [], ◌∷◌, ltb, ◌==◌,
  if◌then◌else◌,
}
use api_score.Money.{Text, trim}
use api_score.Domain.{
  ExecutionMode, disabled, live_canary, StoredMode, known, unrecognised, StopSource,
}
use api_score.Risk.{RiskPolicy}
use api_score.Gate.{GateEvidence}

-- The one row of scope GLOBAL.
pub record ControlRow : Type 0 where
  pub id : ℕ
  pub mode : StoredMode
  pub version : ℕ
  pub active_risk_policy_id : Option ℕ
  pub stop_reason : Option Text
  pub stop_source : Option StopSource
  pub changed_by_user_id : Option ℕ

-- The audited action, with the scalars of its metadata.
pub data AuditAction : Type 0 where
  stop_recreated : ℕ → StopSource → Text → AuditAction
  stopped : StoredMode → ℕ → Option ℕ → StopSource → Text → AuditAction
  mode_changed : ExecutionMode → ExecutionMode → ℕ → ℕ → Text → List ℕ → AuditAction
  policy_created : ℕ → ℕ → Bool → AuditAction
  policy_activated : ℕ → ℕ → ℕ → AuditAction

pub record AuditEvent : Type 0 where
  pub actor_user_id : Option ℕ
  pub target_id : ℕ
  pub action : AuditAction

pub record ControlStore : Type 0 where
  pub control : Option ControlRow
  pub policies : List RiskPolicy
  pub evidence : List GateEvidence
  pub audits : List AuditEvent

pub record ControlSnapshot : Type 0 where
  pub readable : Bool
  pub mode : ExecutionMode
  pub version : Option ℕ
  pub active_risk_policy_id : Option ℕ
  pub stop_source : Option StopSource
  pub changed_by_user_id : Option ℕ
  pub interlock_open : Bool

abbrev pub text_eq : Text → Text → Bool
text_eq [] [] = true
text_eq (a ∷ as') (b ∷ bs) = a == b && text_eq as' bs
text_eq _ _ = false

-- `isRealMoneyInterlockOpen`: the raw value is exactly `true`.
abbrev pub is_interlock_open : Option Text → Bool
is_interlock_open none = false
is_interlock_open (some raw) = text_eq raw (b't' ∷ b'r' ∷ b'u' ∷ b'e' ∷ [])

-- `toSnapshot`: what cannot be read as a mode is DISABLED.
abbrev pub snapshot_of : ControlRow → StoredMode → Bool → ControlSnapshot
snapshot_of row (known mode) interlock = record {
  readable = true;
  mode = mode;
  version = some row.version;
  active_risk_policy_id = row.active_risk_policy_id;
  stop_source = row.stop_source;
  changed_by_user_id = row.changed_by_user_id;
  interlock_open = interlock;
}
snapshot_of row (unrecognised _) interlock = record {
  readable = false;
  mode = disabled;
  version = some row.version;
  active_risk_policy_id = none;
  stop_source = none;
  changed_by_user_id = none;
  interlock_open = interlock;
}

unfoldable pub to_snapshot : Option ControlRow → Bool → ControlSnapshot
to_snapshot none interlock = record {
  readable = false;
  mode = disabled;
  version = none;
  active_risk_policy_id = none;
  stop_source = none;
  changed_by_user_id = none;
  interlock_open = interlock;
}
to_snapshot (some row) interlock = snapshot_of row row.mode interlock

unfoldable pub execution_allowed : ExecutionMode → Bool → Bool
execution_allowed disabled interlock = false
execution_allowed live_canary interlock = interlock
execution_allowed _ interlock = true

abbrev pub max_reason_length : ℕ
max_reason_length = 500

abbrev pub take : ℕ → Text → Text
take zero t = []
take (suc n) [] = []
take (suc n) (c ∷ cs) = c ∷ take n cs

-- `[\u0000-\u001f\u007f]`
abbrev pub is_control_char : ℕ → Bool
is_control_char c = ltb c 32 || c == 127

-- `replace(/[…]+/g, ' ')`: `in_run` says that the character before was of the class.
unfoldable pub replace_runs : Bool → Text → Text
replace_runs in_run [] = []
replace_runs in_run (c ∷ cs) =
    let skipped = replace_runs true cs in
    let spaced = b' ' ∷ replace_runs true cs in
    let kept = c ∷ replace_runs false cs in
    if is_control_char c then (if in_run then skipped else spaced) else kept

unfoldable pub sanitize_reason : Text → Text
unfolding replace_runs
sanitize_reason reason = take max_reason_length (trim (replace_runs false reason))
