-- ===== src/Control/Changes.antt =====
-- `changeMode` and `createRiskPolicy` of `ExecutionControlService`.
use api_score.Base.{
  ℕ, suc, ◌+◌, max, Bool, false, not, ◌&&◌, Option, none, some, List, [], ◌∷◌, ◌==◌, if◌then◌else◌,
  is_some,
}
use api_score.Base.Int.{ℤ}
use api_score.Base.Rows.{find}
use api_score.Base.Tx.{
  Result, ok, err, http, unavailable, conflict, bad_request, forbidden, Tx, pure, gets, or_throw,
  lift, modify, throw_if, ◌>>=◌, ◌>>◌,
}
use api_score.Money.{Text}
use api_score.Domain.{
  ExecutionMode, disabled, live_canary, mode_eq, StoredMode, known, stored_mode_eq, manual,
}
use api_score.Risk.{RiskPolicy}
use api_score.Gate.{TransitionDirection, up, transition_shape, assert_transition_allowed, dedupe}
use api_score.Control.Defs.{
  ControlRow, mode_changed, policy_created, policy_activated, ControlStore, ControlSnapshot,
  is_interlock_open, to_snapshot, sanitize_reason,
}
use api_score.Control.Service.{Env, audit, stop}

pub record ChangeModeInput : Type 0 where
  pub target_mode : ExecutionMode
  pub reason : Text
  pub expected_version : ℕ
  pub gate_evidence_ids : List ℕ

-- The mode that `changeMode` starts from.
abbrev pub mode_or_disabled : StoredMode → ExecutionMode
mode_or_disabled (known m) = m
mode_or_disabled _ = disabled

-- What a step up needs besides its shape.
abbrev pub check_up :
    Env → ControlStore → ControlRow → ChangeModeInput → TransitionDirection → Result (Unit {0})
check_up env s row input up =
    if not (is_some row.active_risk_policy_id)
    then err (http bad_request)
    else if mode_eq input.target_mode live_canary && not (is_interlock_open env.interlock)
    then err (http forbidden)
    else assert_transition_allowed s.evidence row.id (mode_or_disabled row.mode) input.target_mode
        input.gate_evidence_ids
check_up env s row input _ = ok tt

abbrev pub changed_row : ExecutionMode → ℕ → ControlRow → ControlRow
changed_row target actor row = record row {
  mode = known target;
  version = row.version + 1;
  stop_reason = none;
  stop_source = none;
  changed_by_user_id = some actor;
}

-- `changeMode` to a mode other than DISABLED.
unfoldable pub move_mode : Env → ChangeModeInput → ℕ → Tx ControlStore ControlSnapshot
unfolding to_snapshot
move_mode env input actor = do
  found ← gets (λ s. s.control)
  row ← or_throw found (http unavailable)
  throw_if (not (row.version == input.expected_version)) (http conflict)
  let shape = transition_shape (mode_or_disabled row.mode) input.target_mode
  throw_if (not shape.allowed) (http bad_request)
  checked ← gets (λ s. check_up env s row input shape.direction)
  lift checked
  modify (λ s. record s { control = some (changed_row input.target_mode actor row) })
  modify (
      audit (some actor) row.id (
        mode_changed (mode_or_disabled row.mode) input.target_mode (row.version + 1)
          input.expected_version (sanitize_reason input.reason) (dedupe input.gate_evidence_ids)))
  updated ← gets (λ s. s.control)
  pure (to_snapshot updated (is_interlock_open env.interlock))

unfoldable pub change_mode : Env → ChangeModeInput → ℕ → ℕ → Tx ControlStore ControlSnapshot
unfolding move_mode stop
change_mode env input actor new_id =
    if mode_eq input.target_mode disabled
    then stop env input.reason (some actor) manual (some input.expected_version) new_id
    else move_mode env input actor

pub record CreateRiskPolicyInput : Type 0 where
  pub currency : ℕ
  pub max_stake_per_bet : ℤ
  pub max_daily_stake : ℤ
  pub max_daily_loss : ℤ
  pub max_open_exposure : ℤ
  pub max_quote_age_ms : ℤ
  pub activate : Bool
  pub expected_version : Option ℕ

abbrev pub version_differs : Option ℕ → ℕ → Bool
version_differs none version = false
version_differs (some expected) version = not (version == expected)

abbrev pub check_activation : CreateRiskPolicyInput → Option ControlRow → Result (Unit {0})
check_activation input none = err (http unavailable)
check_activation input (some row) =
    if not (stored_mode_eq row.mode (known disabled))
    then err (http conflict)
    else if version_differs input.expected_version row.version
    then err (http conflict)
    else ok tt

-- `SELECT COALESCE(MAX(version), 0)`
abbrev pub max_version : List RiskPolicy → ℕ
max_version [] = 0
max_version (p ∷ ps) = max p.version (max_version ps)

abbrev pub policy_of : CreateRiskPolicyInput → ℕ → ℕ → RiskPolicy
policy_of input id version = record {
  id = id;
  version = version;
  currency = input.currency;
  max_stake_per_bet = input.max_stake_per_bet;
  max_daily_stake = input.max_daily_stake;
  max_daily_loss = input.max_daily_loss;
  max_open_exposure = input.max_open_exposure;
  max_quote_age_ms = input.max_quote_age_ms;
}

abbrev pub activated_row : ℕ → ℕ → ControlRow → ControlRow
activated_row policy actor row = record row {
  active_risk_policy_id = some policy;
  version = row.version + 1;
  changed_by_user_id = some actor;
}

abbrev pub activate_policy : ℕ → RiskPolicy → Option ControlRow → ControlStore → ControlStore
activate_policy actor p none s = s
activate_policy actor p (some row) s =
    audit (some actor) row.id (policy_activated p.id p.version (row.version + 1))
      (record s { control = some (activated_row p.id actor row) })

-- `createRiskPolicy`; `new_id` is the identifier of the policy.
unfoldable pub create_risk_policy : CreateRiskPolicyInput → ℕ → ℕ → Tx ControlStore RiskPolicy
create_risk_policy input actor new_id = do
  row ← gets (λ s. s.control)
  lift (if input.activate then check_activation input row else ok tt)
  policies ← gets (λ s. s.policies)
  let p = policy_of input new_id (suc (max_version policies))
  modify (λ s. record s { policies = p ∷ s.policies })
  modify (audit (some actor) p.id (policy_created p.version p.currency input.activate))
  modify (if input.activate then activate_policy actor p row else λ s. s)
  pure p

unfoldable pub active_policy : Option ℕ → List RiskPolicy → Option RiskPolicy
active_policy none policies = none
active_policy (some id) policies = find (λ p. p.id == id) policies
