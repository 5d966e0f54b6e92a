-- ===== src/Examples/Stakes.antt =====
-- Runs of the risk engine on concrete inputs.
use api_score.Base.{◌≡◌, ◌↔◌, refl, true, false, none, some, [], ◌∷◌, arith}
use api_score.Base.Int.{pos, negsuc, neg, ◌+ℤ◌}
use api_score.Money.{to_cents}
use api_score.Domain.{known, sandbox, limit_exceeded, max_stake_per_bet}
use api_score.Risk.{RiskPolicy, RiskInput, passed, evaluate_risk}
use api_score.Risk.Limits.{IsWithinLimits, evaluate_risk_iff}
use api_score.Ledger.Defs.{Account, reserve_key, plan_entry, movement_effect}
use api_score.Ledger.Service.{
  find_account, lock_account, append, write, insert_entry, write_balances,
}
use api_score.Ledger.Checks.{daily_aggregates}
use api_score.Ledger.Invariant.{IsSound}
use api_score.Control.Defs.{ControlRow, to_snapshot, execution_allowed}
use api_score.Control.Service.{lock_for_execution, assert_clock_within_tolerance}
use api_score.Control.Changes.{active_policy}
use api_score.Engine.Defs.{Store, EngineEnv, ReserveStakeRequest, reserved, rejected, utc_day_start}
use api_score.Engine.Service.{
  settle_verdict, reserve_matched, reserve_under, reserve_new, reserve_within, reserve_stake,
}
use api_score.Engine.Safety.{reserve_stake-rejected}
use api_score.Engine.Bounds.{RespectsPolicy, reserve_stake-RespectsPolicy}
use api_score.Examples.Books.{hundred, opened_tables, opened_tables-IsSound, reserve_row}

-- Ceilings of 50.00 a bet, 80.00 a day staked, 60.00 a day lost, 70.00 open, and quotes of 5 s.
abbrev pub policy : RiskPolicy
policy = record {
  id = 5;
  version = 1;
  currency = 1;
  max_stake_per_bet = pos 5000;
  max_daily_stake = pos 8000;
  max_daily_loss = pos 6000;
  max_open_exposure = pos 7000;
  max_quote_age_ms = pos 5000;
}

abbrev risk_example : RiskInput
risk_example = record {
  policy = policy;
  stake_cents = pos 3000;
  available_cents = pos 10000;
  reserved_cents = pos 4000;
  daily_staked_cents = pos 5000;
  daily_settled_pnl_cents = negsuc 5998;
  quote_age_ms = some (pos 5000);
}

evaluate_risk_iff_example : (evaluate_risk risk_example ≡ passed) ↔ IsWithinLimits risk_example
evaluate_risk_iff_example = evaluate_risk_iff risk_example

risk_example-passed : evaluate_risk risk_example ≡ passed
unfolding evaluate_risk ◌+ℤ◌ neg
risk_example-passed = refl

abbrev pub control_row : ControlRow
control_row = record {
  id = 1;
  mode = known sandbox;
  version = 3;
  active_risk_policy_id = some 5;
  stop_reason = none;
  stop_source = none;
  changed_by_user_id = some 4;
}

abbrev pub before : Store
before = record {
  ledger = opened_tables;
  control = record {
    control = some control_row;
    policies = policy ∷ [];
    evidence = [];
    audits = [];
  };
}

abbrev pub env : EngineEnv
env = record {
  control = record { interlock = none; control_answers = true; drift_ms = 40 };
  now = 90000000;
  stop_fails = false;
  stop_text = λ _. [];
  new_id = 2;
}

-- 25.00 for order 12.
abbrev pub request : ReserveStakeRequest
request = record {
  account_id = 7;
  entry_key = reserve_key 12;
  stake = b'2' ∷ b'5' ∷ [];
  quote_captured_at = some 89998000;
  order_id = some 12;
  actor_user_id = none;
}

reserve_stake-accepted : (reserve_stake env request before).0 ≡ reserved reserve_row false
unfolding reserve_stake reserve_within reserve_new reserve_under reserve_matched settle_verdict
    lock_account daily_aggregates append write insert_entry write_balances plan_entry
    movement_effect lock_for_execution assert_clock_within_tolerance to_snapshot execution_allowed
    active_policy to_cents evaluate_risk ◌+ℤ◌ neg
reserve_stake-accepted = refl

reserve_stake-RespectsPolicy_example :
    (row : ControlRow) × (p : RiskPolicy) × (account : Account) × (some control_row ≡ some row)
    × (active_policy row.active_risk_policy_id (policy ∷ []) ≡ some p)
    × (find_account 7 (reserve_stake env request before).1.ledger.accounts ≡ some account)
    × RespectsPolicy (utc_day_start env.now) p account (reserve_stake env request before).1.ledger
    × IsSound (reserve_stake env request before).1.ledger
reserve_stake-RespectsPolicy_example =
    reserve_stake-RespectsPolicy env request before opened_tables-IsSound (omega arith)
      reserve_stake-accepted

-- 100.00 is above the ceiling of a bet.
abbrev large_request : ReserveStakeRequest
large_request = record request { stake = hundred }

reserve_stake-refused :
    (reserve_stake env large_request before).0 ≡ rejected limit_exceeded (some max_stake_per_bet)
unfolding reserve_stake reserve_within reserve_new reserve_under reserve_matched settle_verdict
    lock_account daily_aggregates append write insert_entry write_balances plan_entry
    movement_effect lock_for_execution assert_clock_within_tolerance to_snapshot execution_allowed
    active_policy to_cents evaluate_risk ◌+ℤ◌ neg
reserve_stake-refused = refl

reserve_stake-rejected_example : (reserve_stake env large_request before).1.ledger ≡ opened_tables
reserve_stake-rejected_example =
    reserve_stake-rejected env large_request before reserve_stake-refused
