-- ===== src/Engine/Service.antt =====
-- The operations of `RiskEngineService`.
use api_score.Base.{ℕ, Bool, true, false, ◌&&◌, Option, none, some, ◌==◌, if◌then◌else◌}
use api_score.Base.Int.{ℤ, neg, leb_ℤ, max_zero}
use api_score.Base.Tx.{Result, ok, err, Failure, blocked, ledger_rule, http, other}
use api_score.Money.{Text, to_cents}
use api_score.Domain.{
  stored_mode_eq, LedgerEntryType, reserve, release, settle, control_disabled, risk_check_failed,
  available_balance, AutoStopTrigger, control_unreadable, clock_out_of_tolerance,
  daily_limit_reached, ledger_invariant_broken,
}
use api_score.Risk.{RiskPolicy, RiskInput, RiskVerdict, passed, refused, evaluate_risk}
use api_score.Ledger.Defs.{EntryKey, Entry, Account}
use api_score.Ledger.Service.{AppendInput, AppendResult, find_entry, lock_account, append}
use api_score.Ledger.Checks.{DailyAggregates, daily_aggregates, InvariantReport, verify_invariant}
use api_score.Control.Defs.{ControlRow}
use api_score.Control.Service.{lock_for_execution, assert_clock_within_tolerance, read_control}
use api_score.Control.Changes.{active_policy}
use api_score.Engine.Defs.{
  Store, EngineEnv, ReserveStakeRequest, ReservationResult, reserved, rejected, Attempt, ◌>>=◌,
  ◌>>◌, pure, gets, lift, signal, on_ledger, on_control, utc_day_start, quote_age, apply_stop,
}

-- The entry of a movement of a stake.
abbrev pub stake_entry :
    LedgerEntryType → EntryKey → ℤ → Option ℤ → Option ℕ → Option ℕ → AppendInput
stake_entry type key stake payout order actor = record {
  type = type;
  entry_key = key;
  movement = record { stake_cents = some stake; payout_cents = payout; adjustment_cents = none };
  order_id = order;
  actor_user_id = actor;
}

abbrev pub reserved_by : AppendResult × Account → ReservationResult
reserved_by (r, _) = reserved r.entry r.replayed

-- The key is used: the same reservation again, without a check of the ceilings.
unfoldable pub replay_reservation : ReserveStakeRequest → Attempt ReservationResult
replay_reservation request = do
  account ← on_ledger (lock_account request.account_id)
  stake ← lift (to_cents request.stake)
  appended ← on_ledger (append account (stake_entry reserve request.entry_key stake none none none))
  pure (reserved appended.0.entry true)

-- The verdict on a request whose account and policy are known.
unfoldable pub settle_verdict :
    ReserveStakeRequest → Account → ℤ → RiskVerdict → Attempt ReservationResult
settle_verdict request account stake passed = do
  appended ← on_ledger (
      append account
        (stake_entry reserve request.entry_key stake none request.order_id request.actor_user_id))
  pure (reserved_by appended)
settle_verdict request account stake (refused code limit none) = pure (rejected code (some limit))
settle_verdict request account stake (refused code limit (some t)) =
    signal t >> pure (rejected code (some limit))

-- The input of the risk check, from the account, the policy, the day so far and the quote.
abbrev pub risk_input :
    EngineEnv → ReserveStakeRequest → RiskPolicy → Account → DailyAggregates → ℤ → RiskInput
risk_input env request policy account daily stake = record {
  policy = policy;
  stake_cents = stake;
  available_cents = account.available;
  reserved_cents = account.reserved;
  daily_staked_cents = daily.staked_cents;
  daily_settled_pnl_cents = daily.settled_pnl_cents;
  quote_age_ms = quote_age env.now request.quote_captured_at;
}

-- The check of the ceilings, for an account that fits the mode and the policy.
unfoldable pub reserve_matched :
    EngineEnv → ReserveStakeRequest → RiskPolicy → Account → Attempt ReservationResult
reserve_matched env request policy account = do
  daily ← on_ledger (daily_aggregates account.id (utc_day_start env.now))
  stake ← lift (to_cents request.stake)
  settle_verdict request account stake
      (evaluate_risk (risk_input env request policy account daily stake))

abbrev pub fits : ControlRow → RiskPolicy → Account → Bool
fits row policy account =
    stored_mode_eq account.mode row.mode && account.currency == policy.currency

abbrev pub reserve_fitting :
    Bool → EngineEnv → ReserveStakeRequest → RiskPolicy → Account → Attempt ReservationResult
reserve_fitting true env request policy account = reserve_matched env request policy account
reserve_fitting false env request policy account = pure (rejected risk_check_failed none)

-- From the policy on.
unfoldable pub reserve_under :
    EngineEnv → ReserveStakeRequest → ControlRow → Option RiskPolicy → Attempt ReservationResult
reserve_under env request row none =
    signal control_unreadable >> pure (rejected risk_check_failed none)
reserve_under env request row (some policy) = do
  account ← on_ledger (lock_account request.account_id)
  reserve_fitting (fits row policy account) env request policy account

-- The clock is checked; its failure is signalled and thrown on.
abbrev pub check_clock : EngineEnv → Attempt (Unit {0})
check_clock env s = elim (assert_clock_within_tolerance env.control s) [
  | ok r ↦ (none, ok r)
  | err e ↦ (some clock_out_of_tolerance, err e)
]

unfoldable pub reserve_new :
    EngineEnv → ReserveStakeRequest → ControlRow → Attempt ReservationResult
reserve_new env request row = do
  check_clock env
  policy ← gets (λ s. active_policy row.active_risk_policy_id s.control.policies)
  reserve_under env request row policy

abbrev pub reserve_found :
    EngineEnv → ReserveStakeRequest → ControlRow → Option Entry → Attempt ReservationResult
reserve_found env request row none = reserve_new env request row
reserve_found env request row (some _) = replay_reservation request

-- `reserveWithin`
unfoldable pub reserve_within : EngineEnv → ReserveStakeRequest → Attempt ReservationResult
reserve_within env request = do
  row ← on_control (lock_for_execution env.control)
  existing ← gets (λ s. find_entry request.entry_key s.ledger.entries)
  reserve_found env request row existing

-- `classifyReservationError`: the refusal that a throw becomes, and the stop that it asks for.
unfoldable pub classify_reservation_error :
    Failure → Option AutoStopTrigger → ReservationResult × Option AutoStopTrigger
classify_reservation_error (blocked true) pending =
    (rejected control_disabled none, some control_unreadable)
classify_reservation_error (blocked false) pending = (rejected control_disabled none, pending)
classify_reservation_error (ledger_rule _) pending =
    (rejected risk_check_failed (some available_balance), pending)
classify_reservation_error (http _) none = (rejected risk_check_failed none, none)
classify_reservation_error (http _) (some t) = (rejected risk_check_failed none, some t)
classify_reservation_error other none = (rejected risk_check_failed none, some control_unreadable)
classify_reservation_error other (some t) = (rejected risk_check_failed none, some t)

-- The outcome of the transaction: committed, or rolled back and classified.
abbrev pub concluded :
    EngineEnv
    → Store
    → Option AutoStopTrigger × Result (ReservationResult × Store)
    → ReservationResult × Store
concluded env s (stop, ok (r, s')) = (r, apply_stop env stop s')
concluded env s (stop, err e) =
    let (r, stop') = classify_reservation_error e stop in (r, apply_stop env stop' s)

-- `reserveStake`
unfoldable pub reserve_stake : EngineEnv → ReserveStakeRequest → Store → ReservationResult × Store
reserve_stake env request s = concluded env s (reserve_within env request s)

-- `releaseStake`: allowed while execution is stopped.
unfoldable pub release_stake : ℕ → EntryKey → Text → Option ℕ → Attempt Entry
release_stake account_id key text order = do
  account ← on_ledger (lock_account account_id)
  stake ← lift (to_cents text)
  appended ← on_ledger (append account (stake_entry release key stake none order none))
  pure appended.0.entry

abbrev pub loss_reached : Option RiskPolicy → DailyAggregates → Bool
loss_reached none daily = false
loss_reached (some p) daily = leb_ℤ p.max_daily_loss (max_zero (neg daily.settled_pnl_cents))

-- The transaction of `settleStake`.
unfoldable pub settle_within :
    EngineEnv → ℕ → EntryKey → Text → Text → Option ℕ → Attempt (Entry × Bool)
unfolding neg
settle_within env account_id key stake_text payout_text order = do
  account ← on_ledger (lock_account account_id)
  stake ← lift (to_cents stake_text)
  payout ← lift (to_cents payout_text)
  appended ← on_ledger (append account (stake_entry settle key stake (some payout) order none))
  policy ← gets (λ s.
      active_policy (read_control env.control s.control).active_risk_policy_id s.control.policies)
  daily ← on_ledger (daily_aggregates account.id (utc_day_start env.now))
  pure (appended.0.entry, loss_reached policy daily)

abbrev pub settled :
    EngineEnv
    → Store
    → Option AutoStopTrigger × Result ((Entry × Bool) × Store)
    → Result Entry × Store
settled env s (_, ok ((e, true), s')) = (ok e, apply_stop env (some daily_limit_reached) s')
settled env s (_, ok ((e, false), s')) = (ok e, s')
settled env s (_, err f) = (err f, s)

-- `settleStake`
unfoldable pub settle_stake :
    EngineEnv → ℕ → EntryKey → Text → Text → Option ℕ → Store → Result Entry × Store
settle_stake env account_id key stake payout order s =
    settled env s (settle_within env account_id key stake payout order s)

-- `checkLedgerInvariant`
abbrev pub checked_invariant : EngineEnv → Store → Result InvariantReport → Result Bool × Store
checked_invariant env s (err e) = (err e, s)
checked_invariant env s (ok report) =
    if report.is_ok
    then (ok true, s)
    else (ok false, apply_stop env (some ledger_invariant_broken) s)

abbrev pub report_only : {A S : Type 0} → Result (A × S) → Result A
report_only (ok (a, _)) = ok a
report_only (err e) = err e

unfoldable pub check_ledger_invariant : EngineEnv → ℕ → Store → Result Bool × Store
check_ledger_invariant env account_id s =
    checked_invariant env s (report_only (verify_invariant account_id s.ledger))
