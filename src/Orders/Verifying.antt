-- ===== src/Orders/Verifying.antt =====
-- The transaction of `submit`: the order is checked again under the locks, just before it is handed
-- to the operator.
use api_score.Base.{ℕ, Bool, true, false, not, ◌||◌, Option, none, some, ltb, if◌then◌else◌}
use api_score.Base.Int.{ℤ, pos, ltb_ℤ}
use api_score.Base.Tx.{Result, ok, err, Failure, blocked, Tx, pure, gets, ◌>>=◌, ◌>>◌}
use api_score.Domain.{
  stored_mode_eq, OrderStatus, RejectionCode, control_disabled, no_executable_odd, stale_odd,
  odd_moved, risk_check_failed, AutoStopTrigger, control_unreadable, stale_or_suspended_odd,
}
use api_score.Risk.{RiskPolicy}
use api_score.Control.Defs.{ControlRow}
use api_score.Control.Service.{lock_for_execution}
use api_score.Control.Changes.{active_policy}
use api_score.Operator.{OperatorQuote}
use api_score.Engine.Defs.{quote_age}
use api_score.Orders.Defs.{Order, OrderStore, OrderEnv, status_eq}
use api_score.Orders.Steps.{lock_order, transition}
use api_score.Orders.Reserving.{on_switch}

-- What the transaction of `submit` comes to: the order as it is, a cancellation with the stop that
-- it asks for, or the order under submission.
pub data Verdict : Type 0 where
  as_it_is : Order → Verdict
  cancels : RejectionCode → Option AutoStopTrigger → Verdict
  submits : Order → Verdict

abbrev pub age_is_stale : Option ℤ → ℤ → Bool
age_is_stale none ceiling = false
age_is_stale (some age) ceiling = ltb_ℤ age (pos 0) || ltb_ℤ ceiling age

abbrev pub is_late : Option RiskPolicy → Option ℤ → Bool
is_late none age = true
is_late (some p) age = age_is_stale age p.max_quote_age_ms

-- The checks of the quote before a submission: the refusal, or the odd.
pub data QuoteCheck : Type 0 where
  refuses : RejectionCode → Option AutoStopTrigger → QuoteCheck
  offers : ℕ → QuoteCheck

abbrev pub check_quote : ℕ → Option RiskPolicy → ℕ → Option OperatorQuote → QuoteCheck
check_quote now policy minimum none = refuses no_executable_odd none
check_quote now policy minimum (some q) =
    if not q.available
    then refuses no_executable_odd none
    else if is_late policy (quote_age now q.captured_at)
    then refuses stale_odd (some stale_or_suspended_odd)
    else if ltb q.odd_value minimum
    then refuses odd_moved none
    else offers q.odd_value

abbrev pub order_submitting : ℕ → ℕ → Order → Order
order_submitting odd now o = record o {
  status = OrderStatus.submitting;
  requested_odd = odd;
  submitted_at = some now;
}

abbrev pub verify_checked : ℕ → Order → QuoteCheck → Tx OrderStore Verdict
verify_checked now o (refuses code stop) = pure (cancels code stop)
verify_checked now o (offers odd) = do
  transition o.id o.version (order_submitting odd now)
  row ← lock_order o.id
  pure (submits row)

abbrev pub verify_mode :
    Bool → ℕ → ControlRow → Option OperatorQuote → Order → Tx OrderStore Verdict
verify_mode false now control quote o = pure (cancels control_disabled none)
verify_mode true now control quote o = do
  policy ← gets (λ s. active_policy control.active_risk_policy_id s.engine.control.policies)
  verify_checked now o (check_quote now policy o.minimum_odd quote)

abbrev pub verify_locked :
    Bool → ℕ → ControlRow → Option OperatorQuote → Order → Tx OrderStore Verdict
verify_locked false now control quote o = pure (as_it_is o)
verify_locked true now control quote o =
    verify_mode (stored_mode_eq control.mode o.mode) now control quote o

-- The transaction of `submit`.
unfoldable pub verify : OrderEnv → ℕ → Option OperatorQuote → Tx OrderStore Verdict
unfolding lock_order transition
verify env id quote = do
  control ← on_switch (lock_for_execution env.engine.control)
  o ← lock_order id
  verify_locked (status_eq o.status OrderStatus.reserved) env.engine.now control quote o

abbrev pub verdict_of_failure : Failure → Verdict
verdict_of_failure (blocked true) = cancels control_disabled (some control_unreadable)
verdict_of_failure (blocked false) = cancels control_disabled none
verdict_of_failure _ = cancels risk_check_failed none

abbrev pub caught : OrderStore → Result (Verdict × OrderStore) → Verdict × OrderStore
caught s (ok r) = r
caught s (err f) = (verdict_of_failure f, s)
