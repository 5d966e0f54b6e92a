-- ===== src/Risk.antt =====
-- The ceilings of a reservation: `evaluateRisk` of backend/src/execution/risk-engine.service.ts
-- and the entity RiskPolicy.
pub mod Limits
use api_score.Base.{ℕ, Bool, true, false, not, ◌||◌, Option, none, some, if◌then◌else◌}
use api_score.Base.Int.{ℤ, pos, ◌+ℤ◌, neg, ltb_ℤ, leb_ℤ, max_zero}
use api_score.Domain.{
  RejectionCode, stale_odd, limit_exceeded, AutoStopTrigger, stale_or_suspended_odd,
  daily_limit_reached, RiskLimit, max_stake_per_bet, daily_stake, daily_loss, open_exposure,
  available_balance, quote_age,
}

-- Amounts in cents.
pub record RiskPolicy : Type 0 where
  pub id : ℕ
  pub version : ℕ
  pub currency : ℕ
  pub max_stake_per_bet : ℤ
  pub max_daily_stake : ℤ
  pub max_daily_loss : ℤ
  pub max_open_exposure : ℤ
  pub max_quote_age_ms : ℤ

-- `quote_age_ms` is `none` where the source's number is not finite.
pub record RiskInput : Type 0 where
  pub policy : RiskPolicy
  pub stake_cents : ℤ
  pub available_cents : ℤ
  pub reserved_cents : ℤ
  pub daily_staked_cents : ℤ
  pub daily_settled_pnl_cents : ℤ
  pub quote_age_ms : Option ℤ

pub data RiskVerdict : Type 0 where
  passed : RiskVerdict
  refused : RejectionCode → RiskLimit → Option AutoStopTrigger → RiskVerdict

-- Not finite, negative, or above the ceiling.
abbrev pub is_stale : Option ℤ → ℤ → Bool
is_stale none ceiling = true
is_stale (some age) ceiling = ltb_ℤ age (pos 0) || ltb_ℤ ceiling age

unfoldable pub evaluate_risk : RiskInput → RiskVerdict
unfolding neg
evaluate_risk input =
    if is_stale input.quote_age_ms policy.max_quote_age_ms
    then refused stale_odd quote_age (some stale_or_suspended_odd)
    else if not (ltb_ℤ (pos 0) input.stake_cents)
        || ltb_ℤ policy.max_stake_per_bet input.stake_cents
    then refused limit_exceeded RiskLimit.max_stake_per_bet none
    else if leb_ℤ policy.max_daily_loss (max_zero (neg input.daily_settled_pnl_cents))
    then refused limit_exceeded daily_loss (some daily_limit_reached)
    else if ltb_ℤ policy.max_daily_stake (input.daily_staked_cents +ℤ input.stake_cents)
    then refused limit_exceeded daily_stake (
        if leb_ℤ policy.max_daily_stake input.daily_staked_cents
        then some daily_limit_reached
        else none)
    else if ltb_ℤ policy.max_open_exposure (input.reserved_cents +ℤ input.stake_cents)
    then refused limit_exceeded open_exposure none
    else if ltb_ℤ input.available_cents input.stake_cents
    then refused limit_exceeded available_balance none
    else passed
  where
    open input use {policy}
