-- ===== src/Risk/Limits.antt =====
-- What a verdict of the risk engine says about the amounts.
use api_score.Base.{◌≡◌, ◌↔◌, ◌⊎◌, Option, none, some, arith}
use api_score.Base.Int.{ℤ, pos, neg, ◌+ℤ◌, ◌≤ℤ◌, ◌<ℤ◌, max_zero, int_laws, +ℤ_parts}
use api_score.Domain.{AutoStopTrigger, stale_or_suspended_odd, daily_limit_reached}
use api_score.Risk.{RiskInput, RiskVerdict, passed, refused, evaluate_risk}

abbrev pub IsFresh : Option ℤ → ℤ → Type 0
IsFresh none ceiling = ⊥
IsFresh (some age) ceiling = (pos 0 ≤ℤ age) × (age ≤ℤ ceiling)

-- A reservation within every ceiling of the policy; a ceiling that is met exactly is respected,
-- but for the loss of the day, which must stay below its ceiling.
pub record IsWithinLimits (i : RiskInput) : Type 0 where
  pub fresh : IsFresh i.quote_age_ms i.policy.max_quote_age_ms
  pub positive : pos 0 <ℤ i.stake_cents
  pub per_bet : i.stake_cents ≤ℤ i.policy.max_stake_per_bet
  pub loss : max_zero (neg i.daily_settled_pnl_cents) <ℤ i.policy.max_daily_loss
  pub per_day : i.daily_staked_cents +ℤ i.stake_cents ≤ℤ i.policy.max_daily_stake
  pub exposure : i.reserved_cents +ℤ i.stake_cents ≤ℤ i.policy.max_open_exposure
  pub covered : i.stake_cents ≤ℤ i.available_cents

evaluate_risk_sound : (i : RiskInput) → evaluate_risk i ≡ passed → IsWithinLimits i
unfolding evaluate_risk
evaluate_risk_sound i h = ground arith

evaluate_risk_complete : (i : RiskInput) → IsWithinLimits i → evaluate_risk i ≡ passed
unfolding evaluate_risk
evaluate_risk_complete i h = ground arith

-- A reservation passes exactly when it is within every ceiling.
pub evaluate_risk_iff : (i : RiskInput) → (evaluate_risk i ≡ passed) ↔ IsWithinLimits i
evaluate_risk_iff i = (evaluate_risk_sound i, evaluate_risk_complete i)

abbrev pub stop_of : RiskVerdict → Option AutoStopTrigger
stop_of passed = none
stop_of (refused _ _ stop) = stop

-- The day's budget or the day's loss is used up, seen by a request that is otherwise in order.
pub record IsDayOver (i : RiskInput) : Type 0 where
  pub fresh : IsFresh i.quote_age_ms i.policy.max_quote_age_ms
  pub positive : pos 0 <ℤ i.stake_cents
  pub per_bet : i.stake_cents ≤ℤ i.policy.max_stake_per_bet
  pub spent :
      (i.policy.max_daily_loss ≤ℤ max_zero (neg i.daily_settled_pnl_cents))
      ⊎ (i.policy.max_daily_stake ≤ℤ i.daily_staked_cents)

stop_day_sound :
    (i : RiskInput) → stop_of (evaluate_risk i) ≡ some daily_limit_reached → IsDayOver i
unfolding evaluate_risk
stop_day_sound i h = ground arith

stop_day_complete :
    (i : RiskInput) → IsDayOver i → stop_of (evaluate_risk i) ≡ some daily_limit_reached
unfolding evaluate_risk
stop_day_complete i h = ground (arith, +ℤ_parts i.daily_staked_cents i.stake_cents)

stop_stale_sound :
    (i : RiskInput)
    → stop_of (evaluate_risk i) ≡ some stale_or_suspended_odd
    → ¬ (IsFresh i.quote_age_ms i.policy.max_quote_age_ms)
unfolding evaluate_risk
stop_stale_sound i h f = ground arith

stop_stale_complete :
    (i : RiskInput)
    → ¬ (IsFresh i.quote_age_ms i.policy.max_quote_age_ms)
    → stop_of (evaluate_risk i) ≡ some stale_or_suspended_odd
unfolding evaluate_risk
stop_stale_complete i h = ground arith

-- A refusal asks for a stop because of the quote exactly when the quote is not fresh, and because
-- of the day exactly when an otherwise ordinary request meets a day whose budget or loss is used up.
stop_of-evaluate_risk :
    (i : RiskInput)
    → ((stop_of (evaluate_risk i) ≡ some stale_or_suspended_odd)
        ↔ (¬ (IsFresh i.quote_age_ms i.policy.max_quote_age_ms)))
      × ((stop_of (evaluate_risk i) ≡ some daily_limit_reached) ↔ IsDayOver i)
stop_of-evaluate_risk i =
    ((stop_stale_sound i, stop_stale_complete i), (stop_day_sound i, stop_day_complete i))

-- If a stake passes, every smaller positive stake passes in the same situation.
evaluate_risk_smaller :
    (i : RiskInput) (stake : ℤ)
    → evaluate_risk i ≡ passed
    → pos 0 <ℤ stake
    → stake ≤ℤ i.stake_cents
    → evaluate_risk (record i { stake_cents = stake }) ≡ passed
evaluate_risk_smaller i stake h p le =
    let w = evaluate_risk_sound i h in
    evaluate_risk_complete (record i { stake_cents = stake })
      (record {
        fresh = w.fresh;
        positive = p;
        per_bet = omega arith;
        loss = w.loss;
        per_day = omega (int_laws, w.per_day);
        exposure = omega (int_laws, w.exposure);
        covered = omega (arith, w.covered);
      })
