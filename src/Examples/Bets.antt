-- ===== src/Examples/Bets.antt =====
-- Runs of the resolution of bets on concrete inputs.
use api_score.Base.{◌≡◌, ◌≢◌, ◌↔◌, inr, refl, true, none, some, arith}
use api_score.Outcome.{
  ResolvableBet, FinalMatchState, first_half_goals, won, lost, void, h1, ft, susp, live, is_void,
  resolve_outcome, resolve_settlement, is_first_half, is_post_ht,
}
use api_score.Outcome.Settlement.{IsUndecided, resolve_settlement_void_iff}
use api_score.Outcome.Final.{resolve_outcome_won_final}

abbrev first_half_bet : ResolvableBet
first_half_bet = record { market_type = first_half_goals; is_home_team = true }

-- Interrupted in the first half, with a goal.
abbrev suspended : FinalMatchState
suspended = record {
  status_short = susp;
  score_home = some 1;
  score_away = some 0;
  ht_score_home = none;
  ht_score_away = none;
}

resolve_settlement_void_iff_example :
    (resolve_settlement first_half_bet suspended ≡ some void)
    ↔ IsUndecided first_half_goals (some 1) none
unfolding is_void
resolve_settlement_void_iff_example = resolve_settlement_void_iff first_half_bet suspended refl

resolve_settlement-suspended : resolve_settlement first_half_bet suspended ≡ some void
unfolding resolve_settlement resolve_outcome is_void is_first_half is_post_ht
resolve_settlement-suspended = refl

-- The same goal, a minute before.
resolve_outcome-running :
    resolve_outcome first_half_bet (record suspended { status_short = h1 }) ≡ some won
unfolding resolve_outcome is_void is_first_half
resolve_outcome-running = refl

abbrev ended : FinalMatchState
ended = record {
  status_short = ft;
  score_home = some 2;
  score_away = some 0;
  ht_score_home = some 1;
  ht_score_away = some 0;
}

resolve_outcome_won_final_example : resolve_outcome first_half_bet ended ≢ some lost
unfolding is_void is_first_half
resolve_outcome_won_final_example =
    resolve_outcome_won_final first_half_bet (record suspended { status_short = h1 }) ended
      (record { grows = omega arith; half_time = inr (refl, refl, omega arith) }) refl
      resolve_outcome-running

-- Minute 75, which the provider's status turns into LIVE: a goal of the second half, after a first
-- half without one, wins a bet on the first half.
resolve_outcome-live :
    resolve_outcome first_half_bet (record {
      status_short = live;
      score_home = some 1;
      score_away = some 0;
      ht_score_home = some 0;
      ht_score_away = some 0;
    })
    ≡ some won
unfolding resolve_outcome is_void is_first_half
resolve_outcome-live = refl
