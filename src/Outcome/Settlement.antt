-- ===== src/Outcome/Settlement.antt =====
-- What `resolveSettlement` pays back, and how it differs from `resolveOutcome`.
use api_score.Base.{ℕ, ◌≡◌, ◌≤◌, ◌↔◌, true, Option, none, some, arith}
use api_score.Outcome.{
  ResolvableBet, FinalMatchState, MarketType, first_half_goals, match_goals, second_half_goals,
  other_market, lost, void, is_void, team_score, team_ht_score, resolve_outcome, resolve_settlement,
  is_post_ht, is_first_half, is_finished,
}

-- The team has no goal that the scores show: in the first half, in the match, in the second half.
abbrev pub IsScoreless : Option ℕ → Type 0
IsScoreless none = Unit {0}
IsScoreless (some n) = n ≡ 0

abbrev pub IsLevel : Option ℕ → Option ℕ → Type 0
IsLevel (some n) (some h) = n ≤ h
IsLevel _ _ = Unit {0}

abbrev pub IsUndecided : MarketType → Option ℕ → Option ℕ → Type 0
IsUndecided first_half_goals score ht_score = ht_score ≡ none
IsUndecided match_goals score ht_score = IsScoreless score
IsUndecided second_half_goals score ht_score = IsLevel score ht_score
IsUndecided other_market score ht_score = Unit {0}

-- On an interrupted match the stake is paid back exactly when the scores do not decide the bet,
-- where a bet on the first half counts as undecided whenever the score of the half is not known.
pub resolve_settlement_void_iff :
    (bet : ResolvableBet) (state : FinalMatchState)
    → is_void state.status_short ≡ true
    → (resolve_settlement bet state ≡ some void)
      ↔ IsUndecided bet.market_type (team_score bet state) (team_ht_score bet state)
unfolding resolve_settlement resolve_outcome is_void is_first_half is_post_ht is_finished
resolve_settlement_void_iff bet state h = (λ e. ground arith, λ u. ground arith)

-- An interrupted match loses a bet only on the first half, and only with a known half-time score
-- of zero, whereas `resolve_outcome` loses every bet on it.
resolve_settlement_lost :
    (bet : ResolvableBet) (state : FinalMatchState)
    → is_void state.status_short ≡ true
    → ((resolve_settlement bet state ≡ some lost)
        ↔ ((bet.market_type ≡ first_half_goals) × (team_ht_score bet state ≡ some 0)))
      × (resolve_outcome bet state ≡ some lost)
unfolding resolve_settlement resolve_outcome is_void is_first_half is_post_ht is_finished
resolve_settlement_lost bet state h = ((λ e. ground arith, λ u. ground arith), ground arith)
