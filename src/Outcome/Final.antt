-- ===== src/Outcome/Final.antt =====
-- A bet that is won stays so, as long as the match goes on in order.
use api_score.Base.{ℕ, ◌≡◌, ◌≢◌, ◌≤◌, ◌⊎◌, true, false, Option, none, some, arith}
use api_score.Outcome.{
  ResolvableBet, FinalMatchState, MarketType, won, lost, StatusShort, is_void, team_score,
  team_ht_score, resolve_outcome, market_outcome, is_post_ht, is_first_half, is_finished,
}

-- A known score stays known and does not fall.
abbrev pub Grows : Option ℕ → Option ℕ → Type 0
Grows none b = Unit {0}
Grows (some n) none = ⊥
Grows (some n) (some m) = n ≤ m

-- The score of a half that is closed is at least what was scored while it ran.
abbrev pub Covers : Option ℕ → Option ℕ → Type 0
Covers none b = Unit {0}
Covers (some n) none = Unit {0}
Covers (some n) (some h) = n ≤ h

-- A later state of the same team's match: its score does not fall, and its half-time score is as
-- before, or, while a first half runs (1H or LIVE), unknown before and now unknown or covering what
-- was scored.
pub record IsLater (status status' : StatusShort) (score score' ht_score ht_score' : Option ℕ)
    : Type 0 where
  pub grows : Grows score score'
  pub half_time :
      ((is_first_half status ≡ false) × (ht_score' ≡ ht_score))
      ⊎ ((is_first_half status ≡ true) × (ht_score ≡ none) × Covers score ht_score')

market_won_final :
    (m : MarketType) (status status' : StatusShort) (score score' ht_score ht_score' : Option ℕ)
    → IsLater status status' score score' ht_score ht_score'
    → market_outcome m status score ht_score ≡ some won
    → market_outcome m status' score' ht_score' ≢ some lost
unfolding is_first_half is_post_ht is_finished
market_won_final m status status' score score' ht_score ht_score' l h = λ e. ground arith

-- A bet that is won is not lost in a later state, unless that state is of an interrupted match.
-- Later means that the team's score has not fallen, and that its half-time score either is as it was,
-- the earlier status being none of a running first half (1H or LIVE), or was unknown, the earlier
-- status being one of these, and is now unknown or not below the score of then.
pub resolve_outcome_won_final :
    (bet : ResolvableBet) (state state' : FinalMatchState)
    → IsLater state.status_short state'.status_short
        (team_score bet state)
        (team_score bet state')
        (team_ht_score bet state)
        (team_ht_score bet state')
    → is_void state'.status_short ≡ false
    → resolve_outcome bet state ≡ some won
    → resolve_outcome bet state' ≢ some lost
unfolding resolve_outcome
resolve_outcome_won_final bet state state' later running h =
    let before : market_outcome bet.market_type state.status_short (team_score bet state)
          (team_ht_score bet state)
        ≡ some won =
      ground arith in
    let kept =
      market_won_final bet.market_type state.status_short state'.status_short (team_score bet state)
        (team_score bet state') (team_ht_score bet state) (team_ht_score bet state') later before in
    rw running kept
