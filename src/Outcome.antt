-- ===== src/Outcome.antt =====
-- How a bet on goals is decided: backend/src/recommendations/rules/outcome-resolver.ts.
pub mod Settlement
pub mod Final
use api_score.Base.{ℕ, Bool, true, false, not, ◌&&◌, ◌||◌, Option, none, some, ltb, if◌then◌else◌}

-- The market, by its text; any other text is `other_market`.
pub data MarketType : Type 0 where
  first_half_goals match_goals second_half_goals other_market : MarketType

-- The codes that the code names, in the vocabulary of `normalizeApifootballStatus`.
pub data StatusShort : Type 0 where
  h1 live ht h2 et bt p ft aet pen awd wo : StatusShort
  canc pst int susp abd tbd other_status : StatusShort

pub record ResolvableBet : Type 0 where
  pub market_type : MarketType
  pub is_home_team : Bool

pub record FinalMatchState : Type 0 where
  pub status_short : StatusShort
  pub score_home : Option ℕ
  pub score_away : Option ℕ
  pub ht_score_home : Option ℕ
  pub ht_score_away : Option ℕ

pub data Outcome : Type 0 where
  won lost void : Outcome

-- FIRST_HALF_STATUSES of rules-evaluator.ts
unfoldable pub is_first_half : StatusShort → Bool
is_first_half h1 = true
is_first_half live = true
is_first_half _ = false

-- POST_HT_STATUSES
unfoldable pub is_post_ht : StatusShort → Bool
is_post_ht ht = true
is_post_ht h2 = true
is_post_ht et = true
is_post_ht bt = true
is_post_ht p = true
is_post_ht ft = true
is_post_ht aet = true
is_post_ht pen = true
is_post_ht awd = true
is_post_ht wo = true
is_post_ht _ = false

-- FINISHED_STATUSES
unfoldable pub is_finished : StatusShort → Bool
is_finished ft = true
is_finished aet = true
is_finished pen = true
is_finished awd = true
is_finished wo = true
is_finished _ = false

-- VOID_STATUSES
unfoldable pub is_void : StatusShort → Bool
is_void canc = true
is_void pst = true
is_void int = true
is_void susp = true
is_void abd = true
is_void tbd = true
is_void wo = true
is_void _ = false

abbrev pub team_score : ResolvableBet → FinalMatchState → Option ℕ
team_score bet state = if bet.is_home_team then state.score_home else state.score_away

abbrev pub team_ht_score : ResolvableBet → FinalMatchState → Option ℕ
team_ht_score bet state = if bet.is_home_team then state.ht_score_home else state.ht_score_away

-- `score != null && score > 0`
abbrev pub has_scored : Option ℕ → Bool
has_scored none = false
has_scored (some n) = ltb 0 n

-- "Buts 1ère mi-temps"
abbrev pub closed_first_half : Option ℕ → Option Outcome
closed_first_half none = none
closed_first_half (some n) = if ltb 0 n then some won else some lost

abbrev pub first_half_outcome : StatusShort → Option ℕ → Option ℕ → Option Outcome
first_half_outcome status score ht_score =
    if is_first_half status
    then (if has_scored score then some won else none)
    else if is_post_ht status
    then closed_first_half ht_score
    else none

-- "Buts match"
abbrev pub match_outcome : StatusShort → Option ℕ → Option Outcome
match_outcome status score =
    if has_scored score then some won else if is_finished status then some lost else none

-- A goal of the second half, as far as the two scores show it.
abbrev pub second_half_goal : StatusShort → Option ℕ → Option ℕ → Bool
second_half_goal status none ht_score = false
second_half_goal status (some n) (some h) = ltb h n
second_half_goal status (some n) none = is_finished status && ltb 0 n

-- "Buts 2ème mi-temps"
abbrev pub second_half_outcome : StatusShort → Option ℕ → Option ℕ → Option Outcome
second_half_outcome status score ht_score =
    if second_half_goal status score ht_score
    then some won
    else if is_finished status
    then some lost
    else none

abbrev pub market_outcome : MarketType → StatusShort → Option ℕ → Option ℕ → Option Outcome
market_outcome first_half_goals status score ht_score = first_half_outcome status score ht_score
market_outcome match_goals status score ht_score = match_outcome status score
market_outcome second_half_goals status score ht_score = second_half_outcome status score ht_score
market_outcome other_market status score ht_score = none

unfoldable pub resolve_outcome : ResolvableBet → FinalMatchState → Option Outcome
resolve_outcome bet state =
    if is_void state.status_short
    then some lost
    else market_outcome bet.market_type state.status_short (team_score bet state)
        (team_ht_score bet state)

abbrev pub or_void : Option Outcome → Option Outcome
or_void none = some void
or_void (some o) = some o

unfoldable pub resolve_settlement : ResolvableBet → FinalMatchState → Option Outcome
resolve_settlement bet state =
    let interrupted = resolve_outcome bet (record state { status_short = h2 }) in
    if is_void state.status_short then or_void interrupted else resolve_outcome bet state
