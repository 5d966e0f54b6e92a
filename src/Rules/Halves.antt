-- ===== src/Rules/Halves.antt =====
-- `evaluateFirstHalf`, `evaluateSecondHalf` and `evaluateRules`.
use api_score.Base.{
  Bool, true, false, ◌||◌, not, Option, none, some, List, [], ◌∷◌, ◌++◌, ltb, leb, if◌then◌else◌,
}
use api_score.Base.Int.{ℤ, ◌+ℤ◌, neg, max_zero}
use api_score.Outcome.{
  StatusShort, h2, live, is_first_half, MarketType, first_half_goals, match_goals,
  second_half_goals,
}
use api_score.Rules.{
  SignalType, TeamInputSignals, RuleEvaluationInput, HalfRule, MarketOdds, SmartRulesConfig,
  RuleMatch, signal_value, find_matched_rule, threshold_offset_for, ht_baseline_for,
  signal_or_shots, max_window,
}

-- A suggestion of a team on a market, for a signal that reached its threshold.
abbrev pub match_on :
    RuleEvaluationInput
    → SignalType
    → TeamInputSignals
    → Bool
    → ℤ
    → ℤ
    → MarketType
    → MarketOdds
    → RuleMatch
match_on input signal team is_home shots threshold market odds = record {
  team_id = team.team_id;
  is_home_team = is_home;
  market_type = market;
  min_acceptable_odd = odds.min;
  edge_pct = odds.edge_pct;
  confidence_score = odds.confidence;
  signal_threshold = threshold;
  signal = signal;
  elapsed = input.elapsed;
  shots_count = shots;
}

abbrev pub first_half_suggested :
    RuleEvaluationInput
    → SmartRulesConfig
    → TeamInputSignals
    → Bool
    → ℤ
    → Option HalfRule
    → List RuleMatch
first_half_suggested input config team is_home shots none = []
first_half_suggested input config team is_home shots (some rule) =
    let signal = signal_or_shots config.signal in
    let threshold = rule.min_shots +ℤ threshold_offset_for input config is_home in
    match_on input signal team is_home shots threshold first_half_goals config.first_half_ht
    ∷ match_on input signal team is_home shots threshold match_goals config.first_half_ft
    ∷ []

-- One turn of the loop over the teams.
abbrev pub first_half_team :
    RuleEvaluationInput → SmartRulesConfig → TeamInputSignals → Bool → Option ℤ → List RuleMatch
first_half_team input config team is_home none = []
first_half_team input config team is_home (some shots) =
    first_half_suggested input config team is_home shots (
      find_matched_rule config.first_half_rules input.elapsed shots
        (threshold_offset_for input config is_home))

abbrev pub both_first_half : RuleEvaluationInput → SmartRulesConfig → List RuleMatch
both_first_half input config =
    let signal = signal_or_shots config.signal in
    first_half_team input config input.home true (signal_value input.home signal)
    ++ first_half_team input config input.away false (signal_value input.away signal)

-- `evaluateFirstHalf`
unfoldable pub evaluate_first_half : RuleEvaluationInput → SmartRulesConfig → List RuleMatch
evaluate_first_half input config =
    if not (is_first_half input.status_short)
      || ltb input.elapsed 1
      || leb (max_window config.first_half_rules) input.elapsed
    then []
    else both_first_half input config

-- SECOND_HALF_STATUSES
abbrev pub is_second_half : StatusShort → Bool
is_second_half h2 = true
is_second_half live = true
is_second_half _ = false

abbrev pub second_half_suggested :
    RuleEvaluationInput
    → SmartRulesConfig
    → TeamInputSignals
    → Bool
    → ℤ
    → Option HalfRule
    → List RuleMatch
second_half_suggested input config team is_home shots none = []
second_half_suggested input config team is_home shots (some rule) =
    match_on input (signal_or_shots config.signal) team is_home shots
      (rule.min_shots +ℤ threshold_offset_for input config is_home) second_half_goals
      config.second_half
    ∷ []

abbrev pub second_half_team :
    RuleEvaluationInput → SmartRulesConfig → TeamInputSignals → Bool → ℤ → Option ℤ → List RuleMatch
second_half_team input config team is_home baseline none = []
second_half_team input config team is_home baseline (some value) =
    let shots = max_zero (value +ℤ neg baseline) in
    second_half_suggested input config team is_home shots (
      find_matched_rule (config.second_half_rule ∷ []) input.elapsed shots
        (threshold_offset_for input config is_home))

abbrev pub both_second_half : RuleEvaluationInput → SmartRulesConfig → List RuleMatch
both_second_half input config =
    let signal = signal_or_shots config.signal in
    let baseline = ht_baseline_for input signal in
    second_half_team input config input.home true baseline.home (signal_value input.home signal)
    ++ second_half_team input config input.away false baseline.away (signal_value input.away signal)

-- `evaluateSecondHalf`
unfoldable pub evaluate_second_half : RuleEvaluationInput → SmartRulesConfig → List RuleMatch
evaluate_second_half input config =
    if not (is_second_half input.status_short)
      || ltb input.elapsed 45
      || leb config.second_half_rule.max_elapsed input.elapsed
    then []
    else both_second_half input config

-- `evaluateRules`
unfoldable pub evaluate_rules : RuleEvaluationInput → SmartRulesConfig → List RuleMatch
unfolding evaluate_first_half evaluate_second_half
evaluate_rules input config = evaluate_first_half input config ++ evaluate_second_half input config
