-- ===== src/Examples/Suggestions.antt =====
-- Runs of the rules on concrete inputs.
use api_score.Base.{◌≡◌, refl, none, some, [], ◌∷◌, ℕ}
use api_score.Base.Int.{pos, negsuc, ◌+ℤ◌, neg}
use api_score.Base.Rows.{length}
use api_score.Base.Quantifiers.{AllOf}
use api_score.Outcome.{h1, is_first_half}
use api_score.Rules.{
  TeamInputSignals, RuleEvaluationInput, SmartRulesConfig, SignalType, MarketOdds,
}
use api_score.Rules.Halves.{evaluate_rules}
use api_score.Rules.Founded.{IsFounded}
use api_score.Rules.Suggested.{evaluate_rules-IsFounded}

abbrev odds : MarketOdds
odds = record { min = 1600; edge_pct = 125; confidence = 70 }

-- 4 shots before minute 20, 6 before minute 30; 5 in the second half before minute 60.
abbrev config : SmartRulesConfig
config = record {
  signal = some SignalType.total_shots;
  score_state_modifiers = some (record { leading = pos 1; trailing = negsuc 0; drawing = pos 0 });
  first_half_rules =
      record { max_elapsed = 20; min_shots = pos 4 }
      ∷ record { max_elapsed = 30; min_shots = pos 6 }
      ∷ [];
  second_half_rule = record { max_elapsed = 60; min_shots = pos 5 };
  first_half_ht = odds;
  first_half_ft = odds;
  second_half = odds;
}

abbrev team : ℕ → ℕ → TeamInputSignals
team id shots = record {
  team_id = id;
  total_shots = some (pos shots);
  shots_on_target = none;
  pressure_index = none;
}

-- Minute 25, one goal up.
abbrev first_half : RuleEvaluationInput
first_half = record {
  elapsed = 25;
  status_short = h1;
  home = team 1 7;
  away = team 2 4;
  ht_shots = none;
  ht_on_target = none;
  ht_pressure = none;
  score_home = some 1;
  score_away = some 0;
}

evaluate_rules-two : length (evaluate_rules first_half config) ≡ 2
unfolding evaluate_rules is_first_half ◌+ℤ◌ neg
evaluate_rules-two = refl

evaluate_rules-IsFounded_example :
    AllOf (IsFounded first_half config) (evaluate_rules first_half config)
evaluate_rules-IsFounded_example = evaluate_rules-IsFounded first_half config
