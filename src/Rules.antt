-- ===== src/Rules.antt =====
-- Which bets the rules suggest in a running match: backend/src/recommendations/rules/rules-evaluator.ts,
-- and the configuration of settings/smart-rules-config.service.ts. Signals and thresholds are
-- integers of one unit; odds and percentages are integers of one unit too.
pub mod Halves
pub mod Founded
pub mod Suggested
use api_score.Base.{
  ℕ, max, Bool, true, false, ◌&&◌, ◌||◌, not, Option, none, some, List, [], ◌∷◌, ◌++◌, ltb, leb,
  if◌then◌else◌,
}
use api_score.Base.Int.{ℤ, pos, ◌+ℤ◌, neg, leb_ℤ, max_zero}
use api_score.Base.Rows.{find}
use api_score.Outcome.{
  StatusShort, h2, live, is_first_half, MarketType, first_half_goals, match_goals,
  second_half_goals,
}

pub data SignalType : Type 0 where
  total_shots on_target pressure_index : SignalType

-- `none` is a value that is missing.
pub record TeamInputSignals : Type 0 where
  pub team_id : ℕ
  pub total_shots : Option ℤ
  pub shots_on_target : Option ℤ
  pub pressure_index : Option ℤ

-- What both teams had at half-time.
pub record Baseline : Type 0 where
  pub home : ℤ
  pub away : ℤ

pub record RuleEvaluationInput : Type 0 where
  pub elapsed : ℕ
  pub status_short : StatusShort
  pub home : TeamInputSignals
  pub away : TeamInputSignals
  pub ht_shots : Option Baseline
  pub ht_on_target : Option Baseline
  pub ht_pressure : Option Baseline
  pub score_home : Option ℕ
  pub score_away : Option ℕ

pub record HalfRule : Type 0 where
  pub max_elapsed : ℕ
  pub min_shots : ℤ

pub record ScoreStateModifiers : Type 0 where
  pub leading : ℤ
  pub trailing : ℤ
  pub drawing : ℤ

pub record MarketOdds : Type 0 where
  pub min : ℕ
  pub edge_pct : ℕ
  pub confidence : ℕ

pub record SmartRulesConfig : Type 0 where
  pub signal : Option SignalType
  pub score_state_modifiers : Option ScoreStateModifiers
  pub first_half_rules : List HalfRule
  pub second_half_rule : HalfRule
  pub first_half_ht : MarketOdds
  pub first_half_ft : MarketOdds
  pub second_half : MarketOdds

pub record RuleMatch : Type 0 where
  pub team_id : ℕ
  pub is_home_team : Bool
  pub market_type : MarketType
  pub min_acceptable_odd : ℕ
  pub edge_pct : ℕ
  pub confidence_score : ℕ
  pub signal_threshold : ℤ
  pub signal : SignalType
  pub elapsed : ℕ
  pub shots_count : ℤ

-- `signalValue`
abbrev pub signal_value : TeamInputSignals → SignalType → Option ℤ
signal_value team SignalType.on_target = team.shots_on_target
signal_value team SignalType.pressure_index = team.pressure_index
signal_value team SignalType.total_shots = team.total_shots

abbrev pub rule_matches : ℕ → ℤ → ℤ → HalfRule → Bool
rule_matches elapsed shots offset r =
    ltb elapsed r.max_elapsed && leb_ℤ (r.min_shots +ℤ offset) shots

-- `findMatchedRule`
abbrev pub find_matched_rule : List HalfRule → ℕ → ℤ → ℤ → Option HalfRule
find_matched_rule rules elapsed shots offset = find (rule_matches elapsed shots offset) rules

pub data ScoreState : Type 0 where
  leading trailing drawing : ScoreState

abbrev pub compared : Option ℕ → Option ℕ → ScoreState
compared (some f) (some a) = if ltb a f then leading else if ltb f a then trailing else drawing
compared _ _ = drawing

-- `scoreStateOf`
abbrev pub score_state_of : RuleEvaluationInput → Bool → ScoreState
score_state_of input true = compared input.score_home input.score_away
score_state_of input false = compared input.score_away input.score_home

abbrev pub modifier_of : ScoreStateModifiers → ScoreState → ℤ
modifier_of mods leading = mods.leading
modifier_of mods trailing = mods.trailing
modifier_of mods drawing = mods.drawing

abbrev pub offset_of : Option ScoreStateModifiers → ScoreState → ℤ
offset_of none state = pos 0
offset_of (some mods) state = modifier_of mods state

-- `thresholdOffsetFor`
abbrev pub threshold_offset_for : RuleEvaluationInput → SmartRulesConfig → Bool → ℤ
threshold_offset_for input config is_home =
    offset_of config.score_state_modifiers (score_state_of input is_home)

abbrev pub baseline_or_zero : Option Baseline → Baseline
baseline_or_zero none = record { home = pos 0; away = pos 0 }
baseline_or_zero (some b) = b

-- `htBaselineFor`
abbrev pub ht_baseline_for : RuleEvaluationInput → SignalType → Baseline
ht_baseline_for input SignalType.on_target = baseline_or_zero input.ht_on_target
ht_baseline_for input SignalType.pressure_index = baseline_or_zero input.ht_pressure
ht_baseline_for input SignalType.total_shots = baseline_or_zero input.ht_shots

-- `config.signal ?? 'TOTAL_SHOTS'`
abbrev pub signal_or_shots : Option SignalType → SignalType
signal_or_shots none = SignalType.total_shots
signal_or_shots (some s) = s

-- `Math.max(...)` of the windows; 0 stands for that of no rule, since no minute is below either.
abbrev pub max_window : List HalfRule → ℕ
max_window [] = 0
max_window (r ∷ rules) = max r.max_elapsed (max_window rules)
