-- ===== src/Rules/Founded.antt =====
-- What a suggestion of the rules rests on.
use api_score.Base.{
  ℕ, ◌≡◌, ◌≤◌, ◌<◌, ◌⊎◌, refl, inl, inr, Bool, true, false, some, List, [], ◌∷◌, ◌++◌, arith,
  Bool-cases,
}
use api_score.Base.Int.{ℤ, ◌+ℤ◌, neg, ◌≤ℤ◌, max_zero}
use api_score.Base.Quantifiers.{AllOf}
use api_score.Outcome.{
  StatusShort, h1, h2, live, is_first_half, MarketType, first_half_goals, match_goals,
  second_half_goals, other_market,
}
use api_score.Rules.{
  SignalType, TeamInputSignals, RuleEvaluationInput, SmartRulesConfig, HalfRule, RuleMatch,
  rule_matches, find_matched_rule, threshold_offset_for, signal_value, ht_baseline_for,
}
use api_score.Rules.Halves.{is_second_half}

-- The half in which a suggestion on a market is made: its status, and its first minute.
abbrev pub IsInHalf : RuleEvaluationInput → MarketType → Type 0
IsInHalf input first_half_goals =
    ((input.status_short ≡ h1) ⊎ (input.status_short ≡ live)) × (1 ≤ input.elapsed)
IsInHalf input match_goals =
    ((input.status_short ≡ h1) ⊎ (input.status_short ≡ live)) × (1 ≤ input.elapsed)
IsInHalf input second_half_goals =
    ((input.status_short ≡ h2) ⊎ (input.status_short ≡ live)) × (45 ≤ input.elapsed)
IsInHalf input other_market = ⊥

-- The team that a suggestion names, and what it had at half-time.
abbrev pub team_at : RuleEvaluationInput → Bool → TeamInputSignals
team_at input true = input.home
team_at input false = input.away

abbrev pub baseline_at : RuleEvaluationInput → SignalType → Bool → ℤ
baseline_at input signal true = (ht_baseline_for input signal).home
baseline_at input signal false = (ht_baseline_for input signal).away

-- The value is the signal of that team: the one of the match, or, on the second half, what came
-- after half-time, zero at least.
abbrev pub IsSignalOf : RuleEvaluationInput → RuleMatch → MarketType → Type 0
IsSignalOf input m second_half_goals =
    (value : ℤ) × (signal_value (team_at input m.is_home_team) m.signal ≡ some value)
    × (m.shots_count ≡ max_zero (value +ℤ neg (baseline_at input m.signal m.is_home_team)))
IsSignalOf input m _ = signal_value (team_at input m.is_home_team) m.signal ≡ some m.shots_count

abbrev pub IsOneOf : HalfRule → List HalfRule → Type 0
IsOneOf r [] = ⊥
IsOneOf r (x ∷ rules) = (x ≡ r) ⊎ IsOneOf r rules

abbrev pub rules_of : SmartRulesConfig → MarketType → List HalfRule
rules_of config second_half_goals = config.second_half_rule ∷ []
rules_of config _ = config.first_half_rules

-- The threshold is that of a rule of the half, whose window is not over, with the offset for the
-- score of the team.
abbrev pub IsOfRule : RuleEvaluationInput → SmartRulesConfig → RuleMatch → Type 0
IsOfRule input config m =
    (r : HalfRule) × IsOneOf r (rules_of config m.market_type)
    × (input.elapsed < r.max_elapsed)
    × (m.signal_threshold ≡ r.min_shots +ℤ threshold_offset_for input config m.is_home_team)

-- The signal of the team that is named reached the threshold of a rule, at the minute of the input,
-- in the half of the market.
pub record IsFounded (input : RuleEvaluationInput) (config : SmartRulesConfig) (m : RuleMatch)
    : Type 0 where
  pub reached : m.signal_threshold ≤ℤ m.shots_count
  pub minute : m.elapsed ≡ input.elapsed
  pub half : IsInHalf input m.market_type
  pub team : m.team_id ≡ (team_at input m.is_home_team).team_id
  pub own : IsSignalOf input m m.market_type
  pub rule : IsOfRule input config m

pub ++-AllOf :
    (P : RuleMatch → Type 0) (xs ys : List RuleMatch) → AllOf P xs → AllOf P ys → AllOf P (xs ++ ys)
++-AllOf P [] ys h k = k
++-AllOf P (x ∷ xs) ys (own, rest) k = (own, ++-AllOf P xs ys rest k)

pub first_half_status : (x : StatusShort) → is_first_half x ≡ true → (x ≡ h1) ⊎ (x ≡ live)
unfolding is_first_half
first_half_status h1 h = inl refl
first_half_status live h = inr refl
first_half_status _ h = cc

pub second_half_status : (x : StatusShort) → is_second_half x ≡ true → (x ≡ h2) ⊎ (x ≡ live)
second_half_status h2 h = inl refl
second_half_status live h = inr refl
second_half_status _ h = cc

-- A rule that is found is one of the rules, in its window, with its threshold reached.
pub find_matched_rule-reached :
    (rules : List HalfRule) (elapsed : ℕ) (shots offset : ℤ) (r : HalfRule)
    → find_matched_rule rules elapsed shots offset ≡ some r
    → ((r.min_shots +ℤ offset) ≤ℤ shots) × IsOneOf r rules × (elapsed < r.max_elapsed)
find_matched_rule-reached [] elapsed shots offset r h = cc
find_matched_rule-reached (x ∷ rules) elapsed shots offset r h =
    elim (Bool-cases (rule_matches elapsed shots offset x)) [
      | inl t ↦ let e : x ≡ r = ground arith in rw (← e) (ground arith, inl refl, ground arith)
      | inr n ↦
          let (reached, one, open_window) =
            find_matched_rule-reached rules elapsed shots offset r (rw n at h) in
          (reached, inr one, open_window)
    ]
