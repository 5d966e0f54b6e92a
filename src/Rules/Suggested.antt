-- ===== src/Rules/Suggested.antt =====
-- What every suggestion rests on, and that one of the guards changes nothing.
use api_score.Base.{
  ℕ, ◌≡◌, ◌≤◌, ◌⊎◌, refl, sym, ap, inl, inr, Bool, true, false, ◌||◌, not, Option, none, some, List,
  [], ◌∷◌, arith, ltb, leb, Bool-cases,
}
use api_score.Base.Int.{ℤ, ◌+ℤ◌, neg, max_zero}
use api_score.Base.Quantifiers.{AllOf}
use api_score.Outcome.{h1, h2, live, is_first_half}
use api_score.Rules.{
  TeamInputSignals, RuleEvaluationInput, SmartRulesConfig, HalfRule, rule_matches,
  find_matched_rule, threshold_offset_for, signal_or_shots, signal_value, max_window,
}
use api_score.Rules.Halves.{
  first_half_suggested, first_half_team, both_first_half, evaluate_first_half, is_second_half,
  second_half_suggested, second_half_team, evaluate_second_half, evaluate_rules,
}
use api_score.Rules.Founded.{
  team_at, baseline_at, IsFounded, ++-AllOf, first_half_status, second_half_status,
  find_matched_rule-reached,
}

-- No rule is found once every window is over.
find_matched_rule-over :
    (rules : List HalfRule) (elapsed : ℕ) (shots offset : ℤ)
    → max_window rules ≤ elapsed
    → find_matched_rule rules elapsed shots offset ≡ none
find_matched_rule-over [] elapsed shots offset h = refl
find_matched_rule-over (r ∷ rules) elapsed shots offset h =
    let rest = find_matched_rule-over rules elapsed shots offset (omega arith) in
    let passed : rule_matches elapsed shots offset r ≡ false = ground arith in
    rw (passed, rest) refl

module _ (input : RuleEvaluationInput) (config : SmartRulesConfig) where
  first_half_team-over :
      (team : TeamInputSignals) (is_home : Bool) (v : Option ℤ)
      → max_window config.first_half_rules ≤ input.elapsed
      → first_half_team input config team is_home v ≡ []
  first_half_team-over team is_home none h = refl
  first_half_team-over team is_home (some shots) h =
      ap (first_half_suggested input config team is_home shots) (
        find_matched_rule-over config.first_half_rules input.elapsed shots
          (threshold_offset_for input config is_home) h)

  both_first_half-over :
      max_window config.first_half_rules ≤ input.elapsed → both_first_half input config ≡ []
  both_first_half-over h =
      let signal = signal_or_shots config.signal in
      rw
        (
          first_half_team-over input.home true (signal_value input.home signal) h,
          first_half_team-over input.away false (signal_value input.away signal) h,
        )
        refl

  first_half_team-IsFounded :
      (is_home : Bool) (v : Option ℤ)
      → signal_value (team_at input is_home) (signal_or_shots config.signal) ≡ v
      → (input.status_short ≡ h1) ⊎ (input.status_short ≡ live)
      → 1 ≤ input.elapsed
      → AllOf
          (IsFounded input config)
          (first_half_team input config (team_at input is_home) is_home v)
  first_half_team-IsFounded is_home none w s e = tt
  first_half_team-IsFounded is_home (some shots) w s e =
      go
        (find_matched_rule config.first_half_rules input.elapsed shots
          (threshold_offset_for input config is_home))
        refl
    where
      go :
          (o : Option HalfRule)
          → find_matched_rule config.first_half_rules input.elapsed shots
              (threshold_offset_for input config is_home)
            ≡ o
          → AllOf
              (IsFounded input config)
              (first_half_suggested input config (team_at input is_home) is_home shots o)
      go none f = tt
      go (some r) f =
          let (reached, one, open_window) =
            find_matched_rule-reached config.first_half_rules input.elapsed shots
              (threshold_offset_for input config is_home) r f in
          (
            record {
              reached = reached;
              minute = refl;
              half = (s, e);
              team = refl;
              own = w;
              rule = (r, one, open_window, refl);
            },
            (
              record {
                reached = reached;
                minute = refl;
                half = (s, e);
                team = refl;
                own = w;
                rule = (r, one, open_window, refl);
              },
              tt,
            ),
          )

  abbrev second_shots : Bool → ℤ → ℤ
  second_shots is_home value =
      max_zero (value +ℤ neg (baseline_at input (signal_or_shots config.signal) is_home))

  second_half_team-IsFounded :
      (is_home : Bool) (v : Option ℤ)
      → signal_value (team_at input is_home) (signal_or_shots config.signal) ≡ v
      → (input.status_short ≡ h2) ⊎ (input.status_short ≡ live)
      → 45 ≤ input.elapsed
      → AllOf (IsFounded input config) (
          second_half_team input config
            (team_at input is_home)
            is_home
            (baseline_at input (signal_or_shots config.signal) is_home)
            v)
  second_half_team-IsFounded is_home none w s e = tt
  second_half_team-IsFounded is_home (some value) w s e =
      go
        (find_matched_rule (config.second_half_rule ∷ []) input.elapsed (second_shots is_home value)
          (threshold_offset_for input config is_home))
        refl
    where
      go :
          (o : Option HalfRule)
          → find_matched_rule
              (config.second_half_rule ∷ [])
              input.elapsed
              (second_shots is_home value)
              (threshold_offset_for input config is_home)
            ≡ o
          → AllOf (IsFounded input config) (
              second_half_suggested input config
                (team_at input is_home)
                is_home
                (second_shots is_home value)
                o)
      go none f = tt
      go (some r) f =
          let (reached, one, open_window) =
            find_matched_rule-reached (config.second_half_rule ∷ []) input.elapsed
              (second_shots is_home value) (threshold_offset_for input config is_home) r f in
          (
            record {
              reached = reached;
              rule = (r, one, open_window, refl);
              minute = refl;
              half = (s, e);
              team = refl;
              own = (value, w, refl);
            },
            tt,
          )

  evaluate_first_half-IsFounded : AllOf (IsFounded input config) (evaluate_first_half input config)
  unfolding evaluate_first_half
  evaluate_first_half-IsFounded =
      elim (Bool-cases (
        not (is_first_half input.status_short)
        || ltb input.elapsed 1
        || leb (max_window config.first_half_rules) input.elapsed)) [
          | inl t ↦ rw t tt
          | inr n ↦
              let half = first_half_status input.status_short (ground arith) in
              let e : 1 ≤ input.elapsed = ground arith in
              let signal = signal_or_shots config.signal in
              rw n (
                ++-AllOf (IsFounded input config) _ _
                  (first_half_team-IsFounded true (signal_value input.home signal) refl half e)
                  (first_half_team-IsFounded false (signal_value input.away signal) refl half e))
        ]

  evaluate_second_half-IsFounded :
      AllOf (IsFounded input config) (evaluate_second_half input config)
  unfolding evaluate_second_half
  evaluate_second_half-IsFounded =
      elim (Bool-cases (
        not (is_second_half input.status_short)
        || ltb input.elapsed 45
        || leb config.second_half_rule.max_elapsed input.elapsed)) [
          | inl t ↦ rw t tt
          | inr n ↦
              let half = second_half_status input.status_short (ground arith) in
              let e : 45 ≤ input.elapsed = ground arith in
              let signal = signal_or_shots config.signal in
              rw n (
                ++-AllOf (IsFounded input config) _ _
                  (second_half_team-IsFounded true (signal_value input.home signal) refl half e)
                  (second_half_team-IsFounded false (signal_value input.away signal) refl half e))
        ]

-- Every suggestion of the rules names a team of the input whose own signal (on the second half, less
-- what it was at half-time) reached the threshold of a rule of that half whose window is not over, with
-- the offset for the team's score; it bears the minute of the input, and is made in the
-- time of its market: on the first half and the match in the status 1H or LIVE from minute 1 on, on the
-- second half in the status 2H or LIVE from minute 45 on.
pub evaluate_rules-IsFounded :
    (input : RuleEvaluationInput) (config : SmartRulesConfig)
    → AllOf (IsFounded input config) (evaluate_rules input config)
unfolding evaluate_rules
evaluate_rules-IsFounded input config =
    ++-AllOf (IsFounded input config) (evaluate_first_half input config)
      (evaluate_second_half input config) (evaluate_first_half-IsFounded input config)
      (evaluate_second_half-IsFounded input config)

-- The guard on the widest window of the first half changes nothing: in a first half from its first
-- minute on, the suggestions are those that the rules give without it.
evaluate_first_half-window :
    (input : RuleEvaluationInput) (config : SmartRulesConfig)
    → is_first_half input.status_short ≡ true
    → 1 ≤ input.elapsed
    → evaluate_first_half input config ≡ both_first_half input config
unfolding evaluate_first_half
evaluate_first_half-window input config s e =
    elim (Bool-cases (leb (max_window config.first_half_rules) input.elapsed)) [
      | inl over ↦
          let early : ltb input.elapsed 1 ≡ false = ground arith in
          rw (s, early, over) (sym (both_first_half-over input config (ground arith)))
      | inr n ↦ let early : ltb input.elapsed 1 ≡ false = ground arith in rw (s, early, n) refl
    ]
