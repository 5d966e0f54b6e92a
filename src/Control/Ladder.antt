-- ===== src/Control/Ladder.antt =====
-- Changing the mode: one step at a time, with proof, and never without a risk policy.
use api_score.Base.{
  ℕ, suc, ◌+◌, ◌≡◌, ◌≢◌, ◌<◌, ◌⊎◌, inl, inr, refl, sym, ap, ◌∙◌, true, false, some, List, arith,
  is_some, Option-cases, eq_of_some,
}
use mathlib.Core.Path.{subst}
use api_score.Gate.Transitions.{required_gates_lem}
use api_score.Base.Tx.{Result, ok, Result-cases}
use api_score.Domain.{
  ExecutionMode, known, disabled, live_canary, mode_index, mode_eq, gates_required_to_enter,
}
use api_score.Gate.{
  GateEvidence, TransitionDirection, transition_shape, required_gates, assert_transition_allowed,
  check_evidence, evidence_in, is_empty,
}
use api_score.Control.Defs.{ControlRow, ControlStore, ControlSnapshot, is_interlock_open}
use api_score.Control.Service.{Env}
use api_score.Control.Changes.{
  ChangeModeInput, mode_or_disabled, check_up, changed_row, move_mode, change_mode,
}

-- What a successful `move_mode` has checked and written.
pub record IsMoved (env : Env) (input : ChangeModeInput) (actor : ℕ) (s s' : ControlStore)
    (row : ControlRow) : Type 0 where
  pub found : s.control ≡ some row
  pub expected : row.version ≡ input.expected_version
  pub allowed : (transition_shape (mode_or_disabled row.mode) input.target_mode).allowed ≡ true
  pub checked :
      check_up env s row input
        (transition_shape (mode_or_disabled row.mode) input.target_mode).direction
      ≡ ok tt
  pub written : s'.control ≡ some (changed_row input.target_mode actor row)
  pub policies_kept : s'.policies ≡ s.policies
  pub evidence_kept : s'.evidence ≡ s.evidence

checked_tt : (r : Result (Unit {0})) (u : Unit {0}) → r ≡ ok u → r ≡ ok tt
checked_tt r tt h = h

pub move_mode-IsMoved :
    (env : Env) (input : ChangeModeInput) (actor : ℕ) (s : ControlStore)
    {snapshot : ControlSnapshot} {s' : ControlStore}
    → move_mode env input actor s ≡ ok (snapshot, s')
    → (row : ControlRow) × IsMoved env input actor s s' row
unfolding move_mode
move_mode-IsMoved env input actor s h = elim (Option-cases s.control) [
  | inl e ↦ absurd (ground arith)
  | inr (row, e) ↦
      elim (Result-cases (
        check_up env s row input
          (transition_shape (mode_or_disabled row.mode) input.target_mode).direction)) [
            | inl (tt, c) ↦ (row, ground arith)
            | inr (f, c) ↦ absurd (ground arith)
          ]
]

assert_checks :
    (table : List GateEvidence) (control_id : ℕ) (from to : ExecutionMode) (ids : List ℕ)
    → is_empty (required_gates from to) ≡ false
    → assert_transition_allowed table control_id from to ids ≡ ok tt
    → (check_evidence (required_gates from to) ids (evidence_in ids table) control_id).is_ok ≡ true
unfolding assert_transition_allowed
assert_checks table control_id from to ids n h = ground arith

entered_gates :
    (from to : ExecutionMode)
    → mode_index from < mode_index to
    → is_empty (gates_required_to_enter to) ≡ false
entered_gates from disabled h = absurd (omega arith)
entered_gates from _ h = refl

assert_up :
    (table : List GateEvidence) (control_id : ℕ) (from to : ExecutionMode) (ids : List ℕ)
    → mode_index from < mode_index to
    → assert_transition_allowed table control_id from to ids ≡ ok tt
    → (check_evidence (gates_required_to_enter to) ids (evidence_in ids table) control_id).is_ok
      ≡ true
assert_up table control_id from to ids h a =
    let gates = (required_gates_lem from to).0 h in
    rw gates at (assert_checks table control_id from to ids (rw gates (entered_gates from to h)) a)

-- What a step up has proved.
pub record IsAscent (env : Env) (input : ChangeModeInput) (s : ControlStore) (row : ControlRow)
    : Type 0 where
  pub one_step : mode_index input.target_mode ≡ suc (mode_index (mode_or_disabled row.mode))
  pub expected : row.version ≡ input.expected_version
  pub has_policy : is_some row.active_risk_policy_id ≡ true
  pub guarded : (input.target_mode ≢ live_canary) ⊎ (is_interlock_open env.interlock ≡ true)
  pub proved :
      (check_evidence
        (gates_required_to_enter input.target_mode)
        input.gate_evidence_ids
        (evidence_in input.gate_evidence_ids s.evidence)
        row.id).is_ok
      ≡ true

-- The row that is then there: the same one under the new mode, with the version that follows, the
-- policy as it was, and no reason of a stop.
abbrev pub IsNextRow : ExecutionMode → ℕ → ControlRow → ControlStore → Type 0
IsNextRow target actor row s' =
    (row' : ControlRow) × (s'.control ≡ some row')
    × (row'.id ≡ row.id)
    × (row'.mode ≡ known target)
    × (row'.version ≡ row.version + 1)
    × (row'.active_risk_policy_id ≡ row.active_risk_policy_id)
    × (row'.changed_by_user_id ≡ some actor)

direction_up :
    (from to : ExecutionMode)
    → mode_index from < mode_index to
    → ((transition_shape from to).direction ≡ TransitionDirection.up)
      × ((transition_shape from to).allowed ≡ true → mode_index to ≡ suc (mode_index from))
unfolding transition_shape
direction_up from to h = (ground arith, λ a. ground arith)

check_up_parts :
    (env : Env) (s : ControlStore) (row : ControlRow) (input : ChangeModeInput)
    → check_up env s row input TransitionDirection.up ≡ ok tt
    → (is_some row.active_risk_policy_id ≡ true)
      × ((input.target_mode ≢ live_canary) ⊎ (is_interlock_open env.interlock ≡ true))
      × (assert_transition_allowed s.evidence row.id
            (mode_or_disabled row.mode)
            input.target_mode
            input.gate_evidence_ids
          ≡ ok tt)
check_up_parts env s row input h = (ground arith, ground arith, ground arith)

target_not_disabled :
    (from to : ExecutionMode) → mode_index from < mode_index to → mode_eq to disabled ≡ false
target_not_disabled from to h = ground arith

-- A change to another mode than DISABLED is a move.
change_mode-move :
    (env : Env) (input : ChangeModeInput) (actor new_id : ℕ) (s : ControlStore)
    {r : ControlSnapshot × ControlStore}
    → mode_eq input.target_mode disabled ≡ false
    → change_mode env input actor new_id s ≡ ok r
    → move_mode env input actor s ≡ ok r
unfolding change_mode
change_mode-move env input actor new_id s n h = rw n at h

-- A change of mode that goes up succeeds only by one step, on the version that the caller expects,
-- with an active risk policy, with the interlock open if it enters LIVE_CANARY, and with evidence
-- that covers every gate of the mode that it enters; the row then has that mode and the next
-- version.
pub change_mode_ascends :
    (env : Env) (input : ChangeModeInput) (actor new_id : ℕ) (s : ControlStore) (row : ControlRow)
    {snapshot : ControlSnapshot} {s' : ControlStore}
    → s.control ≡ some row
    → mode_index (mode_or_disabled row.mode) < mode_index input.target_mode
    → change_mode env input actor new_id s ≡ ok (snapshot, s')
    → IsAscent env input s row × IsNextRow input.target_mode actor row s'
change_mode_ascends env input actor new_id s row here higher h =
    let (r, m) =
      move_mode-IsMoved env input actor s
        (change_mode-move env input actor new_id s (target_not_disabled _ _ higher) h) in
    let same : r ≡ row = eq_of_some (sym m.found ∙ here) in
    let from = mode_or_disabled row.mode in
    let (direction, adjacent) = direction_up from input.target_mode higher in
    let allowed : (transition_shape from input.target_mode).allowed ≡ true =
      subst
        (λ (x : ControlRow).
          (transition_shape (mode_or_disabled x.mode) input.target_mode).allowed ≡ true)
        same m.allowed in
    let checked =
      subst
        (λ (x : ControlRow).
          check_up env s x input
            (transition_shape (mode_or_disabled x.mode) input.target_mode).direction
          ≡ ok tt)
        same m.checked in
    let (policy, guarded, asserted) = check_up_parts env s row input (rw direction at checked) in
    (
      record {
        one_step = adjacent allowed;
        expected = ap (λ (x : ControlRow). x.version) (sym same) ∙ m.expected;
        has_policy = policy;
        guarded = guarded;
        proved =
            assert_up s.evidence row.id from input.target_mode input.gate_evidence_ids higher
              asserted;
      },
      (
        changed_row input.target_mode actor row,
        m.written ∙ ap (λ (x : ControlRow). some (changed_row input.target_mode actor x)) same,
        refl,
        refl,
        refl,
        refl,
        refl,
      ),
    )
