-- ===== src/Examples/Switches.antt =====
-- Runs of the execution control and of the gate policy on concrete inputs.
use api_score.Base.{ℕ, ◌≡◌, ◌≢◌, ◌↔◌, inl, refl, true, false, none, some, List, [], ◌∷◌, arith}
use api_score.Base.{eq_of_some}
use mathlib.Core.Path.{subst}
use api_score.Base.Rows.{length}
use api_score.Control.Permit.{with_submission_permit-eq_ok}
use api_score.Control.Service.{with_submission_permit}
use api_score.Base.Tx.{Tx}
use api_score.Base.Tx.{ok}
use api_score.Money.{trim}
use api_score.Domain.{ExecutionMode, disabled, simulation, known, g1, g2, g3, go, manual}
use api_score.Risk.{RiskPolicy}
use api_score.Gate.{
  GateEvidence, transition_shape, check_evidence, required_gates, assert_transition_allowed,
  examine,
}
use api_score.Gate.Evidence.{check_evidence_iff, Accepts}
use api_score.Control.Defs.{
  ControlRow, ControlStore, ControlSnapshot, mode_changed, to_snapshot, execution_allowed,
  sanitize_reason,
}
use api_score.Control.Service.{Env, lock_for_execution, stop}
use api_score.Control.Changes.{ChangeModeInput, change_mode, move_mode, changed_row, active_policy}
use api_score.Control.Switch.{
  IsOpen, IsStopped, lock_for_execution_iff, stop-IsStopped, IsStopped-blocks,
}
use api_score.Control.Ladder.{IsAscent, IsNextRow, change_mode_ascends}
use api_score.Control.Governed.{IsGoverned, IsGovernedRow, here, next, changes, open_has_policy}
use api_score.Examples.Stakes.{policy}

-- Evidence for the first two gates, approved; and one row without an approver.
abbrev evidence : List GateEvidence
evidence =
    record { id = 11; control_id = 1; gate_key = g1; verdict = go; approved_by_user_id = some 4 }
    ∷ record { id = 12; control_id = 1; gate_key = g2; verdict = go; approved_by_user_id = some 4 }
    ∷ record { id = 13; control_id = 1; gate_key = g3; verdict = go; approved_by_user_id = none }
    ∷ []

check_evidence_iff_example :
    ((check_evidence (g3 ∷ []) (13 ∷ 11 ∷ []) evidence 1).is_ok ≡ true)
    ↔ Accepts (g3 ∷ []) (13 ∷ 11 ∷ []) evidence 1
check_evidence_iff_example = check_evidence_iff (g3 ∷ []) (13 ∷ 11 ∷ []) evidence 1

abbrev stopped_control : ControlRow
stopped_control = record {
  id = 1;
  mode = known disabled;
  version = 6;
  active_risk_policy_id = some 5;
  stop_reason = none;
  stop_source = none;
  changed_by_user_id = none;
}

abbrev at_rest : ControlStore
at_rest = record {
  control = some stopped_control;
  policies = policy ∷ [];
  evidence = evidence;
  audits = [];
}

abbrev env : Env
env = record { interlock = none; control_answers = true; drift_ms = 0 }

-- From DISABLED to SIMULATION with both pieces of evidence.
abbrev up_input : ChangeModeInput
up_input = record {
  target_mode = simulation;
  reason = [];
  expected_version = 6;
  gate_evidence_ids = 12 ∷ 11 ∷ 12 ∷ [];
}

abbrev running_row : ControlRow
running_row = changed_row simulation 4 stopped_control

abbrev running : ControlStore
running = record at_rest {
  control = some running_row;
  audits =
      record {
        actor_user_id = some 4;
        target_id = 1;
        action = mode_changed disabled simulation 7 6 [] (12 ∷ 11 ∷ []);
      }
      ∷ [];
}

up_snapshot :
    change_mode env up_input 4 2 at_rest ≡ ok (to_snapshot (some running_row) false, running)
unfolding change_mode move_mode to_snapshot sanitize_reason trim transition_shape
    assert_transition_allowed required_gates check_evidence stop examine
up_snapshot = refl

change_mode_ascends_example :
    IsAscent env up_input at_rest stopped_control × IsNextRow simulation 4 stopped_control running
change_mode_ascends_example =
    change_mode_ascends env up_input 4 2 at_rest stopped_control refl (omega arith) up_snapshot

lock_for_execution_iff_example : (lock_for_execution env running ≡ ok (running_row, running)) ↔ (
    (m : ExecutionMode) × (true ≡ true)
    × (some running_row ≡ some running_row)
    × IsOpen env running_row m
    × (running ≡ running))
lock_for_execution_iff_example = lock_for_execution_iff env running running running_row

running-let_through : lock_for_execution env running ≡ ok (running_row, running)
unfolding lock_for_execution to_snapshot execution_allowed
running-let_through = refl

at_rest-IsGoverned : IsGoverned at_rest
at_rest-IsGoverned = λ row h.
    subst (IsGovernedRow (policy ∷ [])) (eq_of_some h)
      (record { linked = refl; governed = inl refl })

open_has_policy_example : (p : RiskPolicy) × (active_policy (some 5) (policy ∷ []) ≡ some p)
open_has_policy_example =
    open_has_policy at_rest running running env running_row at_rest-IsGoverned
      (next here (changes env up_input 4 2 up_snapshot)) running-let_through

stop-IsStopped_example :
    (snapshot : ControlSnapshot) × (s' : ControlStore) × (stop env []
        (some 4)
        manual
        (some 1)
        2
        running
      ≡ ok (snapshot, s'))
    × IsStopped s'
    × (snapshot.mode ≡ disabled)
    × (s'.policies ≡ policy ∷ [])
    × (s'.evidence ≡ evidence)
stop-IsStopped_example = stop-IsStopped env [] (some 4) manual (some 1) 2 running

IsStopped-blocks_example :
    (lock_for_execution env at_rest ≢ ok (stopped_control, at_rest))
    × ((snapshot : ControlSnapshot) × (stop env [] none manual none 2 at_rest
          ≡ ok (snapshot, at_rest)))
IsStopped-blocks_example =
    IsStopped-blocks at_rest env stopped_control at_rest [] none manual none 2
      (stopped_control, refl, refl)

-- A submission, in SIMULATION, that only counts what the tables hold.
abbrev submission : Tx ControlStore ℕ
submission s = ok (length s.evidence, s)

permitted : with_submission_permit env simulation submission running ≡ ok (3, running)
unfolding with_submission_permit lock_for_execution to_snapshot execution_allowed
permitted = refl

with_submission_permit-eq_ok_example :
    (row : ControlRow) × (lock_for_execution env running ≡ ok (row, running))
    × (row.mode ≡ known simulation)
    × (submission running ≡ ok (3, running))
with_submission_permit-eq_ok_example =
    with_submission_permit-eq_ok env simulation submission running permitted
