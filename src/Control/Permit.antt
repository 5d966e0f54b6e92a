-- ===== src/Control/Permit.antt =====
-- `withSubmissionPermit`: what runs under the lock, and in which mode.
use api_score.Base.{◌≡◌, inl, inr, true, arith, Bool-cases}
use api_score.Base.Tx.{Tx, ok, Result-cases}
use api_score.Domain.{ExecutionMode, known, stored_mode_eq}
use api_score.Control.Defs.{ControlRow, ControlStore}
use api_score.Control.Service.{Env, lock_for_execution, with_submission_permit}
use api_score.Control.Switch.{lock_for_execution_iff}

stored_known :
    (m : ExecutionMode) (row : ControlRow) (expected : ExecutionMode)
    → row.mode ≡ known m
    → stored_mode_eq row.mode (known expected) ≡ true
    → row.mode ≡ known expected
stored_known m row expected e h = ground arith

-- A submission that comes back has run on the tables as they were, and the control row was open in
-- the mode that the order expects.
pub with_submission_permit-eq_ok :
    {A : Type 0} (env : Env) (expected : ExecutionMode) (submit : Tx ControlStore A)
    (s : ControlStore) {a : A} {s' : ControlStore}
    → with_submission_permit env expected submit s ≡ ok (a, s')
    → (row : ControlRow) × (lock_for_execution env s ≡ ok (row, s))
      × (row.mode ≡ known expected)
      × (submit s ≡ ok (a, s'))
unfolding with_submission_permit
with_submission_permit-eq_ok env expected submit s h =
    elim (Result-cases (lock_for_execution env s)) [
      | inr (f, e) ↦ absurd (ground arith)
      | inl ((row, t), e) ↦
          let (m, _, _, o, kept) = (lock_for_execution_iff env s t row).0 e in
          elim (Bool-cases (stored_mode_eq row.mode (known expected))) [
            | inr differs ↦ absurd (ground arith)
            | inl same ↦
                (row, rw kept at e, stored_known m row expected o.mode_known same, ground arith)
          ]
    ]
