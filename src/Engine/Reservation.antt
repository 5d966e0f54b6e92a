-- ===== src/Engine/Reservation.antt =====
-- A reservation from end to end: refusals write nothing, and what is accepted is within limits.
use api_score.Base.{
  ◌≡◌, ◌≢◌, inl, inr, sym, ◌∙◌, Bool, true, false, Option, none, some, arith, ltb, Bool-cases,
}
use api_score.Base.Tx.{ok, Result-cases}
use api_score.Money.{to_cents}
use api_score.Domain.{reserve, RejectionCode, RiskLimit, clock_tolerance_ms}
use api_score.Risk.{RiskPolicy}
use api_score.Ledger.Defs.{Entry, Account}
use api_score.Ledger.Service.{find_account, find_entry, lock_account, append}
use api_score.Control.Defs.{ControlRow}
use api_score.Control.Service.{lock_for_execution, assert_clock_within_tolerance}
use api_score.Control.Changes.{active_policy}
use api_score.Control.Switch.{lock_for_execution_iff}
use api_score.Engine.Defs.{
  Store, EngineEnv, ReserveStakeRequest, ReservationResult, reserved, rejected, Attempt,
  bind_control, bind_control_err, gets, ◌>>=◌,
}
use api_score.Engine.Service.{
  reserve_under, reserve_new, reserve_found, reserve_within, replay_reservation, stake_entry, fits,
}
use api_score.Engine.Stages.{
  IsCommitted, reserve_under-eq_ok, reserve_matched-rejected, reserve_matched-reserved,
}

module _ (env : EngineEnv) (request : ReserveStakeRequest) (s : Store) where
  pub reserve_new-under :
      (row : ControlRow) {r : ReservationResult} {s' : Store}
      → (reserve_new env request row s).1 ≡ ok (r, s')
      → (reserve_under env request row
          (active_policy row.active_risk_policy_id s.control.policies)
          s).1
        ≡ ok (r, s')
  unfolding reserve_new assert_clock_within_tolerance
  reserve_new-under row h = elim (Bool-cases (ltb clock_tolerance_ms env.control.drift_ms)) [
    | inl late ↦ absurd (ground arith)
    | inr fine ↦ ground arith
  ]

  -- The rest of `reserve_within` once the control is locked.
  abbrev after_lock : ControlRow → Attempt ReservationResult
  after_lock row = gets (λ t. find_entry request.entry_key t.ledger.entries) >>= λ existing.
      reserve_found env request row existing

  pub reserve_within-eq_ok :
      {r : ReservationResult} {s' : Store}
      → (reserve_within env request s).1 ≡ ok (r, s')
      → (row : ControlRow) × (lock_for_execution env.control s.control ≡ ok (row, s.control))
        × ((reserve_found env request row (find_entry request.entry_key s.ledger.entries) s).1
            ≡ ok (r, s'))
  unfolding reserve_within
  reserve_within-eq_ok h = elim (Result-cases (lock_for_execution env.control s.control)) [
    | inr (f, e) ↦ cc (sym (bind_control_err (lock_for_execution env.control) after_lock s e) ∙ h)
    | inl ((row, c), e) ↦
        let (_, _, _, _, kept) = (lock_for_execution_iff env.control s.control c row).0 e in
        let e' : lock_for_execution env.control s.control ≡ ok (row, s.control) = rw kept at e in
        (row, e', sym (bind_control (lock_for_execution env.control) after_lock s e') ∙ h)
  ]

  -- What a fresh reservation rests on: the control that lets it through, the active policy, the
  -- account, and the stages behind them.
  pub record IsReserved (s' : Store) (x : Entry) (row : ControlRow) (policy : RiskPolicy)
      (account : Account) : Type 0 where
    pub locked : lock_for_execution env.control s.control ≡ ok (row, s.control)
    pub active : active_policy row.active_risk_policy_id s.control.policies ≡ some policy
    pub found : find_account request.account_id s.ledger.accounts ≡ some account
    pub fitting : fits row policy account ≡ true
    pub committed : IsCommitted env request policy account s s' x false

pub replay_reservation-replays :
    (request : ReserveStakeRequest) (s : Store) {r : ReservationResult} {s' : Store}
    → (replay_reservation request s).1 ≡ ok (r, s')
    → (x : Entry) × (r ≡ reserved x true)
unfolding replay_reservation
replay_reservation-replays request s h =
    elim (Result-cases (lock_account request.account_id s.ledger)) [
      | inr (f, e) ↦ absurd (ground arith)
      | inl ((account, l), e) ↦ elim (Result-cases (to_cents request.stake)) [
        | inr (f, q) ↦ absurd (ground arith)
        | inl (stake, q) ↦
            elim (Result-cases
              (append account (stake_entry reserve request.entry_key stake none none none) l)) [
                | inr (f, a) ↦ absurd (ground arith)
                | inl (((r, b), m), a) ↦ (r.entry, ground arith)
              ]
      ]
    ]

pub rejected_ne :
    {c : RejectionCode} {l : Option RiskLimit} {x : Entry} {b : Bool} → rejected c l ≢ reserved x b
rejected_ne h = cc

flag_of : {x y : Entry} {a b : Bool} → reserved x a ≡ reserved y b → a ≡ b
flag_of h = cc

module _ (env : EngineEnv) (request : ReserveStakeRequest) (s : Store) where
  -- A fresh reservation went through every stage.
  pub reserve_within-reserved :
      {x : Entry} {s' : Store}
      → (reserve_within env request s).1 ≡ ok (reserved x false, s')
      → (row : ControlRow) × (policy : RiskPolicy) × (account : Account) × IsReserved env request s
          s' x row policy account
  reserve_within-reserved {x} {s'} h =
      let (row, locked, k) = reserve_within-eq_ok env request s h in
      go row locked (find_entry request.entry_key s.ledger.entries) k
    where
      go :
          (row : ControlRow)
          → lock_for_execution env.control s.control ≡ ok (row, s.control)
          → (o : Option Entry) → (reserve_found env request row o s).1 ≡ ok (reserved x false, s')
          → (row : ControlRow) × (policy : RiskPolicy) × (account : Account) × IsReserved env
              request s s' x row policy account
      go row locked (some e) k =
          let (y, same) = replay_reservation-replays request s k in absurd (cc (flag_of same))
      go row locked none k =
          elim (reserve_under-eq_ok env request row s
            (active_policy row.active_risk_policy_id s.control.policies)
            (reserve_new-under env request s row k)) [
              | inl (_, no_result) ↦ absurd (rejected_ne (sym no_result))
              | inr (policy, account, active, found, fitting, matched) ↦ (
                row,
                policy,
                account,
                record {
                  locked = locked;
                  active = active;
                  found = found;
                  fitting = fitting;
                  committed = reserve_matched-reserved env request policy account s matched;
                },
              )
            ]

  -- A refusal that commits writes nothing.
  pub reserve_within-rejected :
      {c : RejectionCode} {l : Option RiskLimit} {s' : Store}
      → (reserve_within env request s).1 ≡ ok (rejected c l, s')
      → s' ≡ s
  reserve_within-rejected {c} {l} {s'} h =
      let (row, locked, k) = reserve_within-eq_ok env request s h in
      go row (find_entry request.entry_key s.ledger.entries) k
    where
      go :
          (row : ControlRow) (o : Option Entry)
          → (reserve_found env request row o s).1 ≡ ok (rejected c l, s')
          → s' ≡ s
      go row (some e) k =
          let (y, same) = replay_reservation-replays request s k in absurd (rejected_ne same)
      go row none k =
          elim (reserve_under-eq_ok env request row s
            (active_policy row.active_risk_policy_id s.control.policies)
            (reserve_new-under env request s row k)) [
              | inl (kept, _) ↦ kept
              | inr (policy, account, active, found, fitting, matched) ↦
                  reserve_matched-rejected env request policy account s matched
            ]
