-- ===== src/Engine/Outcomes.antt =====
-- What `reserveStake`, `settleStake` and `checkLedgerInvariant` do to the ledger, whatever their outcome.
use api_score.Base.{
  ℕ, ◌≡◌, inl, inr, refl, sym, ap, Bool, true, false, Option, none, some, Bool-cases,
}
use mathlib.Core.Path.{subst}
use api_score.Base.Tx.{Result, ok, err, Result-cases}
use api_score.Money.{Text}
use api_score.Risk.{RiskPolicy}
use api_score.Domain.{AutoStopTrigger, daily_limit_reached, ledger_invariant_broken}
use api_score.Ledger.Defs.{EntryKey, Entry, Account}
use api_score.Ledger.Service.{find_account, find_entry}
use api_score.Ledger.Checks.{InvariantReport, verify_invariant}
use api_score.Control.Defs.{ControlRow}
use api_score.Control.Changes.{active_policy}
use api_score.Engine.Defs.{
  Store, EngineEnv, ReserveStakeRequest, ReservationResult, reserved, rejected,
}
use api_score.Engine.Service.{
  settle_within, settle_stake, settled, reserve_found, reserve_within, reserve_stake,
  check_ledger_invariant, checked_invariant, report_only,
}
use api_score.Engine.Stages.{
  reserve_under-eq_ok, reserve_matched-rejected, reserve_matched-reserved,
}
use api_score.Engine.Reservation.{reserve_within-eq_ok, reserve_new-under}
use api_score.Engine.Safety.{apply_stop-ledger, reserve_stake-ok, reserve_stake-err}
use api_score.Engine.Moves.{Moves, settle_within-Moves, replay_reservation-Moves, found_own}
use api_score.Engine.Stages.{reserve_entry}
use api_score.Engine.Service.{reserve_matched}

module _ (env : EngineEnv) (request : ReserveStakeRequest) (s : Store) where
  reserve_matched-Moves :
      (policy : RiskPolicy) (account : Account) (r : ReservationResult) {s' : Store}
      → find_account request.account_id s.ledger.accounts ≡ some account
      → (reserve_matched env request policy account s).1 ≡ ok (r, s')
      → Moves s.ledger s'.ledger
  reserve_matched-Moves policy account (rejected c l) found h =
      inl (ap (λ (x : Store). x.ledger) (reserve_matched-rejected env request policy account s h))
  reserve_matched-Moves policy account (reserved x b) found h =
      let c = reserve_matched-reserved env request policy account s h in
      inr (
        account,
        reserve_entry request c.stake,
        c.result,
        c.account',
        record { found = found_own request.account_id s.ledger found; appended = c.appended },
      )

  reserve_found-Moves :
      (row : ControlRow) (o : Option Entry) (r : ReservationResult) {s' : Store}
      → (reserve_found env request row o s).1 ≡ ok (r, s')
      → Moves s.ledger s'.ledger
  reserve_found-Moves row (some e) r h = replay_reservation-Moves request s h
  reserve_found-Moves row none r h =
      elim (reserve_under-eq_ok env request row s
        (active_policy row.active_risk_policy_id s.control.policies)
        (reserve_new-under env request s row h)) [
          | inl (kept, _) ↦ inl (ap (λ (x : Store). x.ledger) kept)
          | inr (policy, account, _, found, _, matched) ↦
              reserve_matched-Moves policy account r found matched
        ]

  pub reserve_stake-Moves : Moves s.ledger (reserve_stake env request s).1.ledger
  reserve_stake-Moves = elim (Result-cases (reserve_within env request s).1) [
    | inr (f, e) ↦ inl (reserve_stake-err env request s e).0
    | inl ((r, u), e) ↦
        let (row, _, k) = reserve_within-eq_ok env request s e in
        subst (Moves s.ledger) (sym (reserve_stake-ok env request s e).1)
          (reserve_found-Moves row (find_entry request.entry_key s.ledger.entries) r k)
  ]

module _ (env : EngineEnv) (id : ℕ) (key : EntryKey) (stake payout : Text) (order : Option ℕ)
    (s : Store) where
  pub settled-ledger :
      (t : Option AutoStopTrigger) (e : Entry) (b : Bool) (u : Store)
      → (settled env s (t, ok ((e, b), u))).1.ledger ≡ u.ledger
  settled-ledger t e true u = apply_stop-ledger env (some daily_limit_reached) u
  settled-ledger t e false u = refl

  settled-Moves :
      (t : Option AutoStopTrigger) (x : Result ((Entry × Bool) × Store))
      → ((e : Entry) (b : Bool) (u : Store) → x ≡ ok ((e, b), u) → Moves s.ledger u.ledger)
      → Moves s.ledger (settled env s (t, x)).1.ledger
  settled-Moves t (ok ((e, b), u)) moves =
      subst (Moves s.ledger) (sym (settled-ledger t e b u)) (moves e b u refl)
  settled-Moves t (err f) moves = inl refl

  pub settle_stake-Moves : Moves s.ledger (settle_stake env id key stake payout order s).1.ledger
  unfolding settle_stake
  settle_stake-Moves =
      settled-Moves (settle_within env id key stake payout order s).0
        (settle_within env id key stake payout order s).1
        (λ e b u h. settle_within-Moves env id key stake payout order s h)

checked_invariant-ledger :
    (env : EngineEnv) (s : Store) (x : Result InvariantReport)
    → (checked_invariant env s x).1.ledger ≡ s.ledger
checked_invariant-ledger env s (err e) = refl
checked_invariant-ledger env s (ok rep) = elim (Bool-cases rep.is_ok) [
  | inl t ↦ rw t refl
  | inr f ↦ rw f (apply_stop-ledger env (some ledger_invariant_broken) s)
]

pub check_ledger_invariant-ledger :
    (env : EngineEnv) (id : ℕ) (s : Store) → (check_ledger_invariant env id s).1.ledger ≡ s.ledger
unfolding check_ledger_invariant
check_ledger_invariant-ledger env id s =
    checked_invariant-ledger env s (report_only (verify_invariant id s.ledger))
