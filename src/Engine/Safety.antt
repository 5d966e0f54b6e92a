-- ===== src/Engine/Safety.antt =====
-- What `reserveStake` promises: refusals leave the ledger alone, accepted stakes respect the policy,
-- doubt stops execution.
use api_score.Base.{◌≡◌, inl, inr, refl, sym, ap, ◌∙◌, true, false, Option, none, some}
use api_score.Base.Tx.{Result, ok, err, Failure, Result-cases}
use api_score.Domain.{RejectionCode, RiskLimit, AutoStopTrigger}
use api_score.Ledger.Defs.{Entry}
use api_score.Engine.Defs.{
  Store, EngineEnv, ReserveStakeRequest, ReservationResult, reserved, rejected, apply_stop,
}
use api_score.Engine.Service.{reserve_within, reserve_stake, concluded, classify_reservation_error}
use api_score.Engine.Stages.{ok_pair}
use api_score.Engine.Reservation.{reserve_within-rejected, rejected_ne}

pub apply_stop-ledger :
    (env : EngineEnv) (t : Option AutoStopTrigger) (s : Store)
    → (apply_stop env t s).ledger ≡ s.ledger
apply_stop-ledger env none s = refl
apply_stop-ledger env (some t) s = refl

classify-rejects :
    (f : Failure) (t : Option AutoStopTrigger)
    → (c : RejectionCode) × (l : Option RiskLimit) × ((classify_reservation_error f t).0
        ≡ rejected c l)
unfolding classify_reservation_error
classify-rejects (Failure.blocked true) t = (_, _, refl)
classify-rejects (Failure.blocked false) t = (_, _, refl)
classify-rejects (Failure.ledger_rule r) t = (_, _, refl)
classify-rejects (Failure.http e) none = (_, _, refl)
classify-rejects (Failure.http e) (some t) = (_, _, refl)
classify-rejects Failure.other none = (_, _, refl)
classify-rejects Failure.other (some t) = (_, _, refl)

module _ (env : EngineEnv) (request : ReserveStakeRequest) (s : Store) where
  concluded_ok :
      (t : Option AutoStopTrigger) (x : Result (ReservationResult × Store)) {r : ReservationResult}
      {s' : Store}
      → x ≡ ok (r, s')
      → ((concluded env s (t, x)).0 ≡ r) × ((concluded env s (t, x)).1.ledger ≡ s'.ledger)
  concluded_ok t (ok (q, u)) h =
      let (same_store, same_result) = ok_pair h in
      (sym same_result, apply_stop-ledger env t u ∙ ap (λ (y : Store). y.ledger) (sym same_store))
  concluded_ok t (err f) h = cc

  concluded_err :
      (t : Option AutoStopTrigger) (x : Result (ReservationResult × Store)) {f : Failure}
      → x ≡ err f
      → ((concluded env s (t, x)).1.ledger ≡ s.ledger)
        × ((c : RejectionCode) × (l : Option RiskLimit) × ((concluded env s (t, x)).0
              ≡ rejected c l))
  concluded_err t (ok (q, u)) h = cc
  concluded_err t (err f) h =
      let (c, l, e) = classify-rejects f t in
      (apply_stop-ledger env (classify_reservation_error f t).1 s, (c, l, e))

  pub reserve_stake-ok :
      {r : ReservationResult} {s' : Store}
      → (reserve_within env request s).1 ≡ ok (r, s')
      → ((reserve_stake env request s).0 ≡ r) × ((reserve_stake env request s).1.ledger ≡ s'.ledger)
  unfolding reserve_stake
  reserve_stake-ok h =
      concluded_ok (reserve_within env request s).0 (reserve_within env request s).1 h

  pub reserve_stake-err :
      {f : Failure}
      → (reserve_within env request s).1 ≡ err f
      → ((reserve_stake env request s).1.ledger ≡ s.ledger)
        × ((c : RejectionCode) × (l : Option RiskLimit) × ((reserve_stake env request s).0
              ≡ rejected c l))
  unfolding reserve_stake
  reserve_stake-err h =
      concluded_err (reserve_within env request s).0 (reserve_within env request s).1 h

  -- A reservation that is refused, for whatever reason and by whatever error, leaves the ledger
  -- exactly as it was.
  pub reserve_stake-rejected :
      {c : RejectionCode} {l : Option RiskLimit}
      → (reserve_stake env request s).0 ≡ rejected c l
      → (reserve_stake env request s).1.ledger ≡ s.ledger
  reserve_stake-rejected {c} {l} h = elim (Result-cases (reserve_within env request s).1) [
    | inl ((r, u), e) ↦
        let (result, ledger) = reserve_stake-ok e in
        let refusal : (reserve_within env request s).1 ≡ ok (rejected c l, u) =
          e ∙ ap (λ (x : ReservationResult). ok (x, u)) (sym result ∙ h) in
        ledger ∙ ap (λ (y : Store). y.ledger) (reserve_within-rejected env request s refusal)
    | inr (f, e) ↦ (reserve_stake-err e).0
  ]

  pub reserve_stake-reserved :
      {x : Entry}
      → (reserve_stake env request s).0 ≡ reserved x false
      → (s' : Store) × ((reserve_within env request s).1 ≡ ok (reserved x false, s'))
        × ((reserve_stake env request s).1.ledger ≡ s'.ledger)
  reserve_stake-reserved {x} h = elim (Result-cases (reserve_within env request s).1) [
    | inl ((r, u), e) ↦
        let (result, ledger) = reserve_stake-ok e in
        (u, e ∙ ap (λ (y : ReservationResult). ok (y, u)) (sym result ∙ h), ledger)
    | inr (f, e) ↦ let (_, (c, l, q)) = reserve_stake-err e in absurd (rejected_ne (sym q ∙ h))
  ]
