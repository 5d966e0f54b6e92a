-- ===== src/Orders/Closing.antt =====
-- The check before a submission, the recovery of interrupted submissions, and the close of an order.
use api_score.Base.{
  ℕ, ◌≡◌, refl, sym, ap, ◌∙◌, inl, inr, Bool, true, false, Option, some, List, arith, Bool-cases,
  ◌==◌,
}
use mathlib.Core.Path.{subst}
use api_score.Base.Int.{ℤ}
use api_score.Base.Rows.{update_where}
use api_score.Base.Tx.{ok, Result-cases, >>=-eq_ok, ◌>>=◌, pure}
use api_score.Money.{Text, from_cents}
use api_score.Domain.{OrderStatus, stored_mode_eq}
use api_score.Ledger.Defs.{Entry, settle_key, reserve_key}
use api_score.Control.Defs.{ControlRow, ControlStore}
use api_score.Control.Service.{lock_for_execution}
use api_score.Control.Changes.{active_policy}
use api_score.Control.Switch.{lock_for_execution_iff}
use api_score.Operator.{OperatorQuote}
use api_score.Orders.Defs.{Order, OrderStore, OrderEnv, find_order, status_eq, DecisionOutcome}
use api_score.Orders.Lifecycle.{Move, submits, doubts, settles, voids}
use api_score.Orders.Entries.{IsLedgerStep-refl, Backed, HasEntry}
use api_score.Orders.Changes.{IsStep, kept-IsStep, update-IsStep}
use api_score.Orders.Locked.{lock_order-eq_ok, transition-eq_ok, status_eq→eq, locked-IsStep}
use api_score.Orders.Steps.{
  lock_order, transition, bumped, final_status, order_settled, decision_completed, close_locked,
  close, is_stale_submission, order_interrupted, recover_stale_submissions,
}
use api_score.Orders.Reserving.{on_switch}
use api_score.Orders.Verifying.{
  Verdict, QuoteCheck, refuses, offers, check_quote, order_submitting, verify_checked, verify_mode,
  verify_locked, verify,
}

final-Move : (outcome : DecisionOutcome) → Move OrderStatus.accepted (final_status outcome)
final-Move DecisionOutcome.void = voids
final-Move DecisionOutcome.won = settles
final-Move DecisionOutcome.lost = settles
final-Move DecisionOutcome.no_result = settles

final-Backed :
    (outcome : DecisionOutcome) (k : ℕ) (es : List Entry)
    → HasEntry (settle_key k) es
    → HasEntry (reserve_key k) es
    → Backed (final_status outcome) k es
final-Backed DecisionOutcome.void k es settled b = (b, settled)
final-Backed DecisionOutcome.won k es settled b = (b, settled)
final-Backed DecisionOutcome.lost k es settled b = (b, settled)
final-Backed DecisionOutcome.no_result k es settled b = (b, settled)

module _ (id : ℕ) (o : Order) (outcome : DecisionOutcome) (payout : Text) (at : ℕ) (s : OrderStore)
    (found : find_order id s.orders ≡ some o) (accepted : o.status ≡ OrderStatus.accepted)
    (settled : HasEntry (settle_key o.idempotency_key) s.engine.ledger.entries) where
  close_locked-IsStep :
      (profit : ℤ) {s' : OrderStore}
      → close_locked true outcome profit payout at o s ≡ ok (tt, s')
      → IsStep s s'
  close_locked-IsStep profit {s'} h =
      elim (Result-cases (transition o.id o.version (order_settled outcome payout at) s)) [
        | inr (f, e) ↦ absurd (ground arith)
        | inl ((_, t), e) ↦ elim (Result-cases (from_cents profit)) [
          | inr (f, q) ↦ absurd (ground arith)
          | inl (text, q) ↦
              let moved = transition-eq_ok o.id o.version (order_settled outcome payout at) s e in
              let completed : OrderStore → OrderStore = λ x. record x {
                decisions =
                    update_where (λ d. d.id == o.decision_id) (decision_completed outcome text at)
                      x.decisions;
              } in
              let last : s' ≡ completed t = ground arith in
              subst (IsStep s) (sym (last ∙ ap completed moved)) (
                locked-IsStep s _ o (order_settled outcome payout at) (id, found) refl (λ x. refl)
                  (IsLedgerStep-refl s.engine.ledger) (λ k n. n)
                  (record {
                    same = refl;
                    move = rw accepted (final-Move outcome);
                    backed = λ own b.
                        final-Backed outcome o.idempotency_key s.engine.ledger.entries settled
                          (rw accepted at b);
                  }))
        ]
      ]

-- An accepted order whose settlement is in the ledger is closed, or nothing happens.
pub close-IsStep :
    (id : ℕ) (outcome : DecisionOutcome) (profit : ℤ) (payout : Text) (at : ℕ) (s : OrderStore)
    {s' : OrderStore}
    → ((o : Order)
        → find_order id s.orders ≡ some o
        → HasEntry (settle_key o.idempotency_key) s.engine.ledger.entries)
    → close id outcome profit payout at s ≡ ok (tt, s')
    → IsStep s s'
unfolding close
close-IsStep id outcome profit payout at s {s'} settled h =
    let (o, u, e, k) =
      >>=-eq_ok (lock_order id)
        (λ o. close_locked (status_eq o.status OrderStatus.accepted) outcome profit payout at o) s
        h in
    let (found, same) = lock_order-eq_ok id s e in
    elim (Bool-cases (status_eq o.status OrderStatus.accepted)) [
      | inl t ↦
          close_locked-IsStep id o outcome payout at s found
            (status_eq→eq o.status OrderStatus.accepted t) (settled o found) profit
            (rw (same, t) at k)
      | inr n ↦ kept-IsStep s s' (ground arith)
    ]

-- Submissions that have lasted too long fall in doubt, and nothing else happens.
pub recover-IsStep : (now : ℕ) (s : OrderStore) → IsStep s (recover_stale_submissions now s).1
unfolding recover_stale_submissions
recover-IsStep now s =
    update-IsStep s _ (is_stale_submission now) (bumped order_interrupted) refl (λ x. refl)
      (λ id o found stale.
        let submitting : o.status ≡ OrderStatus.submitting = stale_status o stale in
        record { same = refl; move = rw submitting doubts; backed = rw submitting (λ own b. b) })
      (IsLedgerStep-refl s.engine.ledger) (λ k n. n)
  where
    stale_status :
        (o : Order) → is_stale_submission now o ≡ true → o.status ≡ OrderStatus.submitting
    stale_status o h = status_eq→eq o.status OrderStatus.submitting (ground arith)

module _ (id now : ℕ) (o : Order) (s : OrderStore) (found : find_order id s.orders ≡ some o)
    (reserved : o.status ≡ OrderStatus.reserved) where
  verify_checked-IsStep :
      (c : QuoteCheck) {v : Verdict} {s' : OrderStore}
      → verify_checked now o c s ≡ ok (v, s')
      → IsStep s s'
  verify_checked-IsStep (refuses code stop) {s' = s'} h = kept-IsStep s s' (ground arith)
  verify_checked-IsStep (offers odd) {s' = s'} h =
      let (_, t, e, k) =
        >>=-eq_ok (transition o.id o.version (order_submitting odd now))
          (λ _. lock_order o.id >>= λ row. pure (Verdict.submits row)) s h in
      let (row, u, f, l) = >>=-eq_ok (lock_order o.id) (λ row. pure (Verdict.submits row)) t k in
      let (_, same) = lock_order-eq_ok o.id t f in
      let last : s' ≡ t = ground arith in
      subst (IsStep s) (sym (last ∙ transition-eq_ok o.id o.version (order_submitting odd now) s e))
        (locked-IsStep s _ o (order_submitting odd now) (id, found) refl (λ x. refl)
          (IsLedgerStep-refl s.engine.ledger) (λ k n. n)
          (record { same = refl; move = rw reserved submits; backed = rw reserved (λ own b. b) }))

  verify_mode-IsStep :
      (b : Bool) (control : ControlRow) (quote : Option OperatorQuote) {v : Verdict}
      {s' : OrderStore}
      → verify_mode b now control quote o s ≡ ok (v, s')
      → IsStep s s'
  verify_mode-IsStep false control quote {s' = s'} h = kept-IsStep s s' (ground arith)
  verify_mode-IsStep true control quote h =
      verify_checked-IsStep
        (check_quote now (active_policy control.active_risk_policy_id s.engine.control.policies)
          o.minimum_odd quote)
        h

-- A step on the control that lets a caller through changes nothing.
pub on_switch-eq_ok :
    (env : OrderEnv) (s : OrderStore) {row : ControlRow} {s' : OrderStore}
    → on_switch (lock_for_execution env.engine.control) s ≡ ok (row, s')
    → s' ≡ s
on_switch-eq_ok env s {row} {s'} h =
    elim (Result-cases (lock_for_execution env.engine.control s.engine.control)) [
      | inr (f, e) ↦ absurd (ground arith)
      | inl ((r, c), e) ↦
          let (_, _, _, _, kept) =
            (lock_for_execution_iff env.engine.control s.engine.control c r).0 e in
          let last : s' ≡ record s { engine = record s.engine { control = c } } = ground arith in
          last
          ∙ ap (λ (x : ControlStore). record s { engine = record s.engine { control = x } }) kept
    ]

-- The transaction before a submission moves a reserved order under submission, or does nothing.
pub verify-IsStep :
    (env : OrderEnv) (id : ℕ) (quote : Option OperatorQuote) (s : OrderStore) {v : Verdict}
    {s' : OrderStore}
    → verify env id quote s ≡ ok (v, s')
    → IsStep s s'
unfolding verify
verify-IsStep env id quote s {s' = s'} h =
    let (row, t, e, k) =
      >>=-eq_ok (on_switch (lock_for_execution env.engine.control))
        (λ control. lock_order id >>= λ o.
          verify_locked (status_eq o.status OrderStatus.reserved) env.engine.now control quote o)
        s h in
    let open_switch = on_switch-eq_ok env s e in
    let (o, u, f, l) =
      >>=-eq_ok (lock_order id)
        (λ o. verify_locked (status_eq o.status OrderStatus.reserved) env.engine.now row quote o) t
        k in
    let (found, same) = lock_order-eq_ok id t f in
    let found' : find_order id s.orders ≡ some o =
      ap (λ (x : OrderStore). find_order id x.orders) (sym open_switch) ∙ found in
    elim (Bool-cases (status_eq o.status OrderStatus.reserved)) [
      | inl r ↦
          verify_mode-IsStep id env.engine.now o s found'
            (status_eq→eq o.status OrderStatus.reserved r) (stored_mode_eq row.mode o.mode) row
            quote (rw (same, open_switch, r) at l)
      | inr n ↦ kept-IsStep s s' (sym (ground arith) ∙ same ∙ open_switch)
    ]
