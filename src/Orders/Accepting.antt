-- ===== src/Orders/Accepting.antt =====
-- An acceptance, entered or disputed.
use api_score.Base.{
  ℕ, ◌≡◌, refl, sym, inl, inr, Bool, true, false, Option, none, some, List, arith, Bool-cases,
}
use mathlib.Core.Path.{subst}
use api_score.Base.Tx.{ok, Result-cases, >>=-eq_ok, ◌>>◌, pure}
use api_score.Domain.{OrderStatus, AutoStopTrigger}
use api_score.Ledger.Defs.{Entry, reserve_key}
use api_score.Operator.{Acceptance}
use api_score.Orders.Defs.{Order, OrderStore, find_order, is_among, Violation, acceptance_violation}
use api_score.Orders.Lifecycle.{accepts, disputes, is_pending}
use api_score.Orders.Entries.{IsLedgerStep-refl, Backed, HasEntry, kept_entry}
use api_score.Orders.Changes.{IsStep, kept-IsStep}
use api_score.Orders.Entering.{IsEntered, enter_acceptance-IsEntered}
use api_score.Orders.Locked.{lock_order-eq_ok, transition-eq_ok, among_pending, locked-IsStep}
use api_score.Orders.Steps.{lock_order, transition}
use api_score.Orders.Acceptance.{
  enter_acceptance, order_accepted, order_disputed, accept_checked, accept_locked, acceptable,
  accept, dispute_trigger, receipt_taken, external_taken,
}

-- A pending order has its reservation.
pending-Backed :
    (t : OrderStatus) (k : ℕ) (es : List Entry)
    → is_pending t ≡ true
    → Backed t k es
    → HasEntry (reserve_key k) es
pending-Backed OrderStatus.reserved k es p b = b
pending-Backed OrderStatus.submitting k es p b = b
pending-Backed OrderStatus.unknown k es p b = b
pending-Backed OrderStatus.accepted k es p b = cc
pending-Backed OrderStatus.rejected k es p b = cc
pending-Backed OrderStatus.settled k es p b = cc
pending-Backed OrderStatus.voided k es p b = cc
pending-Backed OrderStatus.reconciliation_required k es p b = cc

entered-IsStep :
    (id : ℕ) (o : Order) (a : Acceptance) (s s' : OrderStore)
    → find_order id s.orders ≡ some o
    → is_pending o.status ≡ true
    → IsEntered o a s s'
    → IsStep s s'
entered-IsStep id o a s s' found pending m =
    locked-IsStep s s' o (order_accepted a) (id, found) m.orders (λ x. refl) m.books m.unreserving
      (record {
        same = refl;
        move = accepts pending;
        backed = λ own b.
            kept_entry _ _ _ m.books.keeps
              (pending-Backed o.status o.idempotency_key s.engine.ledger.entries pending b);
      })

disputed-IsStep :
    (id : ℕ) (o : Order) (now : ℕ) (s : OrderStore) {s' : OrderStore}
    → find_order id s.orders ≡ some o
    → is_pending o.status ≡ true
    → transition o.id o.version (order_disputed now) s ≡ ok (tt, s')
    → IsStep s s'
disputed-IsStep id o now s {s'} found pending h =
    subst (IsStep s) (sym (transition-eq_ok o.id o.version (order_disputed now) s h)) (
      locked-IsStep s _ o (order_disputed now) (id, found) refl (λ x. refl)
        (IsLedgerStep-refl s.engine.ledger) (λ k n. n)
        (record {
          same = refl;
          move = disputes pending;
          backed = λ own. pending-Backed o.status o.idempotency_key s.engine.ledger.entries pending;
        }))

module _ (id : ℕ) (o : Order) (a : Acceptance) (now : ℕ) (s : OrderStore)
    (found : find_order id s.orders ≡ some o) (pending : is_pending o.status ≡ true) where
  checked_dispute :
      (stop : AutoStopTrigger) {r : Option AutoStopTrigger} {s' : OrderStore}
      → (transition o.id o.version (order_disputed now) >> pure (some stop)) s ≡ ok (r, s')
      → IsStep s s'
  checked_dispute stop {s' = s'} h =
      let (_, t, e, k) =
        >>=-eq_ok (transition o.id o.version (order_disputed now)) (λ _. pure (some stop)) s h in
      let same : t ≡ s' = ground arith in disputed-IsStep id o now s found pending (rw same at e)

  accept_checked-IsStep :
      (v : Option Violation) (taken ext : Bool) {r : Option AutoStopTrigger} {s' : OrderStore}
      → accept_checked v taken ext o a now s ≡ ok (r, s')
      → IsStep s s'
  accept_checked-IsStep none false false {s' = s'} h =
      let (_, t, e, k) = >>=-eq_ok (enter_acceptance o a now) (λ _. pure none) s h in
      let same : t ≡ s' = ground arith in
      entered-IsStep id o a s s' found pending (enter_acceptance-IsEntered o a now s (rw same at e))
  accept_checked-IsStep none false true h = checked_dispute (dispute_trigger false a) h
  accept_checked-IsStep none true ext h = checked_dispute (dispute_trigger true a) h
  accept_checked-IsStep (some v) taken ext h = checked_dispute (dispute_trigger taken a) h

  accept_locked-IsStep :
      {r : Option AutoStopTrigger} {s' : OrderStore}
      → accept_locked true o a now s ≡ ok (r, s')
      → IsStep s s'
  accept_locked-IsStep {r} {s'} h = elim (Result-cases (acceptance_violation o a)) [
    | inr (f, e) ↦ absurd (ground arith)
    | inl (v, e) ↦
        accept_checked-IsStep v (receipt_taken a.receipt_hash s.receipts)
          (external_taken o a.external_order_id s.orders) {r = r} {s' = s'} (ground arith)
  ]

-- An acceptance moves a pending order to ACCEPTED or to RECONCILIATION_REQUIRED, or does nothing.
pub accept-IsStep :
    (id : ℕ) (a : Acceptance) (now : ℕ) (s : OrderStore) {r : Option AutoStopTrigger}
    {s' : OrderStore}
    → accept id a now s ≡ ok (r, s')
    → IsStep s s'
unfolding accept
accept-IsStep id a now s {s' = s'} h =
    let (o, u, e, k) =
      >>=-eq_ok (lock_order id) (λ o. accept_locked (is_among o.status acceptable) o a now) s h in
    let (found, same) = lock_order-eq_ok id s e in
    elim (Bool-cases (is_among o.status acceptable)) [
      | inl t ↦
          accept_locked-IsStep id o a now s found (among_pending o.status acceptable refl t)
            (rw (same, t) at k)
      | inr n ↦ kept-IsStep s s' (ground arith)
    ]
