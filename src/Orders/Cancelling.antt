-- ===== src/Orders/Cancelling.antt =====
-- `cancel` and the doubt about a submission: each moves the one order that it locks.
use api_score.Base.{
  ℕ, ◌≡◌, refl, sym, ap, ◌∙◌, inl, inr, true, none, some, List, arith, Bool-cases, Option-cases,
}
use mathlib.Core.Path.{subst}
use api_score.Base.Rows.{all_where}
use api_score.Base.Tx.{ok, Result-cases, >>=-eq_ok}
use api_score.Domain.{OrderStatus, RejectionCode}
use api_score.Ledger.Defs.{Entry, release_key, reserve_key}
use api_score.Ledger.Defs
use api_score.Ledger.Service.{find_entry}
use api_score.Orders.Defs.{Order, OrderStore, find_order, status_eq, is_among}
use api_score.Orders.Lifecycle.{rejects, doubts, is_pending}
use api_score.Orders.Entries.{IsLedgerStep-refl}
use api_score.Orders.Changes.{IsStep, kept-IsStep}
use api_score.Orders.Locked.{
  lock_order-eq_ok, transition-eq_ok, transitioned, with_books, IsRelease, release_whole-eq_ok,
  among_pending, status_eq→eq, locked-IsStep,
}
use api_score.Orders.Steps.{
  lock_order, transition, release_whole, order_rejected, cancel_locked, cancel, reject_decision,
  order_unknown, doubt_locked, doubt,
}

abbrev RejectedTables : Order → RejectionCode → OrderStore → OrderStore → Type 0
RejectedTables o code s s' =
    s' ≡ reject_decision o.decision_id code (transitioned o.id o.version (order_rejected code) s)

rejected_unreserved :
    (o : Order) (code : RejectionCode) (s : OrderStore) {s' : OrderStore}
    → find_entry (reserve_key o.idempotency_key) s.engine.ledger.entries ≡ none
    → cancel_locked true code o s ≡ ok (tt, s')
    → RejectedTables o code s s'
rejected_unreserved o code s {s'} none_found h =
    elim (Result-cases (transition o.id o.version (order_rejected code) s)) [
      | inr (f, e) ↦ absurd (ground arith)
      | inl ((_, t), e) ↦
          let last : s' ≡ reject_decision o.decision_id code t = ground arith in
          last
          ∙ ap (reject_decision o.decision_id code)
              (transition-eq_ok o.id o.version (order_rejected code) s e)
    ]

rejected_reserved :
    (o : Order) (code : RejectionCode) (s : OrderStore) (x : Entry) {s' : OrderStore}
    → find_entry (reserve_key o.idempotency_key) s.engine.ledger.entries ≡ some x
    → cancel_locked true code o s ≡ ok (tt, s')
    → (l : Defs.Store) × RejectedTables o code (with_books s l) s'
      × IsRelease s (release_key o.idempotency_key) l
rejected_reserved o code s x {s'} entry h = elim (Result-cases (release_whole o s)) [
  | inr (f, e) ↦ absurd (ground arith)
  | inl ((_, u), e) ↦
      let (l, same, released) = release_whole-eq_ok o s e in
      elim (Result-cases (transition o.id o.version (order_rejected code) u)) [
        | inr (f, k) ↦ absurd (ground arith)
        | inl ((_, t), k) ↦
            let last : s' ≡ reject_decision o.decision_id code t = ground arith in
            let moved = transition-eq_ok o.id o.version (order_rejected code) u k in
            (
              l,
              last
                  ∙ ap (reject_decision o.decision_id code)
                      (moved ∙ ap (transitioned o.id o.version (order_rejected code)) same),
              released,
            )
      ]
]

cancel_locked-IsStep :
    (id : ℕ) (o : Order) (code : RejectionCode) (s : OrderStore) {s' : OrderStore}
    → find_order id s.orders ≡ some o
    → is_pending o.status ≡ true
    → cancel_locked true code o s ≡ ok (tt, s')
    → IsStep s s'
cancel_locked-IsStep id o code s {s'} found pending h =
    elim (Option-cases (find_entry (reserve_key o.idempotency_key) s.engine.ledger.entries)) [
      | inl e ↦
          let after = rejected_unreserved o code s e h in
          subst (IsStep s) (sym after) (
            locked-IsStep s _ o (order_rejected code) (id, found) refl (λ x. refl)
              (IsLedgerStep-refl s.engine.ledger) (λ k n. n)
              (record { same = refl; move = rejects pending; backed = λ own b. inl e }))
      | inr (x, e) ↦
          let (l, after, released) = rejected_reserved o code s x e h in
          subst (IsStep s) (sym after) (
            locked-IsStep s _ o (order_rejected code) (id, found) refl (λ x. refl) released.books
              released.unreserving
              (record { same = refl; move = rejects pending; backed = λ own b. inr released.held }))
    ]

-- A cancellation from statuses that are all pending rejects the order, or does nothing.
pub cancel-IsStep :
    (id : ℕ) (from : List OrderStatus) (code : RejectionCode) (s : OrderStore) {s' : OrderStore}
    → all_where is_pending from ≡ true
    → cancel id from code s ≡ ok (tt, s')
    → IsStep s s'
unfolding cancel
cancel-IsStep id from code s {s'} pending h =
    let (o, u, e, k) =
      >>=-eq_ok (lock_order id) (λ o. cancel_locked (is_among o.status from) code o) s h in
    let (found, same) = lock_order-eq_ok id s e in
    elim (Bool-cases (is_among o.status from)) [
      | inl t ↦
          cancel_locked-IsStep id o code s found (among_pending o.status from pending t)
            (rw (same, t) at k)
      | inr n ↦ kept-IsStep s s' (ground arith)
    ]

doubt_locked-IsStep :
    (id : ℕ) (o : Order) (now : ℕ) (s : OrderStore) {s' : OrderStore}
    → find_order id s.orders ≡ some o
    → o.status ≡ OrderStatus.submitting
    → transition o.id o.version (order_unknown now) s ≡ ok (tt, s')
    → IsStep s s'
doubt_locked-IsStep id o now s {s'} found submitting h =
    subst (IsStep s) (sym (transition-eq_ok o.id o.version (order_unknown now) s h)) (
      locked-IsStep s _ o (order_unknown now) (id, found) refl (λ x. refl)
        (IsLedgerStep-refl s.engine.ledger) (λ k n. n)
        (record { same = refl; move = rw submitting doubts; backed = rw submitting (λ own b. b) }))

-- An order under submission falls in doubt, or nothing happens.
pub doubt-IsStep :
    (id now : ℕ) (s : OrderStore) {s' : OrderStore} → doubt id now s ≡ ok (tt, s') → IsStep s s'
unfolding doubt
doubt-IsStep id now s {s'} h =
    let (o, u, e, k) =
      >>=-eq_ok (lock_order id)
        (λ o. doubt_locked (status_eq o.status OrderStatus.submitting) now o) s h in
    let (found, same) = lock_order-eq_ok id s e in
    elim (Bool-cases (status_eq o.status OrderStatus.submitting)) [
      | inl t ↦
          doubt_locked-IsStep id o now s found (status_eq→eq o.status OrderStatus.submitting t)
            (rw (same, t) at k)
      | inr n ↦ kept-IsStep s s' (ground arith)
    ]
