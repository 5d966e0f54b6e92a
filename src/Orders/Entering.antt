-- ===== src/Orders/Entering.antt =====
-- What entering an acceptance does: the order moves, and the unused part of its stake is released.
use api_score.Base.{
  ℕ, ◌≡◌, refl, sym, ap, ◌∙◌, inl, inr, Bool, true, false, List, arith, Option-cases, ◌==◌,
}
use mathlib.Core.Path.{subst}
use api_score.Base.Int.{ℤ, pos, ◌+ℤ◌, neg, ltb_ℤ}
use api_score.Base.Rows.{update_where}
use api_score.Base.Tx.{Result, ok, other, Result-cases, lift, gets, or_throw, modify, ◌>>=◌, ◌>>◌}
use api_score.Money.{to_cents}
use api_score.Ledger.Defs.{release_partial_key}
use api_score.Operator.{Acceptance}
use api_score.Orders.Defs.{Order, Receipt, OrderStore, find_decision}
use api_score.Orders.Entries.{IsLedgerStep, IsLedgerStep-refl, Unreserving}
use api_score.Orders.Locked.{
  transition-eq_ok, transitioned, release_cents-eq_ok, insert_receipt-eq_ok,
}
use api_score.Orders.Steps.{transition, is_version, bumped}
use api_score.Orders.Acceptance.{
  enter_acceptance, insert_receipt, hash_of, order_accepted, read_text, release_unused,
  decision_executed,
}

-- What became of the books, and of no row of an order.
record IsAside (s s' : OrderStore) : Type 0 where
  pub orders : s'.orders ≡ s.orders
  pub books : IsLedgerStep s.engine.ledger s'.engine.ledger
  pub unreserving : Unreserving s.engine.ledger.entries s'.engine.ledger.entries

release_unused-IsAside :
    (b : Bool) (o : Order) (cents : ℤ) (s : OrderStore) {s' : OrderStore}
    → release_unused b o cents s ≡ ok (tt, s')
    → IsAside s s'
release_unused-IsAside false o cents s {s'} h =
    let same : s' ≡ s = ground arith in
    subst (IsAside s) (sym same)
      (record { orders = refl; books = IsLedgerStep-refl s.engine.ledger; unreserving = λ k n. n })
release_unused-IsAside true o cents s h =
    let (l, same, released) =
      release_cents-eq_ok o (release_partial_key o.idempotency_key) cents s refl h in
    subst (IsAside s) (sym same)
      (record { orders = refl; books = released.books; unreserving = released.unreserving })

-- The order moves to ACCEPTED, and what the operator did not take is released.
pub record IsEntered (o : Order) (a : Acceptance) (s s' : OrderStore) : Type 0 where
  pub orders :
      s'.orders ≡ update_where (is_version o.id o.version) (bumped (order_accepted a)) s.orders
  pub books : IsLedgerStep s.engine.ledger s'.engine.ledger
  pub unreserving : Unreserving s.engine.ledger.entries s'.engine.ledger.entries

-- The part of `enter_acceptance` after the order has moved.
abbrev rest_of : Order → Acceptance → ℕ → OrderStore → Result (Unit {0} × OrderStore)
rest_of o a now = do
  requested ← lift (to_cents o.requested_stake)
  taken ← lift (read_text a.accepted_stake)
  release_unused (ltb_ℤ (pos 0) (requested +ℤ neg taken)) o (requested +ℤ neg taken)
  found ← gets (λ s. find_decision o.decision_id s.decisions)
  d ← or_throw found other
  modify (λ s. record s {
    decisions = update_where (λ e. e.id == d.id) (decision_executed now a) s.decisions;
  })

rest_of-IsAside :
    (o : Order) (a : Acceptance) (now : ℕ) (s : OrderStore) {s' : OrderStore}
    → rest_of o a now s ≡ ok (tt, s')
    → IsAside s s'
rest_of-IsAside o a now s {s'} h = elim (Result-cases (to_cents o.requested_stake)) [
  | inr (f, e) ↦ absurd (ground arith)
  | inl (requested, e) ↦ elim (Result-cases (read_text a.accepted_stake)) [
    | inr (f, q) ↦ absurd (ground arith)
    | inl (taken, q) ↦
        let left = requested +ℤ neg taken in
        elim (Result-cases (release_unused (ltb_ℤ (pos 0) left) o left s)) [
          | inr (f, k) ↦ absurd (ground arith)
          | inl ((_, u), k) ↦ elim (Option-cases (find_decision o.decision_id u.decisions)) [
            | inl n ↦ absurd (ground arith)
            | inr (d, n) ↦
                let aside = release_unused-IsAside (ltb_ℤ (pos 0) left) o left s k in
                let last : s' ≡ record u {
                  decisions =
                      update_where (λ e. e.id == d.id) (decision_executed now a) u.decisions;
                } =
                  ground arith in
                subst (IsAside s) (sym last) (record {
                  orders = aside.orders;
                  books = aside.books;
                  unreserving = aside.unreserving;
                })
          ]
        ]
  ]
]

pub enter_acceptance-IsEntered :
    (o : Order) (a : Acceptance) (now : ℕ) (s : OrderStore) {s' : OrderStore}
    → enter_acceptance o a now s ≡ ok (tt, s')
    → IsEntered o a s s'
unfolding enter_acceptance
enter_acceptance-IsEntered o a now s {s'} h =
    elim (Result-cases (insert_receipt o.id (hash_of a.receipt_hash) s)) [
      | inr (f, e) ↦ absurd (ground arith)
      | inl ((_, t), e) ↦
          let (rs, with_receipt) = insert_receipt-eq_ok o.id (hash_of a.receipt_hash) s e in
          elim (Result-cases (transition o.id o.version (order_accepted a) t)) [
            | inr (f, k) ↦ absurd (ground arith)
            | inl ((_, u), k) ↦
                let moved = transition-eq_ok o.id o.version (order_accepted a) t k in
                let rest : rest_of o a now u ≡ ok (tt, s') = ground arith in
                entered_by rs
                  (moved ∙ ap (transitioned o.id o.version (order_accepted a)) with_receipt)
                  (rest_of-IsAside o a now u rest)
          ]
    ]
  where
    entered_by :
        (rs : List Receipt) {u : OrderStore}
        → u ≡ transitioned o.id o.version (order_accepted a) (record s { receipts = rs })
        → IsAside u s'
        → IsEntered o a s s'
    entered_by rs e aside =
        (let m = subst (λ (x : OrderStore). IsAside x s') e aside in
          record { orders = m.orders; books = m.books; unreserving = m.unreserving })
