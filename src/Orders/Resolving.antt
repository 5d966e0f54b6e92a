-- ===== src/Orders/Resolving.antt =====
-- The methods that settle an order and that resolve a doubt are sequences of transactions.
use api_score.Base.{
  ℕ, ◌≡◌, sym, ap, ◌∙◌, inl, inr, Bool, true, false, Option, some, none, arith, Bool-cases,
}
use mathlib.Core.Path.{subst}
use api_score.Base.Int.{ℤ, leb_ℤ, pos, sub_ℕ}
use api_score.Base.Tx.{Result, ok, err, Result-cases, run_ok, run_err}
use api_score.Money.{Text}
use api_score.Domain.{
  OrderStatus, operator_unavailable, unknown_order_too_old, unknown_max_age_ms, unknown_grace_ms,
}
use api_score.Operator.{OperatorOrder, OperatorOrderStatus}
use api_score.Orders.Defs.{Order, OrderStore, OrderEnv, find_order, status_eq}
use api_score.Orders.Steps.{lock_order}
use api_score.Orders.Locked.{lock_order-eq_ok}
use api_score.Orders.Reserving.{stopped_if}
use api_score.Orders.Service.{
  Call, ◌>>=◌, pure, transact, effect, read_order, cancel_unknown, apply_acceptance,
}
use api_score.Orders.Reachable.{Step, Reach, here, one}
use api_score.Base.{eq_of_some}
use api_score.Ledger.Defs.{Entry, settle_key}
use api_score.Orders.Defs.{settlement_outcome, DecisionOutcome}
use api_score.Orders.Entries.{HasEntry}
use api_score.Orders.Changes.{find_order-id}
use api_score.Orders.Steps.{close}
use api_score.Orders.Service.{lift}
use api_score.Orders.Settling.{settle_stake-found}
use api_score.Orders.Following.{
  is_over, declared_payout, or_now, settle_books, known_stake, settle_declared, settle_if,
  settle_from_operator, UnknownResolution, settled, declared_not_placed, too_old, resolve_entered,
  resolve_found, resolve_missing, resolve_if, resolve_unknown,
}
use api_score.Orders.Methods.{
  Runs, >>=-Runs, read_order-Runs, stop-Runs, cancel_unknown-Runs, apply_acceptance-Runs,
  chain-Reach, read_order-kept,
}

read_order-found :
    (id : ℕ) (s : OrderStore) {o : Order}
    → (read_order id s).0 ≡ ok o
    → find_order id s.orders ≡ some o
read_order-found id s {o} h = elim (Result-cases (lock_order id s)) [
  | inl ((p, t), e) ↦
      let (found, same) = lock_order-eq_ok id s e in
      let first : (read_order id s).0 ≡ ok p =
        ap (λ (r : Result Order × OrderStore). r.0) (run_ok (lock_order id) s e) in
      let same_order : p ≡ o = ground arith in rw (← same_order) found
  | inr (f, e) ↦
      let first : (read_order id s).0 ≡ err f =
        ap (λ (r : Result Order × OrderStore). r.0) (run_err (lock_order id) s e) in
      absurd (ground arith)
]

module _ (env : OrderEnv) (o : Order) (s : OrderStore)
    (found : find_order o.id s.orders ≡ some o) where
  -- Once the books are settled, the order can be closed.
  close-Reach :
      (stake payout : Text) (at : ℕ) (e : Entry)
      → (settle_books env o stake payout s).0 ≡ ok e
      → (outcome : DecisionOutcome) (profit : ℤ)
      → Reach
          (settle_books env o stake payout s).1
          (transact (close o.id outcome profit payout at) (settle_books env o stake payout s).1).1
  close-Reach stake payout at e h outcome profit =
      let t = (settle_books env o stake payout s).1 in
      let entry =
        settle_stake-found env.engine o.account_id (settle_key o.idempotency_key) stake payout
          (some o.id) s.engine h in
      elim (Result-cases (close o.id outcome profit payout at t)) [
        | inl ((u, t'), q) ↦
            subst (λ (p : Result (Unit {0}) × OrderStore). Reach t p.1)
              (sym (run_ok (close o.id outcome profit payout at) t q))
              (one (
                Step.closes o.id outcome profit payout at t t'
                  (λ x f.
                    subst
                      (λ (y : Order).
                        HasEntry (settle_key y.idempotency_key) t.engine.ledger.entries)
                      (eq_of_some (sym found ∙ f)) entry)
                  q))
        | inr (f, q) ↦
            subst (λ (p : Result (Unit {0}) × OrderStore). Reach t p.1)
              (sym (run_err (close o.id outcome profit payout at) t q)) here
      ]

  after_books-Reach :
      (stake payout : Text) (at : ℕ) (e : Entry)
      → (settle_books env o stake payout s).0 ≡ ok e
      → Reach
          (settle_books env o stake payout s).1
          ((lift (settlement_outcome stake payout) >>= λ settled.
              transact (close o.id settled.0 settled.1 payout at) >>= λ _. read_order o.id)
            (settle_books env o stake payout s).1).1
  after_books-Reach stake payout at e h =
      let t = (settle_books env o stake payout s).1 in
      chain-Reach (lift (settlement_outcome stake payout))
        (λ settled. transact (close o.id settled.0 settled.1 payout at) >>= λ _. read_order o.id) t
        here
        (λ settled _.
          chain-Reach (transact (close o.id settled.0 settled.1 payout at)) (λ _. read_order o.id) t
            (close-Reach stake payout at e h settled.0 settled.1)
            (λ u _. read_order-Runs o.id (transact (close o.id settled.0 settled.1 payout at) t).1))

  settle_declared-Reach :
      (at : Option ℕ) (payout : Text) → Reach s (settle_declared env o at payout s).1
  settle_declared-Reach at payout =
      let now = or_now at env.engine.now in
      let rest : Text → Call Order = λ stake. settle_books env o stake payout >>= λ _.
      lift (settlement_outcome stake payout) >>= λ settled.
      transact (close o.id settled.0 settled.1 payout now) >>= λ _. read_order o.id in
      chain-Reach (lift (known_stake o.accepted_stake)) rest s here (λ stake _.
        chain-Reach (settle_books env o stake payout)
          (λ _. lift (settlement_outcome stake payout) >>= λ settled.
            transact (close o.id settled.0 settled.1 payout now) >>= λ _. read_order o.id)
          s
          (one (Step.settles env.engine o.account_id o.idempotency_key stake payout (some o.id) s))
          (λ e h. after_books-Reach stake payout now e h))

  settle_if-Reach :
      (b : Bool) (at : Option ℕ) (payout : Option Text) → Reach s (settle_if b env o at payout s).1
  settle_if-Reach true at (some payout) = settle_declared-Reach at payout
  settle_if-Reach true at none = here
  settle_if-Reach false at payout = here

-- A settlement that the operator declares is a sequence of transactions.
pub settle_from_operator-Runs :
    (env : OrderEnv) (id : ℕ) (op : OperatorOrder) → Runs (settle_from_operator env id op)
unfolding settle_from_operator
settle_from_operator-Runs env id op s =
    chain-Reach (read_order id)
      (λ o.
        settle_if (status_eq o.status OrderStatus.accepted) env o op.settled_at
          (declared_payout op))
      s (read_order-Runs id s)
      (λ o h.
        let found = read_order-found id s h in
        let own : find_order o.id s.orders ≡ some o =
          ap (λ j. find_order j s.orders) (find_order-id id s.orders found) ∙ found in
        subst
          (λ t.
            Reach t
              (settle_if (status_eq o.status OrderStatus.accepted) env o op.settled_at
                (declared_payout op) t).1)
          (sym (read_order-kept id s))
          (settle_if-Reach env o s own (status_eq o.status OrderStatus.accepted) op.settled_at
            (declared_payout op)))

module _ (env : OrderEnv) (o : Order) where
  resolve_entered-Runs :
      (op : OperatorOrder) (status : OperatorOrderStatus) (row : Order)
      → Runs (resolve_entered env o op status row)
  resolve_entered-Runs op status row =
      elim (Bool-cases (status_eq row.status OrderStatus.reconciliation_required)) [
        | inl t ↦ rw t (λ s. here)
        | inr n ↦ rw n (elim (Bool-cases (is_over status)) [
          | inl t ↦ rw t (
              >>=-Runs (settle_from_operator env o.id op) (λ _. pure settled)
                (settle_from_operator-Runs env o.id op) (λ _ s. here))
          | inr n ↦ rw n (λ s. here)
        ])
      ]

  accepted-Runs :
      (op : OperatorOrder) (status : OperatorOrderStatus)
      → Runs
          (apply_acceptance env o.id op.acceptance >>= λ row. resolve_entered env o op status row)
  accepted-Runs op status =
      >>=-Runs (apply_acceptance env o.id op.acceptance) (resolve_entered env o op status)
        (apply_acceptance-Runs env o.id op.acceptance) (resolve_entered-Runs op status)

  resolve_found-Runs :
      (op : OperatorOrder) (status : OperatorOrderStatus) → Runs (resolve_found env o op status)
  resolve_found-Runs op OperatorOrderStatus.rejected =
      >>=-Runs (cancel_unknown o.id operator_unavailable) (λ _. pure UnknownResolution.rejected)
        (cancel_unknown-Runs o.id operator_unavailable) (λ _ s. here)
  resolve_found-Runs op OperatorOrderStatus.accepted = accepted-Runs op OperatorOrderStatus.accepted
  resolve_found-Runs op OperatorOrderStatus.settled = accepted-Runs op OperatorOrderStatus.settled
  resolve_found-Runs op OperatorOrderStatus.voided = accepted-Runs op OperatorOrderStatus.voided

  resolve_missing-Runs : (age : ℤ) → Runs (resolve_missing env o age)
  resolve_missing-Runs age = elim (Bool-cases (leb_ℤ (pos unknown_max_age_ms) age)) [
    | inl t ↦ rw t (
        >>=-Runs (effect (stopped_if env (some unknown_order_too_old))) (λ _. pure too_old)
          (stop-Runs env (some unknown_order_too_old)) (λ _ s. here))
    | inr n ↦ rw n (elim (Bool-cases (leb_ℤ (pos unknown_grace_ms) age)) [
      | inl t ↦ rw t (
          >>=-Runs (cancel_unknown o.id operator_unavailable) (λ _. pure declared_not_placed)
            (cancel_unknown-Runs o.id operator_unavailable) (λ _ s. here))
      | inr n ↦ rw n (λ s. here)
    ])
  ]

  resolve_if-Runs :
      (b : Bool) (age : ℤ) (found : Option OperatorOrder) → Runs (resolve_if b env o age found)
  resolve_if-Runs false age found = λ s. here
  resolve_if-Runs true age none = resolve_missing-Runs age
  resolve_if-Runs true age (some op) = resolve_found-Runs op op.status

-- Resolving an order in doubt, whatever the operator and the clock say, is a sequence of the
-- transactions and calls whose laws are proved: nothing else happens to the tables.
pub resolve_unknown-Reach :
    (env : OrderEnv) (o : Order) (updated_at : ℕ) (found : Option OperatorOrder) (now : ℕ)
    (s : OrderStore)
    → Reach s (resolve_unknown env o updated_at found now s).1
unfolding resolve_unknown
resolve_unknown-Reach env o updated_at found now s =
    resolve_if-Runs env o (status_eq o.status OrderStatus.unknown)
      (sub_ℕ now (or_now o.unknown_since updated_at)) found s
