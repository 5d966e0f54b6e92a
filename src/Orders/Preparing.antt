-- ===== src/Orders/Preparing.antt =====
-- The transaction of `reserve`: it leaves the orders alone, or adds one whose stake is reserved, or
-- one that is rejected and whose stake is not.
use api_score.Base.{
  ℕ, ◌≡◌, refl, sym, ◌∙◌, inl, inr, Bool, true, false, Option, none, some, List, ◌∷◌, arith,
  Bool-cases, Option-cases, ◌==◌,
}
use mathlib.Core.Path.{subst}
use api_score.Base.Rows.{exists_where, find}
use api_score.Base.Tx.{
  Result, ok, err, http, not_found, Result-cases, >>=-eq_ok, Tx, lift, gets, or_throw, ◌>>=◌, pure,
}
use api_score.Money.{Text}
use api_score.Domain.{StoredMode, OrderStatus}
use api_score.Ledger.Defs.{reserve_key}
use api_score.Control.Defs.{ControlRow}
use api_score.Control.Service.{lock_for_execution}
use api_score.Engine.Defs.{ReserveStakeRequest}
use api_score.Orders.Defs.{
  Order, Decision, SimulationRun, OrderStore, OrderEnv, find_decision, order_idempotency_key,
}
use api_score.Orders.Entries.{IsLedgerStep-refl}
use api_score.Orders.Changes.{IsStep, same_orders-IsStep}
use api_score.Orders.Closing.{on_switch-eq_ok}
use api_score.Orders.Reserving.{
  on_switch, port_for, offer_of, new_order, order_clashes, insert_order, Prepared, done, inserted,
  request_of, prepare_keyed, prepare_offered, is_eligible, prepare_eligible, prepare_new, prepare,
}

-- An order is inserted, reserved and of the first version, and the request is for its stake.
pub record IsInserted (s : OrderStore) (o : Order) (request : ReserveStakeRequest) (t : OrderStore)
    : Type 0 where
  pub tables : t ≡ record s { orders = o ∷ s.orders }
  pub fresh : exists_where (order_clashes o) s.orders ≡ false
  pub status : o.status ≡ OrderStatus.reserved
  pub version : o.version ≡ 1
  pub keyed : request.entry_key ≡ reserve_key o.idempotency_key

abbrev pub IsPrepared : OrderStore → Prepared → OrderStore → Type 0
IsPrepared s (done o) t = IsStep s t
IsPrepared s (inserted o request) t = IsInserted s o request t

decisions_changed-IsStep :
    (s : OrderStore) (ds : List Decision) → IsStep s (record s { decisions = ds })
decisions_changed-IsStep s ds =
    same_orders-IsStep s (record s { decisions = ds }) refl (IsLedgerStep-refl s.engine.ledger)
      (λ k n. n)

insert_order-eq_ok :
    (o : Order) (s : OrderStore) {t : OrderStore}
    → insert_order o s ≡ ok (tt, t)
    → (t ≡ record s { orders = o ∷ s.orders }) × (exists_where (order_clashes o) s.orders ≡ false)
unfolding insert_order
insert_order-eq_ok o s h = elim (Bool-cases (exists_where (order_clashes o) s.orders)) [
  | inl t ↦ absurd (ground arith)
  | inr f ↦ (ground arith, f)
]

-- A step that is over leaves the orders alone.
over :
    (s : OrderStore) (o : Option Order) (ds : List Decision) {p : Prepared} {t : OrderStore}
    → ◌≡◌ {A = Result (Prepared × OrderStore)}
        (ok (done o, record s { decisions = ds }))
        (ok (p, t))
    → IsPrepared s p t
over s o ds h = subst holds h (decisions_changed-IsStep s ds)
  where
    holds : Result (Prepared × OrderStore) → Type 0
    holds (ok (q, u)) = IsPrepared s q u
    holds (err f) = ⊥

prepare_keyed-IsPrepared :
    (used : Bool) (o : Order) (at : ℕ) (s : OrderStore) {p : Prepared} {t : OrderStore}
    → o.status ≡ OrderStatus.reserved
    → o.version ≡ 1
    → prepare_keyed used o at s ≡ ok (p, t)
    → IsPrepared s p t
prepare_keyed-IsPrepared true o at s status version h = over s none _ h
prepare_keyed-IsPrepared false o at s {p} {t} status version h =
    let (_, u, e, k) = >>=-eq_ok (insert_order o) (λ _. pure (inserted o (request_of o at))) s h in
    let (tables, fresh) = insert_order-eq_ok o s e in
    let same : u ≡ t = ground arith in
    let result : inserted o (request_of o at) ≡ p = ground arith in
    subst (λ (q : Prepared). IsPrepared s q t) result
      (record {
        tables = sym same ∙ tables;
        fresh = fresh;
        status = status;
        version = version;
        keyed = refl;
      })

prepare_offered-IsPrepared :
    (env : OrderEnv) (account id : ℕ) (mode : StoredMode) (operator : ℕ) (d : Decision)
    (offer : Option (ℕ × Text × ℕ)) (s : OrderStore) {p : Prepared} {t : OrderStore}
    → prepare_offered env account id mode operator d offer s ≡ ok (p, t)
    → IsPrepared s p t
prepare_offered-IsPrepared env account id mode operator d none s h = over s none _ h
prepare_offered-IsPrepared env account id mode operator d (some (odd, stake, at)) s {p} {t} h =
    elim (Option-cases (find (λ (r : SimulationRun). r.id == d.simulation_run_id) s.runs)) [
      | inl e ↦ absurd (ground arith)
      | inr (run, e) ↦
          let key = order_idempotency_key env mode operator run.strategy_version d in
          prepare_keyed-IsPrepared (exists_where (λ o. o.idempotency_key == key) s.orders)
            (new_order id account mode operator key d (odd, stake, at)) at s {p = p} {t = t} refl
            refl (ground arith)
    ]

prepare_new-IsPrepared :
    (env : OrderEnv) (decision_id account id : ℕ) (existing : Option Order) (s : OrderStore)
    {p : Prepared} {t : OrderStore}
    → prepare_new env decision_id account id existing s ≡ ok (p, t)
    → IsPrepared s p t
prepare_new-IsPrepared env decision_id account id (some o) s h = over s (some o) s.decisions h
prepare_new-IsPrepared env decision_id account id none s {p} {t} h =
    let (control, u, e, k) =
      >>=-eq_ok (on_switch (lock_for_execution env.engine.control)) (rest_of) s h in
    eligible control (rw (on_switch-eq_ok env s e) at k)
  where
    rest_of : ControlRow → Tx OrderStore Prepared
    rest_of control = do
      operator ← lift (port_for env control.mode)
      found ← gets (λ s. find_decision decision_id s.decisions)
      d ← or_throw found (http not_found)
      prepare_eligible (is_eligible d.status) env account id control.mode operator d

    eligible : (control : ControlRow) → rest_of control s ≡ ok (p, t) → IsPrepared s p t
    eligible control k = elim (Result-cases (port_for env control.mode)) [
      | inr (f, e) ↦ absurd (ground arith)
      | inl (operator, e) ↦ elim (Option-cases (find_decision decision_id s.decisions)) [
        | inl n ↦ absurd (ground arith)
        | inr (d, n) ↦ elim (Bool-cases (is_eligible d.status)) [
          | inl b ↦
              prepare_offered-IsPrepared env account id control.mode operator d (offer_of d) s
                {p = p} {t = t} (ground arith)
          | inr b ↦ over s none s.decisions (ground arith)
        ]
      ]
    ]

pub prepare-IsPrepared :
    (env : OrderEnv) (decision_id account id : ℕ) (s : OrderStore) {p : Prepared} {t : OrderStore}
    → prepare env decision_id account id s ≡ ok (p, t)
    → IsPrepared s p t
unfolding prepare
prepare-IsPrepared env decision_id account id s h =
    prepare_new-IsPrepared env decision_id account id
      (find (λ o. o.decision_id == decision_id) s.orders) s h
