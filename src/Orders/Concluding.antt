-- ===== src/Orders/Concluding.antt =====
-- The end of the transaction of `reserve`: the new order with its stake, or rejected without one.
use api_score.Base.{
  ℕ, ◌≡◌, refl, sym, ap, ◌∙◌, inl, inr, Bool, true, false, Option, none, some, ◌∷◌, arith, ◌==◌,
}
use mathlib.Core.Path.{subst}
use api_score.Base.Rows.{update_where, exists_where}
use api_score.Base.Tx.{Result, ok, err, Result-cases}
use api_score.Domain.{OrderStatus, RejectionCode, RiskLimit}
use api_score.Ledger.Defs.{Entry, EntryKey, reserve_key, key_eq}
use api_score.Ledger.Service.{find_entry}
use api_score.Ledger.History.{append-found}
use api_score.Engine.Defs
use api_score.Engine.Defs.{ReserveStakeRequest, ReservationResult, reserved, rejected}
use api_score.Engine.Service.{reserve_within}
use api_score.Engine.Keyed.{IsKeyed, reserve_within-IsKeyed, reserve_within-unused}
use api_score.Engine.Reservation.{reserve_within-rejected}
use api_score.Orders.Defs.{Order, OrderStore, OrderEnv}
use api_score.Orders.Entries.{
  IsLedgerStep, IsLedgerStep-refl, append-IsLedgerStep, append-unused, Backed, HasEntry,
}
use api_score.Orders.Changes.{IsStep}
use api_score.Orders.Locked.{transition-eq_ok, lock_order-eq_ok}
use api_score.Orders.Inserting.{insert-IsStep, update_new}
use api_score.Orders.Preparing.{IsInserted, IsPrepared, prepare-IsPrepared}
use api_score.Orders.Steps.{
  transition, lock_order, order_rejected, bumped, reject_decision, is_version,
}
use api_score.Orders.Reserving.{
  order_clashes, Prepared, done, inserted, prepare, conclude, concluded_on, reserve_prepared,
  reserve_tx, decision_reserved,
}

-- The tables with a new order, its stake reserved in those of the engine.
abbrev with_order : OrderStore → Order → Defs.Store → OrderStore
with_order s o e = record s { orders = o ∷ s.orders; engine = e }

other_reservation : (a k : ℕ) → (k == a) ≡ false → key_eq (reserve_key a) (reserve_key k) ≡ false
other_reservation a k h = ground arith

module _ (o : Order) (s : OrderStore)
    (fresh : exists_where (order_clashes o) s.orders ≡ false) where
  reserved-IsStep :
      (x : Entry) (e : Defs.Store) (s' : OrderStore)
      → o.status ≡ OrderStatus.reserved
      → IsKeyed (reserve_key o.idempotency_key) s.engine e x
      → s'.orders ≡ o ∷ s.orders
      → s'.engine ≡ e
      → IsStep s s'
  reserved-IsStep x e s' status m rows same =
      insert-IsStep s s' o rows fresh
        (subst (λ (y : Defs.Store). IsLedgerStep s.engine.ledger y.ledger) (sym same)
          (append-IsLedgerStep m.account m.input s.engine.ledger m.found m.appended))
        (λ k differs n.
          subst (λ (y : Defs.Store). find_entry (reserve_key k) y.ledger.entries ≡ none) (sym same)
            (append-unused m.account m.input s.engine.ledger (reserve_key k)
              (ap (λ (i : EntryKey). key_eq i (reserve_key k)) m.keyed
                ∙ other_reservation o.idempotency_key k differs)
              m.appended n))
        (subst (λ (t : OrderStatus). Backed t o.idempotency_key s'.engine.ledger.entries)
          (sym status)
          (subst (λ (y : Defs.Store). HasEntry (reserve_key o.idempotency_key) y.ledger.entries)
            (sym same)
            (
              m.result.entry,
              subst (λ (i : EntryKey). find_entry i e.ledger.entries ≡ some m.result.entry) m.keyed
                  (append-found m.account m.input s.engine.ledger m.appended),
            )))

  rejected-IsStep :
      (code : RejectionCode) (s' : OrderStore)
      → find_entry (reserve_key o.idempotency_key) s.engine.ledger.entries ≡ none
      → s'.orders ≡ bumped (order_rejected code) o ∷ s.orders
      → s'.engine ≡ s.engine
      → IsStep s s'
  rejected-IsStep code s' unused rows same =
      insert-IsStep s s' (bumped (order_rejected code) o) rows fresh
        (subst (λ (y : Defs.Store). IsLedgerStep s.engine.ledger y.ledger) (sym same)
          (IsLedgerStep-refl s.engine.ledger))
        (λ k differs n.
          subst (λ (y : Defs.Store). find_entry (reserve_key k) y.ledger.entries ≡ none) (sym same)
            n)
        (inl (
          subst
            (λ (y : Defs.Store). find_entry (reserve_key o.idempotency_key) y.ledger.entries ≡ none)
            (sym same) unused))

  -- The row of the new order, alone, is rejected.
  rejected_rows :
      (f : Order → Order)
      → o.version ≡ 1
      → update_where (is_version o.id 1) f (o ∷ s.orders) ≡ f o ∷ s.orders
  rejected_rows f version =
      let first : is_version o.id 1 o ≡ true = ground arith in
      rw (first, update_new o f 1 s.orders fresh) refl

  conclude_rejected :
      (code : RejectionCode) (limit : Option RiskLimit) (e : Defs.Store) {row : Option Order}
      {s' : OrderStore}
      → o.version ≡ 1
      → conclude o (rejected code limit) (with_order s o e) ≡ ok (row, s')
      → (s'.orders ≡ bumped (order_rejected code) o ∷ s.orders) × (s'.engine ≡ e)
  conclude_rejected code limit e {row} {s'} version h =
      elim (Result-cases (transition o.id 1 (order_rejected code) (with_order s o e))) [
        | inr (f, k) ↦ absurd (ground arith)
        | inl ((_, t), k) ↦
            elim (Result-cases (lock_order o.id (reject_decision o.decision_id code t))) [
              | inr (f, q) ↦ absurd (ground arith)
              | inl ((x, u), q) ↦
                  let moved = transition-eq_ok o.id 1 (order_rejected code) (with_order s o e) k in
                  let (_, kept) = lock_order-eq_ok o.id (reject_decision o.decision_id code t) q in
                  let end : s' ≡ u = ground arith in
                  let last = end ∙ kept ∙ ap (reject_decision o.decision_id code) moved in
                  (
                    ap (λ (x : OrderStore). x.orders) last
                        ∙ rejected_rows (bumped (order_rejected code)) version,
                    ap (λ (x : OrderStore). x.engine) last,
                  )
            ]
      ]

  conclude_reserved :
      (x : Entry) (replayed : Bool) (e : Defs.Store) {row : Option Order} {s' : OrderStore}
      → conclude o (reserved x replayed) (with_order s o e) ≡ ok (row, s')
      → (s'.orders ≡ o ∷ s.orders) × (s'.engine ≡ e)
  conclude_reserved x replayed e {row} {s'} h =
      let marked : OrderStore = record (with_order s o e) {
        decisions = update_where (λ d. d.id == o.decision_id) decision_reserved s.decisions;
      } in
      elim (Result-cases (lock_order o.id marked)) [
        | inr (f, q) ↦ absurd (ground arith)
        | inl ((y, u), q) ↦
            let (_, kept) = lock_order-eq_ok o.id marked q in
            let end : s' ≡ u = ground arith in
            (
              ap (λ (x : OrderStore). x.orders) (end ∙ kept),
              ap (λ (x : OrderStore). x.engine) (end ∙ kept),
            )
      ]

-- The reservation of the stake and what follows it, for an order that is inserted.
concluded-IsStep :
    (env : OrderEnv) (o : Order) (request : ReserveStakeRequest) (s t : OrderStore)
    (r : Result (ReservationResult × Defs.Store)) {row : Option Order} {s' : OrderStore}
    → IsInserted s o request t
    → (reserve_within env.engine request s.engine).1 ≡ r
    → concluded_on t o r ≡ ok (row, s')
    → IsStep s s'
concluded-IsStep env o request s t (err f) i q h = cc
concluded-IsStep env o request s t (ok (rejected code limit, e)) {s' = s'} i q h =
    let unused = reserve_within-unused env.engine request s.engine q in
    let kept = reserve_within-rejected env.engine request s.engine q in
    let concluded = rw i.tables at h in
    let (rows, same) = conclude_rejected o s i.fresh code limit e i.version concluded in
    rejected-IsStep o s i.fresh code s'
      (subst (λ (k : EntryKey). find_entry k s.engine.ledger.entries ≡ none) i.keyed unused) rows
      (same ∙ kept)
concluded-IsStep env o request s t (ok (reserved x replayed, e)) {s' = s'} i q h =
    let m = reserve_within-IsKeyed env.engine request s.engine q in
    let concluded = rw i.tables at h in
    let (rows, same) = conclude_reserved o s i.fresh x replayed e concluded in
    reserved-IsStep o s i.fresh x e s' i.status
      (subst (λ (k : EntryKey). IsKeyed k s.engine e x) i.keyed m) rows same

reserve_prepared-IsStep :
    (env : OrderEnv) (s t : OrderStore) (p : Prepared) {row : Option Order} {s' : OrderStore}
    → IsPrepared s p t
    → (reserve_prepared env (ok (p, t))).1 ≡ ok (row, s')
    → IsStep s s'
reserve_prepared-IsStep env s t (done o) {s' = s'} m h =
    let same : t ≡ s' = ground arith in subst (IsStep s) same m
reserve_prepared-IsStep env s t (inserted o request) m h =
    concluded-IsStep env o request s t (reserve_within env.engine request s.engine).1 m refl
      (rw (ap (λ (x : OrderStore). x.engine) m.tables) at h)

-- The transaction of `reserve`, if it commits.
pub reserve_tx-IsStep :
    (env : OrderEnv) (decision_id account id : ℕ) (s : OrderStore) {row : Option Order}
    {s' : OrderStore}
    → (reserve_tx env decision_id account id s).1 ≡ ok (row, s')
    → IsStep s s'
unfolding reserve_tx
reserve_tx-IsStep env decision_id account id s h =
    elim (Result-cases (prepare env decision_id account id s)) [
      | inr (f, e) ↦ absurd (ground arith)
      | inl ((p, t), e) ↦
          reserve_prepared-IsStep env s t p (prepare-IsPrepared env decision_id account id s e)
            (rw e at h)
    ]
