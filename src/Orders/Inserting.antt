-- ===== src/Orders/Inserting.antt =====
-- A new order in the tables: rows that were there are found as before.
use api_score.Base.{
  ℕ, ◌≡◌, refl, inl, inr, false, none, some, List, [], ◌∷◌, arith, Bool-cases, ◌==◌, eq_of_some,
}
use mathlib.Core.Path.{subst}
use api_score.Base.Rows.{update_where, exists_where}
use api_score.Ledger.Defs.{reserve_key}
use api_score.Ledger.Service.{find_entry}
use api_score.Orders.Defs.{Order, OrderStore, find_order}
use api_score.Orders.Lifecycle.{Follows-refl}
use api_score.Orders.Entries.{IsLedgerStep, Backed, kept-Backed}
use api_score.Orders.Changes.{IsStep, IsBacked, find_order-id}
use api_score.Orders.Steps.{is_version}
use api_score.Orders.Reserving.{order_clashes}

-- No row is touched by an update of a version of a new order.
pub update_new :
    (o : Order) (f : Order → Order) (version : ℕ) (rows : List Order)
    → exists_where (order_clashes o) rows ≡ false
    → update_where (is_version o.id version) f rows ≡ rows
update_new o f version [] h = refl
update_new o f version (x ∷ rows) h = ground (arith, update_new o f version rows)

-- A row that was there has another identifier and another key than a new order.
old_row :
    (o : Order) (id : ℕ) (rows : List Order) {x : Order}
    → exists_where (order_clashes o) rows ≡ false
    → find_order id rows ≡ some x
    → ((x.id == o.id) ≡ false) × ((x.idempotency_key == o.idempotency_key) ≡ false)
old_row o id [] h f = cc
old_row o id (r ∷ rows) {x} h f = elim (Bool-cases (r.id == id)) [
  | inl same ↦ let e : r ≡ x = ground arith in rw (← e) (ground arith, ground arith)
  | inr differs ↦ old_row o id rows {x = x} (ground arith) (ground arith)
]

new_id :
    (o : Order) (rows : List Order)
    → exists_where (order_clashes o) rows ≡ false
    → find_order o.id rows ≡ none
new_id o [] h = refl
new_id o (x ∷ rows) h = ground (arith, new_id o rows)

module _ (s s' : OrderStore) (o : Order) (rows : s'.orders ≡ o ∷ s.orders)
    (fresh : exists_where (order_clashes o) s.orders ≡ false)
    (books : IsLedgerStep s.engine.ledger s'.engine.ledger)
    (unreserving : (k : ℕ)
      → (k == o.idempotency_key) ≡ false
      → find_entry (reserve_key k) s.engine.ledger.entries ≡ none
      → find_entry (reserve_key k) s'.engine.ledger.entries ≡ none)
    (held : Backed o.status o.idempotency_key s'.engine.ledger.entries) where
  found_still :
      (id : ℕ) (x : Order) → find_order id s.orders ≡ some x → find_order id s'.orders ≡ some x
  found_still id x h =
      let (differs, _) = old_row o id s.orders fresh h in
      let own = find_order-id id s.orders h in
      let other : (o.id == id) ≡ false = ground arith in rw (rows, other) h

  held_old :
      (id : ℕ) (x : Order)
      → IsBacked s
      → find_order id s.orders ≡ some x
      → Backed x.status x.idempotency_key s'.engine.ledger.entries
  held_old id x backed h =
      let (_, differs) = old_row o id s.orders fresh h in
      kept-Backed x.status x.idempotency_key _ _ books.keeps (unreserving x.idempotency_key differs)
        (backed id x h)

  pub insert-IsStep : IsStep s s'
  insert-IsStep = record {
    evolves = record { orders = λ id x h. (x, found_still id x h, Follows-refl x); books = books };
    own_ids = λ own. rw rows (new_id o s.orders fresh, own);
    backs = λ own backed id x h. elim (Bool-cases (o.id == id)) [
      | inl same ↦
          let e : o ≡ x = eq_of_some (rw (rows, same) at h) in
          subst (λ (y : Order). Backed y.status y.idempotency_key s'.engine.ledger.entries) e held
      | inr differs ↦ held_old id x backed (rw (rows, differs) at h)
    ];
  }
