-- ===== src/Orders/Changes.antt =====
-- One transaction of the pipeline, seen from the rows: what happens to the orders that were there.
use api_score.Base.{
  ℕ, ◌≡◌, refl, sym, ap, ◌∙◌, inl, inr, Bool, true, Option, none, some, List, [], ◌∷◌, arith,
  Bool-cases, if◌then◌else◌, eq_of_some,
}
use mathlib.Core.Path.{subst}
use api_score.Base.Rows.{update_where}
use api_score.Orders.Defs.{Order, OrderStore, find_order}
use api_score.Orders.Lifecycle.{
  Move, OrderIdentity, IsSameOrder, Follows, Follows-refl, Follows-trans, Move-Follows,
}
use api_score.Orders.Entries.{
  IsLedgerStep, IsLedgerStep-refl, IsLedgerStep-trans, Unreserving, Backed, kept-Backed,
}

pub find_order-id :
    (id : ℕ) (rows : List Order) {o : Order} → find_order id rows ≡ some o → o.id ≡ id
find_order-id id [] h = cc
find_order-id id (x ∷ rows) {o} h = ground (arith, find_order-id id rows {o = o})

module _ (p : Order → Bool) (f : Order → Order) where
  abbrev pub updated : Order → Order
  updated o = if p o then f o else o

  abbrev pub updated_found : Option Order → Option Order
  updated_found none = none
  updated_found (some o) = some (updated o)

  pub find_order-update :
      ((o : Order) → (f o).id ≡ o.id)
      → (id : ℕ) (rows : List Order)
      → find_order id (update_where p f rows) ≡ updated_found (find_order id rows)
  find_order-update ids id [] = refl
  find_order-update ids id (x ∷ rows) = ground (arith, ids x, find_order-update ids id rows)

-- The primary key: no two rows have the same identifier.
abbrev pub HasOwnIds : List Order → Type 0
HasOwnIds [] = Unit {0}
HasOwnIds (x ∷ rows) = (find_order x.id rows ≡ none) × HasOwnIds rows

own_id :
    (p : Order → Bool) (f : Order → Order) (x : Order)
    → ((o : Order) → (f o).id ≡ o.id)
    → (updated p f x).id ≡ x.id
own_id p f x ids = elim (Bool-cases (p x)) [ inl t ↦ rw t (ids x) | inr n ↦ rw n refl ]

updated-HasOwnIds :
    (p : Order → Bool) (f : Order → Order) (rows : List Order)
    → ((o : Order) → (f o).id ≡ o.id)
    → HasOwnIds rows
    → HasOwnIds (update_where p f rows)
updated-HasOwnIds p f [] ids h = tt
updated-HasOwnIds p f (x ∷ rows) ids (apart, rest) = (
  ap (λ i. find_order i (update_where p f rows)) (own_id p f x ids)
      ∙ find_order-update p f ids x.id rows
      ∙ ap (updated_found p f) apart,
  updated-HasOwnIds p f rows ids rest,
)

-- Every order is still there, further on in its life; the books stay sound and keep their entries.
pub record Evolves (s s' : OrderStore) : Type 0 where
  pub orders :
      (id : ℕ) (o : Order)
      → find_order id s.orders ≡ some o
      → (o' : Order) × (find_order id s'.orders ≡ some o') × Follows o o'
  pub books : IsLedgerStep s.engine.ledger s'.engine.ledger

-- The ledger holds for every order what its status promises.
abbrev pub IsBacked : OrderStore → Type 0
IsBacked s =
    (id : ℕ) (o : Order)
    → find_order id s.orders ≡ some o
    → Backed o.status o.idempotency_key s.engine.ledger.entries

pub Evolves-trans : {a b c : OrderStore} → Evolves a b → Evolves b c → Evolves a c
Evolves-trans p q = record {
  orders = λ id o h.
      let (x, found, follows) = p.orders id o h in
      let (y, found', follows') = q.orders id x found in
      (y, found', Follows-trans follows follows');
  books = IsLedgerStep-trans p.books q.books;
}

-- A step: it evolves the tables, keeps the identifiers apart, and leaves every order backed if every
-- order was.
pub record IsStep (s s' : OrderStore) : Type 0 where
  pub evolves : Evolves s s'
  pub own_ids : HasOwnIds s.orders → HasOwnIds s'.orders
  pub backs : HasOwnIds s.orders → IsBacked s → IsBacked s'

-- The orders are the same rows.
pub same_orders-IsStep :
    (s s' : OrderStore)
    → s'.orders ≡ s.orders
    → IsLedgerStep s.engine.ledger s'.engine.ledger
    → Unreserving s.engine.ledger.entries s'.engine.ledger.entries
    → IsStep s s'
same_orders-IsStep s s' same books unreserving = record {
  evolves = record { orders = λ id o h. (o, rw same h, Follows-refl o); books = books };
  own_ids = λ own. rw same own;
  backs = λ own backed id o h.
      kept-Backed o.status o.idempotency_key _ _ books.keeps (unreserving o.idempotency_key)
        (backed id o (rw same at h));
}

-- What an update must do with a row: the same order, one move on, and backed.
pub record IsMoved (s s' : OrderStore) (o o' : Order) : Type 0 where
  pub same : IsSameOrder o o'
  pub move : Move o.status o'.status
  pub backed :
      HasOwnIds s.orders
      → Backed o.status o.idempotency_key s.engine.ledger.entries
      → Backed o'.status o.idempotency_key s'.engine.ledger.entries

module _ (s s' : OrderStore) (p : Order → Bool) (f : Order → Order)
    (rows : s'.orders ≡ update_where p f s.orders) (ids : (o : Order) → (f o).id ≡ o.id)
    (moved : (id : ℕ) (o : Order)
      → find_order id s.orders ≡ some o
      → p o ≡ true
      → IsMoved s s' o (f o))
    (books : IsLedgerStep s.engine.ledger s'.engine.ledger)
    (unreserving : Unreserving s.engine.ledger.entries s'.engine.ledger.entries) where
  found_after :
      (id : ℕ) (o : Order)
      → find_order id s.orders ≡ some o
      → find_order id s'.orders ≡ some (updated p f o)
  found_after id o h =
      ap (find_order id) rows ∙ find_order-update p f ids id s.orders ∙ ap (updated_found p f) h

  updated-Follows :
      (id : ℕ) (o : Order) → find_order id s.orders ≡ some o → Follows o (updated p f o)
  updated-Follows id o h = elim (Bool-cases (p o)) [
    | inl t ↦ let m = moved id o h t in rw t (Move-Follows o (f o) m.same m.move)
    | inr n ↦ rw n (Follows-refl o)
  ]

  updated-Backed :
      HasOwnIds s.orders
      → (id : ℕ) (o : Order) → find_order id s.orders ≡ some o
      → Backed o.status o.idempotency_key s.engine.ledger.entries
      → Backed (updated p f o).status (updated p f o).idempotency_key s'.engine.ledger.entries
  updated-Backed own id o h b = elim (Bool-cases (p o)) [
    | inl t ↦
        let m = moved id o h t in
        rw (t, ap (λ (i : OrderIdentity). i.idempotency_key) m.same) (m.backed own b)
    | inr n ↦
        rw n
          (kept-Backed o.status o.idempotency_key _ _ books.keeps (unreserving o.idempotency_key) b)
  ]

  before_update :
      (id : ℕ) (x : Order) (r : Option Order)
      → find_order id s.orders ≡ r
      → updated_found p f r ≡ some x
      → (o : Order) × (find_order id s.orders ≡ some o) × (updated p f o ≡ x)
  before_update id x none e h = cc
  before_update id x (some o) e h = (o, e, eq_of_some h)

  pub update-IsStep : IsStep s s'
  update-IsStep = record {
    evolves = record {
      orders = λ id o h. (updated p f o, found_after id o h, updated-Follows id o h);
      books = books;
    };
    own_ids = λ own. subst HasOwnIds (sym rows) (updated-HasOwnIds p f s.orders ids own);
    backs = λ own backed id x h.
        let (o, found, e) =
          before_update id x (find_order id s.orders) refl
            (sym (find_order-update p f ids id s.orders) ∙ sym (ap (find_order id) rows) ∙ h) in
        subst (λ (y : Order). Backed y.status y.idempotency_key s'.engine.ledger.entries) e
          (updated-Backed own id o found (backed id o found));
  }

pub IsStep-trans : {a b c : OrderStore} → IsStep a b → IsStep b c → IsStep a c
IsStep-trans p q = record {
  evolves = Evolves-trans p.evolves q.evolves;
  own_ids = λ own. q.own_ids (p.own_ids own);
  backs = λ own backed. q.backs (p.own_ids own) (p.backs own backed);
}

-- Nothing changes.
pub kept-IsStep : (s s' : OrderStore) → s' ≡ s → IsStep s s'
kept-IsStep s s' e =
    subst (IsStep s) (sym e)
      (same_orders-IsStep s s refl (IsLedgerStep-refl s.engine.ledger) (λ k h. h))
