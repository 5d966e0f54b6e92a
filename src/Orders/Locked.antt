-- ===== src/Orders/Locked.antt =====
-- What the parts that the transactions share have done, read back from their outcome.
use api_score.Base.{
  ℕ, ◌≡◌, refl, sym, ap, ◌∙◌, inl, inr, true, false, some, List, [], ◌∷◌, arith, ◌==◌, Bool-cases,
  Option-cases, eq_of_some, and_parts,
}
use mathlib.Core.Path.{subst}
use api_score.Base.Int.{ℤ}
use api_score.Base.Rows.{update_where, all_where, count_where}
use api_score.Base.Tx.{ok, Result-cases}
use api_score.Money.{Text, to_cents}
use api_score.Domain.{OrderStatus}
use api_score.Ledger.Defs.{Account, Entry, EntryKey, release_key, release_partial_key, reserve_key}
use api_score.Ledger.Defs
use api_score.Ledger.Service.{lock_account, append}
use api_score.Ledger.History.{append-found}
use api_score.Engine.Stages.{lock_account-eq_ok}
use api_score.Engine.Moves.{found_own}
use api_score.Orders.Defs.{Order, OrderStore, Receipt, find_order, status_eq, is_among}
use api_score.Orders.Lifecycle.{is_pending}
use api_score.Orders.Entries.{
  IsLedgerStep, Unreserving, HasEntry, append-IsLedgerStep, append-Unreserving, is_reserve_key,
}
use api_score.Orders.Changes.{IsStep, IsMoved, find_order-id, update-IsStep}
use api_score.Orders.Steps.{
  lock_order, transition, is_version, bumped, release_whole, release_cents, release_of,
}
use api_score.Orders.Acceptance.{insert_receipt}

pub lock_order-eq_ok :
    (id : ℕ) (s : OrderStore) {o : Order} {s' : OrderStore}
    → lock_order id s ≡ ok (o, s')
    → (find_order id s.orders ≡ some o) × (s' ≡ s)
unfolding lock_order
lock_order-eq_ok id s h = elim (Option-cases (find_order id s.orders)) [
  | inl e ↦ absurd (ground arith)
  | inr (a, e) ↦ (ground arith, ground arith)
]

-- The tables after a transition.
abbrev pub transitioned : ℕ → ℕ → (Order → Order) → OrderStore → OrderStore
transitioned id version patch s = record s {
  orders = update_where (is_version id version) (bumped patch) s.orders;
}

pub transition-eq_ok :
    (id version : ℕ) (patch : Order → Order) (s : OrderStore) {s' : OrderStore}
    → transition id version patch s ≡ ok (tt, s')
    → s' ≡ transitioned id version patch s
unfolding transition
transition-eq_ok id version patch s h =
    elim (Bool-cases (count_where (is_version id version) s.orders == 1)) [
      | inl one ↦ ground arith
      | inr other ↦ absurd (ground arith)
    ]

-- The tables with other books.
abbrev pub with_books : OrderStore → Defs.Store → OrderStore
with_books s l = record s { engine = record s.engine { ledger = l } }

-- What a release has done to the books.
pub record IsRelease (s : OrderStore) (key : EntryKey) (l : Defs.Store) : Type 0 where
  pub books : IsLedgerStep s.engine.ledger l
  pub unreserving : Unreserving s.engine.ledger.entries l.entries
  pub held : HasEntry key l.entries

pub release_cents-eq_ok :
    (o : Order) (key : EntryKey) (cents : ℤ) (s : OrderStore) {s' : OrderStore}
    → is_reserve_key key ≡ false
    → release_cents o key cents s ≡ ok (tt, s')
    → (l : Defs.Store) × (s' ≡ with_books s l) × IsRelease s key l
release_cents-eq_ok o key cents s n h =
    elim (Result-cases (lock_account o.account_id s.engine.ledger)) [
      | inr (f, e) ↦ absurd (ground arith)
      | inl ((account, m), e) ↦
          let (found, kept) = lock_account-eq_ok o.account_id s.engine.ledger e in
          elim (Result-cases (append account (release_of o key cents) m)) [
            | inr (f, a) ↦ absurd (ground arith)
            | inl (((r, account'), l), a) ↦
                let a' = rw kept at a in
                (
                  l,
                  ground arith,
                  record {
                    books =
                        append-IsLedgerStep account (release_of o key cents) s.engine.ledger
                          (found_own o.account_id s.engine.ledger found) a';
                    unreserving =
                        append-Unreserving account (release_of o key cents) s.engine.ledger n a';
                    held =
                        (r.entry, append-found account (release_of o key cents) s.engine.ledger a');
                  },
                )
          ]
    ]

pub release_whole-eq_ok :
    (o : Order) (s : OrderStore) {s' : OrderStore}
    → release_whole o s ≡ ok (tt, s')
    → (l : Defs.Store) × (s' ≡ with_books s l) × IsRelease s (release_key o.idempotency_key) l
unfolding release_whole
release_whole-eq_ok o s h = elim (Result-cases (to_cents o.requested_stake)) [
  | inr (f, e) ↦ elim (Result-cases (lock_account o.account_id s.engine.ledger)) [
    | inr (g, k) ↦ absurd (ground arith)
    | inl ((account, m), k) ↦ absurd (ground arith)
  ]
  | inl (cents, e) ↦
      release_cents-eq_ok o (release_key o.idempotency_key) cents s refl
        (elim (Result-cases (lock_account o.account_id s.engine.ledger)) [
          | inr (g, k) ↦ absurd (ground arith)
          | inl ((account, m), k) ↦ ground arith
        ])
]

pub insert_receipt-eq_ok :
    (id : ℕ) (hash : Text) (s : OrderStore) {s' : OrderStore}
    → insert_receipt id hash s ≡ ok (tt, s')
    → (rs : List Receipt) × (s' ≡ record s { receipts = rs })
unfolding insert_receipt
insert_receipt-eq_ok id hash s h =
    (record { order_id = id; receipt_hash = hash } ∷ s.receipts, ground arith)

pub status_eq→eq : (a b : OrderStatus) → status_eq a b ≡ true → a ≡ b
status_eq→eq a b h = ground arith

pub among_pending :
    (t : OrderStatus) (from : List OrderStatus)
    → all_where is_pending from ≡ true
    → is_among t from ≡ true
    → is_pending t ≡ true
among_pending t [] a h = cc
among_pending t (f ∷ from) a h =
    let (first, rest) = and_parts a in
    elim (Bool-cases (status_eq t f)) [
      | inl same ↦ rw (status_eq→eq t f same) first
      | inr differs ↦ among_pending t from rest (rw differs at h)
    ]

-- The row that a transaction has locked moves, and no other.
module _ (s s' : OrderStore) (o : Order) (patch : Order → Order)
    (found : (id : ℕ) × (find_order id s.orders ≡ some o))
    (rows : s'.orders ≡ update_where (is_version o.id o.version) (bumped patch) s.orders)
    (ids : (x : Order) → (patch x).id ≡ x.id)
    (books : IsLedgerStep s.engine.ledger s'.engine.ledger)
    (unreserving : Unreserving s.engine.ledger.entries s'.engine.ledger.entries)
    (moved : IsMoved s s' o (bumped patch o)) where
  locked_row :
      (id : ℕ) (x : Order)
      → find_order id s.orders ≡ some x
      → is_version o.id o.version x ≡ true
      → o ≡ x
  locked_row id x h v =
      let same : x.id ≡ o.id = ground arith in
      let e : found.0 ≡ id =
        sym (find_order-id found.0 s.orders found.1) ∙ sym same ∙ find_order-id id s.orders h in
      eq_of_some (sym found.1 ∙ ap (λ j. find_order j s.orders) e ∙ h)

  pub locked-IsStep : IsStep s s'
  locked-IsStep =
      update-IsStep s s' (is_version o.id o.version) (bumped patch) rows ids
        (λ id x h v.
          subst (λ (y : Order). IsMoved s s' y (bumped patch y)) (locked_row id x h v) moved)
        books unreserving
