-- ===== src/Orders/Contract.antt =====
-- What an acceptance has been checked for when it is entered.
use api_score.Base.{
  ℕ, ◌+◌, ◌≡◌, ◌≢◌, refl, sym, ap, ◌∙◌, inl, inr, Bool, true, false, Option, none, some, arith,
  Bool-cases, ==_refl, eq_of_some,
}
use api_score.Base.Int.{ℤ, pos, ◌≤ℤ◌, leb_ℤ, ltb_ℤ}
use api_score.Base.Tx.{ok, Result-cases, >>=-eq_ok, ◌>>◌, pure}
use api_score.Money.{Text, to_cents}
use api_score.Domain.{OrderStatus, AutoStopTrigger}
use api_score.Operator.{Acceptance, is_amount_text}
use api_score.Orders.Defs.{
  Order, OrderStore, find_order, is_among, Violation, acceptance_violation, stake_violation,
  is_receipt, is_blank, reaches, column_amount, column_option,
}
use api_score.Orders.Columns.{column_amount-to_cents}
use api_score.Orders.Lifecycle.{IsSameOrder}
use api_score.Orders.Changes.{find_order-update, updated_found}
use api_score.Orders.Locked.{lock_order-eq_ok}
use api_score.Orders.Entering.{IsEntered, enter_acceptance-IsEntered}
use api_score.Orders.Steps.{lock_order, transition, bumped, is_version}
use api_score.Orders.Acceptance.{
  order_accepted, order_disputed, accept, accept_locked, accept_checked, acceptable,
  enter_acceptance, receipt_taken, external_taken,
}

-- The stake that is accepted is positive and at most the one that was asked for.
pub record IsStakeWithin (a : Acceptance) (requested : Text) : Type 0 where
  pub text : Text
  pub cents : ℤ
  pub asked : ℤ
  pub accepted : a.accepted_stake ≡ some text
  pub amount : is_amount_text text ≡ true
  pub read : to_cents text ≡ ok cents
  pub requested_read : to_cents requested ≡ ok asked
  pub positive : pos 1 ≤ℤ cents
  pub within : cents ≤ℤ asked

-- The contract: a receipt, an identifier, an odd that is no worse than the minimum, such a stake.
pub record IsWithinContract (o : Order) (a : Acceptance) : Type 0 where
  pub receipt : is_receipt a.receipt_hash ≡ true
  pub external : is_blank a.external_order_id ≡ false
  pub odd : reaches a.accepted_odd o.minimum_odd ≡ true
  pub stake : IsStakeWithin a o.requested_stake

positive_of : (c : ℤ) → leb_ℤ c (pos 0) ≡ false → pos 1 ≤ℤ c
positive_of c h = ground arith

within_of : (c r : ℤ) → ltb_ℤ r c ≡ false → c ≤ℤ r
within_of c r h = ground arith

stake_violation-none :
    (a : Acceptance) (o : Option Text) (requested : Text)
    → a.accepted_stake ≡ o
    → stake_violation o requested ≡ ok none
    → IsStakeWithin a requested
stake_violation-none a none requested e h = absurd (ground arith)
stake_violation-none a (some t) requested e h = elim (Bool-cases (is_amount_text t)) [
  | inr n ↦ absurd (ground arith)
  | inl amount ↦ elim (Result-cases (to_cents t)) [
    | inr (f, q) ↦ absurd (ground arith)
    | inl (c, q) ↦ elim (Bool-cases (leb_ℤ c (pos 0))) [
      | inl low ↦ absurd (ground arith)
      | inr positive ↦ elim (Result-cases (to_cents requested)) [
        | inr (f, k) ↦ absurd (ground arith)
        | inl (r, k) ↦ elim (Bool-cases (ltb_ℤ r c)) [
          | inl high ↦ absurd (ground arith)
          | inr within ↦ record {
            text = t;
            cents = c;
            asked = r;
            accepted = e;
            amount = amount;
            read = q;
            requested_read = k;
            positive = positive_of c positive;
            within = within_of c r within;
          }
        ]
      ]
    ]
  ]
]

acceptance_violation-none :
    (o : Order) (a : Acceptance) → acceptance_violation o a ≡ ok none → IsWithinContract o a
unfolding acceptance_violation
acceptance_violation-none o a h = elim (Bool-cases (is_receipt a.receipt_hash)) [
  | inr n ↦ absurd (ground arith)
  | inl receipt ↦ elim (Bool-cases (is_blank a.external_order_id)) [
    | inl n ↦ absurd (ground arith)
    | inr external ↦ elim (Bool-cases (reaches a.accepted_odd o.minimum_odd)) [
      | inr n ↦ absurd (ground arith)
      | inl odd ↦ record {
        receipt = receipt;
        external = external;
        odd = odd;
        stake = stake_violation-none a a.accepted_stake o.requested_stake refl (ground arith);
      }
    ]
  ]
]

-- The order as it is accepted: the same one, with the identifier, the odd and the time of the
-- acceptance, a stake of the same amount, and the next version.
pub record IsAcceptedAs (o : Order) (a : Acceptance) (o' : Order) : Type 0 where
  pub same : IsSameOrder o o'
  pub status : o'.status ≡ OrderStatus.accepted
  pub external : o'.external_order_id ≡ a.external_order_id
  pub odd : o'.accepted_odd ≡ a.accepted_odd
  pub at : o'.accepted_at ≡ a.accepted_at
  pub stake :
      (text : Text) × (text' : Text) × (cents : ℤ) × (a.accepted_stake ≡ some text)
      × (o'.accepted_stake ≡ some text')
      × (to_cents text ≡ ok cents)
      × (to_cents text' ≡ ok cents)
  pub version : o'.version ≡ o.version + 1

-- An acceptance that is entered: the contract holds, the receipt and the identifier are new, and the
-- row of the order is accepted so.
pub record IsAccepted (id : ℕ) (o : Order) (a : Acceptance) (s s' : OrderStore) : Type 0 where
  pub contract : IsWithinContract o a
  pub new_receipt : receipt_taken a.receipt_hash s.receipts ≡ false
  pub new_external : external_taken o a.external_order_id s.orders ≡ false
  pub row : (o' : Order) × (find_order id s'.orders ≡ some o') × IsAcceptedAs o a o'

entered_row :
    (id : ℕ) (o : Order) (a : Acceptance) (s s' : OrderStore)
    → find_order id s.orders ≡ some o
    → IsEntered o a s s'
    → find_order id s'.orders ≡ some (bumped (order_accepted a) o)
entered_row id o a s s' found m =
    let own : is_version o.id o.version o ≡ true =
      ground (arith, ==_refl o.id, ==_refl o.version) in
    ap (find_order id) m.orders
    ∙ find_order-update (is_version o.id o.version) (bumped (order_accepted a)) (λ x. refl) id
        s.orders
    ∙ ap (updated_found (is_version o.id o.version) (bumped (order_accepted a))) found
    ∙ rw own refl

accepted-IsAcceptedAs :
    (o : Order) (a : Acceptance)
    → IsStakeWithin a o.requested_stake
    → IsAcceptedAs o a (bumped (order_accepted a) o)
accepted-IsAcceptedAs o a m = record {
  same = refl;
  status = refl;
  external = refl;
  odd = refl;
  at = refl;
  stake = (
    m.text,
    column_amount m.text,
    m.cents,
    m.accepted,
    ap column_option m.accepted,
    m.read,
    column_amount-to_cents m.text m.cents m.read,
  );
  version = refl;
}

module _ (id : ℕ) (o : Order) (a : Acceptance) (now : ℕ) (s : OrderStore)
    (found : find_order id s.orders ≡ some o) where
  disputed :
      (stop : AutoStopTrigger) {s' : OrderStore}
      → (transition o.id o.version (order_disputed now) >> pure (some stop)) s ≢ ok (none, s')
  disputed stop h =
      let (_, t, e, k) =
        >>=-eq_ok (transition o.id o.version (order_disputed now)) (λ _. pure (some stop)) s h in
      absurd (ground arith)

  checked-IsAccepted :
      (v : Option Violation) (taken ext : Bool) {s' : OrderStore}
      → acceptance_violation o a ≡ ok v
      → receipt_taken a.receipt_hash s.receipts ≡ taken
      → external_taken o a.external_order_id s.orders ≡ ext
      → accept_checked v taken ext o a now s ≡ ok (none, s')
      → IsAccepted id o a s s'
  checked-IsAccepted none false false {s'} v t x h =
      let (_, u, e, k) = >>=-eq_ok (enter_acceptance o a now) (λ _. pure none) s h in
      let same : u ≡ s' = ground arith in
      let contract = acceptance_violation-none o a v in
      record {
        contract = contract;
        new_receipt = t;
        new_external = x;
        row = (
          bumped (order_accepted a) o,
          entered_row id o a s s' found (enter_acceptance-IsEntered o a now s (rw same at e)),
          accepted-IsAcceptedAs o a contract.stake,
        );
      }
  checked-IsAccepted none false true v t x h = absurd (disputed _ h)
  checked-IsAccepted none true ext v t x h = absurd (disputed _ h)
  checked-IsAccepted (some w) taken ext v t x h = absurd (disputed _ h)

  locked-IsAccepted :
      {s' : OrderStore} → accept_locked true o a now s ≡ ok (none, s') → IsAccepted id o a s s'
  locked-IsAccepted {s'} h = elim (Result-cases (acceptance_violation o a)) [
    | inr (f, e) ↦ absurd (ground arith)
    | inl (v, e) ↦
        checked-IsAccepted v (receipt_taken a.receipt_hash s.receipts)
          (external_taken o a.external_order_id s.orders) {s' = s'} e refl refl (ground arith)
  ]

-- An acceptance of an order that is reserved, under submission or in doubt, which succeeds without a
-- stop, had a readable receipt and an external identifier that no order of the operator and no
-- receipt had before, an odd that is not below the minimum, and a positive stake that is not above
-- the requested one; and the order is accepted with this identifier and odd, and a stake of this
-- amount.
pub accept-IsAccepted :
    (id : ℕ) (o : Order) (a : Acceptance) (now : ℕ) (s s' : OrderStore)
    → find_order id s.orders ≡ some o
    → is_among o.status acceptable ≡ true
    → accept id a now s ≡ ok (none, s')
    → IsAccepted id o a s s'
unfolding accept
accept-IsAccepted id o a now s s' found pending h =
    let (x, u, e, k) =
      >>=-eq_ok (lock_order id) (λ x. accept_locked (is_among x.status acceptable) x a now) s h in
    let (found', same) = lock_order-eq_ok id s e in
    let own : x ≡ o = eq_of_some (sym found' ∙ found) in
    locked-IsAccepted id o a now s found (rw (same, own, pending) at k)
