-- ===== src/Reconciliation/Agreement.antt =====
-- What an order must be for `compareOrder` to find nothing critical.
use api_score.Base.{
  ℕ, ◌≡◌, ◌≢◌, ◌↔◌, refl, sym, ◌∙◌, inl, inr, Bool, true, false, not, ◌&&◌, ◌||◌, Option, none,
  some, List, [], ◌∷◌, arith, Bool-cases,
}
use api_score.Money.{Text}
use api_score.Domain.{OrderStatus}
use api_score.Ledger.Defs.{EntryKey, reserve_key, release_key, settle_key}
use api_score.Operator.{OperatorOrder, OperatorOrderStatus}
use api_score.Orders.Defs.{Order, status_eq, is_among}
use api_score.Reconciliation.Compare.{same_odd, is_refused, has_key, compare_order}
use api_score.Reconciliation.Texts.{text_option_eq_iff}
use api_score.Reconciliation.Critical.{
  has_critical, at_operator, same_payout, absent_or_refused, taken, refused, manual, accepted_ok,
  refused_ok, compare_order_critical,
}

-- The operator has the order as the table has it, and does not call it refused.
pub record IsSameAt (o : Order) (op : OperatorOrder) : Type 0 where
  pub external : op.acceptance.external_order_id ≡ o.external_order_id
  pub stake : op.acceptance.accepted_stake ≡ o.accepted_stake
  pub odd : op.acceptance.accepted_odd ≡ o.accepted_odd
  pub standing : op.status ≢ OperatorOrderStatus.rejected

abbrev pub AtOperator : Order → Option OperatorOrder → Bool → Type 0
AtOperator o none tracked = tracked ≡ false
AtOperator o (some op) tracked = IsSameAt o op

abbrev pub PaidAlike : Order → Option OperatorOrder → Type 0
PaidAlike o none = Unit {0}
PaidAlike o (some op) = op.payout ≡ o.payout

abbrev pub RefusedAt : Option OperatorOrder → Type 0
RefusedAt none = Unit {0}
RefusedAt (some op) = op.status ≡ OperatorOrderStatus.rejected

-- An order agrees with the operator, with its receipt and with the ledger.
pub record Agrees (o : Order) (found : Option OperatorOrder) (receipt : Bool) (keys : List EntryKey)
    (tracked : Bool) : Type 0 where
  pub taken :
      is_among o.status (OrderStatus.accepted ∷ OrderStatus.settled ∷ OrderStatus.voided ∷ [])
        ≡ true
      → AtOperator o found tracked
        × (receipt ≡ true)
        × (has_key keys (reserve_key o.idempotency_key) ≡ true)
  pub over :
      is_among o.status (OrderStatus.settled ∷ OrderStatus.voided ∷ []) ≡ true
      → (has_key keys (settle_key o.idempotency_key) ≡ true) × PaidAlike o found
  pub refused :
      status_eq o.status OrderStatus.rejected ≡ true
      → RefusedAt found
        × (has_key keys (reserve_key o.idempotency_key) ≡ true
            → has_key keys (release_key o.idempotency_key) ≡ true)
  pub not_disputed : status_eq o.status OrderStatus.reconciliation_required ≡ false

same_odd_iff : (a b : Option ℕ) → (same_odd a b ≡ true) ↔ (a ≡ b)
same_odd_iff none none = (λ _. refl, λ _. refl)
same_odd_iff none (some b) = (λ h. cc, λ h. cc)
same_odd_iff (some a) none = (λ h. cc, λ h. cc)
same_odd_iff (some a) (some b) = (λ h. ground arith, λ h. ground arith)

standing_iff :
    (t : OperatorOrderStatus) → (is_refused t ≡ false) ↔ (t ≢ OperatorOrderStatus.rejected)
standing_iff OperatorOrderStatus.rejected = (λ h. cc, λ h. absurd (h refl))
standing_iff OperatorOrderStatus.accepted = (λ _ e. cc, λ _. refl)
standing_iff OperatorOrderStatus.settled = (λ _ e. cc, λ _. refl)
standing_iff OperatorOrderStatus.voided = (λ _ e. cc, λ _. refl)

refused_iff : (t : OperatorOrderStatus) → (is_refused t ≡ true) ↔ (t ≡ OperatorOrderStatus.rejected)
refused_iff OperatorOrderStatus.rejected = (λ _. refl, λ _. refl)
refused_iff OperatorOrderStatus.accepted = (λ h. cc, λ h. cc)
refused_iff OperatorOrderStatus.settled = (λ h. cc, λ h. cc)
refused_iff OperatorOrderStatus.voided = (λ h. cc, λ h. cc)

at_operator_iff :
    (o : Order) (found : Option OperatorOrder) (tracked : Bool)
    → (at_operator o found tracked ≡ true) ↔ AtOperator o found tracked
at_operator_iff o none tracked = ground arith
at_operator_iff o (some op) tracked =
    let a = op.acceptance in
    let external = text_option_eq_iff a.external_order_id o.external_order_id in
    let stake = text_option_eq_iff a.accepted_stake o.accepted_stake in
    let odd = same_odd_iff a.accepted_odd o.accepted_odd in
    let standing = standing_iff op.status in
    (
      λ h. record {
        external = external.0 (ground arith);
        stake = stake.0 (ground arith);
        odd = odd.0 (ground arith);
        standing = standing.0 (ground arith);
      },
      λ same.
          let p = external.1 same.external in
          let q = stake.1 same.stake in
          let r = odd.1 same.odd in let t = standing.1 same.standing in rw (p, q, r, t) refl,
    )

same_payout_iff :
    (o : Order) (found : Option OperatorOrder) → (same_payout o found ≡ true) ↔ PaidAlike o found
same_payout_iff o none = (λ _. tt, λ _. refl)
same_payout_iff o (some op) = text_option_eq_iff op.payout o.payout

absent_or_refused_iff :
    (found : Option OperatorOrder) → (absent_or_refused found ≡ true) ↔ RefusedAt found
absent_or_refused_iff none = (λ _. tt, λ _. refl)
absent_or_refused_iff (some op) = refused_iff op.status

none_of :
    (a x b y c : Bool)
    → (a ≡ true → x ≡ true)
    → (b ≡ true → y ≡ true)
    → c ≡ false
    → ((a && not x) || (b && not y) || c) ≡ false
none_of a x b y c h k n = ground arith

module _ (o : Order) (found : Option OperatorOrder) (receipt : Bool) (keys : List EntryKey)
    (tracked : Bool) (agrees : Agrees o found receipt keys tracked) where
  accepted_agrees :
      taken o found receipt keys tracked ≡ true → accepted_ok o found receipt keys tracked ≡ true
  accepted_agrees t =
      let (at, got, held) = agrees.taken t in
      let there = (at_operator_iff o found tracked).1 at in
      elim (Bool-cases (status_eq o.status OrderStatus.accepted)) [
        | inl a ↦ rw (there, got, held, a) refl
        | inr n ↦
            let (settled, paid) = agrees.over (ground arith) in
            let same = (same_payout_iff o found).1 paid in
            rw (there, got, held, n, settled, same) refl
      ]

  refused_agrees :
      refused o found receipt keys tracked ≡ true → refused_ok o found receipt keys tracked ≡ true
  refused_agrees r =
      let (gone, freed) = agrees.refused r in
      let absent = (absent_or_refused_iff found).1 gone in
      elim (Bool-cases (has_key keys (reserve_key o.idempotency_key))) [
        | inl held ↦ rw (absent, held, freed held) refl
        | inr free ↦ rw (absent, free) refl
      ]

  agrees_test :
      ((taken o found receipt keys tracked && not (accepted_ok o found receipt keys tracked))
        || (refused o found receipt keys tracked && not (refused_ok o found receipt keys tracked))
        || manual o found receipt keys tracked)
      ≡ false
  agrees_test =
      let a = taken o found receipt keys tracked in
      let b = refused o found receipt keys tracked in
      none_of a (accepted_ok o found receipt keys tracked) b
        (refused_ok o found receipt keys tracked) (manual o found receipt keys tracked)
        accepted_agrees refused_agrees agrees.not_disputed

-- A comparison has no critical item exactly when the order agrees: an order that the operator took
-- is there under the same identifier, stake and odd (or the operator keeps no history), with a
-- receipt and a reservation; one that is over is settled in the ledger and paid what the operator
-- says; a refused one is refused there too, and its stake is released; and none is in dispute.
pub compare_order_iff :
    (o : Order) (why : Option Text) (found : Option OperatorOrder) (receipt : Bool)
    (keys : List EntryKey) (tracked : Bool)
    → (has_critical (compare_order o why found receipt keys tracked) ≡ false)
      ↔ Agrees o found receipt keys tracked
compare_order_iff o why found receipt keys tracked =
    let test = compare_order_critical o found receipt keys tracked why in
    let at = at_operator_iff o found tracked in
    let paid = same_payout_iff o found in
    let absent = absent_or_refused_iff found in
    (
      λ h.
          let k = sym test ∙ h in
          record {
            taken = λ t. (at.0 (ground arith), ground arith, ground arith);
            over = λ t. (ground arith, paid.0 (ground arith));
            refused = λ t. (absent.0 (ground arith), λ r. ground arith);
            not_disputed = ground arith;
          },
      λ agrees. test ∙ agrees_test o found receipt keys tracked agrees,
    )
