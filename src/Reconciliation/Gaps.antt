-- ===== src/Reconciliation/Gaps.antt =====
-- When `compareOrder` finds no gap in the ledger.
use api_score.Base.{
  ◌≡◌, refl, ◌∙◌, inl, inr, Bool, true, false, not, ◌&&◌, ◌||◌, Option, none, some, List, [], ◌∷◌,
  ◌++◌, arith, Bool-cases, if◌then◌else◌,
}
use api_score.Base.Rows.{exists_where}
use api_score.Money.{Text}
use api_score.Domain.{OrderStatus}
use api_score.Ledger.Defs.{EntryKey, reserve_key, release_key, settle_key}
use api_score.Operator.{OperatorOrder}
use api_score.Orders.Defs.{Order, status_eq, is_among}
use api_score.Orders.Acceptance.{text_option_eq}
use api_score.Reconciliation.Defs.{ItemType, ItemResult, Detail, ItemDraft}
use api_score.Reconciliation.Compare.{
  differs, is_refused, ledger_gap, critical_item, order_difference, reason_detail, item_if, has_key,
  operator_item, payout_items, settled_items, accepted_items, present_items, refused_items,
  compare_order,
}
use api_score.Reconciliation.Cause.{is_about_ledger}

abbrev pub has_gap : List ItemDraft → Bool
has_gap = exists_where is_about_ledger

has_gap_append : (xs ys : List ItemDraft) → has_gap (xs ++ ys) ≡ (has_gap xs || has_gap ys)
has_gap_append [] ys = refl
has_gap_append (x ∷ xs) ys = ground (arith, has_gap_append xs ys)

item_if-no_gap :
    (b : Bool) (d : ItemDraft) → is_about_ledger d ≡ false → has_gap (item_if b d) ≡ false
item_if-no_gap true d h = rw h refl
item_if-no_gap false d h = refl

operator_item-no_gap :
    (o : Order) (found : Option OperatorOrder) (tracked : Bool)
    → is_about_ledger (operator_item o found tracked) ≡ false
operator_item-no_gap o none true = refl
operator_item-no_gap o none false = refl
operator_item-no_gap o (some op) tracked = elim (Bool-cases (differs o op)) [
  | inl t ↦ rw t refl
  | inr n ↦ rw n refl
]

payout_items-no_gap :
    (o : Order) (found : Option OperatorOrder) → has_gap (payout_items o found) ≡ false
payout_items-no_gap o none = refl
payout_items-no_gap o (some op) = item_if-no_gap (not (text_option_eq op.payout o.payout)) _ refl

present_items-no_gap :
    (o : Order) (found : Option OperatorOrder) → has_gap (present_items o found) ≡ false
present_items-no_gap o none = refl
present_items-no_gap o (some op) = item_if-no_gap (not (is_refused op.status)) _ refl

no_gap_if :
    (b : Bool) (xs : List ItemDraft)
    → (b ≡ true → has_gap xs ≡ false)
    → has_gap (if b then xs else []) ≡ false
no_gap_if true xs h = h refl
no_gap_if false xs h = refl

no_gap_unless :
    (b : Bool) (xs : List ItemDraft)
    → (b ≡ false → has_gap xs ≡ false)
    → has_gap (if b then [] else xs) ≡ false
no_gap_unless true xs h = refl
no_gap_unless false xs h = h refl

module _ (o : Order) (found : Option OperatorOrder) (receipt : Bool) (keys : List EntryKey)
    (tracked : Bool) where
  settled_items-no_gap :
      has_key keys (settle_key o.idempotency_key) ≡ true
      → has_gap (settled_items o found keys) ≡ false
  settled_items-no_gap settled = rw settled (payout_items-no_gap o found)

  refused_items-no_gap :
      (has_key keys (reserve_key o.idempotency_key)
          && not (has_key keys (release_key o.idempotency_key)))
        ≡ false
      → has_gap (refused_items o found keys) ≡ false
  refused_items-no_gap freed =
      has_gap_append (present_items o found) (
        item_if
          (has_key keys (reserve_key o.idempotency_key)
            && not (has_key keys (release_key o.idempotency_key)))
          (ledger_gap o Detail.stake_not_released))
      ∙ rw (present_items-no_gap o found, freed) refl

  accepted_items-no_gap :
      has_key keys (reserve_key o.idempotency_key) ≡ true
      → has_gap (if status_eq o.status OrderStatus.accepted then [] else settled_items o found keys)
        ≡ false
      → has_gap (accepted_items o found receipt keys tracked) ≡ false
  accepted_items-no_gap held settled =
      let first =
        operator_item o found tracked
        ∷ item_if (not receipt) (
            critical_item o ItemType.receipt ItemResult.missing_locally Detail.without_receipt none
              none) in
      let gap =
        item_if (not (has_key keys (reserve_key o.idempotency_key)))
          (ledger_gap o Detail.without_reservation) in
      let last =
        if status_eq o.status OrderStatus.accepted then [] else settled_items o found keys in
      let none_there : has_gap gap ≡ false = rw held refl in
      let none_first : has_gap first ≡ false =
        rw (operator_item-no_gap o found tracked) (item_if-no_gap (not receipt) _ refl) in
      has_gap_append (first ++ gap) last
      ∙ rw (has_gap_append first gap, none_first, none_there, settled) refl

  abbrev taken : Bool
  taken = is_among o.status (OrderStatus.accepted ∷ OrderStatus.settled ∷ OrderStatus.voided ∷ [])

  -- What the ledger must hold for the status, by the tests of the code.
  pub record IsCovered : Type 0 where
    pub held : taken ≡ true → has_key keys (reserve_key o.idempotency_key) ≡ true
    pub closed :
        taken ≡ true
        → status_eq o.status OrderStatus.accepted ≡ false
        → has_key keys (settle_key o.idempotency_key) ≡ true
    pub freed :
        status_eq o.status OrderStatus.rejected ≡ true
        → (has_key keys (reserve_key o.idempotency_key)
            && not (has_key keys (release_key o.idempotency_key)))
          ≡ false

  pub compare_order-no_gap :
      (why : Option Text)
      → IsCovered
      → has_gap (compare_order o why found receipt keys tracked) ≡ false
  unfolding compare_order
  compare_order-no_gap why covered =
      let first = if taken then accepted_items o found receipt keys tracked else [] in
      let second =
        if status_eq o.status OrderStatus.rejected then refused_items o found keys else [] in
      let manual = status_eq o.status OrderStatus.reconciliation_required in
      let d = order_difference o found (reason_detail why) in
      let no_first = no_gap_if taken (accepted_items o found receipt keys tracked) (λ t.
        accepted_items-no_gap (covered.held t) (
          no_gap_unless (status_eq o.status OrderStatus.accepted) (settled_items o found keys)
            (λ n. settled_items-no_gap (covered.closed t n)))) in
      let no_second =
        no_gap_if (status_eq o.status OrderStatus.rejected) (refused_items o found keys)
          (λ r. refused_items-no_gap (covered.freed r)) in
      let no_third = item_if-no_gap manual d refl in
      has_gap_append (first ++ second) (item_if manual d)
      ∙ rw (has_gap_append first second, no_first, no_second, no_third) refl
