-- ===== src/Reconciliation/Critical.antt =====
-- When `compareOrder` finds something critical, as a test.
use api_score.Base.{
  ◌≡◌, refl, ◌∙◌, inl, inr, Bool, true, false, not, ◌&&◌, ◌||◌, Option, none, some, List, [], ◌∷◌,
  ◌++◌, arith, Bool-cases, if◌then◌else◌,
}
use api_score.Base.Rows.{exists_where}
use api_score.Money.{Text}
use api_score.Domain.{OrderStatus}
use api_score.Ledger.Defs.{EntryKey, reserve_key, release_key, settle_key}
use api_score.Operator.{OperatorOrder}
use api_score.Orders.Defs.{Order, status_eq, is_among}
use api_score.Orders.Acceptance.{text_option_eq}
use api_score.Reconciliation.Defs.{ItemType, ItemResult, Detail, ItemDraft, is_critical}
use api_score.Reconciliation.Compare.{
  differs, is_refused, present_items, order_difference, reason_detail, payout_items, settled_items,
  ledger_gap, critical_item, item_if, has_key, operator_item, accepted_items, refused_items,
  compare_order,
}

abbrev pub has_critical : List ItemDraft → Bool
has_critical = exists_where is_critical

item_if_critical :
    (b : Bool) (d : ItemDraft) (rest : List ItemDraft)
    → is_critical d ≡ true
    → has_critical (item_if b d ++ rest) ≡ (b || has_critical rest)
item_if_critical true d rest h = ground arith
item_if_critical false d rest h = refl

abbrev pub at_operator : Order → Option OperatorOrder → Bool → Bool
at_operator o none tracked = not tracked
at_operator o (some op) tracked = not (differs o op)

operator_item_critical :
    (o : Order) (found : Option OperatorOrder) (tracked : Bool)
    → is_critical (operator_item o found tracked) ≡ not (at_operator o found tracked)
operator_item_critical o none true = refl
operator_item_critical o none false = refl
operator_item_critical o (some op) tracked = elim (Bool-cases (differs o op)) [
  | inl t ↦ rw t refl
  | inr n ↦ rw n refl
]

abbrev pub same_payout : Order → Option OperatorOrder → Bool
same_payout o none = true
same_payout o (some op) = text_option_eq op.payout o.payout

payout_items_critical :
    (o : Order) (found : Option OperatorOrder)
    → has_critical (payout_items o found) ≡ not (same_payout o found)
payout_items_critical o none = refl
payout_items_critical o (some op) = elim (Bool-cases (text_option_eq op.payout o.payout)) [
  | inl t ↦ rw t refl
  | inr n ↦ rw n refl
]

abbrev pub absent_or_refused : Option OperatorOrder → Bool
absent_or_refused none = true
absent_or_refused (some op) = is_refused op.status

present_items_critical :
    (o : Order) (found : Option OperatorOrder) (rest : List ItemDraft)
    → has_critical (present_items o found ++ rest)
      ≡ (not (absent_or_refused found) || has_critical rest)
present_items_critical o none rest = refl
present_items_critical o (some op) rest = item_if_critical (not (is_refused op.status)) _ rest refl

pub has_critical_append :
    (xs ys : List ItemDraft) → has_critical (xs ++ ys) ≡ (has_critical xs || has_critical ys)
has_critical_append [] ys = refl
has_critical_append (x ∷ xs) ys = ground (arith, has_critical_append xs ys)

has_critical_item :
    (b : Bool) (d : ItemDraft) → is_critical d ≡ true → has_critical (item_if b d) ≡ b
has_critical_item true d h = ground arith
has_critical_item false d h = refl

has_critical_if :
    (b : Bool) (xs : List ItemDraft) → has_critical (if b then xs else []) ≡ (b && has_critical xs)
has_critical_if true xs = refl
has_critical_if false xs = refl

module _ (o : Order) (found : Option OperatorOrder) (receipt : Bool) (keys : List EntryKey)
    (tracked : Bool) where
  settled_items_critical :
      has_critical (settled_items o found keys)
      ≡ not (has_key keys (settle_key o.idempotency_key) && same_payout o found)
  settled_items_critical =
      let settle = has_key keys (settle_key o.idempotency_key) in
      item_if_critical (not settle) _ (payout_items o found) refl
      ∙ ground (arith, payout_items_critical o found)

  abbrev pub settled_or : Bool
  settled_or =
      status_eq o.status OrderStatus.accepted
      || (has_key keys (settle_key o.idempotency_key) && same_payout o found)

  last_critical :
      has_critical
        (if status_eq o.status OrderStatus.accepted then [] else settled_items o found keys)
      ≡ not settled_or
  last_critical = elim (Bool-cases (status_eq o.status OrderStatus.accepted)) [
    | inl t ↦ rw t refl
    | inr n ↦ rw n settled_items_critical
  ]

  accepted_items_critical :
      has_critical (accepted_items o found receipt keys tracked)
      ≡ not (
          at_operator o found tracked
          && receipt
          && has_key keys (reserve_key o.idempotency_key)
          && settled_or)
  accepted_items_critical =
      let last =
        if status_eq o.status OrderStatus.accepted then [] else settled_items o found keys in
      let reserve = has_key keys (reserve_key o.idempotency_key) in
      let a = item_if_critical (not reserve) (ledger_gap o Detail.without_reservation) last refl in
      let b =
        item_if_critical (not receipt)
          (critical_item o ItemType.receipt ItemResult.missing_locally Detail.without_receipt none
            none)
          (item_if (not reserve) (ledger_gap o Detail.without_reservation) ++ last) refl in
      ground (arith, a, b, operator_item_critical o found tracked, last_critical)

  refused_items_critical :
      has_critical (refused_items o found keys)
      ≡ not (
          absent_or_refused found
          && (not (has_key keys (reserve_key o.idempotency_key))
              || has_key keys (release_key o.idempotency_key)))
  refused_items_critical =
      let held =
        has_key keys (reserve_key o.idempotency_key)
        && not (has_key keys (release_key o.idempotency_key)) in
      let gap = item_if_critical held (ledger_gap o Detail.stake_not_released) [] refl in
      present_items_critical o found (item_if held (ledger_gap o Detail.stake_not_released))
      ∙ ground (arith, gap)

  abbrev pub taken : Bool
  taken = is_among o.status (OrderStatus.accepted ∷ OrderStatus.settled ∷ OrderStatus.voided ∷ [])

  abbrev pub refused : Bool
  refused = status_eq o.status OrderStatus.rejected

  abbrev pub manual : Bool
  manual = status_eq o.status OrderStatus.reconciliation_required

  abbrev pub accepted_ok : Bool
  accepted_ok =
      at_operator o found tracked
      && receipt
      && has_key keys (reserve_key o.idempotency_key)
      && settled_or

  abbrev pub refused_ok : Bool
  refused_ok =
      absent_or_refused found
      && (not (has_key keys (reserve_key o.idempotency_key))
          || has_key keys (release_key o.idempotency_key))

  pub compare_order_critical :
      (why : Option Text)
      → has_critical (compare_order o why found receipt keys tracked)
        ≡ ((taken && not accepted_ok) || (refused && not refused_ok) || manual)
  unfolding compare_order
  compare_order_critical why =
      let first = if taken then accepted_items o found receipt keys tracked else [] in
      let second = if refused then refused_items o found keys else [] in
      let d = order_difference o found (reason_detail why) in
      has_critical_append (first ++ second) (item_if manual d)
      ∙ rw
          (
            has_critical_append first second,
            has_critical_if taken (accepted_items o found receipt keys tracked),
            has_critical_if refused (refused_items o found keys),
            accepted_items_critical,
            refused_items_critical,
            has_critical_item manual d refl,
          )
          ground arith
