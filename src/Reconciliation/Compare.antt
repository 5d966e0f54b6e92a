-- ===== src/Reconciliation/Compare.antt =====
-- `compareOrder`: what is said of one order.
use api_score.Base.{
  ℕ, Bool, true, false, not, ◌&&◌, ◌||◌, Option, none, some, List, [], ◌∷◌, ◌++◌, ◌==◌,
  if◌then◌else◌,
}
use api_score.Base.Rows.{exists_where}
use api_score.Money.{Text}
use api_score.Domain.{OrderStatus}
use api_score.Ledger.Defs.{EntryKey, key_eq, reserve_key, release_key, settle_key}
use api_score.Operator.{OperatorOrder, OperatorOrderStatus}
use api_score.Orders.Defs.{Order, status_eq, is_among}
use api_score.Orders.Acceptance.{text_option_eq}
use api_score.Reconciliation.Defs.{
  ItemType, ItemResult, Severity, Detail, Evidence, ItemDraft, slice,
}

-- `item`
abbrev pub item :
    Option ℕ
    → ItemType
    → ItemResult
    → Severity
    → Detail
    → Option Evidence
    → Option Evidence
    → ItemDraft
item id type result severity detail expected observed = record {
  order_id = id;
  item_type = type;
  result = result;
  severity = severity;
  detail = detail;
  expected = expected;
  observed = observed;
}

-- `local` in `compareOrder`, and `operatorView`.
abbrev pub local_view : Order → Option Evidence
local_view o =
    some
      (Evidence.local_order o.status o.external_order_id o.accepted_stake o.accepted_odd o.payout)

abbrev pub operator_view : Option OperatorOrder → Option Evidence
operator_view none = none
operator_view (some op) =
    let a = op.acceptance in
    some (
      Evidence.operator_order op.status a.external_order_id a.accepted_stake a.accepted_odd
        op.payout)

-- `===` on odds that may be null.
abbrev pub same_odd : Option ℕ → Option ℕ → Bool
same_odd none none = true
same_odd (some a) (some b) = a == b
same_odd _ _ = false

abbrev pub is_refused : OperatorOrderStatus → Bool
is_refused OperatorOrderStatus.rejected = true
is_refused _ = false

abbrev pub differs : Order → OperatorOrder → Bool
differs o op =
    not (text_option_eq op.acceptance.external_order_id o.external_order_id)
    || not (text_option_eq op.acceptance.accepted_stake o.accepted_stake)
    || not (same_odd op.acceptance.accepted_odd o.accepted_odd)
    || is_refused op.status

abbrev pub critical_item :
    Order → ItemType → ItemResult → Detail → Option Evidence → Option Evidence → ItemDraft
critical_item o type result detail expected observed =
    item (some o.id) type result Severity.critical detail expected observed

abbrev pub order_difference : Order → Option OperatorOrder → Detail → ItemDraft
order_difference o found detail =
    critical_item o ItemType.order ItemResult.mismatch detail (local_view o) (operator_view found)

abbrev pub ledger_gap : Order → Detail → ItemDraft
ledger_gap o detail = critical_item o ItemType.ledger ItemResult.missing_locally detail none none

abbrev pub item_if : Bool → ItemDraft → List ItemDraft
item_if b d = if b then d ∷ [] else []

abbrev pub has_key : List EntryKey → EntryKey → Bool
has_key keys key = exists_where (λ k. key_eq k key) keys

-- The item that a comparison with the operator always gives.
abbrev pub operator_item : Order → Option OperatorOrder → Bool → ItemDraft
operator_item o none tracked =
    if tracked
    then critical_item o ItemType.order ItemResult.missing_at_operator Detail.accepted_not_found
        (local_view o) none
    else item (some o.id) ItemType.order ItemResult.missing_at_operator Severity.warning
        Detail.untracked_history (local_view o) none
operator_item o (some op) tracked =
    if differs o op
    then order_difference o (some op) Detail.order_differs
    else item (some o.id) ItemType.order ItemResult.matches Severity.info Detail.order_agrees none
        none

abbrev pub payout_items : Order → Option OperatorOrder → List ItemDraft
payout_items o none = []
payout_items o (some op) = item_if (not (text_option_eq op.payout o.payout)) (
    critical_item o ItemType.settlement ItemResult.mismatch Detail.payout_differs (local_view o)
      (operator_view (some op)))

abbrev pub settled_items : Order → Option OperatorOrder → List EntryKey → List ItemDraft
settled_items o found keys =
    item_if (not (has_key keys (settle_key o.idempotency_key)))
      (ledger_gap o Detail.without_settlement)
    ++ payout_items o found

abbrev pub accepted_items :
    Order → Option OperatorOrder → Bool → List EntryKey → Bool → List ItemDraft
accepted_items o found receipt keys tracked =
    operator_item o found tracked
      ∷ item_if (not receipt) (
          critical_item o ItemType.receipt ItemResult.missing_locally Detail.without_receipt none
            none)
    ++ item_if (not (has_key keys (reserve_key o.idempotency_key)))
        (ledger_gap o Detail.without_reservation)
    ++ (if status_eq o.status OrderStatus.accepted then [] else settled_items o found keys)

abbrev pub present_items : Order → Option OperatorOrder → List ItemDraft
present_items o none = []
present_items o (some op) =
    item_if (not (is_refused op.status)) (order_difference o (some op) Detail.refused_but_there)

abbrev pub refused_items : Order → Option OperatorOrder → List EntryKey → List ItemDraft
refused_items o found keys =
    present_items o found
    ++ item_if
        (has_key keys (reserve_key o.idempotency_key)
          && not (has_key keys (release_key o.idempotency_key)))
        (ledger_gap o Detail.stake_not_released)

abbrev pub reason_detail : Option Text → Detail
reason_detail none = Detail.manual_intervention
reason_detail (some t) = Detail.status_reason (slice 255 t)

-- `compareOrder`, with the column `statusReason` of the order.
unfoldable pub compare_order :
    Order → Option Text → Option OperatorOrder → Bool → List EntryKey → Bool → List ItemDraft
compare_order o status_reason found receipt keys tracked =
    (if is_among o.status (OrderStatus.accepted ∷ OrderStatus.settled ∷ OrderStatus.voided ∷ [])
      then accepted_items o found receipt keys tracked
      else [])
    ++ (if status_eq o.status OrderStatus.rejected then refused_items o found keys else [])
    ++ item_if (status_eq o.status OrderStatus.reconciliation_required)
        (order_difference o found (reason_detail status_reason))
