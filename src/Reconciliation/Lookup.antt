-- ===== src/Reconciliation/Lookup.antt =====
-- `lookupOperatorOrders`: one call for all keys, with an answer for each of them.
use api_score.Base.{ℕ, Bool, not, Option, none, some, List, [], ◌∷◌, ◌==◌, if◌then◌else◌, map}
use api_score.Base.Rows.{select_where}
use api_score.Domain.{OrderStatus}
use api_score.Orders.Defs.{Order, is_among}
use api_score.Reconciliation.Defs.{
  LookupReason, incomplete_answer, absent_result, reason, Answer, LookupStatus, OperatorOrderLookup,
  OperatorPort, ItemDraft, ItemType, ItemResult, Severity, Detail, slice,
}

-- `[...new Set(keys)]`: each key where it first stands.
abbrev pub unique : List ℕ → List ℕ
unique [] = []
unique (k ∷ ks) = k ∷ select_where (λ j. not (j == k)) (unique ks)

-- `new Map(...).get(key)`: the last result of the key.
abbrev pub returned : ℕ → List OperatorOrderLookup → Option LookupStatus
returned key [] = none
returned key (r ∷ rs) = elim (returned key rs) [
  | some status ↦ some status
  | none ↦ if r.idempotency_key == key then some r.status else none
]

abbrev pub or_incomplete : Option LookupStatus → LookupStatus
or_incomplete none = LookupStatus.failed incomplete_answer
or_incomplete (some status) = status

abbrev pub status_in : Answer (List OperatorOrderLookup) → ℕ → LookupStatus
status_in (Answer.answer results) key = or_incomplete (returned key results)
status_in (Answer.thrown message) key = LookupStatus.failed (reason message)

abbrev pub lookups_in : Answer (List OperatorOrderLookup) → List ℕ → List OperatorOrderLookup
lookups_in results = map (λ key. record { idempotency_key = key; status = status_in results key })

-- `lookupOperatorOrders`: a call only if there are keys.
abbrev pub lookup_unique : OperatorPort → List ℕ → List OperatorOrderLookup
lookup_unique port [] = []
lookup_unique port (k ∷ ks) = lookups_in (port.orders_by_key (k ∷ ks)) (k ∷ ks)

unfoldable pub lookup_operator_orders : OperatorPort → List ℕ → List OperatorOrderLookup
lookup_operator_orders port keys = lookup_unique port (unique keys)

-- LOOKUP_STATUSES
abbrev pub lookup_statuses : List OrderStatus
lookup_statuses =
    OrderStatus.unknown ∷ OrderStatus.accepted ∷ OrderStatus.settled ∷ OrderStatus.voided
    ∷ OrderStatus.rejected ∷ OrderStatus.reconciliation_required ∷ []

abbrev pub is_looked_up : Order → Bool
is_looked_up o = is_among o.status lookup_statuses

abbrev pub keys_of : List Order → List ℕ
keys_of rows = map (λ o. o.idempotency_key) (select_where is_looked_up rows)

-- 255 characters, less the 16 of "LOOKUP_FAILED : ".
abbrev pub cut_reason : LookupReason → LookupReason
cut_reason (reason t) = reason (slice 239 t)
cut_reason why = why

abbrev pub failed_draft : Order → LookupReason → ItemDraft
failed_draft o why = record {
  order_id = some o.id;
  item_type = ItemType.order;
  result = ItemResult.pending;
  severity = Severity.critical;
  detail = Detail.lookup_failed (cut_reason why);
  expected = none;
  observed = none;
}

abbrev pub draft_of_failure : Order → Option LookupStatus → List ItemDraft → List ItemDraft
draft_of_failure o none rest = failed_draft o absent_result ∷ rest
draft_of_failure o (some (LookupStatus.failed why)) rest = failed_draft o why ∷ rest
draft_of_failure o (some _) rest = rest

-- What is said of the orders that could not be looked up.
abbrev pub failed_drafts : List OperatorOrderLookup → List Order → List ItemDraft
failed_drafts lookups [] = []
failed_drafts lookups (o ∷ os) =
    let rest = failed_drafts lookups os in
    if is_looked_up o then draft_of_failure o (returned o.idempotency_key lookups) rest else rest
