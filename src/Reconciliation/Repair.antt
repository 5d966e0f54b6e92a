-- ===== src/Reconciliation/Repair.antt =====
-- The writes of a run: reservations that were abandoned, orders in doubt, and settlements that the
-- operator declares.
use api_score.Base.{
  ℕ, Bool, ◌&&◌, ◌||◌, Option, none, some, List, [], ◌∷◌, ◌++◌, map, ltb, leb, ◌==◌, if◌then◌else◌,
}
use api_score.Base.Int.{pos, sub_ℕ, leb_ℤ}
use api_score.Base.Rows.{select_where}
use api_score.Domain.{OrderStatus, submitting_stale_ms}
use api_score.Operator.{OperatorOrder}
use api_score.Orders.Defs.{Order, OrderStore, status_eq, is_among}
use api_score.Orders.Abandoned.{cancel_abandoned_batch}
use api_score.Orders.Following.{is_over, UnknownResolution, settle_from_operator, resolve_unknown}
use api_score.Orders.Service.{Call, ◌>>=◌, pure, transact}
use api_score.Reconciliation.Defs.{
  ItemType, ItemResult, Severity, Detail, ItemDraft, Run, LookupStatus, Run, OperatorOrderLookup,
  ReconciliationEnv,
}
use api_score.Reconciliation.Lookup.{returned}
use api_score.Reconciliation.Compare.{item, operator_view}

-- `cancelAbandonedReservations`
abbrev pub given_up_draft : ℕ → ItemDraft
given_up_draft id =
    item (some id) ItemType.order ItemResult.resolved Severity.warning Detail.reservation_released
      none none

-- OPEN_STATUSES
abbrev pub open_statuses : List OrderStatus
open_statuses =
    OrderStatus.reserved ∷ OrderStatus.submitting ∷ OrderStatus.unknown ∷ OrderStatus.accepted
    ∷ OrderStatus.reconciliation_required ∷ []

abbrev pub result_of : UnknownResolution → ItemResult
result_of UnknownResolution.pending = ItemResult.pending
result_of UnknownResolution.too_old = ItemResult.mismatch
result_of UnknownResolution.reconciliation_required = ItemResult.mismatch
result_of _ = ItemResult.resolved

abbrev pub severity_of : UnknownResolution → Severity
severity_of UnknownResolution.too_old = Severity.critical
severity_of UnknownResolution.reconciliation_required = Severity.critical
severity_of UnknownResolution.pending = Severity.warning
severity_of _ = Severity.info

-- What the loop over the orders has gathered: its items, and the resolutions that it made.
abbrev pub Resolved : Type 0
Resolved = List ItemDraft × List UnknownResolution

abbrev pub resolution_draft : Order → Option OperatorOrder → UnknownResolution → ItemDraft
resolution_draft o found r =
    item (some o.id) ItemType.order (result_of r) (severity_of r) (Detail.unknown_became r) none
      (operator_view found)

abbrev pub settlement_draft : Order → OperatorOrder → ItemDraft
settlement_draft o op =
    item (some o.id) ItemType.settlement ItemResult.resolved Severity.info
      (Detail.operator_settlement op.status) none (operator_view (some op))

abbrev pub give_up_stale : List Order → Call (List ItemDraft)
give_up_stale [] = pure []
give_up_stale (o ∷ os) = transact (cancel_abandoned_batch (map (λ o. o.id) (o ∷ os))) >>= λ ids.
    pure (map given_up_draft ids)

module _ (env : ReconciliationEnv) (now : ℕ) where
  abbrev pub is_stale_reservation : ℕ → Order → Bool
  is_stale_reservation account_id o =
      o.account_id == account_id
      && status_eq o.status OrderStatus.reserved
      && leb_ℤ (pos submitting_stale_ms) (sub_ℕ now (env.updated_at o))

  unfoldable pub cancel_abandoned_reservations : ℕ → Call (List ItemDraft)
  unfolding cancel_abandoned_batch
  cancel_abandoned_reservations account_id s =
      give_up_stale (select_where (is_stale_reservation account_id) s.orders) s

module _ (env : ReconciliationEnv) where
  -- `ORDER BY o.createdAt ASC, o.id ASC`
  abbrev pub stands_before : Order → Order → Bool
  stands_before o p =
      ltb (env.created_at o) (env.created_at p)
      || env.created_at o == env.created_at p && leb o.id p.id

  abbrev pub insert_by_age : Order → List Order → List Order
  insert_by_age o [] = o ∷ []
  insert_by_age o (p ∷ ps) = if stands_before o p then o ∷ p ∷ ps else p ∷ insert_by_age o ps

  abbrev pub sort_by_age : List Order → List Order
  sort_by_age [] = []
  sort_by_age (o ∷ os) = insert_by_age o (sort_by_age os)

  -- An order of the account, in the range or still open.
  abbrev pub is_concerned : Run → Order → Bool
  is_concerned run o =
      o.account_id == run.account_id
      && ((leb run.range_from (env.created_at o) && ltb (env.created_at o) run.range_to)
          || is_among o.status open_statuses)

  abbrev pub concerned : Run → OrderStore → List Order
  concerned run s = sort_by_age (select_where (is_concerned run) s.orders)

module _ (env : ReconciliationEnv) (now : ℕ) where
  abbrev pub settle_if_over : Order → Option OperatorOrder → Call Resolved
  settle_if_over o none = pure ([], [])
  settle_if_over o (some op) =
      if is_over op.status
      then (settle_from_operator env.pipeline o.id op >>= λ _.
          pure (settlement_draft o op ∷ [], []))
      else pure ([], [])

  abbrev pub resolve_known : Order → Option OperatorOrder → Call Resolved
  resolve_known o found =
      if status_eq o.status OrderStatus.unknown
      then (resolve_unknown env.pipeline o (env.updated_at o) found now >>= λ r.
          pure (resolution_draft o found r ∷ [], r ∷ []))
      else settle_if_over o found

  abbrev pub resolve_answered : Order → Option LookupStatus → Call Resolved
  resolve_answered o none = pure ([], [])
  resolve_answered o (some (LookupStatus.failed _)) = pure ([], [])
  resolve_answered o (some LookupStatus.not_found) = resolve_known o none
  resolve_answered o (some (LookupStatus.found op)) = resolve_known o (some op)

  abbrev pub resolve_row : List OperatorOrderLookup → Order → Call Resolved
  resolve_row lookups o =
      if status_eq o.status OrderStatus.unknown || status_eq o.status OrderStatus.accepted
      then resolve_answered o (returned o.idempotency_key lookups)
      else pure ([], [])

  -- The loop over the orders, as they were read.
  abbrev pub resolve_rows : List OperatorOrderLookup → List Order → Call Resolved
  resolve_rows lookups [] = pure ([], [])
  resolve_rows lookups (o ∷ os) = resolve_row lookups o >>= λ first.
      resolve_rows lookups os >>= λ rest. pure (first.0 ++ rest.0, first.1 ++ rest.1)
