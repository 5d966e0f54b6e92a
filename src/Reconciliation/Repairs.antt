-- ===== src/Reconciliation/Repairs.antt =====
-- The repairs of a run are transactions of the pipeline.
use api_score.Base.{ℕ, inl, inr, Option, none, some, List, [], ◌∷◌, ◌++◌, map, Bool-cases, ◌||◌}
use api_score.Domain.{OrderStatus}
use api_score.Operator.{OperatorOrder}
use api_score.Orders.Defs.{Order, status_eq}
use api_score.Orders.Abandoned.{cancel_abandoned_batch}
use api_score.Orders.Following.{is_over, settle_from_operator, resolve_unknown}
use api_score.Orders.Service.{◌>>=◌, pure, transact}
use api_score.Orders.Reachable.{Step, here}
use api_score.Orders.Methods.{Runs, >>=-Runs, transact-Runs}
use api_score.Orders.Resolving.{settle_from_operator-Runs, resolve_unknown-Reach}
use api_score.Reconciliation.Defs.{LookupStatus, OperatorOrderLookup, ReconciliationEnv}
use api_score.Reconciliation.Lookup.{returned}
use api_score.Reconciliation.Repair.{
  given_up_draft, give_up_stale, Resolved, resolution_draft, settlement_draft, settle_if_over,
  resolve_known, resolve_answered, resolve_row, resolve_rows,
}

pub give_up_stale-Runs : (rows : List Order) → Runs (give_up_stale rows)
give_up_stale-Runs [] = λ s. here
give_up_stale-Runs (o ∷ os) =
    let ids = map (λ o. o.id) (o ∷ os) in
    >>=-Runs (transact (cancel_abandoned_batch ids)) (λ ids. pure (map given_up_draft ids))
      (transact-Runs (cancel_abandoned_batch ids) (λ s s' rs h. Step.abandons ids s s' h))
      (λ ids s. here)

module _ (env : ReconciliationEnv) (now : ℕ) where
  settle_if_over-Runs :
      (o : Order) (found : Option OperatorOrder) → Runs (settle_if_over env now o found)
  settle_if_over-Runs o none = λ s. here
  settle_if_over-Runs o (some op) = elim (Bool-cases (is_over op.status)) [
    | inl t ↦ rw t (
        >>=-Runs (settle_from_operator env.pipeline o.id op)
          (λ _. pure {A = Resolved} (settlement_draft o op ∷ [], []))
          (settle_from_operator-Runs env.pipeline o.id op) (λ _ s. here))
    | inr n ↦ rw n (λ s. here)
  ]

  resolve_known-Runs :
      (o : Order) (found : Option OperatorOrder) → Runs (resolve_known env now o found)
  resolve_known-Runs o found = elim (Bool-cases (status_eq o.status OrderStatus.unknown)) [
    | inl t ↦ rw t (
        >>=-Runs (resolve_unknown env.pipeline o (env.updated_at o) found now)
          (λ r. pure {A = Resolved} (resolution_draft o found r ∷ [], r ∷ []))
          (resolve_unknown-Reach env.pipeline o (env.updated_at o) found now) (λ r s. here))
    | inr n ↦ rw n (settle_if_over-Runs o found)
  ]

  resolve_answered-Runs :
      (o : Order) (status : Option LookupStatus) → Runs (resolve_answered env now o status)
  resolve_answered-Runs o none = λ s. here
  resolve_answered-Runs o (some (LookupStatus.failed why)) = λ s. here
  resolve_answered-Runs o (some LookupStatus.not_found) = resolve_known-Runs o none
  resolve_answered-Runs o (some (LookupStatus.found op)) = resolve_known-Runs o (some op)

  resolve_row-Runs :
      (lookups : List OperatorOrderLookup) (o : Order) → Runs (resolve_row env now lookups o)
  resolve_row-Runs lookups o =
      elim (Bool-cases
        (status_eq o.status OrderStatus.unknown || status_eq o.status OrderStatus.accepted)) [
          | inl t ↦ rw t (resolve_answered-Runs o (returned o.idempotency_key lookups))
          | inr n ↦ rw n (λ s. here)
        ]

  pub resolve_rows-Runs :
      (lookups : List OperatorOrderLookup) (rows : List Order)
      → Runs (resolve_rows env now lookups rows)
  resolve_rows-Runs lookups [] = λ s. here
  resolve_rows-Runs lookups (o ∷ os) =
      >>=-Runs (resolve_row env now lookups o)
        (λ first. resolve_rows env now lookups os >>= λ rest.
          pure {A = Resolved} (first.0 ++ rest.0, first.1 ++ rest.1))
        (resolve_row-Runs lookups o)
        (λ first.
          >>=-Runs (resolve_rows env now lookups os)
            (λ rest. pure {A = Resolved} (first.0 ++ rest.0, first.1 ++ rest.1))
            (resolve_rows-Runs lookups os) (λ rest s. here))
