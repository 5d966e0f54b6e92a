-- ===== src/Orders/Abandoned.antt =====
-- `cancelAbandonedBatch`: reservations that were never submitted, of one account, given up together.
use api_score.Base.{ℕ, Bool, not, ◌&&◌, List, [], ◌∷◌, map, leb, ◌==◌, if◌then◌else◌, is_some}
use api_score.Base.Int.{ℤ}
use api_score.Base.Rows.{select_where, exists_where, all_where, update_where}
use api_score.Base.Tx.{Result, ok, err, other, Tx, pure, gets, lift, modify, throw_if, ◌>>=◌, ◌>>◌}
use api_score.Money.{to_cents}
use api_score.Domain.{OrderStatus, operator_unavailable}
use api_score.Ledger.Defs.{Entry, reserve_key, release_key}
use api_score.Ledger.Service.{AppendInput, find_entry, lock_account}
use api_score.Ledger.Batch.{append_batch}
use api_score.Orders.Defs.{Order, OrderStore, status_eq}
use api_score.Orders.Steps.{on_books, bumped, order_rejected, decision_rejected, release_of}

-- `ORDER BY id ASC`
abbrev pub insert_by_id : Order → List Order → List Order
insert_by_id o [] = o ∷ []
insert_by_id o (p ∷ ps) = if leb o.id p.id then o ∷ p ∷ ps else p ∷ insert_by_id o ps

abbrev pub sort_by_id : List Order → List Order
sort_by_id [] = []
sort_by_id (o ∷ os) = insert_by_id o (sort_by_id os)

abbrev pub is_abandoned : List ℕ → Order → Bool
is_abandoned ids o = exists_where (λ id. id == o.id) ids && status_eq o.status OrderStatus.reserved

abbrev pub is_reserved_in : List Entry → Order → Bool
is_reserved_in entries o = is_some (find_entry (reserve_key o.idempotency_key) entries)

abbrev pub release_input : Order → Result ℤ → Result AppendInput
release_input o (ok cents) = ok (release_of o (release_key o.idempotency_key) cents)
release_input o (err e) = err e

abbrev pub release_inputs : List Order → Result (List AppendInput)
release_inputs [] = ok []
release_inputs (o ∷ os) = elim (release_input o (to_cents o.requested_stake)) [
  | err e ↦ err e
  | ok i ↦ elim (release_inputs os) [ err e ↦ err e | ok is ↦ ok (i ∷ is) ]
]

abbrev pub holds_id : List Order → Order → Bool
holds_id os o = exists_where (λ p. p.id == o.id) os && status_eq o.status OrderStatus.reserved

abbrev pub ids_of : List Order → List ℕ
ids_of os = map (λ o. o.id) os

abbrev pub give_up : List Order → OrderStore → OrderStore
give_up os s = record s {
  orders = update_where (holds_id os) (bumped (order_rejected operator_unavailable)) s.orders;
  decisions =
      update_where (λ d. exists_where (λ o. o.decision_id == d.id) os)
        (decision_rejected operator_unavailable) s.decisions;
}

-- The orders of the batch, the first one given apart.
abbrev pub abandon_found : List Order → Tx OrderStore (List ℕ)
abandon_found [] = pure []
abandon_found (o ∷ os) = do
  throw_if (not (all_where (λ p. p.account_id == o.account_id) os)) other
  account ← on_books (lock_account o.account_id)
  entries ← gets (λ s. s.engine.ledger.entries)
  inputs ← lift (release_inputs (select_where (is_reserved_in entries) (o ∷ os)))
  on_books (append_batch account inputs)
  modify (give_up (select_where (is_reserved_in entries) (o ∷ os)))
  pure (ids_of (select_where (is_reserved_in entries) (o ∷ os)))

unfoldable pub cancel_abandoned_batch : List ℕ → Tx OrderStore (List ℕ)
unfolding append_batch
cancel_abandoned_batch ids = do
  orders ← gets (λ s. sort_by_id (select_where (is_abandoned ids) s.orders))
  abandon_found orders
