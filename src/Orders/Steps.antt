-- ===== src/Orders/Steps.antt =====
-- The transactions of the pipeline, and the parts that they share.
use api_score.Base.{
  ℕ, ◌+◌, Bool, true, false, not, ◌&&◌, Option, none, some, List, ltb, ◌==◌, is_some,
}
use api_score.Base.Int.{ℤ}
use api_score.Base.Rows.{update_where, count_where}
use api_score.Base.Tx.{
  Result, ok, err, other, Tx, pure, gets, or_throw, lift, modify, throw_if, ◌>>=◌, ◌>>◌,
}
use api_score.Money.{Text, to_cents, from_cents}
use api_score.Domain.{OrderStatus, RejectionCode, DecisionStatus, release, submitting_stale_ms}
use api_score.Ledger.Defs
use api_score.Ledger.Defs.{EntryKey, reserve_key, release_key, release_partial_key, Account}
use api_score.Ledger.Service.{AppendInput, find_entry, lock_account, append}
use api_score.Engine.Service.{stake_entry}
use api_score.Orders.Defs.{
  Order, Decision, OrderStore, find_order, status_eq, is_among, DecisionOutcome, column_amount,
}

abbrev pub kept_books :
    {A : Type 0} → OrderStore → Result (A × Defs.Store) → Result (A × OrderStore)
kept_books s (ok (a, l)) = ok (a, record s { engine = record s.engine { ledger = l } })
kept_books s (err e) = err e

-- A step on the ledger.
abbrev pub on_books : {A : Type 0} → Tx Defs.Store A → Tx OrderStore A
on_books m s = kept_books s (m s.engine.ledger)

-- `findOneByOrFail`, and `lockOrder`.
unfoldable pub lock_order : ℕ → Tx OrderStore Order
lock_order id = do found ← gets (λ s. find_order id s.orders); or_throw found other

abbrev pub is_version : ℕ → ℕ → Order → Bool
is_version id version o = o.id == id && o.version == version

abbrev pub bumped : (Order → Order) → Order → Order
bumped patch o = record (patch o) { version = o.version + 1 }

-- `transition`: the version that was read must still be there.
unfoldable pub transition : ℕ → ℕ → (Order → Order) → Tx OrderStore (Unit {0})
transition id version patch = do
  affected ← gets (λ s. count_where (is_version id version) s.orders)
  throw_if (not (affected == 1)) other
  modify (λ s. record s { orders = update_where (is_version id version) (bumped patch) s.orders })

abbrev pub decision_rejected : RejectionCode → Decision → Decision
decision_rejected code d = record d { status = DecisionStatus.rejected; rejection_code = some code }

-- `rejectDecision`
abbrev pub reject_decision : ℕ → RejectionCode → OrderStore → OrderStore
reject_decision id code s = record s {
  decisions = update_where (λ d. d.id == id) (decision_rejected code) s.decisions;
}

-- The entry that gives a stake back, whole or in part.
abbrev pub release_of : Order → EntryKey → ℤ → AppendInput
release_of o key cents = stake_entry release key cents none (some o.id) none

abbrev pub release_cents : Order → EntryKey → ℤ → Tx OrderStore (Unit {0})
release_cents o key cents = do
  account ← on_books (lock_account o.account_id)
  on_books (append account (release_of o key cents))
  pure tt

unfoldable pub release_whole : Order → Tx OrderStore (Unit {0})
release_whole o = do
  account ← on_books (lock_account o.account_id)
  cents ← lift (to_cents o.requested_stake)
  on_books (append account (release_of o (release_key o.idempotency_key) cents))
  pure tt

-- The stake is released if it was reserved.
abbrev pub release_if : Bool → Order → Tx OrderStore (Unit {0})
release_if true o = release_whole o
release_if false o = pure tt

abbrev pub order_rejected : RejectionCode → Order → Order
order_rejected code o = record o { status = OrderStatus.rejected; rejection_code = some code }

abbrev pub cancel_locked : Bool → RejectionCode → Order → Tx OrderStore (Unit {0})
cancel_locked false code o = pure tt
cancel_locked true code o = do
  existing ← gets (λ s. find_entry (reserve_key o.idempotency_key) s.engine.ledger.entries)
  release_if (is_some existing) o
  transition o.id o.version (order_rejected code)
  modify (reject_decision o.decision_id code)

-- The transaction of `cancel`.
unfoldable pub cancel : ℕ → List OrderStatus → RejectionCode → Tx OrderStore (Unit {0})
unfolding lock_order release_whole transition
cancel id from code = do o ← lock_order id; cancel_locked (is_among o.status from) code o

abbrev pub order_unknown : ℕ → Order → Order
order_unknown now o = record o { status = OrderStatus.unknown; unknown_since = some now }

abbrev pub doubt_locked : Bool → ℕ → Order → Tx OrderStore (Unit {0})
doubt_locked false now o = pure tt
doubt_locked true now o = transition o.id o.version (order_unknown now)

-- The transaction of `applyPlacementResult` for an answer that says nothing.
unfoldable pub doubt : ℕ → ℕ → Tx OrderStore (Unit {0})
unfolding lock_order transition
doubt id now = do o ← lock_order id; doubt_locked (status_eq o.status OrderStatus.submitting) now o

abbrev pub final_status : DecisionOutcome → OrderStatus
final_status DecisionOutcome.void = OrderStatus.voided
final_status _ = OrderStatus.settled

abbrev pub order_settled : DecisionOutcome → Text → ℕ → Order → Order
order_settled outcome payout at o = record o {
  status = final_status outcome;
  payout = some (column_amount payout);
  settled_at = some at;
}

abbrev pub decision_completed : DecisionOutcome → Text → ℕ → Decision → Decision
decision_completed outcome profit at d = record d {
  status = DecisionStatus.completed;
  outcome = some outcome;
  profit = some profit;
  settled_at = some at;
}

abbrev pub close_locked : Bool → DecisionOutcome → ℤ → Text → ℕ → Order → Tx OrderStore (Unit {0})
close_locked false outcome profit payout at o = pure tt
close_locked true outcome profit payout at o = do
  transition o.id o.version (order_settled outcome payout at)
  text ← lift (from_cents profit)
  modify (λ s. record s {
    decisions =
        update_where (λ d. d.id == o.decision_id) (decision_completed outcome text at) s.decisions;
  })

-- The second transaction of `settleFromOperator`.
unfoldable pub close : ℕ → DecisionOutcome → ℤ → Text → ℕ → Tx OrderStore (Unit {0})
unfolding lock_order transition
close id outcome profit payout at = do
  o ← lock_order id
  close_locked (status_eq o.status OrderStatus.accepted) outcome profit payout at o

abbrev pub submitted_before : Option ℕ → ℕ → Bool
submitted_before none now = false
submitted_before (some t) now = ltb (t + submitting_stale_ms) now

abbrev pub is_stale_submission : ℕ → Order → Bool
is_stale_submission now o =
    status_eq o.status OrderStatus.submitting && submitted_before o.submitted_at now

abbrev pub order_interrupted : Order → Order
order_interrupted o = record o { status = OrderStatus.unknown; unknown_since = o.submitted_at }

-- `recoverStaleSubmissions`, with the number of rows that it moved.
unfoldable pub recover_stale_submissions : ℕ → OrderStore → ℕ × OrderStore
recover_stale_submissions now s = (
  count_where (is_stale_submission now) s.orders,
  record s { orders = update_where (is_stale_submission now) (bumped order_interrupted) s.orders },
)
