-- ===== src/Orders/Acceptance.antt =====
-- The transaction of `applyAcceptance`.
use api_score.Base.{
  ℕ, Bool, true, false, ◌&&◌, ◌||◌, Option, none, some, List, [], ◌∷◌, ◌==◌, if◌then◌else◌,
}
use api_score.Base.Int.{ℤ, pos, ◌+ℤ◌, neg, ltb_ℤ}
use api_score.Base.Rows.{update_where, exists_where}
use api_score.Base.Tx.{
  Result, err, other, Tx, pure, gets, or_throw, lift, modify, throw_if, ◌>>=◌, ◌>>◌,
}
use api_score.Money.{Text, to_cents}
use api_score.Domain.{OrderStatus, AutoStopTrigger, receipt_invalid, operator_contract_violation}
use api_score.Ledger.Defs.{release_partial_key}
use api_score.Control.Defs.{text_eq}
use api_score.Operator.{Acceptance}
use api_score.Orders.Defs.{
  Order, Decision, Receipt, OrderStore, find_decision, is_among, Violation, acceptance_violation,
  is_blank, column_option,
}
use api_score.Orders.Steps.{lock_order, transition, release_cents}

abbrev pub since_or : Option ℕ → ℕ → Option ℕ
since_or none now = some now
since_or (some t) now = some t

abbrev pub order_disputed : ℕ → Order → Order
order_disputed now o = record o {
  status = OrderStatus.reconciliation_required;
  unknown_since = since_or o.unknown_since now;
}

abbrev pub order_accepted : Acceptance → Order → Order
order_accepted a o = record o {
  status = OrderStatus.accepted;
  external_order_id = a.external_order_id;
  accepted_odd = a.accepted_odd;
  accepted_stake = column_option a.accepted_stake;
  accepted_at = a.accepted_at;
}

abbrev pub text_option_eq : Option Text → Option Text → Bool
text_option_eq none none = true
text_option_eq (some a) (some b) = text_eq a b
text_option_eq _ _ = false

-- Another order, or this one, has the external identifier.
abbrev pub external_taken : Order → Option Text → List Order → Bool
external_taken o none os = false
external_taken o (some x) os =
    exists_where
      (λ p. p.operator_key == o.operator_key && text_option_eq p.external_order_id (some x)) os

abbrev pub receipt_taken : Option Text → List Receipt → Bool
receipt_taken none rs = false
receipt_taken (some h) rs = exists_where (λ r. text_eq r.receipt_hash h) rs

-- The stop that an acceptance which cannot be entered asks for.
abbrev pub dispute_trigger : Bool → Acceptance → AutoStopTrigger
dispute_trigger taken a =
    if taken || is_blank a.receipt_hash then receipt_invalid else operator_contract_violation

abbrev pub hash_of : Option Text → Text
hash_of none = []
hash_of (some h) = h

-- The receipt, unique by its hash and by its order.
unfoldable pub insert_receipt : ℕ → Text → Tx OrderStore (Unit {0})
insert_receipt id hash = do
  clash ← gets (λ s. exists_where (λ r. r.order_id == id || text_eq r.receipt_hash hash) s.receipts)
  throw_if clash other
  modify (λ s. record s { receipts = record { order_id = id; receipt_hash = hash } ∷ s.receipts })

-- What the operator did not take of the stake is released.
abbrev pub release_unused : Bool → Order → ℤ → Tx OrderStore (Unit {0})
release_unused false o cents = pure tt
release_unused true o cents = release_cents o (release_partial_key o.idempotency_key) cents

abbrev pub read_text : Option Text → Result ℤ
read_text none = err other
read_text (some t) = to_cents t

abbrev pub decision_executed : ℕ → Acceptance → Decision → Decision
decision_executed now a d = record d { executable_odd = a.accepted_odd; executed_at = some now }

unfoldable pub enter_acceptance : Order → Acceptance → ℕ → Tx OrderStore (Unit {0})
unfolding insert_receipt transition
enter_acceptance o a now = do
  insert_receipt o.id (hash_of a.receipt_hash)
  transition o.id o.version (order_accepted a)
  requested ← lift (to_cents o.requested_stake)
  taken ← lift (read_text a.accepted_stake)
  release_unused (ltb_ℤ (pos 0) (requested +ℤ neg taken)) o (requested +ℤ neg taken)
  found ← gets (λ s. find_decision o.decision_id s.decisions)
  d ← or_throw found other
  modify (λ s. record s {
    decisions = update_where (λ e. e.id == d.id) (decision_executed now a) s.decisions;
  })

-- `violation || receiptTaken || externalTaken`
abbrev pub accept_checked :
    Option Violation → Bool → Bool → Order → Acceptance → ℕ → Tx OrderStore (Option AutoStopTrigger)
accept_checked none false false o a now = enter_acceptance o a now >> pure none
accept_checked v taken ext o a now =
    transition o.id o.version (order_disputed now) >> pure (some (dispute_trigger taken a))

abbrev pub accept_locked : Bool → Order → Acceptance → ℕ → Tx OrderStore (Option AutoStopTrigger)
accept_locked false o a now = pure none
accept_locked true o a now = do
  violation ← lift (acceptance_violation o a)
  taken ← gets (λ s. receipt_taken a.receipt_hash s.receipts)
  ext ← gets (λ s. external_taken o a.external_order_id s.orders)
  accept_checked violation taken ext o a now

abbrev pub acceptable : List OrderStatus
acceptable = OrderStatus.submitting ∷ OrderStatus.unknown ∷ OrderStatus.reserved ∷ []

-- The transaction of `applyAcceptance`, with the stop that it asks for.
unfoldable pub accept : ℕ → Acceptance → ℕ → Tx OrderStore (Option AutoStopTrigger)
unfolding lock_order acceptance_violation enter_acceptance transition
accept id a now = do o ← lock_order id; accept_locked (is_among o.status acceptable) o a now
