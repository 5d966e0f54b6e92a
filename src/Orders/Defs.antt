-- ===== src/Orders/Defs.antt =====
-- Orders, decisions, receipts, and the small pure functions of the pipeline.
use api_score.Base.{
  ℕ, ◌/◌, Bool, true, false, not, ◌||◌, Option, none, some, List, [], ◌∷◌, leb, ◌==◌, if◌then◌else◌,
}
use api_score.Base.Int.{ℤ, pos, ◌+ℤ◌, neg, ltb_ℤ, leb_ℤ, eqb_ℤ}
use api_score.Base.Rows.{find}
use api_score.Base.Tx.{Result, ok, err}
use api_score.Money.{Text, to_cents, from_cents}
use api_score.Domain.{
  ExecutionMode, StoredMode, DecisionStatus, OrderStatus, RejectionCode, no_executable_odd,
  odd_moved, suspended_market, operator_unavailable, decision_bucket_ms,
}
use api_score.Operator.{
  OperatorReason, PlaceOrderRequest, Acceptance, is_receipt_hash, is_amount_text,
}
use api_score.Engine.Defs
use api_score.Engine.Defs.{EngineEnv}

pub data DecisionOutcome : Type 0 where
  won lost void no_result : DecisionOutcome

abbrev pub printed : Text → Result Text → Text
printed t (ok x) = x
printed t (err e) = t

abbrev pub reprinted : Text → Result ℤ → Text
reprinted t (ok c) = printed t (from_cents c)
reprinted t (err e) = t

-- What a column DECIMAL(14,2) gives back for a text: the amount with its two decimals. A text that
-- is no amount is refused before it gets there.
abbrev pub column_amount : Text → Text
column_amount t = reprinted t (to_cents t)

abbrev pub column_option : Option Text → Option Text
column_option none = none
column_option (some t) = some (column_amount t)

-- A row of `bet_orders`, by the columns that the pipeline reads or writes.
pub record Order : Type 0 where
  pub id : ℕ
  pub decision_id : ℕ
  pub account_id : ℕ
  pub mode : StoredMode
  pub operator_key : ℕ
  pub idempotency_key : ℕ
  pub external_order_id : Option Text
  pub status : OrderStatus
  pub rejection_code : Option RejectionCode
  pub currency : ℕ
  pub requested_stake : Text
  pub requested_odd : ℕ
  pub minimum_odd : ℕ
  pub accepted_stake : Option Text
  pub accepted_odd : Option ℕ
  pub payout : Option Text
  pub submitted_at : Option ℕ
  pub accepted_at : Option ℕ
  pub unknown_since : Option ℕ
  pub settled_at : Option ℕ
  pub version : ℕ

pub record Decision : Type 0 where
  pub id : ℕ
  pub simulation_run_id : ℕ
  pub status : DecisionStatus
  pub rejection_code : Option RejectionCode
  pub fixture_id : ℕ
  pub market_key : ℕ
  pub selection_key : ℕ
  pub decided_at : ℕ
  pub currency : ℕ
  pub stake : Option Text
  pub decision_odd : Option ℕ
  pub min_acceptable_odd : ℕ
  pub decision_observed_at : Option ℕ
  pub executable_odd : Option ℕ
  pub executed_at : Option ℕ
  pub outcome : Option DecisionOutcome
  pub profit : Option Text
  pub settled_at : Option ℕ

pub record Receipt : Type 0 where
  pub order_id : ℕ
  pub receipt_hash : Text

pub record SimulationRun : Type 0 where
  pub id : ℕ
  pub strategy_version : ℕ

-- The tables, those of the engine included, and the calls of `placeOrder`, the last first.
pub record OrderStore : Type 0 where
  pub engine : Defs.Store
  pub orders : List Order
  pub decisions : List Decision
  pub receipts : List Receipt
  pub runs : List SimulationRun
  pub placed : List PlaceOrderRequest

-- The parts that are hashed into the key of an order.
pub record KeyInput : Type 0 where
  pub mode : StoredMode
  pub operator_key : ℕ
  pub fixture_id : ℕ
  pub market_key : ℕ
  pub selection_key : ℕ
  pub strategy_version : ℕ
  pub bucket : ℕ

-- What the pipeline meets outside the tables: the environment of the engine, the operator's key of
-- each mode that has an adapter, and SHA-256 over the parts of a key.
pub record OrderEnv : Type 0 where
  pub engine : EngineEnv
  pub ports : ExecutionMode → Option ℕ
  pub sha256 : KeyInput → ℕ

-- `orderIdempotencyKey`
abbrev pub order_idempotency_key : OrderEnv → StoredMode → ℕ → ℕ → Decision → ℕ
order_idempotency_key env mode operator strategy d = env.sha256 (record {
  mode = mode;
  operator_key = operator;
  fixture_id = d.fixture_id;
  market_key = d.market_key;
  selection_key = d.selection_key;
  strategy_version = strategy;
  bucket = d.decided_at / decision_bucket_ms;
})

abbrev pub find_order : ℕ → List Order → Option Order
find_order id = find (λ o. o.id == id)

abbrev pub find_decision : ℕ → List Decision → Option Decision
find_decision id = find (λ d. d.id == id)

abbrev pub status_index : OrderStatus → ℕ
status_index OrderStatus.reserved = 0
status_index OrderStatus.submitting = 1
status_index OrderStatus.unknown = 2
status_index OrderStatus.accepted = 3
status_index OrderStatus.rejected = 4
status_index OrderStatus.settled = 5
status_index OrderStatus.voided = 6
status_index OrderStatus.reconciliation_required = 7

abbrev pub status_eq : OrderStatus → OrderStatus → Bool
status_eq a b = status_index a == status_index b

abbrev pub is_among : OrderStatus → List OrderStatus → Bool
is_among s [] = false
is_among s (t ∷ ts) = status_eq s t || is_among s ts

-- REJECTION_BY_OPERATOR_REASON
abbrev pub rejection_of : OperatorReason → RejectionCode
rejection_of OperatorReason.odd_moved = odd_moved
rejection_of OperatorReason.no_quote = no_executable_odd
rejection_of OperatorReason.market_suspended = suspended_market
rejection_of OperatorReason.other_reason = operator_unavailable

-- `settlementOutcome`, of the amounts that are read.
abbrev pub outcome_of : ℤ → ℤ → DecisionOutcome × ℤ
outcome_of stake payout =
    if eqb_ℤ payout stake
    then (void, pos 0)
    else (if ltb_ℤ (pos 0) (payout +ℤ neg stake) then won else lost, payout +ℤ neg stake)

abbrev pub outcome_read : Result ℤ → Result ℤ → Result (DecisionOutcome × ℤ)
outcome_read (err e) payout = err e
outcome_read (ok stake) (err e) = err e
outcome_read (ok stake) (ok payout) = ok (outcome_of stake payout)

unfoldable pub settlement_outcome : Text → Text → Result (DecisionOutcome × ℤ)
unfolding to_cents
settlement_outcome stake payout = outcome_read (to_cents stake) (to_cents payout)

-- What `acceptanceViolation` names.
pub data Violation : Type 0 where
  receipt_unreadable external_missing odd_below stake_incoherent : Violation

abbrev pub is_receipt : Option Text → Bool
is_receipt none = false
is_receipt (some t) = is_receipt_hash t

-- `!text`: missing or empty.
abbrev pub is_blank : Option Text → Bool
is_blank none = true
is_blank (some []) = true
is_blank (some (_ ∷ _)) = false

abbrev pub reaches : Option ℕ → ℕ → Bool
reaches none minimum = false
reaches (some odd) minimum = leb minimum odd

-- A stake that is positive and at most the one that was asked for.
abbrev pub stake_within : Result ℤ → Result ℤ → Result (Option Violation)
stake_within (err e) requested = err e
stake_within (ok a) requested =
    if leb_ℤ a (pos 0) then ok (some stake_incoherent) else elim requested [
      | err e ↦ err e
      | ok r ↦ if ltb_ℤ r a then ok (some stake_incoherent) else ok none
    ]

abbrev pub stake_violation : Option Text → Text → Result (Option Violation)
stake_violation none requested = ok (some stake_incoherent)
stake_violation (some a) requested =
    if not (is_amount_text a)
    then ok (some stake_incoherent)
    else stake_within (to_cents a) (to_cents requested)

-- `acceptanceViolation`
unfoldable pub acceptance_violation : Order → Acceptance → Result (Option Violation)
unfolding is_receipt_hash is_amount_text to_cents
acceptance_violation order a =
    if not (is_receipt a.receipt_hash)
    then ok (some receipt_unreadable)
    else if is_blank a.external_order_id
    then ok (some external_missing)
    else if not (reaches a.accepted_odd order.minimum_odd)
    then ok (some odd_below)
    else stake_violation a.accepted_stake order.requested_stake
