-- ===== src/Reconciliation/Defs.antt =====
-- Runs, their items, and what a run asks of the operator.
use api_score.Base.{ℕ, zero, suc, Bool, true, false, Option, List, [], ◌∷◌}
use api_score.Base.Int.{ℤ}
use api_score.Base.Tx.{Failure}
use api_score.Money.{Text}
use api_score.Domain.{OrderStatus}
use api_score.Operator.{OperatorOrder, OperatorOrderStatus}
use api_score.Orders.Defs.{Order, OrderEnv, OrderStore}
use api_score.Orders.Following.{UnknownResolution}

-- RECONCILIATION_ITEM_TYPES, RECONCILIATION_RESULTS and ReconciliationSeverity
pub data ItemType : Type 0 where
  order receipt settlement ledger balance : ItemType

pub data ItemResult : Type 0 where
  matches resolved mismatch missing_at_operator missing_locally pending : ItemResult

pub data Severity : Type 0 where
  info warning critical : Severity

-- Why a lookup failed: two texts of the code, or the operator's.
pub data LookupReason : Type 0 where
  incomplete_answer absent_result : LookupReason
  reason : Text → LookupReason

-- The texts of `detail`. What the code puts into a text is kept, cut so that the whole has at most
-- 255 characters.
pub data Detail : Type 0 where
  accepted_not_found untracked_history order_differs order_agrees : Detail
  without_receipt without_reservation without_settlement payout_differs : Detail
  refused_but_there stake_not_released manual_intervention : Detail
  reservation_released balance_agrees balance_differs invariant_broken : Detail
  status_reason : Text → Detail
  lookup_failed : LookupReason → Detail
  balance_unreadable : Text → Detail
  not_comparable : ℕ → Detail
  unknown_became : UnknownResolution → Detail
  operator_settlement : OperatorOrderStatus → Detail

-- `slice(0, n)`
abbrev pub slice : ℕ → Text → Text
slice _ [] = []
slice zero (_ ∷ _) = []
slice (suc n) (c ∷ cs) = c ∷ slice n cs

-- What proves an item: the columns of an order, those of the operator's order, or two amounts.
pub data Evidence : Type 0 where
  local_order :
      OrderStatus
      → (external stake : Option Text) (odd : Option ℕ) (payout : Option Text) → Evidence
  operator_order :
      OperatorOrderStatus
      → (external stake : Option Text) (odd : Option ℕ) (payout : Option Text) → Evidence
  account_amounts : (available reserved : ℤ) → Evidence
  operator_amounts : (available exposure : Text) → Evidence

-- ItemDraft
pub record ItemDraft : Type 0 where
  pub order_id : Option ℕ
  pub item_type : ItemType
  pub result : ItemResult
  pub severity : Severity
  pub detail : Detail
  pub expected : Option Evidence
  pub observed : Option Evidence

abbrev pub is_critical : ItemDraft → Bool
is_critical d = elim d.severity [ critical ↦ true | _ ↦ false ]

pub data RunStatus : Type 0 where
  running completed failed : RunStatus

abbrev pub is_running : RunStatus → Bool
is_running running = true
is_running _ = false

-- `summary`, with each `Record` as the list of its entries.
pub record Summary : Type 0 where
  pub orders : ℕ
  pub resolutions : List (UnknownResolution × ℕ)
  pub by_result : List (ItemResult × ℕ)
  pub critical_count : ℕ

-- A row of `reconciliation_runs`.
pub record Run : Type 0 where
  pub id : ℕ
  pub idempotency_key : ℕ
  pub account_id : ℕ
  pub range_from : ℕ
  pub range_to : ℕ
  pub status : RunStatus
  pub critical_count : ℕ
  pub summary : Option Summary
  pub error : Option Text
  pub requested_by_user_id : Option ℕ
  pub completed_at : Option ℕ

-- A row of `reconciliation_items`.
pub record Item : Type 0 where
  pub run_id : ℕ
  pub draft : ItemDraft

pub record ReconciliationStore : Type 0 where
  pub orders : OrderStore
  pub runs : List Run
  pub items : List Item

-- OperatorOrderLookup, with the key that it answers.
pub data LookupStatus : Type 0 where
  found : OperatorOrder → LookupStatus
  not_found : LookupStatus
  failed : LookupReason → LookupStatus

pub record OperatorOrderLookup : Type 0 where
  pub idempotency_key : ℕ
  pub status : LookupStatus

pub record OperatorBalance : Type 0 where
  pub currency : ℕ
  pub available : Text
  pub exposure : Text

-- What a call of the operator gives: an answer, or an error with its redacted message.
pub data Answer (A : Type 0) : Type 0 where
  answer : A → Answer A
  thrown : Text → Answer A

pub data OperatorKind : Type 0 where
  paper sandbox live : OperatorKind

-- The operator of the account's mode, as it is during one run.
pub record OperatorPort : Type 0 where
  pub kind : OperatorKind
  pub orders_by_key : List ℕ → Answer (List OperatorOrderLookup)
  pub balance_in : ℕ → Answer OperatorBalance

-- What a run meets outside its tables: the environment of the pipeline, the columns of `bet_orders`
-- that an `Order` leaves out, the redacted messages of errors, and the text `account:from:to`.
pub record ReconciliationEnv : Type 0 where
  pub pipeline : OrderEnv
  pub created_at : Order → ℕ
  pub updated_at : Order → ℕ
  pub status_reason : Order → Option Text
  pub message : Failure → Text
  pub derived_key : ℕ → ℕ → ℕ → ℕ
