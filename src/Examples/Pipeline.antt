-- ===== src/Examples/Pipeline.antt =====
-- Runs of the order pipeline on concrete inputs.
use api_score.Base.{◌≡◌, refl, true, none, some, [], ◌∷◌, ℕ, Option}
use api_score.Base.Int.{neg, ◌+ℤ◌}
use api_score.Money.{Text, to_cents}
use api_score.Domain.{known, sandbox, OrderStatus, DecisionStatus}
use api_score.Ledger.Invariant.{IsSound}
use api_score.Operator.{Acceptance, PlaceOrderResult, OperatorOrder, OperatorOrderStatus}
use api_score.Orders.Defs.{Order, Decision, OrderStore, OrderEnv, find_order}
use api_score.Orders.Lifecycle.{Follows}
use api_score.Orders.Changes.{IsBacked, HasOwnIds}
use api_score.Orders.Service.{Answers, submit, submit_read, execute_decision}
use api_score.Ledger.Defs.{plan_entry, movement_effect}
use api_score.Ledger.Service.{lock_account, append, write, insert_entry, write_balances}
use api_score.Ledger.Checks.{daily_aggregates}
use api_score.Risk.{evaluate_risk}
use api_score.Control.Defs.{to_snapshot, execution_allowed}
use api_score.Control.Service.{lock_for_execution, assert_clock_within_tolerance}
use api_score.Control.Changes.{active_policy}
use api_score.Engine.Service.{
  settle_verdict, reserve_matched, reserve_under, reserve_new, reserve_within,
}
use api_score.Orders.Reserving.{reserve, reserve_tx}
use api_score.Orders.Following.{resolve_unknown}
use api_score.Orders.Reachable.{Reach, reached_order, reached_entries}
use api_score.Orders.Submitting.{submit-Runs, execute_decision-Reach}
use api_score.Orders.Resolving.{resolve_unknown-Reach}
use api_score.Examples.Books.{opened_tables-IsSound, staked_tables}
use api_score.Examples.Stakes
use api_score.Examples.Stakes.{before}

-- "25"
abbrev stake : Text
stake = b'2' ∷ b'5' ∷ []

abbrev decision : Decision
decision = record {
  id = 31;
  simulation_run_id = 2;
  status = DecisionStatus.eligible;
  rejection_code = none;
  fixture_id = 12;
  market_key = 1;
  selection_key = 1;
  decided_at = 89990000;
  currency = 1;
  stake = some stake;
  decision_odd = some 1900;
  min_acceptable_odd = 1800;
  decision_observed_at = some 89998000;
  executable_odd = none;
  executed_at = none;
  outcome = none;
  profit = none;
  settled_at = none;
}

abbrev pub start : OrderStore
start = record {
  engine = before;
  orders = [];
  decisions = decision ∷ [];
  receipts = [];
  runs = record { id = 2; strategy_version = 4 } ∷ [];
  placed = [];
}

abbrev pub env : OrderEnv
env = record { engine = Stakes.env; ports = λ _. some 1; sha256 = λ k. k.fixture_id }

abbrev receipt : Text
receipt =
    let eight : Text → Text = λ t. b'a' ∷ b'b' ∷ b'c' ∷ b'd' ∷ b'0' ∷ b'1' ∷ b'2' ∷ b'3' ∷ t in
    eight (eight (eight (eight (eight (eight (eight (eight [])))))))

abbrev pub acceptance : Acceptance
acceptance = record {
  external_order_id = some (b'x' ∷ []);
  accepted_odd = some 1850;
  accepted_stake = some stake;
  accepted_at = some 90000000;
  receipt_hash = some receipt;
}

abbrev pub answers : Answers
answers = record {
  quote = some (record { odd_value = 1850; captured_at = some 89999000; available = true });
  result = some (PlaceOrderResult.accepted acceptance);
}

abbrev pub reserved_order : Order
reserved_order = record {
  id = 9;
  decision_id = 31;
  account_id = 7;
  mode = known sandbox;
  operator_key = 1;
  idempotency_key = 12;
  external_order_id = none;
  status = OrderStatus.reserved;
  rejection_code = none;
  currency = 1;
  requested_stake = stake;
  requested_odd = 1900;
  minimum_odd = 1800;
  accepted_stake = none;
  accepted_odd = none;
  payout = none;
  submitted_at = none;
  accepted_at = none;
  unknown_since = none;
  settled_at = none;
  version = 1;
}

-- The order with its stake reserved.
abbrev pub reserved_tables : OrderStore
reserved_tables = record start {
  engine = record before { ledger = staked_tables };
  orders = reserved_order ∷ [];
  decisions = record decision { status = DecisionStatus.order_reserved } ∷ [];
}

execute_decision-Reach_example : Reach start (execute_decision env answers 31 7 9 start).1
execute_decision-Reach_example = execute_decision-Reach env answers 31 7 9 start

reached_order_example :
    (o' : Order) × (find_order 9 (submit env answers 9 reserved_tables).1.orders ≡ some o')
    × Follows reserved_order o'
reached_order_example =
    reached_order reserved_tables (submit env answers 9 reserved_tables).1 9 reserved_order
      (submit-Runs env answers 9 reserved_tables) refl

reached_entries_example :
    IsSound (execute_decision env answers 31 7 9 start).1.engine.ledger
    × HasOwnIds (execute_decision env answers 31 7 9 start).1.orders
    × IsBacked (execute_decision env answers 31 7 9 start).1
reached_entries_example =
    reached_entries start (execute_decision env answers 31 7 9 start).1
      (execute_decision-Reach env answers 31 7 9 start) opened_tables-IsSound tt (λ id o h. cc)

-- The order in doubt since an hour, which the operator has settled for 47.50.
abbrev pub doubtful_order : Order
doubtful_order = record reserved_order {
  status = OrderStatus.unknown;
  unknown_since = some 86400000;
  version = 3;
}

abbrev pub declared : OperatorOrder
declared = record {
  acceptance = acceptance;
  status = OperatorOrderStatus.settled;
  payout = some (b'4' ∷ b'7' ∷ b'.' ∷ b'5' ∷ []);
  settled_at = some 89999999;
}

abbrev pub doubtful_tables : OrderStore
doubtful_tables = record reserved_tables { orders = doubtful_order ∷ [] }

resolve_unknown-Reach_example :
    Reach doubtful_tables
      (resolve_unknown env doubtful_order 86400000 (some declared) 90000000 doubtful_tables).1
resolve_unknown-Reach_example =
    resolve_unknown-Reach env doubtful_order 86400000 (some declared) 90000000 doubtful_tables

-- The status of an order, by its identifier.
abbrev pub status_of_order : ℕ → OrderStore → Option OrderStatus
status_of_order id s = elim (find_order id s.orders) [ none ↦ none | some o ↦ some o.status ]

execute_decision-accepted :
    status_of_order 9 (execute_decision env answers 31 7 9 start).1 ≡ some OrderStatus.accepted
unfolding execute_decision reserve reserve_tx submit submit_read reserve_within reserve_new
    reserve_under reserve_matched settle_verdict lock_account daily_aggregates append write
    insert_entry write_balances plan_entry movement_effect lock_for_execution
    assert_clock_within_tolerance to_snapshot execution_allowed active_policy to_cents evaluate_risk
    ◌+ℤ◌ neg
execute_decision-accepted = refl

-- The order that is placed.
abbrev pub placed_order : Order
placed_order = elim (find_order 9 (execute_decision env answers 31 7 9 start).1.orders) [
  | none ↦ reserved_order
  | some o ↦ o
]

pub execute_decision-found :
    find_order 9 (execute_decision env answers 31 7 9 start).1.orders ≡ some placed_order
unfolding execute_decision reserve reserve_tx submit submit_read reserve_within reserve_new
    reserve_under reserve_matched settle_verdict lock_account daily_aggregates append write
    insert_entry write_balances plan_entry movement_effect lock_for_execution
    assert_clock_within_tolerance to_snapshot execution_allowed active_policy to_cents evaluate_risk
    ◌+ℤ◌ neg
execute_decision-found = refl
