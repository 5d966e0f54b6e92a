-- ===== src/Examples/Reconciled.antt =====
-- Runs of the reconciliation on concrete inputs.
use api_score.Money.{Text}
use api_score.Operator.{OperatorOrder}
use api_score.Base.{◌+◌, ◌≡◌, ◌↔◌, refl, true, false, none, some, List, [], ◌∷◌}
use api_score.Base.Tx.{ok}
use api_score.Domain.{OrderStatus}
use api_score.Orders.Defs.{Order}
use api_score.Orders.Service.{execute_decision}
use api_score.Orders.Reachable.{Reach}
use api_score.Orders.Submitting.{execute_decision-Reach}
use api_score.Reconciliation.Defs.{
  Answer, LookupStatus, OperatorKind, OperatorPort, ReconciliationEnv, RunStatus, is_running, Run,
  Item, ReconciliationStore,
}
use api_score.Reconciliation.Lookup.{returned, lookup_operator_orders, keys_of}
use api_score.Control.Switch.{IsStopped}
use api_score.Domain.{unknown_order_too_old}
use api_score.Orders.Following.{UnknownResolution}
use api_score.Reconciliation.Cause.{stop_trigger_for}
use api_score.Reconciliation.Silence.{execute_thrown-IsStopped}
use api_score.Reconciliation.Compare.{compare_order}
use api_score.Reconciliation.Repair.{resolve_rows, resolution_draft}
use api_score.Reconciliation.Opening.{StartReconciliationInput, find_run, open_run}
use api_score.Reconciliation.Service.{execute, get_run}
use api_score.Reconciliation.Steps.{execute-Reach}
use api_score.Reconciliation.Once.{execute-execute}
use api_score.Reconciliation.Stops.{EndsSafely, execute-EndsSafely}
use api_score.Reconciliation.Critical.{has_critical}
use api_score.Reconciliation.Agreement.{Agrees, compare_order_iff}
use api_score.Reconciliation.Gaps.{has_gap}
use api_score.Reconciliation.Backing.{keys_in, reached_compare-no_gap}
use api_score.Reconciliation.Lookups.{
  IsAnswered, is_key, lookup_operator_orders-returned, resolve_rows_thrown,
}
use api_score.Reconciliation.Opened.{open_run-open_run}
use api_score.Reconciliation.Items.{IsCounted, get_run-execute}
use api_score.Ledger.Defs.{reserve_key}
use api_score.Examples.Pipeline
use api_score.Examples.Pipeline.{
  reserved_order, acceptance, doubtful_order, declared, doubtful_tables, start, answers,
  placed_order, execute_decision-found,
}

abbrev env : ReconciliationEnv
env = record {
  pipeline = Pipeline.env;
  created_at = λ o. o.id + 89000000;
  updated_at = λ _. 86400000;
  status_reason = λ _. none;
  message = λ _. [];
  derived_key = λ account from to. account + from + to;
}

-- The operator has the order of key 12, settled, and does not give its balance.
abbrev port : OperatorPort
port = record {
  kind = OperatorKind.sandbox;
  orders_by_key = λ keys.
      Answer.answer (record { idempotency_key = 12; status = LookupStatus.found declared } ∷ []);
  balance_in = λ currency. Answer.thrown (b'5' ∷ b'0' ∷ b'3' ∷ []);
}

abbrev silent_port : OperatorPort
silent_port = record port { orders_by_key = λ keys. Answer.thrown (b'5' ∷ b'0' ∷ b'4' ∷ []) }

abbrev input : StartReconciliationInput
input = record { account_id = 7; from = 86400000; to = 90000000; idempotency_key = none }

abbrev run : Run
run = record {
  id = 1;
  idempotency_key = 176400007;
  account_id = 7;
  range_from = 86400000;
  range_to = 90000000;
  status = RunStatus.running;
  critical_count = 0;
  summary = none;
  error = none;
  requested_by_user_id = some 4;
  completed_at = none;
}

-- The order in doubt, and no run.
abbrev unopened : ReconciliationStore
unopened = record { orders = doubtful_tables; runs = []; items = [] }

abbrev tables : ReconciliationStore
tables = record unopened { runs = run ∷ [] }

execute-Reach_example : Reach doubtful_tables (execute env port 1 90000000 tables).1.orders
execute-Reach_example = execute-Reach env port 1 90000000 tables

execute-execute_example :
    execute env silent_port 1 90000500 (execute env port 1 90000000 tables).1
    ≡ execute env port 1 90000000 tables
execute-execute_example = execute-execute env env port silent_port 1 90000000 90000500 tables

execute-EndsSafely_example :
    (r' : Run) × (t : ReconciliationStore) × (execute env port 1 90000000 tables ≡ (ok r', t))
    × (find_run 1 t.runs ≡ some r')
    × (is_running r'.status ≡ false)
    × EndsSafely r' t
execute-EndsSafely_example = execute-EndsSafely env port 1 90000000 tables run refl refl refl

get_run-execute_example :
    (r' : Run) × (items : List Item) × (get_run 1 (execute env port 1 90000000 tables).1
      ≡ ok (r', items))
    × IsCounted r' items
get_run-execute_example = get_run-execute env port 1 90000000 tables run refl refl refl

lookup_operator_orders-returned_example :
    (is_key (12 ∷ 13 ∷ 12 ∷ []) 13 ≡ true
      → IsAnswered
          (port.orders_by_key (12 ∷ 13 ∷ []))
          13
          (returned 13 (lookup_operator_orders port (12 ∷ 13 ∷ 12 ∷ []))))
    × (is_key (12 ∷ 13 ∷ 12 ∷ []) 13 ≡ false
        → returned 13 (lookup_operator_orders port (12 ∷ 13 ∷ 12 ∷ [])) ≡ none)
lookup_operator_orders-returned_example =
    lookup_operator_orders-returned port (12 ∷ 13 ∷ 12 ∷ []) 13

resolve_rows_thrown_example :
    resolve_rows env 90000000
      (lookup_operator_orders silent_port (keys_of (doubtful_order ∷ [])))
      (doubtful_order ∷ [])
      doubtful_tables
    ≡ (ok ([], []), doubtful_tables)
resolve_rows_thrown_example =
    resolve_rows_thrown env 90000000 silent_port (b'5' ∷ b'0' ∷ b'4' ∷ []) (doubtful_order ∷ [])
      doubtful_tables (λ keys. refl)

-- "25.00"
abbrev two_decimals : Text
two_decimals = b'2' ∷ b'5' ∷ b'.' ∷ b'0' ∷ b'0' ∷ []

-- The operator's answer with both decimals of the stake.
abbrev restated : OperatorOrder
restated = record declared { acceptance = record acceptance { accepted_stake = some two_decimals } }

-- The order as the pipeline accepts it.
abbrev accepted_order : Order
accepted_order = record reserved_order {
  status = OrderStatus.accepted;
  external_order_id = acceptance.external_order_id;
  accepted_stake = some two_decimals;
  accepted_odd = acceptance.accepted_odd;
  accepted_at = some 90000000;
}

compare_order_iff_example :
    (has_critical
        (compare_order accepted_order none (some restated) true (reserve_key 12 ∷ []) true)
      ≡ false)
    ↔ Agrees accepted_order (some restated) true (reserve_key 12 ∷ []) true
compare_order_iff_example =
    compare_order_iff accepted_order none (some restated) true (reserve_key 12 ∷ []) true

compare_order-clean :
    has_critical (compare_order accepted_order none (some restated) true (reserve_key 12 ∷ []) true)
    ≡ false
unfolding compare_order
compare_order-clean = refl

open_run-open_run_example :
    open_run env input none 2 (open_run env input (some 4) 1 unopened).1
    ≡ (ok (run, false), (open_run env input (some 4) 1 unopened).1)
unfolding open_run
open_run-open_run_example =
    open_run-open_run env input input (some 4) none 1 2 unopened run true _ refl refl refl

reached_compare-no_gap_example :
    has_gap (
      compare_order placed_order none
        (some declared)
        false
        (keys_in (execute_decision Pipeline.env answers 31 7 9 start).1.engine.ledger.entries)
        true)
    ≡ false
reached_compare-no_gap_example =
    reached_compare-no_gap start (execute_decision Pipeline.env answers 31 7 9 start).1 9
      placed_order none (some declared) false true tt (λ id o h. cc)
      (execute_decision-Reach Pipeline.env answers 31 7 9 start) execute_decision-found

execute_thrown-IsStopped_example :
    IsStopped (execute env silent_port 1 90000000 tables).1.orders.engine.control
execute_thrown-IsStopped_example =
    execute_thrown-IsStopped env silent_port 1 90000000 tables run 9 doubtful_order
      (b'5' ∷ b'0' ∷ b'4' ∷ []) refl (λ keys. refl) refl refl refl refl refl

-- The column holds 25.00 where the operator answers 25: the same amount, and a critical difference.
compare_order-other_text :
    has_critical (compare_order accepted_order none (some declared) true (reserve_key 12 ∷ []) true)
    ≡ true
unfolding compare_order
compare_order-other_text = refl

-- An order in doubt that turns out to be in dispute is not too old, but stops as if it were.
stop_trigger_for-disputed :
    stop_trigger_for (
      resolution_draft doubtful_order (some declared) UnknownResolution.reconciliation_required
      ∷ [])
    ≡ some unknown_order_too_old
unfolding stop_trigger_for
stop_trigger_for-disputed = refl
