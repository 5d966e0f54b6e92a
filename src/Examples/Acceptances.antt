-- ===== src/Examples/Acceptances.antt =====
-- Two callers with one order, and its acceptance, on concrete inputs.
use api_score.Base.{◌≡◌, refl, none, some, [], ◌∷◌, Option}
use api_score.Base.Tx.{Result, ok, err}
use api_score.Base.Int.{neg, ◌+ℤ◌}
use api_score.Money.{to_cents}
use api_score.Domain.{OrderStatus}
use api_score.Orders.Defs.{Order, OrderStore}
use api_score.Orders.Service.{submit_read}
use api_score.Base.Rows.{length}
use api_score.Control.Defs.{to_snapshot, execution_allowed}
use api_score.Control.Service.{lock_for_execution}
use api_score.Control.Changes.{active_policy}
use api_score.Domain.{AutoStopTrigger}
use api_score.Orders.Acceptance.{accept}
use api_score.Orders.Contract.{IsAccepted, accept-IsAccepted}
use api_score.Examples.Pipeline.{start, env, acceptance, answers, reserved_order, reserved_tables}

-- Two callers have read the same reservation; one of them has it under submission by now.
abbrev submitting_tables : OrderStore
submitting_tables = record reserved_tables {
  orders =
      record reserved_order {
        status = OrderStatus.submitting;
        submitted_at = some 89999990;
        version = 2;
      }
      ∷ [];
}

-- The other hands the order to the operator as well.
submit-handed_twice : length (submit_read env answers reserved_order submitting_tables).1.placed ≡ 1
unfolding submit_read lock_for_execution to_snapshot execution_allowed active_policy to_cents ◌+ℤ◌
submit-handed_twice = refl

-- The tables that a transaction leaves, or those of the start.
abbrev tables_of : Result (Option AutoStopTrigger × OrderStore) → OrderStore
tables_of (ok (stop, s)) = s
tables_of (err e) = start

abbrev pub accepted_tables : OrderStore
accepted_tables = tables_of (accept 9 acceptance 90000000 submitting_tables)

accept-entered : accept 9 acceptance 90000000 submitting_tables ≡ ok (none, accepted_tables)
unfolding accept to_cents ◌+ℤ◌ neg
accept-entered = refl

abbrev submitting_order : Order
submitting_order = record reserved_order {
  status = OrderStatus.submitting;
  submitted_at = some 89999990;
  version = 2;
}

accept-IsAccepted_example :
    IsAccepted 9 submitting_order acceptance submitting_tables accepted_tables
accept-IsAccepted_example =
    accept-IsAccepted 9 submitting_order acceptance 90000000 submitting_tables accepted_tables refl
      refl accept-entered
