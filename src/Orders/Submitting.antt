-- ===== src/Orders/Submitting.antt =====
-- The methods that make an order and submit it are sequences of transactions.
use api_score.Base.{ℕ, ◌≡◌, refl, inl, inr, Bool, true, false, Option, some, none, Bool-cases}
use api_score.Base.Tx.{
  Result, ok, err, Failure, blocked, ledger_rule, http, other, Result-cases, Tx, run_ok, run_err,
}
use api_score.Base.Tx
use api_score.Domain.{
  OrderStatus, AutoStopTrigger, StoredMode, known, unrecognised, control_disabled,
  control_unreadable,
}
use api_score.Control.Service.{with_submission_permit}
use api_score.Operator.{PlaceOrderResult}
use api_score.Engine.Service.{classify_reservation_error}
use api_score.Engine.Defs.{ReservationResult, reserved, rejected}
use api_score.Orders.Defs.{Order, OrderStore, OrderEnv, status_eq}
use api_score.Orders.Reserving.{
  on_switch, port_for, reserve, reserve_tx, reserve_outcome, refuse_if, stopped_if,
}
use api_score.Orders.Verifying.{Verdict, as_it_is, cancels, submits, verify, caught}
use api_score.Orders.Service.{
  pure, effect, read_order, cancel_reserved, cancel_submitting, apply_placement_result, Answers,
  result_or_unknown, handed, place_permitted, place_in, place_if, submit_judged, submit_ported,
  submit_if, submit_read, submit, execute_order, execute_decision,
}
use api_score.Orders.Reachable.{Step, Reach, here, next, one, Reach-trans}
use api_score.Orders.Methods.{
  Runs, >>=-Runs, read_order-Runs, stop-Runs, cancel_reserved-Runs, cancel_submitting-Runs,
  apply_placement_result-Runs,
}

module _ (env : OrderEnv) where
  place_permitted-Runs :
      (o : Order) (result : Option PlaceOrderResult) (r : Result (Unit {0} × OrderStore))
      → Runs (place_permitted env o result r)
  place_permitted-Runs o result (ok p) =
      >>=-Runs (effect (handed o)) (λ _. apply_placement_result env o.id (result_or_unknown result))
        (λ s. one (Step.hands o s))
        (λ _. apply_placement_result-Runs env o.id (result_or_unknown result))
  place_permitted-Runs o result (err (blocked true)) =
      >>=-Runs (effect (stopped_if env (some control_unreadable)))
        (λ _. cancel_submitting o.id control_disabled) (stop-Runs env (some control_unreadable))
        (λ _. cancel_submitting-Runs o.id control_disabled)
  place_permitted-Runs o result (err (blocked false)) = cancel_submitting-Runs o.id control_disabled
  place_permitted-Runs o result (err (ledger_rule r)) =
      apply_placement_result-Runs env o.id PlaceOrderResult.unknown
  place_permitted-Runs o result (err (http e)) =
      apply_placement_result-Runs env o.id PlaceOrderResult.unknown
  place_permitted-Runs o result (err other) =
      apply_placement_result-Runs env o.id PlaceOrderResult.unknown

  place_in-Runs :
      (o : Order) (result : Option PlaceOrderResult) (m : StoredMode)
      → Runs (place_in env o result m)
  place_in-Runs o result (unrecognised c) = cancel_submitting-Runs o.id control_disabled
  place_in-Runs o result (known m) = λ s.
      place_permitted-Runs o result
        (on_switch (with_submission_permit env.engine.control m (Tx.pure tt)) s) s

  place_if-Runs :
      (b : Bool) (o : Order) (result : Option PlaceOrderResult) → Runs (place_if b env o result)
  place_if-Runs false o result = λ s. here
  place_if-Runs true o result = place_in-Runs o result o.mode

  submit_judged-Runs :
      (id : ℕ) (result : Option PlaceOrderResult) (v : Verdict)
      → Runs (submit_judged env id result v)
  submit_judged-Runs id result (cancels code stop) =
      >>=-Runs (effect (stopped_if env stop)) (λ _. cancel_reserved id code) (stop-Runs env stop)
        (λ _. cancel_reserved-Runs id code)
  submit_judged-Runs id result (as_it_is o) =
      place_if-Runs (status_eq o.status OrderStatus.submitting) o result
  submit_judged-Runs id result (submits o) =
      place_if-Runs (status_eq o.status OrderStatus.submitting) o result

  judged-Reach :
      (id : ℕ) (answers : Answers) (s : OrderStore) (r : Result (Verdict × OrderStore))
      → verify env id answers.quote s ≡ r
      → Reach s (submit_judged env id answers.result (caught s r).0 (caught s r).1).1
  judged-Reach id answers s (ok (v, t)) e =
      Reach-trans (one (Step.verifies env id answers.quote s t e))
        (submit_judged-Runs id answers.result v t)
  judged-Reach id answers s (err f) e = submit_judged-Runs id answers.result (caught s (err f)).0 s

  submit_ported-Runs :
      (id : ℕ) (answers : Answers) (port : Result ℕ) → Runs (submit_ported env id answers port)
  submit_ported-Runs id answers (err f) = cancel_reserved-Runs id control_disabled
  submit_ported-Runs id answers (ok operator) =
      λ s. judged-Reach id answers s (verify env id answers.quote s) refl

  submit_if-Runs : (b : Bool) (answers : Answers) (o : Order) → Runs (submit_if b env answers o)
  submit_if-Runs false answers o = λ s. here
  submit_if-Runs true answers o = submit_ported-Runs o.id answers (port_for env o.mode)

  submit_read-Runs : (answers : Answers) (o : Order) → Runs (submit_read env answers o)
  unfolding submit_read
  submit_read-Runs answers o = submit_if-Runs (status_eq o.status OrderStatus.reserved) answers o

  pub submit-Runs : (answers : Answers) (id : ℕ) → Runs (submit env answers id)
  unfolding submit
  submit-Runs answers id =
      >>=-Runs (read_order id) (submit_read env answers) (read_order-Runs id)
        (submit_read-Runs answers)

  refuse_if-Reach : (id : ℕ) (r : ReservationResult) (s : OrderStore) → Reach s (refuse_if id r s)
  refuse_if-Reach id (rejected code limit) s = one (Step.refuses id code s)
  refuse_if-Reach id (reserved x replayed) s = here

  reserve_outcome-Reach :
      (decision_id account id : ℕ) (s : OrderStore) (stop : Option AutoStopTrigger)
      (r : Result (Option Order × OrderStore))
      → (reserve_tx env decision_id account id s).1 ≡ r
      → Reach s (reserve_outcome env decision_id s (stop, r)).1
  reserve_outcome-Reach decision_id account id s stop (ok (o, t)) e =
      next (one (Step.reserves env decision_id account id s t e)) (Step.stops env stop t)
  reserve_outcome-Reach decision_id account id s stop (err f) e =
      let (r, stop') = classify_reservation_error f stop in
      next (refuse_if-Reach decision_id r s) (Step.stops env stop' (refuse_if decision_id r s))

  reserve-Reach :
      (decision_id account id : ℕ) (s : OrderStore)
      → Reach s (reserve env decision_id account id s).1
  unfolding reserve
  reserve-Reach decision_id account id s =
      reserve_outcome-Reach decision_id account id s (reserve_tx env decision_id account id s).0
        (reserve_tx env decision_id account id s).1 refl

  execute_order-Runs : (answers : Answers) (o : Option Order) → Runs (execute_order env answers o)
  execute_order-Runs answers none = λ s. here
  execute_order-Runs answers (some o) =
      elim (Bool-cases (status_eq o.status OrderStatus.reserved)) [
        | inr n ↦ rw n (λ s. here)
        | inl t ↦ rw t (
            >>=-Runs (submit env answers o.id) (λ row. pure (some row)) (submit-Runs answers o.id)
              (λ row s. here))
      ]

-- Executing a decision, whatever the control, the operator and the clock answer, is a sequence of
-- the transactions and calls whose laws are proved: nothing else happens to the tables.
pub execute_decision-Reach :
    (env : OrderEnv) (answers : Answers) (decision_id account id : ℕ) (s : OrderStore)
    → Reach s (execute_decision env answers decision_id account id s).1
unfolding execute_decision
execute_decision-Reach env answers decision_id account id s =
    Reach-trans (reserve-Reach env decision_id account id s) (
      execute_order-Runs env answers (reserve env decision_id account id s).0
        (reserve env decision_id account id s).1)
