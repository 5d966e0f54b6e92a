-- ===== src/Orders/Service.antt =====
-- The methods of `OrderExecutionService`: sequences of transactions. What was committed before an
-- error stays committed.
use api_score.Base.{ℕ, Bool, true, false, Option, none, some, List, [], ◌∷◌}
use api_score.Base.Tx.{Result, ok, err, Failure, blocked, other, Tx}
use api_score.Base.Tx
use api_score.Domain.{
  StoredMode, known, unrecognised, OrderStatus, RejectionCode, control_disabled, control_unreadable,
}
use api_score.Control.Service.{with_submission_permit}
use api_score.Operator.{
  OperatorQuote, PlaceOrderRequest, PlaceOrderResult, Acceptance, is_well_formed_acceptance,
}
use api_score.Orders.Defs.{Order, OrderStore, OrderEnv, status_eq, rejection_of}
use api_score.Orders.Steps.{lock_order, cancel, doubt}
use api_score.Orders.Acceptance.{accept}
use api_score.Orders.Reserving.{on_switch, port_for, reserve, stopped_if}
use api_score.Orders.Verifying.{Verdict, as_it_is, cancels, submits, verify, caught}

-- A method: its outcome, and the tables that it leaves.
abbrev pub Call : Type 0 → Type 0
Call A = OrderStore → Result A × OrderStore

infixl 5 ◌>>=◌ ◌>>◌
abbrev pub ◌>>=◌ : {A B : Type 0} → Call A → (A → Call B) → Call B
◌>>=◌ m f s = let (r, t) = m s in elim r [ ok a ↦ f a t | err e ↦ (err e, t) ]

abbrev pub ◌>>◌ : {A B : Type 0} → Call A → Call B → Call B
m >> k = m >>= λ _. k

abbrev pub pure : {A : Type 0} → A → Call A
pure a s = (ok a, s)

abbrev pub lift : {A : Type 0} → Result A → Call A
lift r s = (r, s)

abbrev pub transact : {A : Type 0} → Tx OrderStore A → Call A
transact m s = Tx.run m s

abbrev pub effect : (OrderStore → OrderStore) → Call (Unit {0})
effect f s = (ok tt, f s)

-- `findOneByOrFail`
abbrev pub read_order : ℕ → Call Order
read_order id = transact (lock_order id)

-- `cancelReserved`, `cancelSubmitting` and `cancelUnknown`.
abbrev pub cancel_from : List OrderStatus → ℕ → RejectionCode → Call Order
cancel_from from id code = transact (cancel id from code) >> read_order id

abbrev pub cancel_reserved : ℕ → RejectionCode → Call Order
cancel_reserved = cancel_from (OrderStatus.reserved ∷ [])

abbrev pub cancel_submitting : ℕ → RejectionCode → Call Order
cancel_submitting = cancel_from (OrderStatus.submitting ∷ OrderStatus.reserved ∷ [])

abbrev pub cancel_unknown : ℕ → RejectionCode → Call Order
cancel_unknown = cancel_from (OrderStatus.unknown ∷ [])

-- `applyAcceptance`
unfoldable pub apply_acceptance : OrderEnv → ℕ → Acceptance → Call Order
unfolding accept
apply_acceptance env id a = do
  stop ← transact (accept id a env.engine.now)
  effect (stopped_if env stop)
  read_order id

abbrev pub apply_doubt : OrderEnv → ℕ → Call Order
apply_doubt env id = transact (doubt id env.engine.now) >> read_order id

abbrev pub apply_accepted : Bool → OrderEnv → ℕ → Acceptance → Call Order
apply_accepted true env id a = apply_acceptance env id a
apply_accepted false env id a = apply_doubt env id

-- `applyPlacementResult`
unfoldable pub apply_placement_result : OrderEnv → ℕ → PlaceOrderResult → Call Order
unfolding apply_acceptance cancel doubt is_well_formed_acceptance
apply_placement_result env id (PlaceOrderResult.accepted a) =
    apply_accepted (is_well_formed_acceptance a) env id a
apply_placement_result env id (PlaceOrderResult.rejected reason) =
    read_order id >>= λ o. cancel_submitting o.id (rejection_of reason)
apply_placement_result env id PlaceOrderResult.unknown = apply_doubt env id

-- What the operator says in one submission: the quote (`none` also when asking fails), and the
-- answer to the order (`none` for an error, a timeout included).
pub record Answers : Type 0 where
  pub quote : Option OperatorQuote
  pub result : Option PlaceOrderResult

abbrev pub result_or_unknown : Option PlaceOrderResult → PlaceOrderResult
result_or_unknown none = PlaceOrderResult.unknown
result_or_unknown (some r) = r

abbrev pub place_request : Order → PlaceOrderRequest
place_request o = record {
  order_id = o.id;
  idempotency_key = o.idempotency_key;
  operator_key = o.operator_key;
  requested_odd = o.requested_odd;
  minimum_odd = o.minimum_odd;
  stake = o.requested_stake;
  currency = o.currency;
}

-- `placeOrder` is called.
abbrev pub handed : Order → OrderStore → OrderStore
handed o s = record s { placed = place_request o ∷ s.placed }

-- After the lock of `withSubmissionPermit` was given or refused.
abbrev pub place_permitted :
    OrderEnv → Order → Option PlaceOrderResult → Result (Unit {0} × OrderStore) → Call Order
place_permitted env o result (ok _) =
    effect (handed o) >> apply_placement_result env o.id (result_or_unknown result)
place_permitted env o result (err (blocked true)) =
    effect (stopped_if env (some control_unreadable)) >> cancel_submitting o.id control_disabled
place_permitted env o result (err (blocked false)) = cancel_submitting o.id control_disabled
place_permitted env o result (err _) = apply_placement_result env o.id PlaceOrderResult.unknown

abbrev pub place_in : OrderEnv → Order → Option PlaceOrderResult → StoredMode → Call Order
place_in env o result (unrecognised _) s = cancel_submitting o.id control_disabled s
place_in env o result (known m) s =
    place_permitted env o result
      (on_switch (with_submission_permit env.engine.control m (Tx.pure tt)) s) s

-- `submit` once its transaction is over and nothing was cancelled: only an order under submission
-- goes on to the operator.
abbrev pub place_if : Bool → OrderEnv → Order → Option PlaceOrderResult → Call Order
place_if false env o result = pure o
place_if true env o result = place_in env o result o.mode

abbrev pub submit_judged : OrderEnv → ℕ → Option PlaceOrderResult → Verdict → Call Order
submit_judged env id result (cancels code stop) =
    effect (stopped_if env stop) >> cancel_reserved id code
submit_judged env id result (as_it_is o) =
    place_if (status_eq o.status OrderStatus.submitting) env o result
submit_judged env id result (submits o) =
    place_if (status_eq o.status OrderStatus.submitting) env o result

abbrev pub submit_ported : OrderEnv → ℕ → Answers → Result ℕ → Call Order
submit_ported env id answers (err _) s = cancel_reserved id control_disabled s
submit_ported env id answers (ok operator) s =
    let (verdict, t) = caught s (verify env id answers.quote s) in
    submit_judged env id answers.result verdict t

abbrev pub submit_if : Bool → OrderEnv → Answers → Order → Call Order
submit_if false env answers o = pure o
submit_if true env answers o = submit_ported env o.id answers (port_for env o.mode)

-- `submit` after its first read, which gave `o`.
unfoldable pub submit_read : OrderEnv → Answers → Order → Call Order
unfolding verify cancel apply_placement_result with_submission_permit
submit_read env answers o = submit_if (status_eq o.status OrderStatus.reserved) env answers o

-- `submit`
unfoldable pub submit : OrderEnv → Answers → ℕ → Call Order
unfolding submit_read lock_order
submit env answers id = read_order id >>= λ o. submit_read env answers o

abbrev pub execute_reserved : Bool → OrderEnv → Answers → Order → Call (Option Order)
execute_reserved false env answers o = pure (some o)
execute_reserved true env answers o = submit env answers o.id >>= λ row. pure (some row)

abbrev pub execute_order : OrderEnv → Answers → Option Order → Call (Option Order)
execute_order env answers none = pure none
execute_order env answers (some o) =
    execute_reserved (status_eq o.status OrderStatus.reserved) env answers o

-- `executeDecision`
unfoldable pub execute_decision : OrderEnv → Answers → ℕ → ℕ → ℕ → Call (Option Order)
unfolding reserve submit
execute_decision env answers decision_id account id s =
    let (o, t) = reserve env decision_id account id s in execute_order env answers o t
