-- ===== src/Orders/Reserving.antt =====
-- The transaction of `reserve`: an order and its stake together, and what follows a failure.
use api_score.Base.{ℕ, Bool, true, false, ◌&&◌, ◌||◌, Option, none, some, ◌∷◌, ◌==◌}
use api_score.Base.Rows.{find, update_where, exists_where}
use api_score.Base.Tx.{
  Result, ok, err, blocked, http, not_found, other, Tx, pure, gets, or_throw, lift, modify,
  throw_if, ◌>>=◌, ◌>>◌,
}
use api_score.Money.{Text}
use api_score.Domain.{
  live_canary, StoredMode, known, unrecognised, OrderStatus, RejectionCode, no_executable_odd,
  risk_check_failed, DecisionStatus, AutoStopTrigger,
}
use api_score.Ledger.Defs.{reserve_key}
use api_score.Control.Defs.{ControlStore}
use api_score.Control.Service.{lock_for_execution}
use api_score.Engine.Defs
use api_score.Engine.Defs.{ReserveStakeRequest, ReservationResult, reserved, rejected, apply_stop}
use api_score.Engine.Service.{reserve_within, classify_reservation_error}
use api_score.Orders.Defs.{
  Order, Decision, SimulationRun, OrderStore, OrderEnv, find_decision, order_idempotency_key,
}
use api_score.Orders.Steps.{
  transition, order_rejected, reject_decision, decision_rejected, lock_order,
}

abbrev pub kept_switch :
    {A : Type 0} → OrderStore → Result (A × ControlStore) → Result (A × OrderStore)
kept_switch s (ok (a, c)) = ok (a, record s { engine = record s.engine { control = c } })
kept_switch s (err e) = err e

-- A step on the control.
abbrev pub on_switch : {A : Type 0} → Tx ControlStore A → Tx OrderStore A
on_switch m s = kept_switch s (m s.engine.control)

abbrev pub operator_or_throw : Option ℕ → Result ℕ
operator_or_throw none = err (blocked false)
operator_or_throw (some key) = ok key

-- `portFor`: the key of the mode's adapter. LIVE_CANARY has none, whatever is configured.
abbrev pub port_for : OrderEnv → StoredMode → Result ℕ
port_for env (unrecognised _) = err (blocked false)
port_for env (known live_canary) = err (blocked false)
port_for env (known m) = operator_or_throw (env.ports m)

-- What a decision offers to an order: the odd, the stake and the time of the quote, all there.
abbrev pub offer_of : Decision → Option (ℕ × Text × ℕ)
offer_of d = elim d.decision_odd [
  | none ↦ none
  | some odd ↦ elim d.stake [
    | none ↦ none
    | some stake ↦ elim d.decision_observed_at [ none ↦ none | some at ↦ some (odd, stake, at) ]
  ]
]

abbrev pub new_order : ℕ → ℕ → StoredMode → ℕ → ℕ → Decision → ℕ × Text × ℕ → Order
new_order id account mode operator key d (odd, stake, at) = record {
  id = id;
  decision_id = d.id;
  account_id = account;
  mode = mode;
  operator_key = operator;
  idempotency_key = key;
  external_order_id = none;
  status = OrderStatus.reserved;
  rejection_code = none;
  currency = d.currency;
  requested_stake = stake;
  requested_odd = odd;
  minimum_odd = d.min_acceptable_odd;
  accepted_stake = none;
  accepted_odd = none;
  payout = none;
  submitted_at = none;
  accepted_at = none;
  unknown_since = none;
  settled_at = none;
  version = 1;
}

-- The unique indexes of `bet_orders`, and its primary key.
abbrev pub order_clashes : Order → Order → Bool
order_clashes o p =
    p.id == o.id || p.decision_id == o.decision_id || p.idempotency_key == o.idempotency_key

unfoldable pub insert_order : Order → Tx OrderStore (Unit {0})
insert_order o = do
  clash ← gets (λ s. exists_where (order_clashes o) s.orders)
  throw_if clash other
  modify (λ s. record s { orders = o ∷ s.orders })

-- How far the transaction has come before the stake: it is over, or an order is inserted.
pub data Prepared : Type 0 where
  done : Option Order → Prepared
  inserted : Order → ReserveStakeRequest → Prepared

abbrev pub request_of : Order → ℕ → ReserveStakeRequest
request_of o at = record {
  account_id = o.account_id;
  entry_key = reserve_key o.idempotency_key;
  stake = o.requested_stake;
  quote_captured_at = some at;
  order_id = some o.id;
  actor_user_id = none;
}

-- The same signal in the same bucket has an order already, or the order is inserted.
abbrev pub prepare_keyed : Bool → Order → ℕ → Tx OrderStore Prepared
prepare_keyed true o at =
    modify (reject_decision o.decision_id risk_check_failed) >> pure (done none)
prepare_keyed false o at = insert_order o >> pure (inserted o (request_of o at))

abbrev pub prepare_offered :
    OrderEnv → ℕ → ℕ → StoredMode → ℕ → Decision → Option (ℕ × Text × ℕ) → Tx OrderStore Prepared
prepare_offered env account id mode operator d none =
    modify (reject_decision d.id no_executable_odd) >> pure (done none)
prepare_offered env account id mode operator d (some offer) = do
  found ← gets (λ s. find (λ (r : SimulationRun). r.id == d.simulation_run_id) s.runs)
  run ← or_throw found other
  let key = order_idempotency_key env mode operator run.strategy_version d
  used ← gets (λ s. exists_where (λ o. o.idempotency_key == key) s.orders)
  prepare_keyed used (new_order id account mode operator key d offer) offer.2

abbrev pub is_eligible : DecisionStatus → Bool
is_eligible DecisionStatus.eligible = true
is_eligible _ = false

abbrev pub prepare_eligible :
    Bool → OrderEnv → ℕ → ℕ → StoredMode → ℕ → Decision → Tx OrderStore Prepared
prepare_eligible false env account id mode operator d = pure (done none)
prepare_eligible true env account id mode operator d =
    prepare_offered env account id mode operator d (offer_of d)

abbrev pub prepare_new : OrderEnv → ℕ → ℕ → ℕ → Option Order → Tx OrderStore Prepared
prepare_new env decision_id account id (some o) = pure (done (some o))
prepare_new env decision_id account id none = do
  control ← on_switch (lock_for_execution env.engine.control)
  operator ← lift (port_for env control.mode)
  found ← gets (λ s. find_decision decision_id s.decisions)
  d ← or_throw found (http not_found)
  prepare_eligible (is_eligible d.status) env account id control.mode operator d

-- The transaction up to the reservation of the stake; `id` is the identifier of a new order.
unfoldable pub prepare : OrderEnv → ℕ → ℕ → ℕ → Tx OrderStore Prepared
unfolding insert_order
prepare env decision_id account id = do
  existing ← gets (λ s. find (λ o. o.decision_id == decision_id) s.orders)
  prepare_new env decision_id account id existing

abbrev pub decision_reserved : Decision → Decision
decision_reserved d = record d { status = DecisionStatus.order_reserved }

-- The transaction after the reservation of the stake.
abbrev pub conclude : Order → ReservationResult → Tx OrderStore (Option Order)
conclude o (rejected code limit) = do
  transition o.id 1 (order_rejected code)
  modify (reject_decision o.decision_id code)
  row ← lock_order o.id
  pure (some row)
conclude o (reserved entry replayed) = do
  modify (λ s. record s {
    decisions = update_where (λ d. d.id == o.decision_id) decision_reserved s.decisions;
  })
  row ← lock_order o.id
  pure (some row)

-- `reserveWithin` on the tables of the engine.
abbrev pub concluded_on :
    OrderStore
    → Order
    → Result (ReservationResult × Defs.Store)
    → Result (Option Order × OrderStore)
concluded_on s o (err e) = err e
concluded_on s o (ok (r, t)) = conclude o r (record s { engine = t })

abbrev pub reserve_prepared :
    OrderEnv
    → Result (Prepared × OrderStore)
    → Option AutoStopTrigger × Result (Option Order × OrderStore)
reserve_prepared env (err e) = (none, err e)
reserve_prepared env (ok (done o, s)) = (none, ok (o, s))
reserve_prepared env (ok (inserted o request, s)) =
    let (t, r) = reserve_within env.engine request s.engine in (t, concluded_on s o r)

-- The whole transaction, with the stop signalled last.
unfoldable pub reserve_tx :
    OrderEnv → ℕ → ℕ → ℕ → OrderStore → Option AutoStopTrigger × Result (Option Order × OrderStore)
unfolding prepare transition lock_order
reserve_tx env decision_id account id s =
    reserve_prepared env (prepare env decision_id account id s)

abbrev pub decision_refused : ℕ → RejectionCode → OrderStore → OrderStore
decision_refused id code s = record s {
  decisions =
      update_where (λ d. d.id == id && is_eligible d.status) (decision_rejected code) s.decisions;
}

abbrev pub refuse_if : ℕ → ReservationResult → OrderStore → OrderStore
refuse_if id (rejected code limit) s = decision_refused id code s
refuse_if id (reserved entry replayed) s = s

-- `applyStop`
abbrev pub stopped_if : OrderEnv → Option AutoStopTrigger → OrderStore → OrderStore
stopped_if env t s = record s { engine = apply_stop env.engine t s.engine }

abbrev pub reserve_outcome :
    OrderEnv
    → ℕ
    → OrderStore
    → Option AutoStopTrigger × Result (Option Order × OrderStore)
    → Option Order × OrderStore
reserve_outcome env decision_id s (stop, ok (o, s')) = (o, stopped_if env stop s')
reserve_outcome env decision_id s (stop, err e) =
    let (r, stop') = classify_reservation_error e stop in
    (none, stopped_if env stop' (refuse_if decision_id r s))

-- `reserve`
unfoldable pub reserve : OrderEnv → ℕ → ℕ → ℕ → OrderStore → Option Order × OrderStore
unfolding reserve_tx
reserve env decision_id account id s =
    reserve_outcome env decision_id s (reserve_tx env decision_id account id s)
