-- ===== src/Orders/Following.antt =====
-- What follows a submission: the settlement that an operator declares, and the way out of UNKNOWN.
use api_score.Base.{[], ◌∷◌, ◌==◌, ℕ, Bool, true, false, ◌&&◌, Option, none, some, if◌then◌else◌}
use api_score.Base.Int.{ℤ, pos, leb_ℤ, sub_ℕ}
use api_score.Base.Tx.{Result, ok, err, other}
use api_score.Money.{Text}
use api_score.Domain.{
  OrderStatus, operator_unavailable, unknown_order_too_old, unknown_grace_ms, unknown_max_age_ms,
}
use api_score.Ledger.Defs.{Entry, settle_key}
use api_score.Operator.{OperatorOrder, OperatorOrderStatus, is_amount_text, text_test}
use api_score.Engine.Service.{settle_stake}
use api_score.Orders.Defs.{Order, OrderEnv, status_eq, settlement_outcome}
use api_score.Base.Rows.{exists_where}
use api_score.Ledger.Checks.{verify_invariant}
use api_score.Orders.Abandoned.{cancel_abandoned_batch}
use api_score.Orders.Steps.{close, on_books}
use api_score.Orders.Reserving.{stopped_if}
use api_score.Orders.Service.{
  Call, ◌>>=◌, ◌>>◌, pure, lift, transact, effect, read_order, cancel_unknown, apply_acceptance,
}

abbrev pub is_over : OperatorOrderStatus → Bool
is_over OperatorOrderStatus.settled = true
is_over OperatorOrderStatus.voided = true
is_over _ = false

-- The operator declares the order over, with an amount that can be read.
abbrev pub declared_payout : OperatorOrder → Option Text
declared_payout op =
    if is_over op.status && text_test is_amount_text op.payout then op.payout else none

abbrev pub or_now : Option ℕ → ℕ → ℕ
or_now none now = now
or_now (some t) now = t

-- `settleStake` of the engine, as a method.
abbrev pub settle_books : OrderEnv → Order → Text → Text → Call Entry
settle_books env o stake payout s =
    let (r, t) =
      settle_stake env.engine o.account_id (settle_key o.idempotency_key) stake payout (some o.id)
        s.engine in
    (r, record s { engine = t })

abbrev pub known_stake : Option Text → Result Text
known_stake none = err other
known_stake (some t) = ok t

abbrev pub settle_declared : OrderEnv → Order → Option ℕ → Text → Call Order
settle_declared env o at payout = do
  stake ← lift (known_stake o.accepted_stake)
  settle_books env o stake payout
  settled ← lift (settlement_outcome stake payout)
  transact (close o.id settled.0 settled.1 payout (or_now at env.engine.now))
  read_order o.id

abbrev pub settle_if : Bool → OrderEnv → Order → Option ℕ → Option Text → Call Order
settle_if true env o at (some payout) = settle_declared env o at payout
settle_if _ env o at _ = pure o

-- `settleFromOperator`
unfoldable pub settle_from_operator : OrderEnv → ℕ → OperatorOrder → Call Order
unfolding settlement_outcome close is_amount_text
settle_from_operator env id op = read_order id >>= λ o.
    settle_if (status_eq o.status OrderStatus.accepted) env o op.settled_at (declared_payout op)

pub data UnknownResolution : Type 0 where
  accepted settled rejected declared_not_placed pending too_old reconciliation_required :
      UnknownResolution

-- The acceptance is entered or disputed, which gave `row`.
abbrev pub resolve_entered :
    OrderEnv → Order → OperatorOrder → OperatorOrderStatus → Order → Call UnknownResolution
resolve_entered env o op status row =
    if status_eq row.status OrderStatus.reconciliation_required
    then pure reconciliation_required
    else if is_over status
    then (settle_from_operator env o.id op >> pure settled)
    else pure accepted

-- The order was found at the operator.
abbrev pub resolve_found :
    OrderEnv → Order → OperatorOrder → OperatorOrderStatus → Call UnknownResolution
resolve_found env o op OperatorOrderStatus.rejected =
    cancel_unknown o.id operator_unavailable >> pure rejected
resolve_found env o op status =
    apply_acceptance env o.id op.acceptance >>= λ row. resolve_entered env o op status row

-- The operator does not know the order.
abbrev pub resolve_missing : OrderEnv → Order → ℤ → Call UnknownResolution
resolve_missing env o age =
    if leb_ℤ (pos unknown_max_age_ms) age
    then (effect (stopped_if env (some unknown_order_too_old)) >> pure too_old)
    else if leb_ℤ (pos unknown_grace_ms) age
    then (cancel_unknown o.id operator_unavailable >> pure declared_not_placed)
    else pure pending

abbrev pub resolve_looked_up : OrderEnv → Order → ℤ → Option OperatorOrder → Call UnknownResolution
resolve_looked_up env o age none = resolve_missing env o age
resolve_looked_up env o age (some op) = resolve_found env o op op.status

abbrev pub resolve_if : Bool → OrderEnv → Order → ℤ → Option OperatorOrder → Call UnknownResolution
resolve_if false env o age found = pure pending
resolve_if true env o age found = resolve_looked_up env o age found

-- `resolveUnknown`, of the order as its caller read it; `updated_at` is that column of the row.
unfoldable pub resolve_unknown :
    OrderEnv → Order → ℕ → Option OperatorOrder → ℕ → Call UnknownResolution
unfolding settle_from_operator apply_acceptance
resolve_unknown env o updated_at found now =
    resolve_if (status_eq o.status OrderStatus.unknown) env o
      (sub_ℕ now (or_now o.unknown_since updated_at)) found

-- `cancelAbandoned`
unfoldable pub cancel_abandoned : ℕ → Call Bool
unfolding cancel_abandoned_batch
cancel_abandoned id =
    transact (cancel_abandoned_batch (id ∷ [])) >>= λ ids. pure (exists_where (λ j. j == id) ids)

-- `ledgerInvariantOk`
unfoldable pub ledger_invariant_ok : ℕ → Call Bool
unfolding verify_invariant
ledger_invariant_ok account_id =
    transact (on_books (verify_invariant account_id)) >>= λ report. pure report.is_ok
