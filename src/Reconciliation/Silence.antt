-- ===== src/Reconciliation/Silence.antt =====
-- An operator that does not answer about an order which it may have: execution is stopped.
use api_score.Base.{
  ℕ, ◌≡◌, refl, ◌∙◌, inl, inr, true, false, some, List, [], ◌∷◌, ◌++◌, arith, Option-cases, ◌≢◌,
}
use mathlib.Core.Path.{subst}
use api_score.Base.Rows.{exists_where, select_where, length, count_where}
use api_score.Base.Tx.{Result, ok, err}
use api_score.Money.{Text}
use api_score.Ledger.Defs.{Account}
use api_score.Orders.Defs.{Order, OrderStore, find_order, is_among}
use api_score.Orders.Steps.{recover_stale_submissions}
use api_score.Orders.Reserving.{port_for}
use api_score.Orders.Following.{ledger_invariant_ok}
use api_score.Orders.Service.{◌>>=◌, pure, lift, effect}
use api_score.Control.Switch.{IsStopped}
use api_score.Reconciliation.Defs.{
  Answer, ItemDraft, is_running, is_critical, Run, OperatorOrderLookup, ReconciliationStore,
  OperatorPort, ReconciliationEnv,
}
use api_score.Reconciliation.Lookup.{
  returned, lookup_operator_orders, keys_of, is_looked_up, failed_drafts,
}
use api_score.Reconciliation.Balance.{balance_items}
use api_score.Reconciliation.Repair.{
  cancel_abandoned_reservations, is_concerned, concerned, Resolved, resolve_rows,
}
use api_score.Reconciliation.Inspect.{
  read_account, Report, report_of, invariant_items, is_ambiguous, fresh_rows, compared_fresh,
  gather_account, gather, look_up_and_gather, inspect_rows, inspect_account, inspect,
}
use api_score.Reconciliation.Critical.{has_critical, has_critical_append}
use api_score.Reconciliation.Lookups.{Unanswered, thrown-silent}
use api_score.Reconciliation.Once.{execute_open}
use api_score.Reconciliation.Stops.{stop_trigger_for_iff, stopped_if-IsStopped}
use api_score.Reconciliation.Service.{run_concluded, execute}
use api_score.Reconciliation.Cause.{stop_trigger_for}
use api_score.Reconciliation.Opening.{find_run}
use api_score.Domain.{OrderStatus, reconciliation_late}
use api_score.Reconciliation.Kept.{
  bind-eq_ok, standing, recover-kept, cancel-kept, found-selected, sort-picked,
  failed_drafts-critical,
}

eq_of_ok : {A : Type 0} {a b : A} → ok a ≡ ok b → a ≡ b
eq_of_ok h = cc

first_critical : (xs ys : List ItemDraft) → has_critical xs ≡ true → has_critical (xs ++ ys) ≡ true
first_critical xs ys h = has_critical_append xs ys ∙ rw h refl

module _ (env : ReconciliationEnv) (port : OperatorPort) (now : ℕ) where
  gather-critical :
      (id : ℕ) (lookups : List OperatorOrderLookup) (rows : List Order) (before : List ItemDraft)
      (resolved : Resolved) (s : OrderStore) {report : Report}
      → has_critical before ≡ true
      → (gather env port now id lookups rows before resolved s).0 ≡ ok report
      → has_critical report.drafts ≡ true
  gather-critical id lookups rows before resolved s {report} c h =
      let (account, _, k) =
        bind-eq_ok (read_account id) (gather_account env port now id lookups rows before resolved s)
          s h in
      let ambiguous = count_where is_ambiguous (fresh_rows rows s) in
      let fresh = compared_fresh env port now id lookups rows s in
      let balance = balance_items env.message port account ambiguous in
      let items = before ++ resolved.0 ++ fresh ++ balance in
      let (sound, _, q) =
        bind-eq_ok (ledger_invariant_ok account.id)
          (λ sound. pure (report_of items (length rows) resolved.1 sound)) s k in
      let found : has_critical (items ++ invariant_items sound) ≡ true =
        first_critical items (invariant_items sound) (
          first_critical (before ++ resolved.0 ++ fresh) balance
            (first_critical (before ++ resolved.0) fresh (first_critical before resolved.0 c))) in
      subst (λ (r : Report). has_critical r.drafts ≡ true) (eq_of_ok q) found

  module _
      (silent : (keys : List ℕ) (key : ℕ)
        → Unanswered (returned key (lookup_operator_orders port keys))) where
    look_up-critical :
        (id : ℕ) (rows : List Order) (before : List ItemDraft) (s : OrderStore) {report : Report}
        → exists_where is_looked_up rows ≡ true
        → (look_up_and_gather env port now id rows before s).0 ≡ ok report
        → has_critical report.drafts ≡ true
    look_up-critical id rows before s c h =
        let lookups = lookup_operator_orders port (keys_of rows) in
        let (resolved, _, k) =
          bind-eq_ok (resolve_rows env now lookups rows)
            (λ resolved.
              gather env port now id lookups rows (before ++ failed_drafts lookups rows) resolved)
            s h in
        let failed = failed_drafts-critical lookups (silent (keys_of rows)) rows ∙ c in
        gather-critical id lookups rows (before ++ failed_drafts lookups rows) resolved _
          (has_critical_append before (failed_drafts lookups rows) ∙ ground arith) k

    module _ (run : Run) (o : Order) (id : ℕ) (held : is_among o.status standing ≡ true)
        (own : o.account_id ≡ run.account_id) where
      rows-critical :
          (account_id : ℕ) (given_up : List ItemDraft) (s : OrderStore) {report : Report}
          → find_order id s.orders ≡ some o
          → (inspect_rows env port now account_id run given_up s).0 ≡ ok report
          → has_critical report.drafts ≡ true
      rows-critical account_id given_up s found h =
          let picked : is_concerned env run o ≡ true = ground arith in
          let looked : is_looked_up o ≡ true = ground arith in
          look_up-critical account_id (concerned env run s) given_up s
            (sort-picked is_looked_up env (select_where (is_concerned env run) s.orders)
              ∙ found-selected is_looked_up (is_concerned env run) id s.orders found picked looked)
            h

      account-critical :
          (account : Account) (s : OrderStore) {report : Report}
          → find_order id s.orders ≡ some o
          → (inspect_account env port now run account s).0 ≡ ok report
          → has_critical report.drafts ≡ true
      account-critical account s found h =
          let recover : OrderStore → OrderStore = λ s. (recover_stale_submissions now s).1 in
          let rows = inspect_rows env port now account.id run in
          let cancel = cancel_abandoned_reservations env now account.id in
          let (_, _, k) =
            bind-eq_ok (lift (port_for env.pipeline account.mode))
              (λ _. effect recover >>= λ _. cancel >>= rows) s h in
          let (_, _, l) = bind-eq_ok (effect recover) (λ _. cancel >>= rows) s k in
          let (given_up, _, m) = bind-eq_ok cancel rows (recover s) l in
          rows-critical account.id given_up (cancel (recover s)).1
            (cancel-kept id o held env now account.id (recover s)
              (recover-kept id o held now s found))
            m

      inspect-critical :
          (s : OrderStore) {report : Report}
          → find_order id s.orders ≡ some o
          → (inspect env port now run s).0 ≡ ok report
          → has_critical report.drafts ≡ true
      unfolding inspect
      inspect-critical s found h =
          let (account, _, k) =
            bind-eq_ok (read_account run.account_id) (inspect_account env port now run) s h in
          account-critical account s found k

critical_counted :
    (drafts : List ItemDraft) → has_critical drafts ≡ true → count_where is_critical drafts ≢ 0
critical_counted [] h = cc
critical_counted (d ∷ ds) h = ground (arith, critical_counted ds)

critical-IsStopped :
    (env : ReconciliationEnv) (id : ℕ) (s : ReconciliationStore) (x : Result Report × OrderStore)
    → env.pipeline.engine.stop_fails ≡ false
    → ((report : Report) → x.0 ≡ ok report → has_critical report.drafts ≡ true)
    → IsStopped (run_concluded env id x s).orders.engine.control
critical-IsStopped env id s (err e, o) works h =
    stopped_if-IsStopped env.pipeline reconciliation_late o works
critical-IsStopped env id s (ok report, o) works h =
    elim (Option-cases (stop_trigger_for report.drafts)) [
      | inl clean ↦ absurd (
          critical_counted report.drafts (h report refl)
            ((stop_trigger_for_iff report.drafts).0 clean))
      | inr (t, e) ↦ rw e (stopped_if-IsStopped env.pipeline t o works)
    ]

-- While the operator's lookup throws, executing an open run of an account that has an order which the
-- operator may have (in doubt, accepted or in dispute) leaves the control stopped, if the transaction
-- of an automatic stop is committed.
pub execute_thrown-IsStopped :
    (env : ReconciliationEnv) (port : OperatorPort) (id now : ℕ) (s : ReconciliationStore) (r : Run)
    (order_id : ℕ) (o : Order) (message : Text)
    → env.pipeline.engine.stop_fails ≡ false
    → ((keys : List ℕ) → port.orders_by_key keys ≡ Answer.thrown message)
    → find_run id s.runs ≡ some r
    → is_running r.status ≡ true
    → find_order order_id s.orders.orders ≡ some o
    → o.account_id ≡ r.account_id
    → is_among o.status
        (OrderStatus.unknown ∷ OrderStatus.accepted ∷ OrderStatus.reconciliation_required ∷ [])
      ≡ true
    → IsStopped (execute env port id now s).1.orders.engine.control
execute_thrown-IsStopped env port id now s r order_id o message works throws e running there own
      held =
    rw (execute_open env port id now s r e running) (
      critical-IsStopped env id s (inspect env port now r s.orders) works (λ report.
        inspect-critical env port now (λ keys key. thrown-silent port message keys key throws) r o
          order_id held own s.orders there))
