-- ===== src/Reconciliation/Steps.antt =====
-- A run as a client of the pipeline: what it does to the tables are transactions of the pipeline.
use api_score.Base.{ℕ, ◌≡◌, sym, arith, inl, inr, some, List, ◌++◌, Bool-cases, Option-cases}
use api_score.Base.Rows.{length, select_where, count_where}
use api_score.Base.Tx.{Result, ok, err, Result-cases, run_ok, run_err}
use api_score.Ledger.Checks.{InvariantReport, verify_invariant}
use api_score.Ledger.Defs
use api_score.Ledger.Defs.{Account}
use api_score.Reconciliation.Cause.{stop_trigger_for}
use api_score.Domain.{reconciliation_late}
use mathlib.Core.Path.{subst}
use api_score.Orders.Defs.{Order, OrderStore}
use api_score.Orders.Steps.{on_books, recover_stale_submissions}
use api_score.Orders.Following.{ledger_invariant_ok}
use api_score.Orders.Reserving.{port_for}
use api_score.Orders.Service.{Call, ◌>>=◌, pure, lift, transact, effect}
use api_score.Orders.Reachable.{Step, Reach, here, one, Reach-trans}
use api_score.Orders.Methods.{Runs, >>=-Runs, chain-Reach}
use api_score.Reconciliation.Defs.{
  ItemDraft, is_running, Run, OperatorOrderLookup, ReconciliationStore, OperatorPort,
  ReconciliationEnv,
}
use api_score.Reconciliation.Lookup.{lookup_operator_orders, keys_of, failed_drafts}
use api_score.Reconciliation.Balance.{balance_items}
use api_score.Reconciliation.Repair.{
  is_stale_reservation, cancel_abandoned_reservations, concerned, Resolved, resolve_rows,
}
use api_score.Reconciliation.Inspect.{
  read_account, reads, gather_account, Report, compared_fresh, gather, look_up_and_gather,
  report_of, inspect_rows, inspect_account, is_ambiguous, fresh_rows, inspect,
}
use api_score.Reconciliation.Opening.{find_run}
use api_score.Reconciliation.Service.{run_concluded, execute}
use api_score.Reconciliation.Repairs.{give_up_stale-Runs, resolve_rows-Runs}

verify_invariant-kept :
    (id : ℕ) (l l' : Defs.Store) {rep : InvariantReport}
    → verify_invariant id l ≡ ok (rep, l')
    → l' ≡ l
unfolding verify_invariant
verify_invariant-kept id l l' h = ground arith

on_books-kept :
    (id : ℕ) (s s' : OrderStore) {rep : InvariantReport}
    → on_books (verify_invariant id) s ≡ ok (rep, s')
    → s' ≡ s
on_books-kept id s s' h = elim (Result-cases (verify_invariant id s.engine.ledger)) [
  | inl ((rep, l), e) ↦ let same = verify_invariant-kept id s.engine.ledger l e in ground arith
  | inr (f, e) ↦ absurd (ground arith)
]

ledger_invariant_ok-Runs : (id : ℕ) → Runs (ledger_invariant_ok id)
unfolding ledger_invariant_ok
ledger_invariant_ok-Runs id =
    >>=-Runs (transact (on_books (verify_invariant id))) (λ report. pure report.is_ok)
      (λ s. elim (Result-cases (on_books (verify_invariant id) s)) [
        | inl ((rep, t), e) ↦
            subst (λ (p : Result InvariantReport × OrderStore). Reach s p.1)
              (sym (run_ok (on_books (verify_invariant id)) s e))
              (subst (Reach s) (sym (on_books-kept id s t e)) here)
        | inr (f, e) ↦
            subst (λ (p : Result InvariantReport × OrderStore). Reach s p.1)
              (sym (run_err (on_books (verify_invariant id)) s e)) here
      ])
      (λ report s. here)

module _ (env : ReconciliationEnv) (now : ℕ) where
  module _ (port : OperatorPort) where
    gather_account-Runs :
        (id : ℕ) (lookups : List OperatorOrderLookup) (rows : List Order) (before : List ItemDraft)
        (resolved : Resolved) (s : OrderStore) (account : Account)
        → Runs (gather_account env port now id lookups rows before resolved s account)
    gather_account-Runs id lookups rows before resolved s account =
        let ambiguous = count_where is_ambiguous (fresh_rows rows s) in
        let items =
          before
          ++ resolved.0
          ++ compared_fresh env port now id lookups rows s
          ++ balance_items env.message port account ambiguous in
        >>=-Runs (ledger_invariant_ok account.id)
          (λ sound. pure (report_of items (length rows) resolved.1 sound))
          (ledger_invariant_ok-Runs account.id) (λ sound s. here)

    gather-Runs :
        (id : ℕ) (lookups : List OperatorOrderLookup) (rows : List Order) (before : List ItemDraft)
        (resolved : Resolved)
        → Runs (gather env port now id lookups rows before resolved)
    gather-Runs id lookups rows before resolved s =
        chain-Reach (read_account id)
          (gather_account env port now id lookups rows before resolved s) s here
          (λ account _. gather_account-Runs id lookups rows before resolved s account s)

    look_up-Runs :
        (id : ℕ) (rows : List Order) (before : List ItemDraft)
        → Runs (look_up_and_gather env port now id rows before)
    look_up-Runs id rows before =
        let lookups = lookup_operator_orders port (keys_of rows) in
        >>=-Runs (resolve_rows env now lookups rows)
          (λ resolved.
            gather env port now id lookups rows (before ++ failed_drafts lookups rows) resolved)
          (resolve_rows-Runs env now lookups rows)
          (gather-Runs id lookups rows (before ++ failed_drafts lookups rows))

    inspect_rows-Runs :
        (id : ℕ) (run : Run) (given_up : List ItemDraft)
        → Runs (inspect_rows env port now id run given_up)
    inspect_rows-Runs id run given_up =
        >>=-Runs (reads (concerned env run))
          (λ rows. look_up_and_gather env port now id rows given_up) (λ s. here)
          (λ rows. look_up-Runs id rows given_up)

    cancel_abandoned-Runs : (id : ℕ) → Runs (cancel_abandoned_reservations env now id)
    unfolding cancel_abandoned_reservations
    cancel_abandoned-Runs id s =
        give_up_stale-Runs (select_where (is_stale_reservation env now id) s.orders) s

    inspect_account-Runs :
        (run : Run) (account : Account) → Runs (inspect_account env port now run account)
    inspect_account-Runs run account =
        let rest : Call Report =
          cancel_abandoned_reservations env now account.id
          >>= inspect_rows env port now account.id run in
        let recover : OrderStore → OrderStore = λ s. (recover_stale_submissions now s).1 in
        >>=-Runs (lift (port_for env.pipeline account.mode)) (λ _. effect recover >>= λ _. rest)
          (λ s. here)
          (λ _.
            >>=-Runs (effect recover) (λ _. rest) (λ s. one (Step.recovers now s))
              (λ _.
                >>=-Runs (cancel_abandoned_reservations env now account.id)
                  (inspect_rows env port now account.id run) (cancel_abandoned-Runs account.id)
                  (inspect_rows-Runs account.id run)))

    -- A run, from the reading of the account to the commit, is a sequence of transactions.
    inspect-Runs : (run : Run) → Runs (inspect env port now run)
    unfolding inspect
    inspect-Runs run =
        >>=-Runs (read_account run.account_id) (inspect_account env port now run) (λ s. here)
          (inspect_account-Runs run)

stopped-Reach :
    (env : ReconciliationEnv) (id : ℕ) (s : ReconciliationStore) (x : Result Report × OrderStore)
    → Reach x.1 (run_concluded env id x s).orders
stopped-Reach env id s (ok report, o) =
    one (Step.stops env.pipeline (stop_trigger_for report.drafts) o)
stopped-Reach env id s (err e, o) = one (Step.stops env.pipeline (some reconciliation_late) o)

run_concluded-Reach :
    (env : ReconciliationEnv) (port : OperatorPort) (id now : ℕ) (s : ReconciliationStore) (r : Run)
    → Reach s.orders (run_concluded env id (inspect env port now r s.orders) s).orders
run_concluded-Reach env port id now s r =
    Reach-trans (inspect-Runs env now port r s.orders)
      (stopped-Reach env id s (inspect env port now r s.orders))

-- Executing a run, whatever the operator answers, does to the orders, the books and the control only
-- what transactions and calls of the pipeline do, one after the other.
pub execute-Reach :
    (env : ReconciliationEnv) (port : OperatorPort) (id now : ℕ) (s : ReconciliationStore)
    → Reach s.orders (execute env port id now s).1.orders
unfolding execute
execute-Reach env port id now s = elim (Option-cases (find_run id s.runs)) [
  | inl e ↦ rw e here
  | inr (r, e) ↦ elim (Bool-cases (is_running r.status)) [
    | inl running ↦ rw (e, running) (run_concluded-Reach env port id now s r)
    | inr closed ↦ rw (e, closed) here
  ]
]
