-- ===== src/Reconciliation/Stops.antt =====
-- What stops execution: a critical item, or a run that fails.
use api_score.Base.{
  ℕ, ◌≡◌, ◌↔◌, refl, sym, ap, ◌⊎◌, inl, inr, Bool, true, false, none, some, List, [], ◌∷◌, arith,
  Bool-cases, Option-cases,
}
use mathlib.Core.Path.{subst}
use api_score.Base.Rows.{count_where}
use api_score.Base.Tx.{Result, ok, err}
use api_score.Domain.{AutoStopTrigger, reconciliation_late, automatic}
use api_score.Control.Switch.{IsStopped, stop-IsStopped}
use api_score.Control.Defs.{ControlStore, ControlSnapshot}
use api_score.Money.{Text}
use api_score.Control.Service.{Env, stop, auto_stop}
use api_score.Orders.Defs.{OrderStore, OrderEnv}
use api_score.Orders.Reserving.{stopped_if}
use api_score.Reconciliation.Defs.{
  ItemDraft, is_critical, RunStatus, is_running, Run, ReconciliationStore, OperatorPort,
  ReconciliationEnv,
}
use api_score.Reconciliation.Cause.{stop_trigger_for}
use api_score.Reconciliation.Opening.{find_run}
use api_score.Reconciliation.Inspect.{Report, inspect}
use api_score.Reconciliation.Service.{run_concluded, execute}
use api_score.Reconciliation.Once.{run_after, run_after-closed, run_concluded-found, execute_open}

-- There is a cause of a stop exactly when some item is critical.
pub stop_trigger_for_iff :
    (items : List ItemDraft) → (stop_trigger_for items ≡ none) ↔ (count_where is_critical items ≡ 0)
unfolding stop_trigger_for
stop_trigger_for_iff [] = (λ _. refl, λ _. refl)
stop_trigger_for_iff (d ∷ ds) = elim (Bool-cases (is_critical d)) [
  | inl t ↦ rw t (λ h. absurd (ground arith), λ h. absurd (omega (arith, h)))
  | inr n ↦ rw n (stop_trigger_for_iff ds)
]

auto_stop-stop :
    (env : Env) (text : Text) (new_id : ℕ) (s : ControlStore) {snapshot : ControlSnapshot}
    {c : ControlStore}
    → stop env text none automatic none new_id s ≡ ok (snapshot, c)
    → (auto_stop env false text new_id s).1 ≡ c
unfolding auto_stop
auto_stop-stop env text new_id s done =
    ap
      (λ (r : Result (ControlSnapshot × ControlStore)).
        (elim r as (λ _. Bool × ControlStore) [ ok p ↦ (true, p.1) | err _ ↦ (false, s) ]).1)
      done

-- An automatic stop whose transaction is committed leaves the control stopped.
pub stopped_if-IsStopped :
    (env : OrderEnv) (t : AutoStopTrigger) (s : OrderStore)
    → env.engine.stop_fails ≡ false
    → IsStopped (stopped_if env (some t) s).engine.control
stopped_if-IsStopped env t s works =
    let e = env.engine in
    let c = s.engine.control in
    let (snapshot, c', done, stopped, _, _, _) =
      stop-IsStopped e.control (e.stop_text t) none automatic none e.new_id c in
    let same : (auto_stop e.control e.stop_fails (e.stop_text t) e.new_id c).1 ≡ c' =
      rw works (auto_stop-stop e.control (e.stop_text t) e.new_id c done) in
    subst IsStopped (sym same) stopped

-- A run ends with a report that has no critical item, or with a stopped control.
abbrev pub EndsSafely : Run → ReconciliationStore → Type 0
EndsSafely r t =
    ((r.status ≡ RunStatus.completed) × (r.critical_count ≡ 0)) ⊎ IsStopped t.orders.engine.control

run_concluded-EndsSafely :
    (env : ReconciliationEnv) (id : ℕ) (s : ReconciliationStore) (x : Result Report × OrderStore)
    (r : Run)
    → env.pipeline.engine.stop_fails ≡ false
    → EndsSafely (run_after env x r) (run_concluded env id x s)
run_concluded-EndsSafely env id s (err e, o) r works =
    inr (stopped_if-IsStopped env.pipeline reconciliation_late o works)
run_concluded-EndsSafely env id s (ok report, o) r works =
    elim (Option-cases (stop_trigger_for report.drafts)) [
      | inl clean ↦ inl (refl, (stop_trigger_for_iff report.drafts).0 clean)
      | inr (t, e) ↦ inr (rw e (stopped_if-IsStopped env.pipeline t o works))
    ]

-- Executing a run that is open ends it: the row that is answered is the one in the table, it is no
-- longer RUNNING, and either it is COMPLETED without a critical item or the control is stopped, if
-- the transaction of an automatic stop is committed.
pub execute-EndsSafely :
    (env : ReconciliationEnv) (port : OperatorPort) (id now : ℕ) (s : ReconciliationStore) (r : Run)
    → env.pipeline.engine.stop_fails ≡ false
    → find_run id s.runs ≡ some r
    → is_running r.status ≡ true
    → (r' : Run) × (t : ReconciliationStore) × (execute env port id now s ≡ (ok r', t))
      × (find_run id t.runs ≡ some r')
      × (is_running r'.status ≡ false)
      × EndsSafely r' t
execute-EndsSafely env port id now s r works e running =
    let x = inspect env port now r s.orders in
    (
      run_after env x r,
      run_concluded env id x s,
      execute_open env port id now s r e running,
      run_concluded-found env id s x r e running,
      run_after-closed env x r,
      run_concluded-EndsSafely env id s x r works,
    )
