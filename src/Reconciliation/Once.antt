-- ===== src/Reconciliation/Once.antt =====
-- A run is executed at most once: what it ends in is final.
use api_score.Base.{
  ℕ, ◌≡◌, refl, ◌∙◌, inl, inr, true, false, Option, none, some, List, [], ◌∷◌, arith, Bool-cases,
  Option-cases, if◌then◌else◌,
}
use api_score.Base.Rows.{update_where}
use api_score.Base.Tx.{Result, ok, err, other}
use api_score.Orders.Defs.{OrderStore}
use api_score.Reconciliation.Defs.{
  is_running, Run, ReconciliationStore, OperatorPort, ReconciliationEnv,
}
use api_score.Reconciliation.Opening.{find_run}
use api_score.Reconciliation.Inspect.{Report, inspect}
use api_score.Reconciliation.Service.{
  is_open_run, run_completed, run_failed, run_concluded, execute,
}

-- An update of the run under its identifier, if it is still open.
abbrev ended : (Run → Run) → Option Run → Option Run
ended f none = none
ended f (some r) = if is_running r.status then some (f r) else some r

find_run-ended :
    (id : ℕ) (f : Run → Run) (runs : List Run)
    → ((r : Run) → (f r).id ≡ r.id)
    → find_run id (update_where (is_open_run id) f runs) ≡ ended f (find_run id runs)
find_run-ended id f [] ids = refl
find_run-ended id f (r ∷ runs) ids = ground (arith, ids r, find_run-ended id f runs ids)

-- The row of a run after its end.
abbrev pub run_after : ReconciliationEnv → Result Report × OrderStore → Run → Run
run_after env (ok report, o) r = run_completed report env.pipeline.engine.now r
run_after env (err e, o) r = run_failed (env.message e) env.pipeline.engine.now r

pub run_after-closed :
    (env : ReconciliationEnv) (x : Result Report × OrderStore) (r : Run)
    → is_running (run_after env x r).status ≡ false
run_after-closed env (ok report, o) r = refl
run_after-closed env (err e, o) r = refl

pub run_concluded-found :
    (env : ReconciliationEnv) (id : ℕ) (s : ReconciliationStore) (x : Result Report × OrderStore)
    (r : Run)
    → find_run id s.runs ≡ some r
    → is_running r.status ≡ true
    → find_run id (run_concluded env id x s).runs ≡ some (run_after env x r)
run_concluded-found env id s (ok report, o) r e running =
    find_run-ended id _ s.runs (λ _. refl) ∙ ground arith
run_concluded-found env id s (err f, o) r e running =
    find_run-ended id _ s.runs (λ _. refl) ∙ ground arith

module _ (env : ReconciliationEnv) (port : OperatorPort) (id now : ℕ)
    (s : ReconciliationStore) where
  execute_missing : find_run id s.runs ≡ none → execute env port id now s ≡ (err other, s)
  unfolding execute
  execute_missing e = rw e refl

  -- Executing a run that is not open changes nothing.
  execute_closed :
      (r : Run)
      → find_run id s.runs ≡ some r
      → is_running r.status ≡ false
      → execute env port id now s ≡ (ok r, s)
  unfolding execute
  execute_closed r e closed = rw (e, closed) refl

  pub execute_open :
      (r : Run)
      → find_run id s.runs ≡ some r
      → is_running r.status ≡ true
      → let x = inspect env port now r s.orders in
        execute env port id now s ≡ (ok (run_after env x r), run_concluded env id x s)
  unfolding execute
  execute_open r e running =
      rw (e, running, run_concluded-found env id s (inspect env port now r s.orders) r e running)
        refl

-- A run is executed at most once: a second call, with whatever operator and at whatever time,
-- answers what the first one answered and changes nothing.
pub execute-execute :
    (env env' : ReconciliationEnv) (port port' : OperatorPort) (id now now' : ℕ)
    (s : ReconciliationStore)
    → execute env' port' id now' (execute env port id now s).1 ≡ execute env port id now s
execute-execute env env' port port' id now now' s = elim (Option-cases (find_run id s.runs)) [
  | inl e ↦ rw (execute_missing env port id now s e) (execute_missing env' port' id now' s e)
  | inr (r, e) ↦ elim (Bool-cases (is_running r.status)) [
    | inl running ↦
        let x = inspect env port now r s.orders in
        rw (execute_open env port id now s r e running) (
          execute_closed env' port' id now' _ (run_after env x r)
            (run_concluded-found env id s x r e running) (run_after-closed env x r))
    | inr closed ↦
        rw (execute_closed env port id now s r e closed)
          (execute_closed env' port' id now' s r e closed)
  ]
]
