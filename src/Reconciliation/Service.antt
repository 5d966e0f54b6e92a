-- ===== src/Reconciliation/Service.antt =====
-- `execute` and `getRun` of `ReconciliationService`: a run is executed once.
use api_score.Base.{
  ℕ, suc, Bool, ◌&&◌, Option, none, some, List, [], ◌∷◌, ◌++◌, map, leb, ◌==◌, if◌then◌else◌,
}
use api_score.Base.Rows.{select_where, count_where, update_where}
use api_score.Base.Tx.{Result, ok, err, http, HttpError, other}
use api_score.Money.{Text}
use api_score.Domain.{reconciliation_late}
use api_score.Orders.Defs.{OrderStore}
use api_score.Orders.Reserving.{stopped_if}
use api_score.Orders.Following.{UnknownResolution}
use api_score.Reconciliation.Defs.{
  ItemResult, Severity, ItemDraft, is_critical, RunStatus, is_running, Summary, Run, Item,
  ReconciliationStore, OperatorPort, ReconciliationEnv,
}
use api_score.Reconciliation.Cause.{stop_trigger_for}
use api_score.Reconciliation.Opening.{find_run, run_or_throw}
use api_score.Reconciliation.Inspect.{Report, inspect}

-- `(acc[key] ?? 0) + 1`
abbrev pub bump : {A : Type 0} → (A → ℕ) → A → List (A × ℕ) → List (A × ℕ)
bump index a [] = (a, 1) ∷ []
bump index a ((b, n) ∷ counts) =
    if index b == index a then (b, suc n) ∷ counts else (b, n) ∷ bump index a counts

abbrev pub tally : {A : Type 0} → (A → ℕ) → List (A × ℕ) → List A → List (A × ℕ)
tally index counts [] = counts
tally index counts (a ∷ rest) = tally index (bump index a counts) rest

abbrev pub result_index : ItemResult → ℕ
result_index ItemResult.matches = 0
result_index ItemResult.resolved = 1
result_index ItemResult.mismatch = 2
result_index ItemResult.missing_at_operator = 3
result_index ItemResult.missing_locally = 4
result_index ItemResult.pending = 5

abbrev pub resolution_index : UnknownResolution → ℕ
resolution_index UnknownResolution.accepted = 0
resolution_index UnknownResolution.settled = 1
resolution_index UnknownResolution.rejected = 2
resolution_index UnknownResolution.declared_not_placed = 3
resolution_index UnknownResolution.pending = 4
resolution_index UnknownResolution.too_old = 5
resolution_index UnknownResolution.reconciliation_required = 6

abbrev pub summary_of : Report → Summary
summary_of report = record {
  orders = report.orders;
  resolutions = tally resolution_index [] report.resolutions;
  by_result = tally result_index [] (map (λ d. d.result) report.drafts);
  critical_count = count_where is_critical report.drafts;
}

-- `{ id: runId, status: 'RUNNING' }`
abbrev pub is_open_run : ℕ → Run → Bool
is_open_run id r = r.id == id && is_running r.status

abbrev pub run_completed : Report → ℕ → Run → Run
run_completed report now r = record r {
  status = RunStatus.completed;
  critical_count = count_where is_critical report.drafts;
  summary = some (summary_of report);
  completed_at = some now;
}

abbrev pub run_failed : Text → ℕ → Run → Run
run_failed message now r = record r {
  status = RunStatus.failed;
  error = some message;
  completed_at = some now;
}

abbrev pub items_of : ℕ → List ItemDraft → List Item
items_of id drafts = map (λ d. record { run_id = id; draft = d }) drafts

-- The end of `execute`, after what was found or after an error.
abbrev pub run_concluded :
    ReconciliationEnv → ℕ → Result Report × OrderStore → ReconciliationStore → ReconciliationStore
run_concluded env id (ok report, o) s = record {
  orders = stopped_if env.pipeline (stop_trigger_for report.drafts) o;
  runs = update_where (is_open_run id) (run_completed report env.pipeline.engine.now) s.runs;
  items = items_of id report.drafts ++ s.items;
}
run_concluded env id (err e, o) s = record {
  orders = stopped_if env.pipeline (some reconciliation_late) o;
  runs = update_where (is_open_run id) (run_failed (env.message e) env.pipeline.engine.now) s.runs;
  items = s.items;
}

abbrev pub execute_found :
    ReconciliationEnv
    → OperatorPort
    → ℕ
    → ℕ
    → Option Run
    → ReconciliationStore
    → Result Run × ReconciliationStore
execute_found env port id now none s = (err other, s)
execute_found env port id now (some r) s =
    if is_running r.status
    then (let t = run_concluded env id (inspect env port now r s.orders) s in
        (run_or_throw (find_run id t.runs) other, t))
    else (ok r, s)

-- `execute`
unfoldable pub execute :
    ReconciliationEnv
    → OperatorPort
    → ℕ
    → ℕ
    → ReconciliationStore
    → Result Run × ReconciliationStore
unfolding inspect stop_trigger_for
execute env port id now s = execute_found env port id now (find_run id s.runs) s

-- A varchar is sorted by its letters: CRITICAL, INFO, WARNING.
abbrev pub severity_rank : Severity → ℕ
severity_rank Severity.critical = 0
severity_rank Severity.info = 1
severity_rank Severity.warning = 2

abbrev pub insert_by_severity : Item → List Item → List Item
insert_by_severity i [] = i ∷ []
insert_by_severity i (j ∷ js) =
    if leb (severity_rank i.draft.severity) (severity_rank j.draft.severity)
    then i ∷ j ∷ js
    else j ∷ insert_by_severity i js

abbrev pub sort_by_severity : List Item → List Item
sort_by_severity [] = []
sort_by_severity (i ∷ items) = insert_by_severity i (sort_by_severity items)

abbrev pub with_items : ℕ → Option Run → List Item → Result (Run × List Item)
with_items id none items = err (http HttpError.not_found)
with_items id (some r) items = ok (r, sort_by_severity (select_where (λ i. i.run_id == id) items))

-- `getRun`
unfoldable pub get_run : ℕ → ReconciliationStore → Result (Run × List Item)
get_run id s = with_items id (find_run id s.runs) s.items
