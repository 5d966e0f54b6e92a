-- ===== src/Reconciliation/Items.antt =====
-- What `getRun` shows of a run that was executed.
use api_score.Base.{
  ℕ, ◌≡◌, refl, sym, ◌∙◌, ap, ◌⊎◌, inl, inr, Bool, true, some, List, [], ◌∷◌, ◌++◌, leb, arith,
  Bool-cases, ◌==◌, ==_refl,
}
use api_score.Base.Rows.{select_where, count_where}
use api_score.Base.Tx.{Result, ok, err}
use api_score.Orders.Defs.{OrderStore}
use api_score.Reconciliation.Defs.{
  ItemDraft, is_critical, RunStatus, is_running, Run, Item, ReconciliationStore, OperatorPort,
  ReconciliationEnv,
}
use api_score.Reconciliation.Opening.{find_run}
use api_score.Reconciliation.Inspect.{Report, inspect}
use api_score.Reconciliation.Service.{
  items_of, run_concluded, execute, severity_rank, insert_by_severity, sort_by_severity, get_run,
}
use api_score.Reconciliation.Once.{run_after, run_concluded-found, execute_open}

abbrev pub is_critical_item : Item → Bool
is_critical_item i = is_critical i.draft

count-insert :
    (i : Item) (items : List Item)
    → count_where is_critical_item (insert_by_severity i items)
      ≡ count_where is_critical_item (i ∷ items)
count-insert i [] = refl
count-insert i (j ∷ js) =
    elim (Bool-cases (leb (severity_rank i.draft.severity) (severity_rank j.draft.severity))) [
      | inl t ↦ rw t refl
      | inr n ↦ rw n (ground (arith, count-insert i js))
    ]

count-sort :
    (items : List Item)
    → count_where is_critical_item (sort_by_severity items) ≡ count_where is_critical_item items
count-sort [] = refl
count-sort (i ∷ items) = count-insert i (sort_by_severity items) ∙ ground (arith, count-sort items)

abbrev pub of_run : ℕ → Item → Bool
of_run id i = i.run_id == id

select-items_of :
    (id : ℕ) (drafts : List ItemDraft) (rest : List Item)
    → select_where (of_run id) (items_of id drafts ++ rest)
      ≡ items_of id drafts ++ select_where (of_run id) rest
select-items_of id [] rest = refl
select-items_of id (d ∷ drafts) rest = rw (==_refl id, select-items_of id drafts rest) refl

count-items_of :
    (id : ℕ) (drafts : List ItemDraft)
    → count_where is_critical_item (items_of id drafts ++ []) ≡ count_where is_critical drafts
count-items_of id [] = refl
count-items_of id (d ∷ drafts) = ground (arith, count-items_of id drafts)

-- What is stored of a run: as many critical items as its row counts if it is COMPLETED, and none if
-- it is FAILED.
abbrev pub IsCounted : Run → List Item → Type 0
IsCounted r items =
    ((r.status ≡ RunStatus.completed) × (r.critical_count ≡ count_where is_critical_item items))
    ⊎ ((r.status ≡ RunStatus.failed) × (items ≡ []))

run_concluded-IsCounted :
    (env : ReconciliationEnv) (id : ℕ) (s : ReconciliationStore) (x : Result Report × OrderStore)
    (r : Run)
    → select_where (of_run id) s.items ≡ []
    → IsCounted
        (run_after env x r)
        (sort_by_severity (select_where (of_run id) (run_concluded env id x s).items))
run_concluded-IsCounted env id s (ok report, o) r fresh =
    let stored = select_where (of_run id) (items_of id report.drafts ++ s.items) in
    let all : stored ≡ items_of id report.drafts ++ [] =
      select-items_of id report.drafts s.items
      ∙ ap (λ rest. items_of id report.drafts ++ rest) fresh in
    inl (
      refl,
      sym (
          count-sort stored
          ∙ ap (count_where is_critical_item) all
          ∙ count-items_of id report.drafts),
    )
run_concluded-IsCounted env id s (err e, o) r fresh = inr (refl, ap sort_by_severity fresh)

-- A run that is open and has no items yet can be read once it is executed: its row is COMPLETED and
-- counts the critical ones among the items that are read with it, or it is FAILED and has no item.
pub get_run-execute :
    (env : ReconciliationEnv) (port : OperatorPort) (id now : ℕ) (s : ReconciliationStore) (r : Run)
    → find_run id s.runs ≡ some r
    → is_running r.status ≡ true
    → select_where (of_run id) s.items ≡ []
    → (r' : Run) × (items : List Item) × (get_run id (execute env port id now s).1 ≡ ok (r', items))
      × IsCounted r' items
unfolding get_run
get_run-execute env port id now s r e running fresh =
    let x = inspect env port now r s.orders in
    let t = run_concluded env id x s in
    (
      run_after env x r,
      sort_by_severity (select_where (of_run id) t.items),
      rw (execute_open env port id now s r e running, run_concluded-found env id s x r e running)
          refl,
      run_concluded-IsCounted env id s x r fresh,
    )
