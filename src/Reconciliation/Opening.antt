-- ===== src/Reconciliation/Opening.antt =====
-- `open` and `openBatch` of `ReconciliationService`: one run for one key.
use api_score.Base.{
  ℕ, Bool, true, false, not, ◌||◌, Option, none, some, List, [], ◌∷◌, map, ◌==◌, if◌then◌else◌,
}
use api_score.Base.Rows.{find, select_where, exists_where}
use api_score.Base.Tx.{Result, ok, err, Failure, http, HttpError, other}
use api_score.Ledger.Defs.{Account}
use api_score.Ledger.Service.{find_account}
use api_score.Reconciliation.Defs.{RunStatus, Run, ReconciliationStore, ReconciliationEnv}

-- StartReconciliationInput
pub record StartReconciliationInput : Type 0 where
  pub account_id : ℕ
  pub from : ℕ
  pub to : ℕ
  pub idempotency_key : Option ℕ

abbrev pub key_or : Option ℕ → ℕ → ℕ
key_or none derived = derived
key_or (some key) derived = key

-- The key that is given, or the text of the account and the range.
abbrev pub run_key : ReconciliationEnv → StartReconciliationInput → ℕ
run_key env input =
    key_or input.idempotency_key (env.derived_key input.account_id input.from input.to)

abbrev pub new_run : ReconciliationEnv → StartReconciliationInput → Option ℕ → ℕ → Run
new_run env input user id = record {
  id = id;
  idempotency_key = run_key env input;
  account_id = input.account_id;
  range_from = input.from;
  range_to = input.to;
  status = RunStatus.running;
  critical_count = 0;
  summary = none;
  error = none;
  requested_by_user_id = user;
  completed_at = none;
}

-- The primary key and the unique index of `reconciliation_runs`.
abbrev pub run_clashes : Run → Run → Bool
run_clashes r q = q.id == r.id || q.idempotency_key == r.idempotency_key

-- `INSERT IGNORE`, with `affectedRows === 1`.
abbrev pub insert_or_ignore : Run → List Run → List Run × Bool
insert_or_ignore r runs =
    if exists_where (run_clashes r) runs then (runs, false) else (r ∷ runs, true)

abbrev pub find_run_by_key : ℕ → List Run → Option Run
find_run_by_key key = find (λ r. r.idempotency_key == key)

abbrev pub find_run : ℕ → List Run → Option Run
find_run id = find (λ r. r.id == id)

abbrev pub run_or_throw : Option Run → Failure → Result Run
run_or_throw none e = err e
run_or_throw (some r) e = ok r

abbrev pub with_created : Bool → Result Run → Result (Run × Bool)
with_created created (ok r) = ok (r, created)
with_created created (err e) = err e

abbrev pub run_opened : Run → ReconciliationStore → Result (Run × Bool) × ReconciliationStore
run_opened r s =
    let (runs, created) = insert_or_ignore r s.runs in
    (
      with_created created (run_or_throw (find_run_by_key r.idempotency_key runs) other),
      record s { runs = runs },
    )

abbrev pub open_for :
    Option Account → Run → ReconciliationStore → Result (Run × Bool) × ReconciliationStore
open_for none r s = (err (http HttpError.not_found), s)
open_for (some _) r s = run_opened r s

-- `open`: the run of the key, and whether this call created it under the identifier `id`.
unfoldable pub open_run :
    ReconciliationEnv
    → StartReconciliationInput
    → Option ℕ
    → ℕ
    → ReconciliationStore
    → Result (Run × Bool) × ReconciliationStore
open_run env input user id s =
    open_for (find_account input.account_id s.orders.engine.ledger.accounts)
      (new_run env input user id) s

abbrev pub insert_all : List Run → List Run → List Run
insert_all [] runs = runs
insert_all (r ∷ rs) runs = insert_all rs (insert_or_ignore r runs).0

abbrev pub has_run_key : List Run → Run → Bool
has_run_key rs r = exists_where (λ q. q.idempotency_key == r.idempotency_key) rs

abbrev pub has_account : List Account → StartReconciliationInput × ℕ → Bool
has_account accounts (input, _) = exists_where (λ a. a.id == input.account_id) accounts

abbrev pub opened_all :
    List Run → ReconciliationStore → Result (List Run × List ℕ) × ReconciliationStore
opened_all values s =
    let existing = select_where (has_run_key values) s.runs in
    let runs = insert_all values s.runs in
    let asked = select_where (has_run_key values) runs in
    (
      ok (asked, map (λ r. r.id) (select_where (λ r. not (has_run_key existing r)) asked)),
      record s { runs = runs },
    )

-- `openBatch`: every account must be there; each input comes with the identifier of a new row.
unfoldable pub open_batch :
    ReconciliationEnv
    → List (StartReconciliationInput × ℕ)
    → Option ℕ
    → ReconciliationStore
    → Result (List Run × List ℕ) × ReconciliationStore
open_batch env [] user s = (ok ([], []), s)
open_batch env (input ∷ inputs) user s =
    if exists_where (λ x. not (has_account s.orders.engine.ledger.accounts x)) (input ∷ inputs)
    then (err (http HttpError.not_found), s)
    else opened_all (map (λ x. new_run env x.0 user x.1) (input ∷ inputs)) s
