-- ===== src/Reconciliation/Opened.antt =====
-- One run for one key.
use api_score.Base.{
  ℕ, ◌≡◌, ◌≢◌, refl, sym, ◌∙◌, ap, inl, inr, Bool, true, false, Option, none, some, List, [], ◌∷◌,
  arith, Option-cases,
}
use mathlib.Core.Path.{subst}
use api_score.Base.Rows.{exists_where}
use api_score.Base.Tx.{Result, ok}
use api_score.Ledger.Defs.{Account}
use api_score.Ledger.Service.{find_account}
use api_score.Reconciliation.Defs.{Run, ReconciliationStore, ReconciliationEnv}
use api_score.Reconciliation.Opening.{
  StartReconciliationInput, run_key, new_run, run_clashes, insert_or_ignore, find_run_by_key,
  run_opened, open_run,
}

found-clashes :
    (key : ℕ) (runs : List Run) (q : Run) {r : Run}
    → q.idempotency_key ≡ key
    → find_run_by_key key runs ≡ some r
    → exists_where (run_clashes q) runs ≡ true
found-clashes key [] q k h = cc
found-clashes key (x ∷ runs) q {r} k h = ground (arith, found-clashes key runs q {r = r})

opened_again :
    (q : Run) (s : ReconciliationStore) {r : Run}
    → find_run_by_key q.idempotency_key s.runs ≡ some r
    → run_opened q s ≡ (ok (r, false), s)
opened_again q s found = rw (found-clashes q.idempotency_key s.runs q refl found, found) refl

run_opened-found :
    (q : Run) (s : ReconciliationStore) {r : Run} {c : Bool}
    → (run_opened q s).0 ≡ ok (r, c)
    → find_run_by_key q.idempotency_key (run_opened q s).1.runs ≡ some r
run_opened-found q s h =
    elim (Option-cases (find_run_by_key q.idempotency_key (insert_or_ignore q s.runs).0)) [
      | inl n ↦ absurd (ground arith)
      | inr (x, f) ↦ ground arith
    ]

open_run_found :
    (env : ReconciliationEnv) (input : StartReconciliationInput) (user : Option ℕ) (id : ℕ)
    (s : ReconciliationStore) {a : Account}
    → find_account input.account_id s.orders.engine.ledger.accounts ≡ some a
    → open_run env input user id s ≡ run_opened (new_run env input user id) s
unfolding open_run
open_run_found env input user id s f = rw f refl

open_run_missing :
    (env : ReconciliationEnv) (input : StartReconciliationInput) (user : Option ℕ) (id : ℕ)
    (s : ReconciliationStore) {x : Run × Bool}
    → find_account input.account_id s.orders.engine.ledger.accounts ≡ none
    → (open_run env input user id s).0 ≢ ok x
unfolding open_run
open_run_missing env input user id s n h = let k = rw n at h in cc

-- The run of a key is opened once: after a call that answered a run, any call with the same key,
-- for an account that is there, answers the same run as not created by it and changes nothing.
pub open_run-open_run :
    (env : ReconciliationEnv) (input input' : StartReconciliationInput) (user user' : Option ℕ)
    (id id' : ℕ) (s : ReconciliationStore) (r : Run) (c : Bool) (a : Account)
    → (open_run env input user id s).0 ≡ ok (r, c)
    → run_key env input' ≡ run_key env input
    → find_account input'.account_id s.orders.engine.ledger.accounts ≡ some a
    → open_run env input' user' id' (open_run env input user id s).1
      ≡ (ok (r, false), (open_run env input user id s).1)
open_run-open_run env input input' user user' id id' s r c a h same there =
    elim (Option-cases (find_account input.account_id s.orders.engine.ledger.accounts)) [
      | inl n ↦ absurd (open_run_missing env input user id s n h)
      | inr (b, f) ↦
          let q = new_run env input user id in
          let q' = new_run env input' user' id' in
          let first = open_run_found env input user id s f in
          let found =
            run_opened-found q s
              (ap (λ (p : Result (Run × Bool) × ReconciliationStore). p.0) (sym first) ∙ h) in
          let again =
            opened_again q' (run_opened q s).1
              (ap (λ k. find_run_by_key k (run_opened q s).1.runs) same ∙ found) in
          let second = open_run_found env input' user' id' (run_opened q s).1 there in
          subst
            (λ (p : Result (Run × Bool) × ReconciliationStore).
              open_run env input' user' id' p.1 ≡ (ok (r, false), p.1))
            (sym first) (second ∙ again)
    ]
