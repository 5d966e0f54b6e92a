-- ===== src/Ledger/BatchSound.antt =====
-- `appendBatch` as a whole.
use api_score.Base.{
  ◌≡◌, ◌≢◌, refl, sym, true, false, some, List, [], ◌∷◌, arith, inl, inr, is_some, Bool-cases,
  Option-cases,
}
use mathlib.Core.Path.{subst}
use api_score.Base.Quantifiers.{AllOf}
use api_score.Base.Tx.{ok, Result-cases}
use api_score.Ledger.Defs.{EntryKey, key_eq, Account, Entry, Store}
use api_score.Ledger.Append.{key_eq_refl}
use api_score.Base.Rows.{exists_where}
use api_score.Ledger.Service.{AppendInput, AppendResult, find_account, find_entry}
use api_score.Ledger.Invariant.{IsSound}
use api_score.Ledger.Batch.{plan_batch, write_batch, append_batch, results_of, has_duplicate}
use api_score.Ledger.BatchLaws.{
  IsPlanned, plan_batch-IsPlanned, settled_tables, settled_tables-IsSound,
}

-- No two of the keys are the same.
abbrev pub HaveOwnKeys : List AppendInput → Type 0
HaveOwnKeys [] = Unit {0}
HaveOwnKeys (i ∷ is) = AllOf (λ j. j.entry_key ≢ i.entry_key) is × HaveOwnKeys is

others-differ :
    (key : EntryKey) (is : List AppendInput)
    → exists_where (λ j. key_eq j.entry_key key) is ≡ false
    → AllOf (λ j. j.entry_key ≢ key) is
others-differ key [] h = tt
others-differ key (j ∷ js) h = elim (Bool-cases (key_eq j.entry_key key)) [
  | inl t ↦ absurd (ground arith)
  | inr n ↦ (λ e. absurd (grind (arith, key_eq_refl key)), others-differ key js (rw n at h))
]

has_duplicate-HaveOwnKeys : (is : List AppendInput) → has_duplicate is ≡ false → HaveOwnKeys is
has_duplicate-HaveOwnKeys [] h = tt
has_duplicate-HaveOwnKeys (i ∷ is) h =
    (others-differ i.entry_key is (ground arith), has_duplicate-HaveOwnKeys is (ground arith))

pub write_batch-settled :
    (account a : Account) (r : Entry) (rows : List Entry) (s : Store) {s' : Store}
    → write_batch account a (r ∷ rows) s ≡ ok (tt, s')
    → s' ≡ settled_tables account a (r ∷ rows) s
unfolding write_batch
write_batch-settled account a r rows s h = ground arith

write_batch-IsSound :
    (account a : Account) (rows : List Entry) (s : Store) {s' : Store}
    → IsSound s
    → find_account account.id s.accounts ≡ some account
    → IsPlanned account s.entries a rows
    → write_batch account a rows s ≡ ok (tt, s')
    → IsSound s'
unfolding write_batch
write_batch-IsSound account a [] s {s'} sound locked planned h =
    let same : s' ≡ s = ground arith in subst IsSound (sym same) sound
write_batch-IsSound account a (r ∷ rows) s sound locked planned h =
    subst IsSound (sym (write_batch-settled account a r rows s h))
      (settled_tables-IsSound account a (r ∷ rows) s sound locked planned)

pub results_of-found :
    (existing all : List Entry) (inputs : List AppendInput) {rs : List AppendResult}
    → results_of existing all inputs ≡ ok rs
    → AllOf (λ i. is_some (find_entry i.entry_key all) ≡ true) inputs
results_of-found existing all [] h = tt
results_of-found existing all (i ∷ is) h = elim (Option-cases (find_entry i.entry_key all)) [
  | inl e ↦ absurd (ground arith)
  | inr (x, e) ↦ elim (Result-cases (results_of existing all is)) [
    | inr (f, q) ↦ absurd (ground arith)
    | inl (rs, q) ↦ (rw e refl, results_of-found existing all is q)
  ]
]

-- The stages of a batch that succeeds.
pub append_batch-eq_ok :
    (account : Account) (i : AppendInput) (is : List AppendInput) (s : Store)
    {rs : List AppendResult} {a : Account} {s' : Store}
    → append_batch account (i ∷ is) s ≡ ok ((rs, a), s')
    → (rows : List Entry) × (has_duplicate (i ∷ is) ≡ false)
      × (plan_batch s.entries s.now account [] (i ∷ is) ≡ ok (a, rows))
      × (write_batch account a rows s ≡ ok (tt, s'))
      × (results_of s.entries s'.entries (i ∷ is) ≡ ok rs)
unfolding append_batch
append_batch-eq_ok account i is s h = elim (Bool-cases (has_duplicate (i ∷ is))) [
  | inl t ↦ absurd (ground arith)
  | inr f ↦ elim (Result-cases (plan_batch s.entries s.now account [] (i ∷ is))) [
    | inr (e, p) ↦ absurd (ground arith)
    | inl ((b, rows), p) ↦ elim (Result-cases (write_batch account b rows s)) [
      | inr (e, w) ↦ absurd (ground arith)
      | inl ((u, t), w) ↦ elim (Result-cases (results_of s.entries t.entries (i ∷ is))) [
        | inr (e, r) ↦ absurd (ground arith)
        | inl (qs, r) ↦ (rows, f, ground arith, ground arith, ground arith)
      ]
    ]
  ]
]

-- A batch that succeeds on a locked account keeps the books sound, had no key twice, and leaves an
-- entry under every one of its keys.
pub append_batch-IsSound :
    (account : Account) (inputs : List AppendInput) (s : Store) {rs : List AppendResult}
    {a : Account} {s' : Store}
    → IsSound s
    → find_account account.id s.accounts ≡ some account
    → append_batch account inputs s ≡ ok ((rs, a), s')
    → IsSound s'
      × HaveOwnKeys inputs
      × AllOf (λ i. is_some (find_entry i.entry_key s'.entries) ≡ true) inputs
unfolding append_batch
append_batch-IsSound account [] s {s' = s'} sound locked h =
    let same : s' ≡ s = ground arith in (subst IsSound (sym same) sound, tt, tt)
append_batch-IsSound account (i ∷ is) s {a = a} {s'} sound locked h =
    let (rows, single, planned, wrote, read) = append_batch-eq_ok account i is s h in
    let start : IsPlanned account s.entries account [] = record {
      own = refl;
      consistent = sound.consistent account.id account locked;
      rows_own = tt;
    } in
    (
      write_batch-IsSound account a rows s sound locked
          (plan_batch-IsPlanned account s.entries s.now account [] (i ∷ is) start planned) wrote,
      has_duplicate-HaveOwnKeys (i ∷ is) single,
      results_of-found s.entries s'.entries (i ∷ is) read,
    )
