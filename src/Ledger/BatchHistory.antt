-- ===== src/Ledger/BatchHistory.antt =====
-- What a batch adds to the entries: rows under new keys, each the key of an input.
use api_score.Base.{
  ℕ, ◌≡◌, refl, sym, ap, ◌∙◌, inl, inr, Bool, true, false, Option, none, some, List, [], ◌∷◌, arith,
  Bool-cases, is_some,
}
use mathlib.Core.Path.{subst}
use api_score.Base.Rows.{onto}
use api_score.Base.Quantifiers.{AllOf}
use api_score.Base.Tx.{Result, ok, err, Result-cases}
use api_score.Ledger.Defs.{
  EntryKey, key_eq, Account, Entry, Store, Effect, PlannedEntry, plan_entry, movement_effect,
}
use api_score.Ledger.Service.{
  AppendInput, AppendResult, find_entry, balances_of, planned_row, prints, moved_account, is_replay,
}
use api_score.Ledger.Batch.{
  replay_turn, write_turn, plan_turn, plan_batch, write_batch, append_batch,
}
use api_score.Ledger.BatchSound.{append_batch-eq_ok, write_batch-settled, results_of-found}
use api_score.Ledger.History.{Keeps, key_eq→eq}

-- A row under a key that the table does not have, and that a test does not meet.
abbrev pub IsNew : (EntryKey → Bool) → List Entry → Entry → Type 0
IsNew t es r = (find_entry r.entry_key es ≡ none) × (t r.entry_key ≡ false)

module _ (t : EntryKey → Bool) (es : List Entry) where
  same_rows :
      (a : Account) (rows : List Entry) {a' : Account} {rows' : List Entry}
      → AllOf (IsNew t es) rows
      → ◌≡◌ {A = Result (Account × List Entry)} (ok (a, rows)) (ok (a', rows'))
      → AllOf (IsNew t es) rows'
  same_rows a rows c h = subst holds h c
    where
      holds : Result (Account × List Entry) → Type 0
      holds (ok (b, next)) = AllOf (IsNew t es) next
      holds (err f) = ⊥

  replay_turn-IsNew :
      (a : Account) (rows : List Entry) (i : AppendInput) (e : Entry) (r : Result Effect)
      {a' : Account} {rows' : List Entry}
      → AllOf (IsNew t es) rows
      → replay_turn a rows i e r ≡ ok (a', rows')
      → AllOf (IsNew t es) rows'
  replay_turn-IsNew a rows i e (err f) c h = cc
  replay_turn-IsNew a rows i e (ok x) c h = elim (Bool-cases (is_replay a i.type x e)) [
    | inr f ↦ cc (rw f at h)
    | inl s ↦ same_rows a rows c (rw s at h)
  ]

  write_turn-IsNew :
      (now : ℕ) (a : Account) (rows : List Entry) (i : AppendInput) (r : Result PlannedEntry)
      {a' : Account} {rows' : List Entry}
      → AllOf (IsNew t es) rows
      → find_entry i.entry_key es ≡ none
      → t i.entry_key ≡ false
      → write_turn now a rows i r ≡ ok (a', rows')
      → AllOf (IsNew t es) rows'
  write_turn-IsNew now a rows i (err f) c fresh other h = cc
  write_turn-IsNew now a rows i (ok p) c fresh other h = elim (Bool-cases (prints p)) [
    | inr f ↦ cc (rw f at h)
    | inl s ↦
        same_rows (moved_account p a) (planned_row a i p now ∷ rows) ((fresh, other), c) (rw s at h)
  ]

  plan_turn-IsNew :
      (o : Option Entry) (now : ℕ) (a : Account) (rows : List Entry) (i : AppendInput)
      {a' : Account} {rows' : List Entry}
      → find_entry i.entry_key es ≡ o
      → AllOf (IsNew t es) rows
      → t i.entry_key ≡ false
      → plan_turn o now a rows i ≡ ok (a', rows')
      → AllOf (IsNew t es) rows'
  plan_turn-IsNew (some e) now a rows i f c other h =
      replay_turn-IsNew a rows i e (movement_effect i.type i.movement) c h
  plan_turn-IsNew none now a rows i f c other h =
      write_turn-IsNew now a rows i (plan_entry i.type (balances_of a) i.movement) c f other h

  plan_batch-IsNew :
      (now : ℕ) (a : Account) (rows : List Entry) (inputs : List AppendInput) {a' : Account}
      {rows' : List Entry}
      → AllOf (IsNew t es) rows
      → AllOf (λ i. t i.entry_key ≡ false) inputs
      → plan_batch es now a rows inputs ≡ ok (a', rows')
      → AllOf (IsNew t es) rows'
  plan_batch-IsNew now a rows [] c others h = same_rows a rows c h
  plan_batch-IsNew now a rows (i ∷ is) {a'} {rows'} c (other, others) h =
      elim (Result-cases (plan_turn (find_entry i.entry_key es) now a rows i)) [
        | inr (f, q) ↦ absurd (ground arith)
        | inl ((b, next), q) ↦
            let rest : plan_batch es now b next is ≡ ok (a', rows') = ground arith in
            plan_batch-IsNew now b next is
              (plan_turn-IsNew (find_entry i.entry_key es) now a rows i refl c other q) others rest
      ]

-- New rows do not hide an entry that is there.
onto-Keeps :
    (t : EntryKey → Bool) (rows es : List Entry) → AllOf (IsNew t es) rows → Keeps es (onto rows es)
onto-Keeps t [] es c = λ key e h. h
onto-Keeps t (r ∷ rows) es ((fresh, other), rest) = λ key e h.
    elim (Bool-cases (key_eq r.entry_key key)) [
      | inl same ↦
          let k = key_eq→eq r.entry_key key same in
          absurd (cc (sym h ∙ (ap (λ (x : EntryKey). find_entry x es) (sym k) ∙ fresh)))
      | inr differs ↦ rw differs (onto-Keeps t rows es rest key e h)
    ]

-- New rows leave a key unused that the test meets.
onto-unused :
    (t : EntryKey → Bool) (rows es : List Entry) (key : EntryKey)
    → t key ≡ true
    → AllOf (IsNew t es) rows
    → find_entry key es ≡ none
    → find_entry key (onto rows es) ≡ none
onto-unused t [] es key m c h = h
onto-unused t (r ∷ rows) es key m ((fresh, other), rest) h =
    elim (Bool-cases (key_eq r.entry_key key)) [
      | inl same ↦
          let k = key_eq→eq r.entry_key key same in absurd (cc (sym m ∙ (ap t (sym k) ∙ other)))
      | inr differs ↦ rw differs (onto-unused t rows es key m rest h)
    ]

-- A batch adds new rows, none under a key that the test meets if no input has such a key, and
-- every input's key is then found.
pub record IsBatch (t : EntryKey → Bool) (inputs : List AppendInput) (s s' : Store) : Type 0 where
  pub keeps : Keeps s.entries s'.entries
  pub unused :
      (key : EntryKey)
      → t key ≡ true
      → find_entry key s.entries ≡ none
      → find_entry key s'.entries ≡ none
  pub held : AllOf (λ i. is_some (find_entry i.entry_key s'.entries) ≡ true) inputs

write_batch-entries :
    (account a : Account) (rows : List Entry) (s : Store) {s' : Store}
    → write_batch account a rows s ≡ ok (tt, s')
    → s'.entries ≡ onto rows s.entries
unfolding write_batch
write_batch-entries account a [] s h = ground arith
write_batch-entries account a (r ∷ rows) s h =
    ap (λ (x : Store). x.entries) (write_batch-settled account a r rows s h)

pub append_batch-IsBatch :
    (t : EntryKey → Bool) (account : Account) (inputs : List AppendInput) (s : Store)
    {rs : List AppendResult} {a : Account} {s' : Store}
    → AllOf (λ i. t i.entry_key ≡ false) inputs
    → append_batch account inputs s ≡ ok ((rs, a), s')
    → IsBatch t inputs s s'
unfolding append_batch
append_batch-IsBatch t account [] s {s' = s'} others h =
    let same : s' ≡ s = ground arith in
    subst (IsBatch t [] s) (sym same)
      (record { keeps = λ key e f. f; unused = λ key m f. f; held = tt })
append_batch-IsBatch t account (i ∷ is) s {a = a} {s'} others h =
    let (rows, _, planned, wrote, read) = append_batch-eq_ok account i is s h in
    let entries = write_batch-entries account a rows s wrote in
    let new = plan_batch-IsNew t s.entries s.now account [] (i ∷ is) tt others planned in
    record {
      keeps = rw entries (onto-Keeps t rows s.entries new);
      unused = λ key m f. rw entries (onto-unused t rows s.entries key m new f);
      held = results_of-found s.entries s'.entries (i ∷ is) read;
    }
