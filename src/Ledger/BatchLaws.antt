-- ===== src/Ledger/BatchLaws.antt =====
-- `appendBatch` keeps the books sound.
use api_score.Base.{
  ℕ, ◌≡◌, ◌≢◌, refl, sym, ◌∙◌, ap, ◌⊎◌, inl, inr, false, Option, none, some, List, [], ◌∷◌, arith,
  ◌==◌, ==_refl, if◌then◌else◌, Bool-cases, eq_of_some,
}
use mathlib.Core.Path.{subst}
use api_score.Base.Rows.{update_where, exists_where, onto}
use api_score.Base.Tx.{Result, ok, err, Result-cases}
use api_score.Ledger.Defs.{Account, Entry, Store, Effect, PlannedEntry, plan_entry, movement_effect}
use api_score.Ledger.Service.{
  AppendInput, find_account, find_entry, balances_of, planned_row, prints, moved_account, is_replay,
}
use api_score.Ledger.Checks.{last_entry}
use api_score.Ledger.Effects.{plan_entry-IsBalanced}
use api_score.Ledger.Invariant.{
  IsSound, IsConsistent, LastIs, written-IsConsistent, other-IsConsistent, same_row,
}
use api_score.Ledger.Batch.{replay_turn, write_turn, plan_turn, plan_batch, moved_to, is_read_row}
use api_score.Base.Quantifiers.{AllOf}

abbrev pub IsOwn : Account → Entry → Type 0
IsOwn account e = e.account_id ≡ account.id

-- The loop so far: the account that it has in hand is the given one with other balances, and its
-- books agree with the entries so far on top of those of the table.
pub record IsPlanned (account : Account) (es : List Entry) (a : Account) (rows : List Entry)
    : Type 0 where
  pub own : a.id ≡ account.id
  pub consistent : IsConsistent a (onto rows es)
  pub rows_own : AllOf (IsOwn account) rows

same-IsPlanned :
    (account : Account) (es : List Entry) (a : Account) (rows : List Entry) {a' : Account}
    {rows' : List Entry}
    → IsPlanned account es a rows
    → ◌≡◌ {A = Result (Account × List Entry)} (ok (a, rows)) (ok (a', rows'))
    → IsPlanned account es a' rows'
same-IsPlanned account es a rows c h = subst holds h c
  where
    holds : Result (Account × List Entry) → Type 0
    holds (ok (b, next)) = IsPlanned account es b next
    holds (err f) = ⊥

replay_turn-IsPlanned :
    (account : Account) (es : List Entry) (a : Account) (rows : List Entry) (i : AppendInput)
    (e : Entry) (r : Result Effect) {a' : Account} {rows' : List Entry}
    → IsPlanned account es a rows
    → replay_turn a rows i e r ≡ ok (a', rows')
    → IsPlanned account es a' rows'
replay_turn-IsPlanned account es a rows i e (err f) c h = cc
replay_turn-IsPlanned account es a rows i e (ok x) c h =
    elim (Bool-cases (is_replay a i.type x e)) [
      | inr f ↦ cc (rw f at h)
      | inl t ↦ same-IsPlanned account es a rows c (rw t at h)
    ]

write_turn-IsPlanned :
    (account : Account) (es : List Entry) (now : ℕ) (a : Account) (rows : List Entry)
    (i : AppendInput) (r : Result PlannedEntry) {a' : Account} {rows' : List Entry}
    → IsPlanned account es a rows
    → plan_entry i.type (balances_of a) i.movement ≡ r
    → write_turn now a rows i r ≡ ok (a', rows')
    → IsPlanned account es a' rows'
write_turn-IsPlanned account es now a rows i (err f) c q h = cc
write_turn-IsPlanned account es now a rows i (ok p) c q h = elim (Bool-cases (prints p)) [
  | inr f ↦ cc (rw f at h)
  | inl printed ↦
      let next : IsPlanned account es (moved_account p a) (planned_row a i p now ∷ rows) = record {
        own = c.own;
        consistent =
            written-IsConsistent a i p now (onto rows es)
              (plan_entry-IsBalanced i.type (balances_of a) i.movement q) printed c.consistent;
        rows_own = (c.own, c.rows_own);
      } in
      same-IsPlanned account es (moved_account p a) (planned_row a i p now ∷ rows) next
        (rw printed at h)
]

plan_turn-IsPlanned :
    (account : Account) (es : List Entry) (o : Option Entry) (now : ℕ) (a : Account)
    (rows : List Entry) (i : AppendInput) {a' : Account} {rows' : List Entry}
    → IsPlanned account es a rows
    → plan_turn o now a rows i ≡ ok (a', rows')
    → IsPlanned account es a' rows'
plan_turn-IsPlanned account es (some e) now a rows i c h =
    replay_turn-IsPlanned account es a rows i e (movement_effect i.type i.movement) c h
plan_turn-IsPlanned account es none now a rows i c h =
    write_turn-IsPlanned account es now a rows i (plan_entry i.type (balances_of a) i.movement) c
      refl h

pub plan_batch-IsPlanned :
    (account : Account) (es : List Entry) (now : ℕ) (a : Account) (rows : List Entry)
    (inputs : List AppendInput) {a' : Account} {rows' : List Entry}
    → IsPlanned account es a rows
    → plan_batch es now a rows inputs ≡ ok (a', rows')
    → IsPlanned account es a' rows'
plan_batch-IsPlanned account es now a rows [] c h = same-IsPlanned account es a rows c h
plan_batch-IsPlanned account es now a rows (i ∷ is) {a'} {rows'} c h =
    elim (Result-cases (plan_turn (find_entry i.entry_key es) now a rows i)) [
      | inr (f, q) ↦ absurd (ground arith)
      | inl ((b, next), q) ↦
          let rest : plan_batch es now b next is ≡ ok (a', rows') = ground arith in
          plan_batch-IsPlanned account es now b next is
            (plan_turn-IsPlanned account es (find_entry i.entry_key es) now a rows i c q) rest
    ]

module _ (account a : Account) where
  abbrev moved_if : Account → Account
  moved_if o = if is_read_row account o then moved_to a o else o

  abbrev moved_found : Option Account → Option Account
  moved_found none = none
  moved_found (some o) = some (moved_if o)

  find_account-moved :
      (id : ℕ) (rows : List Account)
      → find_account id (update_where (is_read_row account) (moved_to a) rows)
        ≡ moved_found (find_account id rows)
  find_account-moved id [] = refl
  find_account-moved id (x ∷ rows) = ground (arith, find_account-moved id rows)

moved_to-IsConsistent :
    (account a : Account) (es : List Entry)
    → a.id ≡ account.id
    → IsConsistent a es
    → IsConsistent (moved_to a account) es
moved_to-IsConsistent account a es own c = record {
  available_sum = rw own at c.available_sum;
  reserved_sum = rw own at c.reserved_sum;
  available_nonneg = c.available_nonneg;
  reserved_nonneg = c.reserved_nonneg;
  available_safe = c.available_safe;
  reserved_safe = c.reserved_safe;
  last = subst (λ i. LastIs a (last_entry i es)) own c.last;
}

onto-IsConsistent :
    (account o : Account) (rows es : List Entry)
    → AllOf (IsOwn account) rows
    → account.id ≢ o.id
    → IsConsistent o es
    → IsConsistent o (onto rows es)
onto-IsConsistent account o [] es own n c = c
onto-IsConsistent account o (r ∷ rows) es (own, rest) n c =
    other-IsConsistent o r (onto rows es) (λ e. n (sym own ∙ e))
      (onto-IsConsistent account o rows es rest n c)

onto-unowned :
    (account : Account) (rows es : List Entry) (id : ℕ)
    → AllOf (IsOwn account) rows
    → (account.id == id) ≡ false
    → exists_where (λ e. e.account_id == id) es ≡ false
    → exists_where (λ e. e.account_id == id) (onto rows es) ≡ false
onto-unowned account [] es id own n h = h
onto-unowned account (r ∷ rows) es id (own, rest) n h =
    rw (own, n) (onto-unowned account rows es id rest n h)

-- The tables after a batch that had rows.
abbrev pub settled_tables : Account → Account → List Entry → Store → Store
settled_tables account a rows s = record s {
  accounts = update_where (is_read_row account) (moved_to a) s.accounts;
  entries = onto rows s.entries;
}

module _ (account a : Account) (rows : List Entry) (s : Store) (sound : IsSound s)
    (locked : find_account account.id s.accounts ≡ some account)
    (planned : IsPlanned account s.entries a rows) where
  moved_if-IsConsistent :
      (o : Account)
      → (o ≡ account) ⊎ (account.id ≢ o.id)
      → IsConsistent o s.entries
      → IsConsistent (moved_if account a o) (onto rows s.entries)
  moved_if-IsConsistent o (inl e) c =
      rw (e, ==_refl account.id, ==_refl account.version)
        (moved_to-IsConsistent account a (onto rows s.entries) planned.own planned.consistent)
  moved_if-IsConsistent o (inr n) c = elim (Bool-cases (o.id == account.id)) [
    | inl same ↦ absurd (n (ground arith))
    | inr differs ↦ rw differs (onto-IsConsistent account o rows s.entries planned.rows_own n c)
  ]

  moved_found-IsConsistent :
      (id : ℕ) (b : Account) (o : Option Account)
      → find_account id s.accounts ≡ o
      → moved_found account a o ≡ some b
      → IsConsistent b (onto rows s.entries)
  moved_found-IsConsistent id b none e h = cc
  moved_found-IsConsistent id b (some o) e h =
      subst (λ x. IsConsistent x (onto rows s.entries)) (eq_of_some h)
        (moved_if-IsConsistent o (same_row id s.accounts locked e) (sound.consistent id o e))

  moved_found-none : (o : Option Account) → moved_found account a o ≡ none → o ≡ none
  moved_found-none none h = refl
  moved_found-none (some o) h = cc

  pub settled_tables-IsSound : IsSound (settled_tables account a rows s)
  settled_tables-IsSound = record {
    consistent = λ id b found.
        moved_found-IsConsistent id b (find_account id s.accounts) refl
          (sym (find_account-moved account a id s.accounts) ∙ found);
    owned = λ id missing.
        let gone =
          moved_found-none (find_account id s.accounts)
            (sym (find_account-moved account a id s.accounts) ∙ missing) in
        elim (Bool-cases (account.id == id)) [
          | inl same ↦
              let e : account.id ≡ id = ground arith in
              absurd (cc (sym locked ∙ (ap (λ j. find_account j s.accounts) e ∙ gone)))
          | inr differs ↦
              onto-unowned account rows s.entries id planned.rows_own differs (sound.owned id gone)
        ];
  }
