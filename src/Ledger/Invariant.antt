-- ===== src/Ledger/Invariant.antt =====
-- The accounting invariant of the tables, and that `append` keeps it.
use api_score.Base.{
  ℕ, ◌+◌, ◌≡◌, ◌≢◌, refl, sym, ◌∙◌, ◌⊎◌, inl, inr, true, false, Option, none, some, List, [], ◌∷◌,
  arith, ◌==◌, ==_refl, if◌then◌else◌, Bool-cases, eq_of_some, ap,
}
use mathlib.Core.Path.{subst}
use api_score.Base.Int.{pos, ◌≤ℤ◌, +ℤ_comm}
use api_score.Base.Rows.{update_where, exists_where}
use api_score.Money.{is_safe_integer}
use api_score.Ledger.Defs.{Account, Entry, Store, PlannedEntry}
use api_score.Ledger.Service.{
  AppendInput, find_account, balances_of, planned_row, prints, moved_account,
}
use api_score.Ledger.Checks.{sum_of, last_entry, newer}
use api_score.Ledger.Effects.{IsBalanced}
use api_score.Ledger.Append.{is_row_of, written}

-- The last entry shows the balances and the version of the account.
abbrev pub LastIs : Account → Option Entry → Type 0
LastIs a none = Unit {0}
LastIs a (some l) =
    (l.available_after ≡ a.available)
    × (l.reserved_after ≡ a.reserved)
    × (l.account_version ≡ a.version)

-- The books of one account: each balance is the sum of its entries, is not negative and is a safe
-- integer, and the last entry shows both balances.
pub record IsConsistent (a : Account) (es : List Entry) : Type 0 where
  pub available_sum : a.available ≡ sum_of (λ e. e.amount) a.id es
  pub reserved_sum : a.reserved ≡ sum_of (λ e. e.reserved_delta) a.id es
  pub available_nonneg : pos 0 ≤ℤ a.available
  pub reserved_nonneg : pos 0 ≤ℤ a.reserved
  pub available_safe : is_safe_integer a.available ≡ true
  pub reserved_safe : is_safe_integer a.reserved ≡ true
  pub last : LastIs a (last_entry a.id es)

-- Every account is consistent, and no entry belongs to an account that does not exist.
pub record IsSound (s : Store) : Type 0 where
  pub consistent :
      (id : ℕ) (a : Account) → find_account id s.accounts ≡ some a → IsConsistent a s.entries
  pub owned :
      (id : ℕ)
      → find_account id s.accounts ≡ none
      → exists_where (λ e. e.account_id == id) s.entries ≡ false

pub find_account-id :
    (id : ℕ) (rows : List Account) {a : Account} → find_account id rows ≡ some a → a.id ≡ id
find_account-id id [] h = cc
find_account-id id (x ∷ rows) {a} h = ground (arith, find_account-id id rows {a = a})

module _ (account : Account) (p : PlannedEntry) where
  abbrev pub moved_if : Account → Account
  moved_if a = if is_row_of account a then moved_account p a else a

  abbrev pub moved_found : Option Account → Option Account
  moved_found none = none
  moved_found (some a) = some (moved_if a)

  pub find_account-update :
      (id : ℕ) (rows : List Account)
      → find_account id (update_where (is_row_of account) (moved_account p) rows)
        ≡ moved_found (find_account id rows)
  find_account-update id [] = refl
  find_account-update id (x ∷ rows) = ground (arith, find_account-update id rows)

pub other-IsConsistent :
    (b : Account) (e : Entry) (es : List Entry)
    → e.account_id ≢ b.id
    → IsConsistent b es
    → IsConsistent b (e ∷ es)
other-IsConsistent b e es h c = ground arith

last_entry-newer :
    (a : Account) (e : Entry) (l : Option Entry)
    → LastIs a l
    → e.account_version ≡ a.version + 1
    → newer e l ≡ some e
last_entry-newer a e none h v = refl
last_entry-newer a e (some l) h v = ground arith

pub written-IsConsistent :
    (a : Account) (input : AppendInput) (p : PlannedEntry) (now : ℕ) (es : List Entry)
    → IsBalanced (balances_of a) p
    → prints p ≡ true
    → IsConsistent a es
    → IsConsistent (moved_account p a) (planned_row a input p now ∷ es)
written-IsConsistent a input p now es b pr c =
    let newest = last_entry-newer a (planned_row a input p now) (last_entry a.id es) c.last refl in
    record {
      available_sum =
          rw (==_refl a.id) (cc (b.available, c.available_sum, +ℤ_comm a.available p.amount_cents));
      reserved_sum =
          rw (==_refl a.id)
            (cc (b.reserved, c.reserved_sum, +ℤ_comm a.reserved p.reserved_delta_cents));
      available_nonneg = b.available_nonneg;
      reserved_nonneg = b.reserved_nonneg;
      available_safe = ground arith;
      reserved_safe = ground arith;
      last = rw (==_refl a.id, newest) (refl, refl, refl);
    }

-- Rows are found by their identifier, so the one with the locked identifier is the locked one.
pub same_row :
    (id : ℕ) (rows : List Account) {account o : Account}
    → find_account account.id rows ≡ some account
    → find_account id rows ≡ some o
    → (o ≡ account) ⊎ (account.id ≢ o.id)
same_row id rows {account} {o} locked found = elim (Bool-cases (account.id == o.id)) [
  | inl same ↦
      let e : account.id ≡ id = ground (arith, find_account-id id rows found) in
      inl (eq_of_some (sym (ap (λ j. find_account j rows) e ∙ found) ∙ locked))
  | inr differs ↦ inr (ground arith)
]

module _ (account : Account) (input : AppendInput) (s : Store) (p : PlannedEntry)
    (sound : IsSound s) (locked : find_account account.id s.accounts ≡ some account)
    (balanced : IsBalanced (balances_of account) p) (printed : prints p ≡ true) where
  moved_if-IsConsistent :
      (o : Account)
      → (o ≡ account) ⊎ (account.id ≢ o.id)
      → IsConsistent o s.entries
      → IsConsistent (moved_if account p o) (planned_row account input p s.now ∷ s.entries)
  moved_if-IsConsistent o (inl e) c =
      rw (e, ==_refl account.id, ==_refl account.version)
        (written-IsConsistent account input p s.now s.entries balanced printed (rw e at c))
  moved_if-IsConsistent o (inr n) c = elim (Bool-cases (o.id == account.id)) [
    | inl same ↦ absurd (n (ground arith))
    | inr differs ↦
        rw differs (other-IsConsistent o (planned_row account input p s.now) s.entries n c)
  ]

  moved_found-IsConsistent :
      (id : ℕ) (a : Account) (o : Option Account)
      → find_account id s.accounts ≡ o
      → moved_found account p o ≡ some a
      → IsConsistent a (planned_row account input p s.now ∷ s.entries)
  moved_found-IsConsistent id a none e h = cc
  moved_found-IsConsistent id a (some o) e h =
      subst (λ x. IsConsistent x (planned_row account input p s.now ∷ s.entries)) (eq_of_some h)
        (moved_if-IsConsistent o (same_row id s.accounts locked e) (sound.consistent id o e))

  moved_found-none : (o : Option Account) → moved_found account p o ≡ none → o ≡ none
  moved_found-none none h = refl
  moved_found-none (some o) h = cc

  -- The row that an update moves is the locked one alone, so all the others keep their books.
  pub written-IsSound : IsSound (written account input p s)
  written-IsSound = record {
    consistent = λ id a found.
        moved_found-IsConsistent id a (find_account id s.accounts) refl
          (sym (find_account-update account p id s.accounts) ∙ found);
    owned = λ id missing.
        let gone =
          moved_found-none (find_account id s.accounts)
            (sym (find_account-update account p id s.accounts) ∙ missing) in
        elim (Bool-cases (account.id == id)) [
          | inl same ↦ absurd (found_none id same gone)
          | inr differs ↦ rw differs (sound.owned id gone)
        ];
  }
    where
      found_none : (id : ℕ) → (account.id == id) ≡ true → find_account id s.accounts ≡ none → ⊥
      found_none id same gone =
          let e : account.id ≡ id = ground arith in
          cc (sym locked ∙ (ap (λ j. find_account j s.accounts) e ∙ gone))
