-- ===== src/Ledger/Append.antt =====
-- What a successful `append` has done, read back from its result.
use api_score.Base.{◌≡◌, inl, inr, Bool, true, false, ◌&&◌, ◌∷◌, arith, ◌==◌, ==_refl}
use api_score.Base.Rows.{update_where, count_where, exists_where}
use api_score.Base.Tx.{ok, Result-cases}
use api_score.Ledger.Defs.{
  EntryKey, key_eq, Account, Store, PlannedEntry, plan_entry, opening, reserve_key, release_key,
  release_partial_key, settle_key,
}
use api_score.Ledger.Service.{
  AppendInput, AppendResult, balances_of, planned_row, prints, clashes, moved_account, write,
}

pub key_eq_refl : (k : EntryKey) → key_eq k k ≡ true
key_eq_refl (opening a) = ==_refl a
key_eq_refl (reserve_key a) = ==_refl a
key_eq_refl (release_key a) = ==_refl a
key_eq_refl (release_partial_key a) = ==_refl a
key_eq_refl (settle_key a) = ==_refl a

abbrev pub is_row_of : Account → Account → Bool
is_row_of account a = a.id == account.id && a.version == account.version

-- The store after a written entry.
abbrev pub written : Account → AppendInput → PlannedEntry → Store → Store
written account input p s = record s {
  accounts = update_where (is_row_of account) (moved_account p) s.accounts;
  entries = planned_row account input p s.now ∷ s.entries;
}

-- What `write` has done when it succeeds.
pub record IsWritten (account : Account) (input : AppendInput) (s : Store) (r : AppendResult)
    (account' : Account) (s' : Store) (p : PlannedEntry) : Type 0 where
  pub planned : plan_entry input.type (balances_of account) input.movement ≡ ok p
  pub printed : prints p ≡ true
  pub unclashed : exists_where (clashes (planned_row account input p s.now)) s.entries ≡ false
  pub affected : count_where (is_row_of account) s.accounts ≡ 1
  pub store : s' ≡ written account input p s
  pub entry : r.entry ≡ planned_row account input p s.now
  pub fresh : r.replayed ≡ false
  pub moved : account' ≡ moved_account p account

pub write-IsWritten :
    (account : Account) (input : AppendInput) (s : Store) {r : AppendResult} {account' : Account}
    {s' : Store}
    → write account input s ≡ ok ((r, account'), s')
    → (p : PlannedEntry) × IsWritten account input s r account' s' p
unfolding write
write-IsWritten account input s h =
    elim (Result-cases (plan_entry input.type (balances_of account) input.movement)) [
      | inl (p, e) ↦ (p, ground (arith, key_eq_refl input.entry_key))
      | inr (f, e) ↦ absurd (ground arith)
    ]
