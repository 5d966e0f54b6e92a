-- ===== src/Ledger/History.antt =====
-- No operation changes or removes an entry: what is found under a key is found there ever after.
use api_score.Base.{
  ◌≡◌, refl, sym, ap, ◌∙◌, inl, inr, true, Option, none, some, List, ◌∷◌, arith, Bool-cases, ℕ,
}
use api_score.Base.Tx.{ok}
use api_score.Ledger.Defs.{
  EntryKey, key_eq, Account, Entry, Store, opening, reserve_key, release_key, release_partial_key,
  settle_key,
}
use api_score.Ledger.Service.{
  AppendInput, AppendResult, OpenInput, find_entry, append, open_account,
}
use api_score.Ledger.Append.{key_eq_refl}
use api_score.Ledger.AppendLaws.{append-eq_ok}
use api_score.Ledger.Opening.{open_account-eq_ok}

pub key_eq→eq : (a b : EntryKey) → key_eq a b ≡ true → a ≡ b
key_eq→eq (opening a) (opening b) h = ground arith
key_eq→eq (reserve_key a) (reserve_key b) h = ground arith
key_eq→eq (release_key a) (release_key b) h = ground arith
key_eq→eq (release_partial_key a) (release_partial_key b) h = ground arith
key_eq→eq (settle_key a) (settle_key b) h = ground arith
key_eq→eq _ _ h = cc

-- Every entry that a key finds in the first list is found in the second.
abbrev pub Keeps : List Entry → List Entry → Type 0
Keeps es es' =
    (key : EntryKey) (e : Entry) → find_entry key es ≡ some e → find_entry key es' ≡ some e

pub cons-Keeps :
    (row : Entry) (es : List Entry) → find_entry row.entry_key es ≡ none → Keeps es (row ∷ es)
cons-Keeps row es fresh = λ key e h. elim (Bool-cases (key_eq row.entry_key key)) [
  | inl same ↦
      let k = key_eq→eq row.entry_key key same in
      absurd (cc (sym h ∙ (ap (λ (x : EntryKey). find_entry x es) (sym k) ∙ fresh)))
  | inr differs ↦ rw differs h
]

pub append-Keeps :
    (account : Account) (input : AppendInput) (s : Store) {r : AppendResult} {account' : Account}
    {s' : Store}
    → append account input s ≡ ok ((r, account'), s')
    → Keeps s.entries s'.entries
append-Keeps account input s h = elim (append-eq_ok account input s h) [
  | inl (x, w) ↦ λ key e f. rw w.store_kept f
  | inr (p, fresh, w) ↦ rw w.store (cons-Keeps _ s.entries fresh)
]

-- The entry that `append` returns stands in the table under the key of the call.
pub append-found :
    (account : Account) (input : AppendInput) (s : Store) {r : AppendResult} {account' : Account}
    {s' : Store}
    → append account input s ≡ ok ((r, account'), s')
    → find_entry input.entry_key s'.entries ≡ some r.entry
append-found account input s h = elim (append-eq_ok account input s h) [
  | inl (x, w) ↦ rw w.store_kept w.found
  | inr (p, fresh, w) ↦ rw (w.store, w.entry, key_eq_refl input.entry_key) refl
]

pub open_account-Keeps :
    (input : OpenInput) (actor : Option ℕ) (id : ℕ) (s : Store) {a : Account} {s' : Store}
    → open_account input actor id s ≡ ok (a, s')
    → Keeps s.entries s'.entries
open_account-Keeps input actor id s h =
    let (cents, r, account', _, _, appended, _) = open_account-eq_ok input actor id s h in
    append-Keeps _ _ _ appended
