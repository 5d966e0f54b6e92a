-- ===== src/Ledger/Batch.antt =====
-- `appendBatch` of ledger.service.ts: several entries of one account, with one update of its row.
use api_score.Base.{
  ℕ, Bool, false, not, ◌&&◌, ◌||◌, Option, none, some, List, [], ◌∷◌, ◌==◌, if◌then◌else◌, is_some,
}
use api_score.Base.Rows.{update_where, count_where, exists_where, onto}
use api_score.Base.Tx.{
  Result, ok, err, http, conflict, other, Tx, pure, gets, lift, modify, throw_if, ◌>>=◌, ◌>>◌,
}
use api_score.Ledger.Defs.{
  key_eq, Account, Entry, Store, Effect, PlannedEntry, movement_effect, plan_entry,
}
use api_score.Ledger.Service.{
  AppendInput, AppendResult, find_entry, balances_of, is_replay, planned_row, prints, clashes,
  moved_account,
}

-- `new Set(keys).size !== keys.length`
abbrev pub has_duplicate : List AppendInput → Bool
has_duplicate [] = false
has_duplicate (i ∷ is) = exists_where (λ j. key_eq j.entry_key i.entry_key) is || has_duplicate is

-- A key that is there already: the same movement is passed over.
abbrev pub replay_turn :
    Account → List Entry → AppendInput → Entry → Result Effect → Result (Account × List Entry)
replay_turn a rows i e (ok x) = if is_replay a i.type x e then ok (a, rows) else err (http conflict)
replay_turn a rows i e (err f) = err f

-- A new key: one more row.
abbrev pub write_turn :
    ℕ → Account → List Entry → AppendInput → Result PlannedEntry → Result (Account × List Entry)
write_turn now a rows i (ok p) =
    if prints p then ok (moved_account p a, planned_row a i p now ∷ rows) else err other
write_turn now a rows i (err f) = err f

-- One turn of the loop: `a` is the account with the balances and the version so far, `rows` the
-- entries so far, the newest first.
abbrev pub plan_turn :
    Option Entry → ℕ → Account → List Entry → AppendInput → Result (Account × List Entry)
plan_turn (some e) now a rows i = replay_turn a rows i e (movement_effect i.type i.movement)
plan_turn none now a rows i = write_turn now a rows i (plan_entry i.type (balances_of a) i.movement)

abbrev pub plan_batch :
    List Entry → ℕ → Account → List Entry → List AppendInput → Result (Account × List Entry)
plan_batch existing now a rows [] = ok (a, rows)
plan_batch existing now a rows (i ∷ is) =
    elim (plan_turn (find_entry i.entry_key existing) now a rows i) [
      | ok r ↦ plan_batch existing now r.0 r.1 is
      | err f ↦ err f
    ]

-- The unique indexes, for rows that are inserted together.
abbrev pub any_clash : List Entry → List Entry → Bool
any_clash [] es = false
any_clash (row ∷ rows) es = exists_where (clashes row) (onto rows es) || any_clash rows es

abbrev pub moved_to : Account → Account → Account
moved_to a o = record o { available = a.available; reserved = a.reserved; version = a.version }

abbrev pub is_read_row : Account → Account → Bool
is_read_row account a = a.id == account.id && a.version == account.version

-- The rows are inserted and the account is updated, if there are rows.
unfoldable pub write_batch : Account → Account → List Entry → Tx Store (Unit {0})
write_batch account a [] = pure tt
write_batch account a (row ∷ rows) = do
  taken ← gets (λ s. any_clash (row ∷ rows) s.entries)
  throw_if taken other
  modify (λ s. record s { entries = onto (row ∷ rows) s.entries })
  affected ← gets (λ s. count_where (is_read_row account) s.accounts)
  throw_if (not (affected == 1)) (http conflict)
  modify (λ s. record s { accounts = update_where (is_read_row account) (moved_to a) s.accounts })

-- `byKey.get(…)!`; every key is in the table by then.
abbrev pub results_of : List Entry → List Entry → List AppendInput → Result (List AppendResult)
results_of existing all [] = ok []
results_of existing all (i ∷ is) = elim (find_entry i.entry_key all) [
  | none ↦ err other
  | some e ↦ elim (results_of existing all is) [
    | err f ↦ err f
    | ok rs ↦ ok (record { entry = e; replayed = is_some (find_entry i.entry_key existing) } ∷ rs)
  ]
]

-- `appendBatch`, with the account as it leaves its argument.
unfoldable pub append_batch : Account → List AppendInput → Tx Store (List AppendResult × Account)
unfolding write_batch movement_effect plan_entry
append_batch account [] = pure ([], account)
append_batch account (i ∷ is) = do
  throw_if (has_duplicate (i ∷ is)) (http conflict)
  s ← gets (λ s. s)
  planned ← lift (plan_batch s.entries s.now account [] (i ∷ is))
  write_batch account planned.0 planned.1
  all ← gets (λ t. t.entries)
  results ← lift (results_of s.entries all (i ∷ is))
  pure (results, planned.0)
