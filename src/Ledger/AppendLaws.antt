-- ===== src/Ledger/AppendLaws.antt =====
-- `append` as a whole: what each outcome means, and that a repeated call writes nothing.
use api_score.Base.{
  ℕ, ◌≡◌, refl, sym, ◌∙◌, ◌⊎◌, inl, inr, true, Option, none, some, arith, ◌==◌, ==_refl, eq_of_some,
}
use api_score.Base.Int.{eqb_ℤ, eqb_ℤ_refl, eqb_ℤ_iff}
use api_score.Base.Tx.{ok, Result-cases}
use api_score.Domain.{LedgerEntryType, entry_type_eq}
use api_score.Ledger.Defs.{
  Account, Entry, Store, Effect, PlannedEntry, movement_effect, plan_effect,
}
use api_score.Ledger.Service.{
  AppendInput, AppendResult, find_account, find_entry, balances_of, is_replay, planned_row, replay,
  append, append_found, moved_account,
}
use api_score.Ledger.Effects.{plan_entry-IsBalanced, plan_entry-eq_ok}
use api_score.Ledger.Append.{IsWritten, write-IsWritten, key_eq_refl, written}
use api_score.Ledger.Invariant.{IsSound, written-IsSound, find_account-update}

-- A replay: the entry was there, for the same movement of the same account, and nothing changes.
pub record IsReplayed (account : Account) (input : AppendInput) (s : Store) (r : AppendResult)
    (account' : Account) (s' : Store) (x : Effect) : Type 0 where
  pub found : find_entry input.entry_key s.entries ≡ some r.entry
  pub effect : movement_effect input.type input.movement ≡ ok x
  pub same : is_replay account input.type x r.entry ≡ true
  pub marked : r.replayed ≡ true
  pub account_kept : account' ≡ account
  pub store_kept : s' ≡ s

replay-IsReplayed :
    (account : Account) (input : AppendInput) (e : Entry) (s : Store) {r : AppendResult}
    {account' : Account} {s' : Store}
    → find_entry input.entry_key s.entries ≡ some e
    → replay account input e s ≡ ok ((r, account'), s')
    → (x : Effect) × IsReplayed account input s r account' s' x
unfolding replay
replay-IsReplayed account input e s f h =
    elim (Result-cases (movement_effect input.type input.movement)) [
      | inl (x, q) ↦ (x, ground arith)
      | inr (b, q) ↦ absurd (ground arith)
    ]

-- `append` succeeds by a replay or by writing one entry, with no third way.
pub append-eq_ok :
    (account : Account) (input : AppendInput) (s : Store) {r : AppendResult} {account' : Account}
    {s' : Store}
    → append account input s ≡ ok ((r, account'), s')
    → ((x : Effect) × IsReplayed account input s r account' s' x)
      ⊎ ((p : PlannedEntry) × (find_entry input.entry_key s.entries ≡ none)
          × IsWritten account input s r account' s' p)
unfolding append
append-eq_ok account input s {r} {account'} {s'} h =
    go (find_entry input.entry_key s.entries) refl h
  where
    go :
        (o : Option Entry)
        → find_entry input.entry_key s.entries ≡ o
        → append_found o account input s ≡ ok ((r, account'), s')
        → ((x : Effect) × IsReplayed account input s r account' s' x)
          ⊎ ((p : PlannedEntry) × (find_entry input.entry_key s.entries ≡ none)
              × IsWritten account input s r account' s' p)
    go (some e) f k = inl (replay-IsReplayed account input e s f k)
    go none f k = let (p, w) = write-IsWritten account input s k in inr (p, f, w)

-- A successful `append` on a locked account keeps the books sound, and the account that it hands
-- back is the row that the table then holds.
pub append-IsSound :
    (account : Account) (input : AppendInput) (s : Store) {r : AppendResult} {account' : Account}
    {s' : Store}
    → IsSound s
    → find_account account.id s.accounts ≡ some account
    → append account input s ≡ ok ((r, account'), s')
    → IsSound s' × (find_account account.id s'.accounts ≡ some account')
append-IsSound account input s {r} {account'} {s'} sound locked h =
    elim (append-eq_ok account input s h) [
      | inl (x, w) ↦ (rw w.store_kept sound, rw (w.store_kept, w.account_kept) locked)
      | inr (p, f, w) ↦ (
        rw w.store (
            written-IsSound account input s p sound locked
              (plan_entry-IsBalanced input.type (balances_of account) input.movement w.planned)
              w.printed),
        rw (w.store, w.moved, find_account-update account p account.id s.accounts, locked)
            (rw (==_refl account.id, ==_refl account.version)),
      )
    ]

append_replays :
    (account : Account) (input : AppendInput) (s : Store) (e : Entry) (x : Effect)
    → find_entry input.entry_key s.entries ≡ some e
    → movement_effect input.type input.movement ≡ ok x
    → is_replay account input.type x e ≡ true
    → append account input s ≡ ok ((record { entry = e; replayed = true }, account), s)
unfolding append
append_replays account input s e x f m h = rw (f, m, h)

pub entry_type_eq_refl : (t : LedgerEntryType) → entry_type_eq t t ≡ true
entry_type_eq_refl t = ==_refl _

pub plan_effect-amounts :
    (t : LedgerEntryType) (account : Account) (x : Effect) {p : PlannedEntry}
    → plan_effect t (balances_of account) x ≡ ok p
    → (p.amount_cents ≡ x.amount_cents) × (p.reserved_delta_cents ≡ x.reserved_delta_cents)
plan_effect-amounts LedgerEntryType.reserve account x h = ground arith
plan_effect-amounts _ account x h = ground arith

is_replay-planned_row :
    (account : Account) (input : AppendInput) (x : Effect) (p : PlannedEntry) (now : ℕ)
    → p.amount_cents ≡ x.amount_cents
    → p.reserved_delta_cents ≡ x.reserved_delta_cents
    → is_replay (moved_account p account) input.type x (planned_row account input p now) ≡ true
is_replay-planned_row account input x p now a d = ground (
  arith,
  entry_type_eq_refl input.type,
  eqb_ℤ_refl x.amount_cents,
  eqb_ℤ_refl x.reserved_delta_cents,
)

-- A call repeated with the same key and movement succeeds, gives the entry of the first call
-- marked as replayed, and writes nothing.
pub append_again :
    (account : Account) (input : AppendInput) (s : Store) {r : AppendResult} {account' : Account}
    {s' : Store}
    → append account input s ≡ ok ((r, account'), s')
    → append account' input s' ≡ ok ((record { entry = r.entry; replayed = true }, account'), s')
append_again account input s {r} {account'} {s'} h = elim (append-eq_ok account input s h) [
  | inl (x, w) ↦
      rw (w.store_kept, w.account_kept)
        (append_replays account input s r.entry x w.found w.effect w.same)
  | inr (p, f, w) ↦
      let (x, m, q) = plan_entry-eq_ok input.type (balances_of account) input.movement w.planned in
      let (a, d) = plan_effect-amounts input.type account x q in
      rw (w.store, w.moved, w.entry)
        (append_replays (moved_account p account) input (written account input p s)
          (planned_row account input p s.now) x (rw (key_eq_refl input.entry_key)) m
          (is_replay-planned_row account input x p s.now a d))
]

entry_type_eq→eq : (a b : LedgerEntryType) → entry_type_eq a b ≡ true → a ≡ b
entry_type_eq→eq a b h = ground arith

-- The four comparisons of a replay.
pub is_replay_parts :
    (account : Account) (t : LedgerEntryType) (x : Effect) (e : Entry)
    → is_replay account t x e ≡ true
    → ((e.account_id == account.id) ≡ true)
      × (entry_type_eq e.entry_type t ≡ true)
      × (eqb_ℤ e.amount x.amount_cents ≡ true)
      × (eqb_ℤ e.reserved_delta x.reserved_delta_cents ≡ true)
is_replay_parts account t x e h = ground arith

-- A key that an entry has already is refused for any other account, type or amount: a success on
-- such a key is that entry, unchanged, on the same account and of the same type and amounts.
pub append_used_key :
    (account : Account) (input : AppendInput) (s : Store) (e : Entry) {r : AppendResult}
    {account' : Account} {s' : Store}
    → find_entry input.entry_key s.entries ≡ some e
    → append account input s ≡ ok ((r, account'), s')
    → (x : Effect) × (movement_effect input.type input.movement ≡ ok x)
      × (r.entry ≡ e)
      × (e.account_id ≡ account.id)
      × (e.entry_type ≡ input.type)
      × (e.amount ≡ x.amount_cents)
      × (e.reserved_delta ≡ x.reserved_delta_cents)
      × (s' ≡ s)
append_used_key account input s e {r} f h = elim (append-eq_ok account input s h) [
  | inl (x, w) ↦
      let found : r.entry ≡ e = eq_of_some (sym w.found ∙ f) in
      let same : is_replay account input.type x e ≡ true = rw found at w.same in
      let (i, t, a, d) = is_replay_parts account input.type x e same in
      (
        x,
        w.effect,
        found,
        ground arith,
        entry_type_eq→eq e.entry_type input.type t,
        (eqb_ℤ_iff e.amount x.amount_cents).0 a,
        (eqb_ℤ_iff e.reserved_delta x.reserved_delta_cents).0 d,
        w.store_kept,
      )
  | inr (p, none_found, w) ↦ absurd (cc (sym f ∙ none_found))
]
