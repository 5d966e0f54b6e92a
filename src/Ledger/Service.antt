-- ===== src/Ledger/Service.antt =====
-- `append` and `openAccount` of `LedgerService`. Each is the body of a transaction.
use api_score.Base.{
  ℕ, ◌+◌, Bool, true, false, not, ◌&&◌, ◌||◌, Option, none, some, List, ◌∷◌, ◌==◌, is_some,
}
use api_score.Base.Int.{ℤ, pos, leb_ℤ, eqb_ℤ}
use api_score.Base.Rows.{find, update_where, count_where, exists_where}
use api_score.Base.Tx.{
  ledger_rule, opening_balance, http, conflict, not_found, other, Tx, pure, gets, or_throw, lift,
  modify, throw_if, ◌>>=◌, ◌>>◌,
}
use api_score.Money.{Text, to_cents, is_safe_integer}
use api_score.Domain.{StoredMode, stored_mode_eq, LedgerEntryType, adjustment, entry_type_eq}
use api_score.Ledger.Defs.{
  EntryKey, opening, key_eq, Account, Entry, Store, Balances, Effect, PlannedEntry, EntryMovement,
  movement_effect, plan_entry,
}

pub record AppendInput : Type 0 where
  pub type : LedgerEntryType
  pub entry_key : EntryKey
  pub movement : EntryMovement
  pub order_id : Option ℕ
  pub actor_user_id : Option ℕ

pub record AppendResult : Type 0 where
  pub entry : Entry
  pub replayed : Bool

abbrev pub find_account : ℕ → List Account → Option Account
find_account id = find (λ a. a.id == id)

abbrev pub find_entry : EntryKey → List Entry → Option Entry
find_entry key = find (λ e. key_eq e.entry_key key)

-- `lockAccount`: the row as it stands when the lock is granted.
unfoldable pub lock_account : ℕ → Tx Store Account
lock_account id = do found ← gets (λ s. find_account id s.accounts); or_throw found (http not_found)

abbrev pub balances_of : Account → Balances
balances_of a = record { available_cents = a.available; reserved_cents = a.reserved }

-- `same` in `append`: the key was used on this account for the same movement.
abbrev pub is_replay : Account → LedgerEntryType → Effect → Entry → Bool
is_replay account type expected e =
    e.account_id == account.id
    && entry_type_eq e.entry_type type
    && eqb_ℤ e.amount expected.amount_cents
    && eqb_ℤ e.reserved_delta expected.reserved_delta_cents

unfoldable pub replay : Account → AppendInput → Entry → Tx Store (AppendResult × Account)
unfolding movement_effect
replay account input e = do
  expected ← lift (movement_effect input.type input.movement)
  throw_if (not (is_replay account input.type expected e)) (http conflict)
  pure (record { entry = e; replayed = true }, account)

abbrev pub planned_row : Account → AppendInput → PlannedEntry → ℕ → Entry
planned_row account input p now = record {
  account_id = account.id;
  order_id = input.order_id;
  entry_key = input.entry_key;
  entry_type = input.type;
  amount = p.amount_cents;
  reserved_delta = p.reserved_delta_cents;
  available_after = p.available_after_cents;
  reserved_after = p.reserved_after_cents;
  currency = account.currency;
  account_version = account.version + 1;
  actor_user_id = input.actor_user_id;
  created_at = now;
}

-- The range checks of the four calls of `fromCents`.
abbrev pub prints : PlannedEntry → Bool
prints p =
    is_safe_integer p.amount_cents
    && is_safe_integer p.reserved_delta_cents
    && is_safe_integer p.available_after_cents
    && is_safe_integer p.reserved_after_cents

-- The unique indexes of the table of entries.
abbrev pub clashes : Entry → Entry → Bool
clashes row e =
    key_eq e.entry_key row.entry_key
    || (e.account_id == row.account_id && e.account_version == row.account_version)

unfoldable pub insert_entry : Entry → Tx Store (Unit {0})
insert_entry row = do
  taken ← gets (λ s. exists_where (clashes row) s.entries)
  throw_if taken other
  modify (λ s. record s { entries = row ∷ s.entries })

abbrev pub moved_account : PlannedEntry → Account → Account
moved_account p a = record a {
  available = p.available_after_cents;
  reserved = p.reserved_after_cents;
  version = a.version + 1;
}

-- `UPDATE … WHERE id = :id AND version = :version`, refused unless one row is affected.
unfoldable pub write_balances : Account → PlannedEntry → Tx Store (Unit {0})
write_balances account p = do
  affected ←
      gets (λ s. count_where (λ a. a.id == account.id && a.version == account.version) s.accounts)
  throw_if (not (affected == 1)) (http conflict)
  modify (λ s. record s {
    accounts =
        update_where (λ a. a.id == account.id && a.version == account.version) (moved_account p)
          s.accounts;
  })

-- `append` for a key that no entry has.
unfoldable pub write : Account → AppendInput → Tx Store (AppendResult × Account)
unfolding plan_entry insert_entry write_balances
write account input = do
  p ← lift (plan_entry input.type (balances_of account) input.movement)
  throw_if (not (prints p)) other
  now ← gets (λ s. s.now)
  insert_entry (planned_row account input p now)
  write_balances account p
  found ← gets (λ s. find_entry input.entry_key s.entries)
  entry ← or_throw found other
  pure (record { entry = entry; replayed = false }, moved_account p account)

abbrev pub append_found : Option Entry → Account → AppendInput → Tx Store (AppendResult × Account)
append_found (some e) account input = replay account input e
append_found none account input = write account input

-- `append`, on an account that the caller has locked; with the result comes the account as the
-- source leaves its argument.
unfoldable pub append : Account → AppendInput → Tx Store (AppendResult × Account)
unfolding replay write
append account input s = append_found (find_entry input.entry_key s.entries) account input s

pub record OpenInput : Type 0 where
  pub mode : StoredMode
  pub operator_key : ℕ
  pub currency : ℕ
  pub initial_balance : Text

abbrev pub is_account_of : OpenInput → Account → Bool
is_account_of input a =
    stored_mode_eq a.mode input.mode
    && a.operator_key == input.operator_key
    && a.currency == input.currency

abbrev pub new_account : OpenInput → ℕ → Account
new_account input id = record {
  id = id;
  mode = input.mode;
  operator_key = input.operator_key;
  currency = input.currency;
  available = pos 0;
  reserved = pos 0;
  version = 1;
}

abbrev pub opening_entry : ℕ → ℤ → Option ℕ → AppendInput
opening_entry id cents actor = record {
  type = adjustment;
  entry_key = opening id;
  movement = record { stake_cents = none; payout_cents = none; adjustment_cents = some cents };
  order_id = none;
  actor_user_id = actor;
}

-- `openAccount`; `id` is the identifier that the database draws, refused if a row has it.
unfoldable pub open_account : OpenInput → Option ℕ → ℕ → Tx Store Account
open_account input actor id = do
  cents ← lift (to_cents input.initial_balance)
  throw_if (leb_ℤ cents (pos 0)) (ledger_rule opening_balance)
  existing ← gets (λ s. find (is_account_of input) s.accounts)
  throw_if (is_some existing) (http conflict)
  taken ← gets (λ s. exists_where (λ a. a.id == id) s.accounts)
  throw_if taken other
  modify (λ s. record s { accounts = new_account input id ∷ s.accounts })
  found ← gets (λ s. find (is_account_of input) s.accounts)
  created ← or_throw found (http not_found)
  append created (opening_entry created.id cents actor)
  row ← gets (λ s. find_account created.id s.accounts)
  or_throw row other
