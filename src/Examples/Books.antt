-- ===== src/Examples/Books.antt =====
-- Runs of the ledger and of the amounts on concrete inputs.
use api_score.Base.{◌≡◌, ◌↔◌, refl, true, false, none, some, [], ◌∷◌, arith}
use api_score.Base.Int.{pos, negsuc, ◌+ℤ◌, neg}
use api_score.Base.Tx.{ok}
use api_score.Money.{Text, to_cents, from_cents}
use api_score.Money.RoundTrip.{to_cents-from_cents}
use api_score.Domain.{known, sandbox, reserve, settle, adjustment}
use api_score.Ledger.Defs.{
  Account, Entry, Store, PlannedEntry, EntryMovement, reserve_key, movement_effect, plan_entry,
  opening,
}
use api_score.Ledger.Service.{
  OpenInput, AppendInput, find_account, open_account, append, write, replay, insert_entry,
  write_balances, balances_of,
}
use api_score.Ledger.Checks.{verify_invariant}
use api_score.Ledger.Invariant.{IsSound}
use api_score.Ledger.AppendLaws.{append-IsSound, append_again}
use api_score.Ledger.Audit.{Agrees, verify_invariant_iff}
use api_score.Ledger.Opening.{open_account-IsSound}

-- "100.00"
abbrev pub hundred : Text
hundred = b'1' ∷ b'0' ∷ b'0' ∷ b'.' ∷ b'0' ∷ b'0' ∷ []

to_cents-from_cents_example :
    (t : Text) × (from_cents (negsuc 1204) ≡ ok t) × (to_cents t ≡ ok (negsuc 1204))
to_cents-from_cents_example = to_cents-from_cents (negsuc 1204) (omega arith)

abbrev no_tables : Store
no_tables = record { accounts = []; entries = []; now = 90000000 }

no_tables-IsSound : IsSound no_tables
no_tables-IsSound = record { consistent = λ id a h. cc; owned = λ id h. refl }

abbrev pub opening_input : OpenInput
opening_input = record {
  mode = known sandbox;
  operator_key = 1;
  currency = 1;
  initial_balance = hundred;
}

-- The account with 100.00 in it, and the entry that brought it.
abbrev pub opened : Account
opened = record {
  id = 7;
  mode = known sandbox;
  operator_key = 1;
  currency = 1;
  available = pos 10000;
  reserved = pos 0;
  version = 2;
}

abbrev pub opening_row : Entry
opening_row = record {
  account_id = 7;
  order_id = none;
  entry_key = opening 7;
  entry_type = adjustment;
  amount = pos 10000;
  reserved_delta = pos 0;
  available_after = pos 10000;
  reserved_after = pos 0;
  currency = 1;
  account_version = 2;
  actor_user_id = some 4;
  created_at = 90000000;
}

abbrev pub opened_tables : Store
opened_tables = record { accounts = opened ∷ []; entries = opening_row ∷ []; now = 90000000 }

open_account-opened : open_account opening_input (some 4) 7 no_tables ≡ ok (opened, opened_tables)
unfolding open_account append write replay insert_entry write_balances plan_entry movement_effect
    to_cents ◌+ℤ◌
open_account-opened = refl

pub opened_tables-IsSound : IsSound opened_tables
opened_tables-IsSound =
    (open_account-IsSound opening_input (some 4) 7 no_tables no_tables-IsSound
      open_account-opened).0

-- The reservation of 25.00 for order 12.
abbrev pub reserve_input : AppendInput
reserve_input = record {
  type = reserve;
  entry_key = reserve_key 12;
  movement = record { stake_cents = some (pos 2500); payout_cents = none; adjustment_cents = none };
  order_id = some 12;
  actor_user_id = none;
}

abbrev pub reserve_row : Entry
reserve_row = record {
  account_id = 7;
  order_id = some 12;
  entry_key = reserve_key 12;
  entry_type = reserve;
  amount = negsuc 2499;
  reserved_delta = pos 2500;
  available_after = pos 7500;
  reserved_after = pos 2500;
  currency = 1;
  account_version = 3;
  actor_user_id = none;
  created_at = 90000000;
}

abbrev pub staked : Account
staked = record opened { available = pos 7500; reserved = pos 2500; version = 3 }

abbrev pub staked_tables : Store
staked_tables = record {
  accounts = staked ∷ [];
  entries = reserve_row ∷ opening_row ∷ [];
  now = 90000000;
}

append-staked :
    append opened reserve_input opened_tables
    ≡ ok ((record { entry = reserve_row; replayed = false }, staked), staked_tables)
unfolding append write replay insert_entry write_balances plan_entry movement_effect ◌+ℤ◌ neg
append-staked = refl

append-IsSound_example :
    IsSound staked_tables × (find_account 7 staked_tables.accounts ≡ some staked)
append-IsSound_example =
    append-IsSound opened reserve_input opened_tables opened_tables-IsSound refl append-staked

append_again_example :
    append staked reserve_input staked_tables
    ≡ ok ((record { entry = reserve_row; replayed = true }, staked), staked_tables)
append_again_example = append_again opened reserve_input opened_tables append-staked

-- The table of accounts as a lost update would leave it.
abbrev damaged_tables : Store
damaged_tables = record staked_tables { accounts = opened ∷ [] }

verify_invariant-damaged :
    verify_invariant 7 damaged_tables
    ≡ ok (
      record {
        is_ok = false;
        account = record { available_cents = pos 10000; reserved_cents = pos 0 };
        ledger_sum = record { available_cents = pos 7500; reserved_cents = pos 2500 };
        last_balances = some (record { available_cents = pos 7500; reserved_cents = pos 2500 });
      },
      damaged_tables,
    )
unfolding verify_invariant ◌+ℤ◌
verify_invariant-damaged = refl

verify_invariant_iff_example :
    ((false ≡ true) ↔ Agrees opened damaged_tables.entries) × (damaged_tables ≡ damaged_tables)
verify_invariant_iff_example = verify_invariant_iff 7 damaged_tables refl verify_invariant-damaged

-- A settlement of 25.00 that pays 60.00.
abbrev settle_movement : EntryMovement
settle_movement = record {
  stake_cents = some (pos 2500);
  payout_cents = some (pos 6000);
  adjustment_cents = none;
}

abbrev settle_plan : PlannedEntry
settle_plan = record {
  amount_cents = pos 6000;
  reserved_delta_cents = negsuc 2499;
  available_after_cents = pos 13500;
  reserved_after_cents = pos 0;
}

plan_entry-settle : plan_entry settle (balances_of staked) settle_movement ≡ ok settle_plan
unfolding plan_entry movement_effect ◌+ℤ◌ neg
plan_entry-settle = refl
