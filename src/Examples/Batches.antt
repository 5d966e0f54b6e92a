-- ===== src/Examples/Batches.antt =====
-- A batch of movements on concrete inputs.
use api_score.Base.Quantifiers.{AllOf}
use api_score.Ledger.Batch.{append_batch, write_batch}
use api_score.Ledger.BatchSound.{HaveOwnKeys, append_batch-IsSound}
use api_score.Base.{is_some, ◌≡◌, refl, true, false, none, some, [], ◌∷◌}
use api_score.Base.Int.{pos, negsuc, ◌+ℤ◌, neg}
use api_score.Base.Tx.{ok}
use api_score.Domain.{release}
use api_score.Ledger.Defs.{release_partial_key, Account, Entry, Store, movement_effect, plan_entry}
use api_score.Ledger.Service.{find_entry, AppendInput}
use api_score.Ledger.Invariant.{IsSound}
use api_score.Examples.Books.{
  opened, opening_row, opened_tables, opened_tables-IsSound, reserve_input, reserve_row,
}

-- A reservation of 25.00 and the release of 10.00 of it, in one batch.
abbrev given_back_input : AppendInput
given_back_input = record {
  type = release;
  entry_key = release_partial_key 12;
  movement = record { stake_cents = some (pos 1000); payout_cents = none; adjustment_cents = none };
  order_id = some 12;
  actor_user_id = none;
}

abbrev release_row : Entry
release_row = record {
  account_id = 7;
  order_id = some 12;
  entry_key = release_partial_key 12;
  entry_type = release;
  amount = pos 1000;
  reserved_delta = negsuc 999;
  available_after = pos 8500;
  reserved_after = pos 1500;
  currency = 1;
  account_version = 4;
  actor_user_id = none;
  created_at = 90000000;
}

abbrev eased : Account
eased = record opened { available = pos 8500; reserved = pos 1500; version = 4 }

abbrev eased_tables : Store
eased_tables = record {
  accounts = eased ∷ [];
  entries = release_row ∷ reserve_row ∷ opening_row ∷ [];
  now = 90000000;
}

append_batch-eased :
    append_batch opened (reserve_input ∷ given_back_input ∷ []) opened_tables
    ≡ ok (
      (
        record { entry = reserve_row; replayed = false }
            ∷ record { entry = release_row; replayed = false }
            ∷ [],
        eased,
      ),
      eased_tables,
    )
unfolding append_batch write_batch plan_entry movement_effect ◌+ℤ◌ neg
append_batch-eased = refl

append_batch-IsSound_example :
    IsSound eased_tables
    × HaveOwnKeys (reserve_input ∷ given_back_input ∷ [])
    × AllOf
        (λ (i : AppendInput). is_some (find_entry i.entry_key eased_tables.entries) ≡ true)
        (reserve_input ∷ given_back_input ∷ [])
append_batch-IsSound_example =
    append_batch-IsSound opened (reserve_input ∷ given_back_input ∷ []) opened_tables
      opened_tables-IsSound refl append_batch-eased
