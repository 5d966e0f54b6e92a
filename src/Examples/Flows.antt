-- ===== src/Examples/Flows.antt =====
-- Runs of the engine over several calls.
use api_score.Base.{◌≡◌, refl, sym, true, none, some, [], ◌∷◌, arith}
use mathlib.Core.Path.{subst}
use api_score.Base.Int.{ℤ, pos, negsuc, neg, ◌+ℤ◌, ◌≤ℤ◌, ◌<ℤ◌}
use api_score.Base.Tx.{ok}
use api_score.Money.{Text, to_cents}
use api_score.Domain.{known, disabled, release, settle, control_disabled}
use api_score.Risk.{evaluate_risk}
use api_score.Ledger.Defs.{Account, Entry, release_key, settle_key, plan_entry, movement_effect}
use api_score.Ledger.Service.{lock_account, append, write, replay, insert_entry, write_balances}
use api_score.Ledger.Checks.{InvariantReport, daily_aggregates, verify_invariant}
use api_score.Control.Defs.{ControlStore, to_snapshot, execution_allowed}
use api_score.Control.Service.{read_control, lock_for_execution, assert_clock_within_tolerance}
use api_score.Control.Changes.{active_policy}
use api_score.Engine.Defs.{Store, rejected}
use api_score.Engine.Service.{
  release_stake, settle_within, settle_stake, reserve_stake, settle_verdict, reserve_matched,
  reserve_under, reserve_new, reserve_within,
}
use api_score.Engine.Reachable.{here, next, reserves, releases, ticks, reached_books}
use api_score.Engine.Stopped.{reserve_stake-stopped}
use api_score.Orders.Defs.{OrderStore}
use api_score.Orders.Steps.{recover_stale_submissions}
use api_score.Orders.Reachable.{one, recovers}
use api_score.Orders.Once.{now, calls, transacts, release_stake_once, settle_stake_once}
use api_score.Engine.Amounts.{IsShifted, settle_stake-shifts}
use api_score.Examples.Books.{
  opened, opened_tables-IsSound, staked_tables, reserve_row, opening_row,
}
use api_score.Examples.Stakes.{before, env, request, control_row}

-- "25"
abbrev stake : Text
stake = b'2' ∷ b'5' ∷ []

abbrev staked_state : Store
staked_state = record before { ledger = staked_tables }

abbrev release_row : Entry
release_row = record {
  account_id = 7;
  order_id = some 12;
  entry_key = release_key 12;
  entry_type = release;
  amount = pos 2500;
  reserved_delta = negsuc 2499;
  available_after = pos 10000;
  reserved_after = pos 0;
  currency = 1;
  account_version = 4;
  actor_user_id = none;
  created_at = 90000000;
}

abbrev released_state : Store
released_state = record before {
  ledger = record {
    accounts = record opened { version = 4 } ∷ [];
    entries = release_row ∷ reserve_row ∷ opening_row ∷ [];
    now = 90000000;
  };
}

release_stake-released :
    (release_stake 7 (release_key 12) stake (some 12) staked_state).1
    ≡ ok (release_row, released_state)
unfolding release_stake lock_account append write insert_entry write_balances plan_entry
    movement_effect to_cents ◌+ℤ◌ neg
release_stake-released = refl

abbrev later_state : Store
later_state = record released_state { ledger = record released_state.ledger { now = 95000000 } }

-- The tables of the engine, without an order.
abbrev around : Store → OrderStore
around e = record { engine = e; orders = []; decisions = []; receipts = []; runs = []; placed = [] }

-- The same release, without its order, 5000 seconds later.
release_stake-again :
    (release_stake 7 (release_key 12) stake none later_state).1 ≡ ok (release_row, later_state)
unfolding release_stake lock_account append replay movement_effect to_cents neg
release_stake-again = refl

release_stake_once_example : (release_row ≡ release_row) × (later_state.ledger ≡ later_state.ledger)
release_stake_once_example =
    release_stake_once 7 7 (release_key 12) stake stake (some 12) none staked_state
      (around released_state) (around later_state) later_state release_stake-released
      (calls now (ticks released_state 95000000 (omega arith))) release_stake-again

abbrev stopped_control : ControlStore
stopped_control = record before.control {
  control = some (record control_row { mode = known disabled });
}

reserve_stake-stopped_example :
    reserve_stake env request (record before { control = stopped_control })
    ≡ (rejected control_disabled none, record before { control = stopped_control })
reserve_stake-stopped_example =
    reserve_stake-stopped env request (record before { control = stopped_control })
      (record control_row { mode = known disabled }, refl, refl)

abbrev settle_row : Entry
settle_row = record {
  account_id = 7;
  order_id = some 12;
  entry_key = settle_key 12;
  entry_type = settle;
  amount = pos 0;
  reserved_delta = negsuc 2499;
  available_after = pos 7500;
  reserved_after = pos 0;
  currency = 1;
  account_version = 4;
  actor_user_id = none;
  created_at = 90000000;
}

abbrev settled_state : Store
settled_state = record before {
  ledger = record {
    accounts = record opened { available = pos 7500; version = 4 } ∷ [];
    entries = settle_row ∷ reserve_row ∷ opening_row ∷ [];
    now = 90000000;
  };
}

-- The bet is lost: the payout is "0".
settle_stake-settled :
    settle_stake env 7 (settle_key 12) stake (b'0' ∷ []) (some 12) staked_state
    ≡ (ok settle_row, settled_state)
unfolding settle_stake settle_within lock_account append write insert_entry write_balances
    plan_entry movement_effect to_cents daily_aggregates read_control to_snapshot active_policy ◌+ℤ◌
    neg
settle_stake-settled = refl

settle_stake-again :
    settle_stake env 7 (settle_key 12) stake (b'0' ∷ []) (some 12) settled_state
    ≡ (ok settle_row, settled_state)
unfolding settle_stake settle_within lock_account append replay movement_effect to_cents
    daily_aggregates read_control to_snapshot active_policy ◌+ℤ◌ neg
settle_stake-again = refl

settle_stake_once_example :
    (settle_row ≡ settle_row) × (settled_state.ledger ≡ settled_state.ledger)
unfolding recover_stale_submissions
settle_stake_once_example =
    settle_stake_once env env 7 7 (settle_key 12) stake stake (b'0' ∷ []) (b'0' ∷ []) (some 12)
      (some 12) staked_state (around settled_state) (around settled_state) settled_state
      settle_stake-settled (transacts now (one (recovers 95000000 (around settled_state))))
      settle_stake-again

reserve_stake-staked : (reserve_stake env request before).1 ≡ staked_state
unfolding reserve_stake reserve_within reserve_new reserve_under reserve_matched settle_verdict
    lock_account daily_aggregates append write insert_entry write_balances plan_entry
    movement_effect lock_for_execution assert_clock_within_tolerance to_snapshot execution_allowed
    active_policy to_cents evaluate_risk ◌+ℤ◌ neg
reserve_stake-staked = refl

-- A reservation, then a release.
reached_books_example :
    (pos 0 ≤ℤ pos 10000)
    × (pos 0 ≤ℤ pos 0)
    × ((rep : InvariantReport) × (verify_invariant 7 released_state.ledger
          ≡ ok (rep, released_state.ledger))
        × (rep.is_ok ≡ true))
reached_books_example =
    reached_books before released_state 7 (record opened { version = 4 }) opened_tables-IsSound
      (next (next here (reserves env request before)) (
        releases 7 (release_key 12) stake (some 12) (reserve_stake env request before).1
          released_state
          (subst
            (λ (s : Store).
              (release_stake 7 (release_key 12) stake (some 12) s).1
              ≡ ok (release_row, released_state))
            (sym reserve_stake-staked) release_stake-released)))
      refl

settle_stake-shifts_example :
    (cents : ℤ) × (paid : ℤ) × (account : Account) × (account' : Account) × (to_cents stake
      ≡ ok cents)
    × (to_cents (b'0' ∷ []) ≡ ok paid)
    × (pos 0 <ℤ cents)
    × (pos 0 ≤ℤ paid)
    × IsShifted 7 paid (neg cents) staked_tables settled_state.ledger 8 account account'
settle_stake-shifts_example =
    settle_stake-shifts env 7 8 (settle_key 12) stake (b'0' ∷ []) (some 12) staked_state
      settled_state (λ h. absurd (omega (arith, h))) refl settle_stake-settled
