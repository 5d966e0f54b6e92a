-- ===== src/Engine/Reachable.antt =====
-- The ledger in every state that the engine, the control and the opening of accounts can reach.
use api_score.Base.{ℕ, ◌≤◌, ◌≡◌, sym, true, Option, some}
use mathlib.Core.Path.{subst}
use api_score.Base.Int.{pos, ◌≤ℤ◌}
use api_score.Base.Tx.{ok}
use api_score.Money.{Text}
use api_score.Ledger.Defs
use api_score.Ledger.Defs.{EntryKey, Entry, Account}
use api_score.Ledger.Service.{OpenInput, find_account, open_account}
use api_score.Ledger.Checks.{InvariantReport, verify_invariant}
use api_score.Ledger.Invariant.{IsSound}
use api_score.Ledger.Opening.{open_account-IsSound}
use api_score.Ledger.Audit.{verify_invariant-IsSound}
use api_score.Control.Defs.{ControlStore}
use api_score.Control.Governed
use api_score.Engine.Defs.{Store, EngineEnv, ReserveStakeRequest}
use api_score.Engine.Service.{release_stake, settle_stake, reserve_stake, check_ledger_invariant}
use api_score.Engine.Moves.{Moves-IsSound, release_stake-Moves}
use api_score.Engine.Outcomes.{
  reserve_stake-Moves, settle_stake-Moves, check_ledger_invariant-ledger,
}

-- A call of the engine, the opening of an account, an operation of the control, or time that passes.
pub data Step : Store → Store → Type 0 where
  reserves :
      (env : EngineEnv) (request : ReserveStakeRequest) (s : Store)
      → Step s (reserve_stake env request s).1
  releases :
      (id : ℕ) (key : EntryKey) (stake : Text) (order : Option ℕ) (s s' : Store) {e : Entry}
      → (release_stake id key stake order s).1 ≡ ok (e, s')
      → Step s s'
  settles :
      (env : EngineEnv) (id : ℕ) (key : EntryKey) (stake payout : Text) (order : Option ℕ)
      (s : Store)
      → Step s (settle_stake env id key stake payout order s).1
  checks : (env : EngineEnv) (id : ℕ) (s : Store) → Step s (check_ledger_invariant env id s).1
  opens :
      (input : OpenInput) (actor : Option ℕ) (id : ℕ) (s : Store) {a : Account} (l : Defs.Store)
      → open_account input actor id s.ledger ≡ ok (a, l)
      → Step s (record s { ledger = l })
  controls :
      (s : Store) (c : ControlStore) → Governed.Step s.control c → Step s (record s { control = c })
  ticks :
      (s : Store) (t : ℕ)
      → s.ledger.now ≤ t
      → Step s (record s { ledger = record s.ledger { now = t } })

pub data Reach (s : Store) : Store → Type 0 where
  here : Reach s s
  next : {t u : Store} → Reach s t → Step t u → Reach s u

ticked-IsSound : (l : Defs.Store) (t : ℕ) → IsSound l → IsSound (record l { now = t })
ticked-IsSound l t sound = record { consistent = sound.consistent; owned = sound.owned }

Step-IsSound : {s s' : Store} → Step s s' → IsSound s.ledger → IsSound s'.ledger
Step-IsSound (reserves env request s) sound =
    Moves-IsSound s.ledger (reserve_stake env request s).1.ledger
      (reserve_stake-Moves env request s) sound
Step-IsSound (releases id key stake order s s' h) sound =
    Moves-IsSound s.ledger s'.ledger (release_stake-Moves id key stake order s h) sound
Step-IsSound (settles env id key stake payout order s) sound =
    Moves-IsSound s.ledger (settle_stake env id key stake payout order s).1.ledger
      (settle_stake-Moves env id key stake payout order s) sound
Step-IsSound (checks env id s) sound =
    subst IsSound (sym (check_ledger_invariant-ledger env id s)) sound
Step-IsSound (opens input actor id s l h) sound =
    (open_account-IsSound input actor id s.ledger sound h).0
Step-IsSound (controls s c h) sound = sound
Step-IsSound (ticks s t h) sound = ticked-IsSound s.ledger t sound

pub Reach-IsSound : {s s' : Store} → Reach s s' → IsSound s.ledger → IsSound s'.ledger
Reach-IsSound here sound = sound
Reach-IsSound (next r st) sound = Step-IsSound st (Reach-IsSound r sound)

-- However the tables came to be, from sound ones, by reservations, releases, settlements, checks,
-- openings of accounts, operations of the control and time: no account is overdrawn, and the check
-- of the ledger comes back with "ok" for every account that exists.
pub reached_books :
    (s s' : Store) (id : ℕ) (a : Account)
    → IsSound s.ledger
    → Reach s s'
    → find_account id s'.ledger.accounts ≡ some a
    → (pos 0 ≤ℤ a.available)
      × (pos 0 ≤ℤ a.reserved)
      × ((rep : InvariantReport) × (verify_invariant id s'.ledger ≡ ok (rep, s'.ledger))
          × (rep.is_ok ≡ true))
reached_books s s' id a sound r found =
    let after = Reach-IsSound r sound in
    let c = after.consistent id a found in
    (c.available_nonneg, c.reserved_nonneg, verify_invariant-IsSound id s'.ledger after found)
