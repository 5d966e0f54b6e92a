-- ===== src/Orders/Settling.antt =====
-- The settlement of a stake by the engine, an automatic stop and the opening of an account, seen from the orders.
use api_score.Base.{ℕ, ◌≡◌, refl, sym, ap, inl, inr, Bool, true, false, Option, some}
use mathlib.Core.Path.{subst}
use api_score.Base.Tx.{Result, ok, err, Failure, Result-cases}
use api_score.Money.{Text}
use api_score.Domain.{AutoStopTrigger}
use api_score.Ledger.Defs
use api_score.Ledger.Defs.{EntryKey, Entry, Account, settle_key, reserve_key}
use api_score.Ledger.Service.{OpenInput, find_entry, open_account, opening_entry}
use api_score.Ledger.History.{open_account-Keeps, append-found}
use api_score.Ledger.Opening.{open_account-IsSound, open_account-eq_ok}
use api_score.Engine.Defs.{Store, EngineEnv}
use api_score.Engine.Service.{settle_within, settle_stake, settled}
use api_score.Engine.Outcomes.{settle_stake-Moves}
use api_score.Engine.Safety.{apply_stop-ledger}
use api_score.Engine.Once.{settle_stake-appended}
use api_score.Orders.Defs.{OrderStore, OrderEnv}
use api_score.Orders.Entries.{
  IsLedgerStep, IsLedgerStep-refl, Unreserving, HasEntry, append-Unreserving, is_reserve_key,
  Moves-IsLedgerStep,
}
use api_score.Orders.Changes.{IsStep, same_orders-IsStep}
use api_score.Orders.Reserving.{stopped_if}

module _ (env : EngineEnv) (id : ℕ) (key : EntryKey) (stake payout : Text) (order : Option ℕ)
    (s : Store) where
  settled_err :
      (t : Option AutoStopTrigger) (x : Result ((Entry × Bool) × Store)) {f : Failure}
      → (settled env s (t, x)).0 ≡ err f
      → (settled env s (t, x)).1 ≡ s
  settled_err t (ok ((e, true), u)) h = cc
  settled_err t (ok ((e, false), u)) h = cc
  settled_err t (err g) h = refl

  settle_stake_err :
      {f : Failure}
      → (settle_stake env id key stake payout order s).0 ≡ err f
      → (settle_stake env id key stake payout order s).1 ≡ s
  unfolding settle_stake
  settle_stake_err h =
      settled_err (settle_within env id key stake payout order s).0
        (settle_within env id key stake payout order s).1 h

  settle_stake_pair :
      {e : Entry}
      → (settle_stake env id key stake payout order s).0 ≡ ok e
      → settle_stake env id key stake payout order s
        ≡ (ok e, (settle_stake env id key stake payout order s).1)
  settle_stake_pair h =
      ap (λ (r : Result Entry). (r, (settle_stake env id key stake payout order s).1)) h

  -- A settlement that succeeds leaves its entry under its key.
  pub settle_stake-found :
      {e : Entry}
      → (settle_stake env id key stake payout order s).0 ≡ ok e
      → HasEntry key (settle_stake env id key stake payout order s).1.ledger.entries
  settle_stake-found h =
      let (account, input, r, account', keyed, appended, _) =
        settle_stake-appended env id key stake payout order s (settle_stake_pair h) in
      (
        r.entry,
        subst
            (λ (k : EntryKey).
              find_entry k (settle_stake env id key stake payout order s).1.ledger.entries
              ≡ some r.entry)
            keyed (append-found account input s.ledger appended),
      )

module _ (env : EngineEnv) (id k : ℕ) (stake payout : Text) (order : Option ℕ) (s : Store) where
  settle_stake-Unreserving :
      Unreserving s.ledger.entries
        (settle_stake env id (settle_key k) stake payout order s).1.ledger.entries
  settle_stake-Unreserving =
      elim (Result-cases (settle_stake env id (settle_key k) stake payout order s).0) [
        | inr (f, e) ↦
            subst (λ (t : Store). Unreserving s.ledger.entries t.ledger.entries)
              (sym (settle_stake_err env id (settle_key k) stake payout order s e)) (λ j n. n)
        | inl (x, e) ↦
            let (account, input, r, account', keyed, appended, _) =
              settle_stake-appended env id (settle_key k) stake payout order s
                (settle_stake_pair env id (settle_key k) stake payout order s e) in
            append-Unreserving account input s.ledger (ap is_reserve_key keyed) appended
      ]

-- The engine settles under the key of an order's settlement.
pub settle_books-IsStep :
    (env : EngineEnv) (id k : ℕ) (stake payout : Text) (order : Option ℕ) (s : OrderStore)
    → IsStep s
        (record s { engine = (settle_stake env id (settle_key k) stake payout order s.engine).1 })
settle_books-IsStep env id k stake payout order s =
    same_orders-IsStep s _ refl
      (Moves-IsLedgerStep s.engine.ledger _
        (settle_stake-Moves env id (settle_key k) stake payout order s.engine))
      (settle_stake-Unreserving env id k stake payout order s.engine)

-- An automatic stop leaves the orders and the ledger alone.
pub stopped_if-IsStep :
    (env : OrderEnv) (t : Option AutoStopTrigger) (s : OrderStore) → IsStep s (stopped_if env t s)
stopped_if-IsStep env t s =
    let same = apply_stop-ledger env.engine t s.engine in
    same_orders-IsStep s (stopped_if env t s) refl
      (subst (IsLedgerStep s.engine.ledger) (sym same) (IsLedgerStep-refl s.engine.ledger))
      (subst (λ (l : Defs.Store). Unreserving s.engine.ledger.entries l.entries) (sym same)
        (λ k n. n))

-- A new account.
pub open_account-IsStep :
    (input : OpenInput) (actor : Option ℕ) (id : ℕ) (s : OrderStore) {a : Account} (l : Defs.Store)
    → open_account input actor id s.engine.ledger ≡ ok (a, l)
    → IsStep s (record s { engine = record s.engine { ledger = l } })
open_account-IsStep input actor id s l h =
    let (cents, r, account', _, _, appended, _) =
      open_account-eq_ok input actor id s.engine.ledger h in
    same_orders-IsStep s _ refl
      (record {
        sound = λ sound. (open_account-IsSound input actor id s.engine.ledger sound h).0;
        keeps = open_account-Keeps input actor id s.engine.ledger h;
      })
      (append-Unreserving _ (opening_entry id cents actor) _ refl appended)
