-- ===== src/Orders/Reachable.antt =====
-- The tables in every state that the transactions of the pipeline can reach, in whatever order
-- several callers make them.
use api_score.Base.{ℕ, ◌≤◌, ◌≡◌, refl, true, Option, some, List}
use api_score.Base.Rows.{all_where}
use api_score.Base.Tx.{ok}
use api_score.Base.Int.{ℤ}
use api_score.Money.{Text}
use api_score.Domain.{OrderStatus, RejectionCode, AutoStopTrigger}
use api_score.Ledger.Defs
use api_score.Ledger.Defs.{Account, settle_key}
use api_score.Ledger.Service.{OpenInput, open_account}
use api_score.Ledger.Invariant.{IsSound}
use api_score.Control.Defs.{ControlStore}
use api_score.Control.Governed
use api_score.Engine.Defs.{EngineEnv}
use api_score.Engine.Service.{settle_stake}
use api_score.Operator.{OperatorQuote, Acceptance}
use api_score.Orders.Defs.{Order, OrderStore, OrderEnv, find_order, DecisionOutcome}
use api_score.Orders.Lifecycle.{is_pending, Follows}
use api_score.Orders.Entries.{IsLedgerStep-refl, HasEntry}
use api_score.Orders.Changes.{
  IsStep, IsBacked, HasOwnIds, IsStep-trans, kept-IsStep, same_orders-IsStep,
}
use api_score.Orders.Steps.{cancel, doubt, close, recover_stale_submissions}
use api_score.Orders.Acceptance.{accept}
use api_score.Orders.Reserving.{reserve_tx, decision_refused, stopped_if}
use api_score.Orders.Verifying.{Verdict, verify}
use api_score.Orders.Service.{handed}
use api_score.Orders.Cancelling.{cancel-IsStep, doubt-IsStep}
use api_score.Orders.Accepting.{accept-IsStep}
use api_score.Orders.Closing.{close-IsStep, recover-IsStep, verify-IsStep}
use api_score.Orders.Concluding.{reserve_tx-IsStep}
use api_score.Orders.Abandoned.{cancel_abandoned_batch}
use api_score.Orders.Batching.{cancel_abandoned_batch-IsStep}
use api_score.Orders.Settling.{settle_books-IsStep, stopped_if-IsStep, open_account-IsStep}

-- One committed transaction: of the pipeline, of the engine that settles, stops, an operation of the
-- control, the opening of an account, or time that passes. A close comes after the settlement is in
-- the ledger; a cancellation is from statuses that are pending.
pub data Step : OrderStore → OrderStore → Type 0 where
  reserves :
      (env : OrderEnv) (decision_id account id : ℕ) (s s' : OrderStore) {row : Option Order}
      → (reserve_tx env decision_id account id s).1 ≡ ok (row, s')
      → Step s s'
  refuses : (id : ℕ) (code : RejectionCode) (s : OrderStore) → Step s (decision_refused id code s)
  verifies :
      (env : OrderEnv) (id : ℕ) (quote : Option OperatorQuote) (s s' : OrderStore) {v : Verdict}
      → verify env id quote s ≡ ok (v, s')
      → Step s s'
  hands : (o : Order) (s : OrderStore) → Step s (handed o s)
  doubts : (id now : ℕ) (s s' : OrderStore) → doubt id now s ≡ ok (tt, s') → Step s s'
  accepts :
      (id : ℕ) (a : Acceptance) (now : ℕ) (s s' : OrderStore) {r : Option AutoStopTrigger}
      → accept id a now s ≡ ok (r, s')
      → Step s s'
  cancels :
      (id : ℕ) (from : List OrderStatus) (code : RejectionCode) (s s' : OrderStore)
      → all_where is_pending from ≡ true
      → cancel id from code s ≡ ok (tt, s')
      → Step s s'
  settles :
      (env : EngineEnv) (id k : ℕ) (stake payout : Text) (order : Option ℕ) (s : OrderStore)
      → Step s
          (record s { engine = (settle_stake env id (settle_key k) stake payout order s.engine).1 })
  closes :
      (id : ℕ) (outcome : DecisionOutcome) (profit : ℤ) (payout : Text) (at : ℕ) (s s' : OrderStore)
      → ((o : Order)
          → find_order id s.orders ≡ some o
          → HasEntry (settle_key o.idempotency_key) s.engine.ledger.entries)
      → close id outcome profit payout at s ≡ ok (tt, s')
      → Step s s'
  abandons :
      (ids : List ℕ) (s s' : OrderStore) {rs : List ℕ}
      → cancel_abandoned_batch ids s ≡ ok (rs, s')
      → Step s s'
  recovers : (now : ℕ) (s : OrderStore) → Step s (recover_stale_submissions now s).1
  stops :
      (env : OrderEnv) (t : Option AutoStopTrigger) (s : OrderStore) → Step s (stopped_if env t s)
  controls :
      (s : OrderStore) (c : ControlStore)
      → Governed.Step s.engine.control c
      → Step s (record s { engine = record s.engine { control = c } })
  opens :
      (input : OpenInput) (actor : Option ℕ) (id : ℕ) (s : OrderStore) {a : Account}
      (l : Defs.Store)
      → open_account input actor id s.engine.ledger ≡ ok (a, l)
      → Step s (record s { engine = record s.engine { ledger = l } })
  ticks :
      (s : OrderStore) (t : ℕ)
      → s.engine.ledger.now ≤ t
      → Step s
          (record s { engine = record s.engine { ledger = record s.engine.ledger { now = t } } })

pub data Reach (s : OrderStore) : OrderStore → Type 0 where
  here : Reach s s
  next : {t u : OrderStore} → Reach s t → Step t u → Reach s u

pub one : {s t : OrderStore} → Step s t → Reach s t
one st = next here st

pub Reach-trans : {s t u : OrderStore} → Reach s t → Reach t u → Reach s u
Reach-trans p here = p
Reach-trans p (next q st) = next (Reach-trans p q) st

ticked-IsStep :
    (s : OrderStore) (t : ℕ)
    → IsStep s
        (record s { engine = record s.engine { ledger = record s.engine.ledger { now = t } } })
ticked-IsStep s t =
    same_orders-IsStep s _ refl
      (record {
        sound = λ sound. record { consistent = sound.consistent; owned = sound.owned };
        keeps = λ key e h. h;
      })
      (λ k n. n)

Step-IsStep : {s s' : OrderStore} → Step s s' → IsStep s s'
Step-IsStep (reserves env decision_id account id s s' h) =
    reserve_tx-IsStep env decision_id account id s h
Step-IsStep (refuses id code s) =
    same_orders-IsStep s _ refl (IsLedgerStep-refl s.engine.ledger) (λ k n. n)
Step-IsStep (verifies env id quote s s' h) = verify-IsStep env id quote s h
Step-IsStep (hands o s) = same_orders-IsStep s _ refl (IsLedgerStep-refl s.engine.ledger) (λ k n. n)
Step-IsStep (doubts id now s s' h) = doubt-IsStep id now s h
Step-IsStep (accepts id a now s s' h) = accept-IsStep id a now s h
Step-IsStep (cancels id from code s s' p h) = cancel-IsStep id from code s p h
Step-IsStep (settles env id k stake payout order s) =
    settle_books-IsStep env id k stake payout order s
Step-IsStep (closes id outcome profit payout at s s' settled h) =
    close-IsStep id outcome profit payout at s settled h
Step-IsStep (abandons ids s s' h) = cancel_abandoned_batch-IsStep ids s h
Step-IsStep (recovers now s) = recover-IsStep now s
Step-IsStep (stops env t s) = stopped_if-IsStep env t s
Step-IsStep (controls s c h) =
    same_orders-IsStep s _ refl (IsLedgerStep-refl s.engine.ledger) (λ k n. n)
Step-IsStep (opens input actor id s l h) = open_account-IsStep input actor id s l h
Step-IsStep (ticks s t h) = ticked-IsStep s t

pub Reach-IsStep : {s s' : OrderStore} → Reach s s' → IsStep s s'
Reach-IsStep {s} here = kept-IsStep s s refl
Reach-IsStep (next r st) = IsStep-trans (Reach-IsStep r) (Step-IsStep st)

-- However transactions of several callers follow each other, an order that is in the tables stays
-- there under its identifier with the same decision, account, operator, key, requested stake and
-- minimum odd; its status is reached from the old one by moves of the life cycle; and once that
-- status is final the row never changes again.
pub reached_order :
    (s s' : OrderStore) (id : ℕ) (o : Order)
    → Reach s s'
    → find_order id s.orders ≡ some o
    → (o' : Order) × (find_order id s'.orders ≡ some o') × Follows o o'
reached_order s s' id o r found = (Reach-IsStep r).evolves.orders id o found

-- However transactions of several callers follow each other, from sound books and from orders with
-- different identifiers that have the entries their status asks for, the books are sound, the
-- identifiers differ, and every order has its entries again: an order that is open, in doubt, accepted
-- or disputed its reservation, a rejected one its release unless nothing was ever reserved for it, a
-- settled or voided one its reservation and its settlement.
pub reached_entries :
    (s s' : OrderStore)
    → Reach s s'
    → IsSound s.engine.ledger
    → HasOwnIds s.orders
    → IsBacked s
    → IsSound s'.engine.ledger × HasOwnIds s'.orders × IsBacked s'
reached_entries s s' r sound own backed =
    let st = Reach-IsStep r in (st.evolves.books.sound sound, st.own_ids own, st.backs own backed)
