-- ===== src/Orders/Once.antt =====
-- A key moves money at most once, whatever calls of the engine and transactions of the pipeline stand
-- between two calls.
use api_score.Base.{ℕ, ◌≡◌, Option}
use api_score.Base.Tx.{ok}
use api_score.Money.{Text}
use api_score.Ledger.Defs.{EntryKey, Entry}
use api_score.Ledger.History.{Keeps}
use api_score.Engine.Defs.{Store, EngineEnv}
use api_score.Engine.Service.{release_stake, settle_stake}
use api_score.Engine.Once.{Step-Keeps, release_stake-release_stake, settle_stake-settle_stake}
use api_score.Engine.Reachable.{Step}
use api_score.Orders.Defs.{OrderStore}
use api_score.Orders.Reachable.{Reach, Reach-IsStep}

-- Tables that come later: after calls of the engine and transactions of the pipeline, in any order.
pub data Later (s : OrderStore) : OrderStore → Type 0 where
  now : Later s s
  calls :
      {t : OrderStore} {e : Store} → Later s t → Step t.engine e → Later s (record t { engine = e })
  transacts : {t u : OrderStore} → Later s t → Reach t u → Later s u

Later-Keeps : {s t : OrderStore} → Later s t → Keeps s.engine.ledger.entries t.engine.ledger.entries
Later-Keeps now = λ key x f. f
Later-Keeps (calls l st) = λ key x f. Step-Keeps st key x (Later-Keeps l key x f)
Later-Keeps (transacts l r) =
    λ key x f. (Reach-IsStep r).evolves.books.keeps key x (Later-Keeps l key x f)

-- Once a release has succeeded, any later release with its key, of whatever account, stake and
-- order, can only return the entry of the first and leaves the ledger as it is, whatever calls of the
-- engine, transactions of the pipeline, openings of accounts, operations of the control and time stand
-- between the two.
pub release_stake_once :
    (id id' : ℕ) (key : EntryKey) (stake stake' : Text) (order order' : Option ℕ) (s : Store)
    (s' t : OrderStore) (t' : Store) {e e' : Entry}
    → (release_stake id key stake order s).1 ≡ ok (e, s'.engine)
    → Later s' t
    → (release_stake id' key stake' order' t.engine).1 ≡ ok (e', t')
    → (e' ≡ e) × (t'.ledger ≡ t.engine.ledger)
release_stake_once id id' key stake stake' order order' s s' t t' first between second =
    release_stake-release_stake id id' key stake stake' order order' s s'.engine t.engine t' first
      (Later-Keeps between) second

-- Once a settlement has succeeded, any later settlement with its key, of whatever account, amounts
-- and order, and in whatever environment, can only return the entry of the first and leaves the
-- ledger as it is, whatever calls of the engine, transactions of the pipeline, openings of accounts,
-- operations of the control and time stand between the two.
pub settle_stake_once :
    (env env' : EngineEnv) (id id' : ℕ) (key : EntryKey) (stake stake' payout payout' : Text)
    (order order' : Option ℕ) (s : Store) (s' t : OrderStore) (t' : Store) {e e' : Entry}
    → settle_stake env id key stake payout order s ≡ (ok e, s'.engine)
    → Later s' t
    → settle_stake env' id' key stake' payout' order' t.engine ≡ (ok e', t')
    → (e' ≡ e) × (t'.ledger ≡ t.engine.ledger)
settle_stake_once env env' id id' key stake stake' payout payout' order order' s s' t t' first
      between second =
    settle_stake-settle_stake env env' id id' key stake stake' payout payout' order order' s
      s'.engine t.engine t' first (Later-Keeps between) second
