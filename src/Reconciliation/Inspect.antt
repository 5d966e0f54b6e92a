-- ===== src/Reconciliation/Inspect.antt =====
-- What `execute` does inside its `try`, before it commits: repairs, lookups, resolutions and
-- comparisons.
use api_score.Base.{
  ℕ, Bool, true, false, ◌&&◌, Option, none, some, List, [], ◌∷◌, ◌++◌, map, ◌==◌, if◌then◌else◌,
}
use api_score.Base.Rows.{length, select_where, exists_where, count_where}
use api_score.Base.Tx.{Result, ok, err, other}
use api_score.Domain.{OrderStatus}
use api_score.Ledger.Defs.{Account, EntryKey}
use api_score.Ledger.Service.{find_account}
use api_score.Orders.Defs.{Order, OrderStore, status_eq, is_among}
use api_score.Orders.Steps.{recover_stale_submissions}
use api_score.Orders.Reserving.{port_for}
use api_score.Orders.Following.{UnknownResolution, ledger_invariant_ok}
use api_score.Orders.Service.{Call, ◌>>=◌, ◌>>◌, pure, lift, effect}
use api_score.Reconciliation.Defs.{
  ItemType, ItemResult, Severity, Detail, ItemDraft, Run, LookupStatus, OperatorOrderLookup,
  OperatorPort, ReconciliationEnv,
}
use api_score.Reconciliation.Lookup.{returned, lookup_operator_orders, keys_of, failed_drafts}
use api_score.Reconciliation.Compare.{item, compare_order}
use api_score.Reconciliation.Balance.{balance_items, is_tracked}
use api_score.Reconciliation.Repair.{
  cancel_abandoned_reservations, concerned, Resolved, resolve_rows,
}

abbrev pub account_or_throw : Option Account → Result Account
account_or_throw none = err other
account_or_throw (some a) = ok a

-- `findOneByOrFail` of an account.
abbrev pub read_account : ℕ → Call Account
read_account id s = (account_or_throw (find_account id s.engine.ledger.accounts), s)

abbrev pub reads : {A : Type 0} → (OrderStore → A) → Call A
reads f s = (ok (f s), s)

-- Readings 2 to 4: the orders, receipts and entries as they are after the repairs.
abbrev pub is_one_of : List Order → ℕ → Bool
is_one_of rows id = exists_where (λ o. o.id == id) rows

abbrev pub fresh_rows : List Order → OrderStore → List Order
fresh_rows rows s = select_where (λ o. is_one_of rows o.id) s.orders

abbrev pub is_of_rows : List Order → Option ℕ → Bool
is_of_rows rows none = false
is_of_rows rows (some id) = is_one_of rows id

abbrev pub ledger_keys : ℕ → List Order → OrderStore → List EntryKey
ledger_keys account_id rows s =
    map (λ e. e.entry_key)
      (select_where (λ e. e.account_id == account_id && is_of_rows rows e.order_id)
        s.engine.ledger.entries)

abbrev pub has_receipt : List Order → OrderStore → ℕ → Bool
has_receipt rows s id = exists_where (λ r. r.order_id == id && is_one_of rows r.order_id) s.receipts

-- `shouldLookup`
abbrev pub is_compared : Order → Bool
is_compared o = is_among o.status (
    OrderStatus.accepted ∷ OrderStatus.settled ∷ OrderStatus.voided ∷ OrderStatus.rejected
    ∷ OrderStatus.reconciliation_required ∷ [])

abbrev pub fresh_lookup : List OperatorOrderLookup → Order → Option LookupStatus
fresh_lookup lookups o = if is_compared o then returned o.idempotency_key lookups else none

module _ (env : ReconciliationEnv) (port : OperatorPort) (keys : List EntryKey)
    (receipt : ℕ → Bool) where
  abbrev pub compared_with : Order → Option LookupStatus → List ItemDraft
  compared_with o (some (LookupStatus.failed _)) = []
  compared_with o (some (LookupStatus.found op)) =
      compare_order o (env.status_reason o) (some op) (receipt o.id) keys (is_tracked port.kind)
  compared_with o _ =
      compare_order o (env.status_reason o) none (receipt o.id) keys (is_tracked port.kind)

  abbrev pub compared_rows : List OperatorOrderLookup → List Order → List ItemDraft
  compared_rows lookups [] = []
  compared_rows lookups (o ∷ os) =
      let rest = compared_rows lookups os in
      if status_eq o.status OrderStatus.unknown
      then rest
      else compared_with o (fresh_lookup lookups o) ++ rest

abbrev pub is_ambiguous : Order → Bool
is_ambiguous o =
    is_among o.status (OrderStatus.reserved ∷ OrderStatus.submitting ∷ OrderStatus.unknown ∷ [])

abbrev pub invariant_items : Bool → List ItemDraft
invariant_items true = []
invariant_items false =
    item none ItemType.ledger ItemResult.mismatch Severity.critical Detail.invariant_broken none
      none
    ∷ []

-- What a run has found: its items, how many orders it read, and the resolutions it made.
pub record Report : Type 0 where
  pub drafts : List ItemDraft
  pub orders : ℕ
  pub resolutions : List UnknownResolution

abbrev pub report_of : List ItemDraft → ℕ → List UnknownResolution → Bool → Report
report_of items orders resolutions sound = record {
  drafts = items ++ invariant_items sound;
  orders = orders;
  resolutions = resolutions;
}

module _ (env : ReconciliationEnv) (port : OperatorPort) (now : ℕ) where
  -- The items on the fresh rows and on the account.
  abbrev pub compared_fresh :
      ℕ → List OperatorOrderLookup → List Order → OrderStore → List ItemDraft
  compared_fresh account_id lookups rows s =
      compared_rows env port (ledger_keys account_id rows s) (has_receipt rows s) lookups
        (fresh_rows rows s)

  -- The end of the inspection, with the tables as they were read and the account.
  abbrev pub gather_account :
      ℕ
      → List OperatorOrderLookup
      → List Order
      → List ItemDraft
      → Resolved
      → OrderStore
      → Account
      → Call Report
  gather_account id lookups rows before resolved s account =
      let ambiguous = count_where is_ambiguous (fresh_rows rows s) in
      let balance = balance_items env.message port account ambiguous in
      let items = before ++ resolved.0 ++ compared_fresh id lookups rows s ++ balance in
      ledger_invariant_ok account.id >>= λ sound.
      pure (report_of items (length rows) resolved.1 sound)

  abbrev pub gather :
      ℕ → List OperatorOrderLookup → List Order → List ItemDraft → Resolved → Call Report
  gather id lookups rows before resolved s =
      (read_account id >>= gather_account id lookups rows before resolved s) s

  abbrev pub look_up_and_gather : ℕ → List Order → List ItemDraft → Call Report
  look_up_and_gather account_id rows before =
      let lookups = lookup_operator_orders port (keys_of rows) in
      resolve_rows env now lookups rows >>= λ resolved.
      gather account_id lookups rows (before ++ failed_drafts lookups rows) resolved

  abbrev pub inspect_rows : ℕ → Run → List ItemDraft → Call Report
  inspect_rows id run given_up =
      reads (concerned env run) >>= λ rows. look_up_and_gather id rows given_up

  abbrev pub inspect_account : Run → Account → Call Report
  inspect_account run account = do
    operator ← lift (port_for env.pipeline account.mode)
    effect (λ s. (recover_stale_submissions now s).1)
    given_up ← cancel_abandoned_reservations env now account.id
    inspect_rows account.id run given_up

  -- `execute`, from the reading of the account to the commit.
  unfoldable pub inspect : Run → Call Report
  unfolding cancel_abandoned_reservations lookup_operator_orders compare_order balance_items
      ledger_invariant_ok recover_stale_submissions
  inspect run = read_account run.account_id >>= inspect_account run
