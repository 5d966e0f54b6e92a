-- ===== src/Reconciliation/Backing.antt =====
-- The pipeline and the reconciliation together: an order that the pipeline keeps has no gap in the
-- ledger.
use api_score.Base.{
  ℕ, ◌≡◌, refl, inl, inr, Bool, true, false, not, ◌&&◌, Option, none, some, List, [], ◌∷◌, map,
  arith, Bool-cases,
}
use api_score.Money.{Text}
use api_score.Domain.{OrderStatus}
use api_score.Ledger.Defs.{Entry, EntryKey, key_eq, reserve_key, release_key, settle_key}
use api_score.Ledger.Service.{find_entry}
use api_score.Operator.{OperatorOrder}
use api_score.Orders.Defs.{Order, OrderStore, find_order, status_eq, is_among}
use api_score.Orders.Entries.{HasEntry, Backed}
use api_score.Orders.Changes.{IsBacked, HasOwnIds}
use api_score.Orders.Reachable.{Reach, Reach-IsStep}
use api_score.Reconciliation.Compare.{has_key, compare_order}
use api_score.Reconciliation.Gaps.{has_gap, compare_order-no_gap}

abbrev pub keys_in : List Entry → List EntryKey
keys_in entries = map (λ e. e.entry_key) entries

found_key :
    (key : EntryKey) (entries : List Entry)
    → HasEntry key entries
    → has_key (keys_in entries) key ≡ true
found_key key [] (e, h) = cc
found_key key (x ∷ entries) (e, h) = elim (Bool-cases (key_eq x.entry_key key)) [
  | inl t ↦ rw t refl
  | inr n ↦ rw n (found_key key entries (e, rw n at h))
]

absent_key :
    (key : EntryKey) (entries : List Entry)
    → find_entry key entries ≡ none
    → has_key (keys_in entries) key ≡ false
absent_key key [] h = refl
absent_key key (x ∷ entries) h = elim (Bool-cases (key_eq x.entry_key key)) [
  | inl t ↦ absurd (ground arith)
  | inr n ↦ rw n (absent_key key entries (rw n at h))
]

module _ (k : ℕ) (entries : List Entry) where
  Backed-held :
      (t : OrderStatus)
      → Backed t k entries
      → is_among t (OrderStatus.accepted ∷ OrderStatus.settled ∷ OrderStatus.voided ∷ []) ≡ true
      → HasEntry (reserve_key k) entries
  Backed-held OrderStatus.accepted b h = b
  Backed-held OrderStatus.settled b h = b.0
  Backed-held OrderStatus.voided b h = b.0
  Backed-held OrderStatus.rejected b h = cc
  Backed-held OrderStatus.reserved b h = cc
  Backed-held OrderStatus.submitting b h = cc
  Backed-held OrderStatus.unknown b h = cc
  Backed-held OrderStatus.reconciliation_required b h = cc

  Backed-closed :
      (t : OrderStatus)
      → Backed t k entries
      → is_among t (OrderStatus.accepted ∷ OrderStatus.settled ∷ OrderStatus.voided ∷ []) ≡ true
      → status_eq t OrderStatus.accepted ≡ false
      → HasEntry (settle_key k) entries
  Backed-closed OrderStatus.settled b h n = b.1
  Backed-closed OrderStatus.voided b h n = b.1
  Backed-closed OrderStatus.accepted b h n = cc
  Backed-closed OrderStatus.rejected b h n = cc
  Backed-closed OrderStatus.reserved b h n = cc
  Backed-closed OrderStatus.submitting b h n = cc
  Backed-closed OrderStatus.unknown b h n = cc
  Backed-closed OrderStatus.reconciliation_required b h n = cc

  Backed-freed :
      (t : OrderStatus)
      → Backed t k entries
      → status_eq t OrderStatus.rejected ≡ true
      → (has_key (keys_in entries) (reserve_key k)
          && not (has_key (keys_in entries) (release_key k)))
        ≡ false
  Backed-freed OrderStatus.rejected (inl free) h = rw (absent_key (reserve_key k) entries free) refl
  Backed-freed OrderStatus.rejected (inr released) h =
      let there = found_key (release_key k) entries released in ground arith
  Backed-freed OrderStatus.accepted b h = cc
  Backed-freed OrderStatus.settled b h = cc
  Backed-freed OrderStatus.voided b h = cc
  Backed-freed OrderStatus.reserved b h = cc
  Backed-freed OrderStatus.submitting b h = cc
  Backed-freed OrderStatus.unknown b h = cc
  Backed-freed OrderStatus.reconciliation_required b h = cc

-- From tables whose orders have their own identifiers and are backed by the ledger, whatever several
-- callers of the pipeline do: an order that is there then, compared with the keys of the ledger as it
-- is then, has no LEDGER item, whatever the operator says and whether or not a receipt is there.
pub reached_compare-no_gap :
    (s s' : OrderStore) (id : ℕ) (o : Order) (why : Option Text) (found : Option OperatorOrder)
    (receipt tracked : Bool)
    → HasOwnIds s.orders
    → IsBacked s
    → Reach s s'
    → find_order id s'.orders ≡ some o
    → has_gap (compare_order o why found receipt (keys_in s'.engine.ledger.entries) tracked) ≡ false
reached_compare-no_gap s s' id o why found receipt tracked own backed reach there =
    let entries = s'.engine.ledger.entries in
    let k = o.idempotency_key in
    let b = (Reach-IsStep reach).backs own backed id o there in
    compare_order-no_gap o found receipt (keys_in entries) tracked why (record {
      held = λ t. found_key (reserve_key k) entries (Backed-held k entries o.status b t);
      closed = λ t n. found_key (settle_key k) entries (Backed-closed k entries o.status b t n);
      freed = Backed-freed k entries o.status b;
    })
