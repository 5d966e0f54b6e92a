-- ===== src/Orders/Batching.antt =====
-- `cancelAbandonedBatch`: the reservations of the batch are released and their orders rejected.
use api_score.Base.{
  ℕ, ◌≡◌, refl, sym, ap, ◌∙◌, inl, inr, Bool, true, false, ◌&&◌, some, List, [], ◌∷◌, arith,
  Bool-cases, Option-cases, ◌==◌, is_some,
}
use mathlib.Core.Path.{subst}
use api_score.Base.Quantifiers.{AllOf}
use api_score.Base.Rows.{exists_where, select_where, all_where}
use api_score.Base.Tx.{Result, ok, err, Result-cases}
use api_score.Money.{to_cents}
use api_score.Domain.{OrderStatus, operator_unavailable}
use api_score.Ledger.Defs
use api_score.Ledger.Defs.{Account, Entry, EntryKey, reserve_key, release_key}
use api_score.Ledger.Service.{AppendInput, find_entry, lock_account, find_account}
use api_score.Ledger.Batch.{append_batch}
use api_score.Ledger.BatchSound.{append_batch-IsSound}
use api_score.Ledger.BatchHistory.{append_batch-IsBatch}
use api_score.Engine.Stages.{lock_account-eq_ok}
use api_score.Engine.Moves.{found_own}
use api_score.Orders.Defs.{Order, OrderStore, find_order}
use api_score.Orders.Lifecycle.{rejects}
use api_score.Orders.Entries.{HasEntry, is_reserve_key, IsLedgerStep, Unreserving}
use api_score.Orders.Changes.{IsStep, HasOwnIds, find_order-id, update-IsStep, kept-IsStep}
use api_score.Orders.Locked.{status_eq→eq, with_books}
use api_score.Orders.Steps.{bumped, order_rejected}
use api_score.Orders.Selecting.{
  sort_by_id-AllOf, exists-sort_by_id, exists-select_where, select_where-AllOf, found-AllOf,
  found_meets,
}
use api_score.Orders.Abandoned.{
  sort_by_id, is_abandoned, is_reserved_in, release_input, release_inputs, holds_id, give_up,
  abandon_found, cancel_abandoned_batch,
}

release_input-eq_ok :
    (o : Order) (r : Result _) {i : AppendInput}
    → release_input o r ≡ ok i
    → i.entry_key ≡ release_key o.idempotency_key
release_input-eq_ok o (ok cents) h = ground arith
release_input-eq_ok o (err e) h = cc

-- The inputs are the releases of the orders.
release_inputs-keys :
    (es : List Entry) (os : List Order) {is : List AppendInput}
    → release_inputs os ≡ ok is
    → AllOf (λ (i : AppendInput). is_reserve_key i.entry_key ≡ false) is
      × (AllOf (λ (i : AppendInput). is_some (find_entry i.entry_key es) ≡ true) is
          → AllOf (λ (o : Order). HasEntry (release_key o.idempotency_key) es) os)
release_inputs-keys es [] {is} h =
    let e : [] ≡ is = ground arith in
    (subst (AllOf (λ (i : AppendInput). is_reserve_key i.entry_key ≡ false)) e tt, λ _. tt)
release_inputs-keys es (o ∷ os) {is} h =
    elim (Result-cases (release_input o (to_cents o.requested_stake))) [
      | inr (f, e) ↦ absurd (ground arith)
      | inl (i, e) ↦ elim (Result-cases (release_inputs os)) [
        | inr (f, q) ↦ absurd (ground arith)
        | inl (rest, q) ↦
            let both : (i ∷ rest) ≡ is = ground arith in
            let key = release_input-eq_ok o (to_cents o.requested_stake) e in
            let (others, held) = release_inputs-keys es os q in
            (
              subst (AllOf (λ (i : AppendInput). is_reserve_key i.entry_key ≡ false)) both
                  (ap is_reserve_key key, others),
              λ h.
                  let (first, next) =
                    subst (AllOf (λ (i : AppendInput). is_some (find_entry i.entry_key es) ≡ true))
                      (sym both) h in
                  (
                    present es (release_key o.idempotency_key)
                        (subst (λ (k : EntryKey). is_some (find_entry k es) ≡ true) key first),
                    held next,
                  ),
            )
      ]
    ]
  where
    present :
        (es : List Entry) (key : EntryKey) → is_some (find_entry key es) ≡ true → HasEntry key es
    present es key h = elim (Option-cases (find_entry key es)) [
      | inl n ↦ cc (rw n at h)
      | inr (x, e) ↦ (x, e)
    ]

-- The orders of a batch that are released, as the code selects them.
abbrev releasable : List ℕ → OrderStore → List Order
releasable ids s =
    select_where (is_reserved_in s.engine.ledger.entries)
      (sort_by_id (select_where (is_abandoned ids) s.orders))

module _ (ids : List ℕ) (s : OrderStore) (l : Defs.Store) (id : ℕ) (o : Order)
    (found : find_order id s.orders ≡ some o)
    (held : AllOf
      (λ (p : Order). HasEntry (release_key p.idempotency_key) l.entries)
      (releasable ids s))
    (own : HasOwnIds s.orders)
    (meets : exists_where (λ p. p.id == o.id) (releasable ids s) ≡ true) where
  abbrev picks : Order → Bool
  picks p = ((p.id == o.id) && is_reserved_in s.engine.ledger.entries p) && is_abandoned ids p

  picked : picks o ≡ true
  picked =
      let reserved =
        exists-select_where (λ p. p.id == o.id) (is_reserved_in s.engine.ledger.entries)
          (sort_by_id (select_where (is_abandoned ids) s.orders)) meets in
      let unsorted =
        exists-sort_by_id (λ p. (p.id == o.id) && is_reserved_in s.engine.ledger.entries p)
          (select_where (is_abandoned ids) s.orders) reserved in
      let all =
        exists-select_where (λ p. (p.id == o.id) && is_reserved_in s.engine.ledger.entries p)
          (is_abandoned ids) s.orders unsorted in
      found_meets picks id s.orders o own single found all
    where
      single : (p : Order) → picks p ≡ true → p.id ≡ id
      single p h =
          let e : o.id ≡ id = find_order-id id s.orders found in
          let k : p.id ≡ o.id = ground arith in k ∙ e

  -- An order that the batch rejects has its release in the ledger.
  released : HasEntry (release_key o.idempotency_key) l.entries
  released =
      let Released : Order → Type 0 = λ p. HasEntry (release_key p.idempotency_key) l.entries in
      let sorted =
        select_where-AllOf Released (is_reserved_in s.engine.ledger.entries)
          (sort_by_id (select_where (is_abandoned ids) s.orders)) held in
      let unsorted =
        sort_by_id-AllOf (λ p. is_reserved_in s.engine.ledger.entries p ≡ true → Released p)
          (select_where (is_abandoned ids) s.orders) sorted in
      let all =
        select_where-AllOf (λ p. is_reserved_in s.engine.ledger.entries p ≡ true → Released p)
          (is_abandoned ids) s.orders unsorted in
      found-AllOf
        (λ p.
          is_abandoned ids p ≡ true → is_reserved_in s.engine.ledger.entries p ≡ true → Released p)
        id s.orders o all found (ground (arith, picked)) (ground (arith, picked))

-- The tables after a batch.
abbrev pub abandoned_tables : List Order → OrderStore → Defs.Store → OrderStore
abandoned_tables os s l = give_up os (with_books s l)

-- What a batch has done to the books.
pub record IsReleased (os : List Order) (s : OrderStore) (l : Defs.Store) : Type 0 where
  pub books : IsLedgerStep s.engine.ledger l
  pub unreserving : Unreserving s.engine.ledger.entries l.entries
  pub held : AllOf (λ (p : Order). HasEntry (release_key p.idempotency_key) l.entries) os

module _ (s : OrderStore) (os : List Order) where
  batch-IsReleased :
      (account : Account) (is : List AppendInput) {r : _} {l : Defs.Store}
      → find_account account.id s.engine.ledger.accounts ≡ some account
      → release_inputs os ≡ ok is
      → append_batch account is s.engine.ledger ≡ ok (r, l)
      → IsReleased os s l
  batch-IsReleased account is {l = l} found read h =
      let (others, held) = release_inputs-keys l.entries os read in
      let batch = append_batch-IsBatch is_reserve_key account is s.engine.ledger others h in
      record {
        books = record {
          sound = λ sound. (append_batch-IsSound account is s.engine.ledger sound found h).0;
          keeps = batch.keeps;
        };
        unreserving = λ k n. batch.unused (reserve_key k) refl n;
        held = held batch.held;
      }

-- The parts of a batch that finds orders and commits.
pub abandon_found-eq_ok :
    (o : Order) (os : List Order) (s : OrderStore) {rs : List ℕ} {s' : OrderStore}
    → abandon_found (o ∷ os) s ≡ ok (rs, s')
    → (l : Defs.Store) × (s'
        ≡ abandoned_tables (select_where (is_reserved_in s.engine.ledger.entries) (o ∷ os)) s l)
      × IsReleased (select_where (is_reserved_in s.engine.ledger.entries) (o ∷ os)) s l
abandon_found-eq_ok o os s h =
    let chosen = select_where (is_reserved_in s.engine.ledger.entries) (o ∷ os) in
    elim (Bool-cases (all_where (λ p. p.account_id == o.account_id) os)) [
      | inr n ↦ absurd (ground arith)
      | inl t ↦ elim (Result-cases (lock_account o.account_id s.engine.ledger)) [
        | inr (f, e) ↦ absurd (ground arith)
        | inl ((account, m), e) ↦
            let (found, kept) = lock_account-eq_ok o.account_id s.engine.ledger e in
            elim (Result-cases (release_inputs chosen)) [
              | inr (f, q) ↦ absurd (ground arith)
              | inl (is, q) ↦ elim (Result-cases (append_batch account is m)) [
                | inr (f, a) ↦ absurd (ground arith)
                | inl ((r, l), a) ↦ (
                  l,
                  ground arith,
                  batch-IsReleased s chosen account is
                      (found_own o.account_id s.engine.ledger found) q (rw kept at a),
                )
              ]
            ]
      ]
    ]

released-IsStep :
    (ids : List ℕ) (s : OrderStore) (l : Defs.Store)
    → IsReleased (releasable ids s) s l
    → IsStep s (abandoned_tables (releasable ids s) s l)
released-IsStep ids s l m =
    update-IsStep s (abandoned_tables (releasable ids s) s l) (holds_id (releasable ids s))
      (bumped (order_rejected operator_unavailable)) refl (λ x. refl)
      (λ id o found t.
        let reserved : o.status ≡ OrderStatus.reserved = reserved_status o t in
        record {
          same = refl;
          move = rw reserved (rejects refl);
          backed = λ own b. inr (released ids s l id o found m.held own (ground arith));
        })
      m.books m.unreserving
  where
    reserved_status :
        (o : Order) → holds_id (releasable ids s) o ≡ true → o.status ≡ OrderStatus.reserved
    reserved_status o t = status_eq→eq o.status OrderStatus.reserved (ground arith)

-- A batch of abandoned reservations rejects orders that are reserved, each with its release.
pub cancel_abandoned_batch-IsStep :
    (ids : List ℕ) (s : OrderStore) {rs : List ℕ} {s' : OrderStore}
    → cancel_abandoned_batch ids s ≡ ok (rs, s')
    → IsStep s s'
unfolding cancel_abandoned_batch
cancel_abandoned_batch-IsStep ids s {rs} {s'} h =
    go (sort_by_id (select_where (is_abandoned ids) s.orders)) refl h
  where
    go :
        (os : List Order)
        → sort_by_id (select_where (is_abandoned ids) s.orders) ≡ os
        → abandon_found os s ≡ ok (rs, s')
        → IsStep s s'
    go [] e k = kept-IsStep s s' (ground arith)
    go (o ∷ os) e k =
        let (l, after, m) = abandon_found-eq_ok o os s k in
        let Chosen : List Order → Type 0 =
          λ xs. IsReleased (select_where (is_reserved_in s.engine.ledger.entries) xs) s l in
        let same =
          ap (λ xs. abandoned_tables (select_where (is_reserved_in s.engine.ledger.entries) xs) s l)
            (sym e) in
        subst (IsStep s) (sym (after ∙ same)) (released-IsStep ids s l (subst Chosen (sym e) m))
