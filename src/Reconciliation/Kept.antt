-- ===== src/Reconciliation/Kept.antt =====
-- What the repairs of a run leave alone, and what is said of a lookup in vain.
use api_score.Base.{
  ℕ, ◌≡◌, refl, sym, ◌∙◌, ap, inl, inr, Bool, true, false, ◌||◌, Option, none, some, List, [], ◌∷◌,
  map, arith, Bool-cases, ◌==◌,
}
use mathlib.Core.Path.{subst}
use api_score.Base.Rows.{exists_where, select_where}
use api_score.Base.Tx.{Result, ok, Result-cases}
use api_score.Domain.{OrderStatus}
use api_score.Orders.Defs.{Order, OrderStore, find_order, is_among}
use api_score.Orders.Changes.{find_order-update}
use api_score.Orders.Steps.{recover_stale_submissions, is_stale_submission}
use api_score.Orders.Service.{Call, ◌>>=◌, pure, transact}
use api_score.Base.Tx.{run_ok, run_err}
use api_score.Base.{eq_of_some}
use api_score.Ledger.Defs
use api_score.Orders.Abandoned.{
  is_reserved_in, is_abandoned, sort_by_id, holds_id, abandon_found, cancel_abandoned_batch,
}
use api_score.Orders.Batching.{abandoned_tables, abandon_found-eq_ok}
use api_score.Reconciliation.Critical.{has_critical}
use api_score.Reconciliation.Lookups.{Unanswered}
use api_score.Reconciliation.Lookup.{returned, is_looked_up, draft_of_failure, failed_drafts}
use api_score.Reconciliation.Defs.{LookupStatus, ItemDraft, OperatorOrderLookup, ReconciliationEnv}
use api_score.Reconciliation.Repair.{
  sort_by_age, insert_by_age, stands_before, given_up_draft, give_up_stale,
  cancel_abandoned_reservations, is_stale_reservation,
}

pub bind-eq_ok :
    {A B : Type 0} (m : Call A) (f : A → Call B) (s : OrderStore) {b : B}
    → ((m >>= f) s).0 ≡ ok b
    → (a : A) × ((m s).0 ≡ ok a) × ((f a (m s).1).0 ≡ ok b)
bind-eq_ok m f s h = elim (Result-cases (m s).0) [
  | inl (a, e) ↦ (a, e, ground arith)
  | inr (e, q) ↦ absurd (ground arith)
]

bind_pure :
    {A B : Type 0} (m : Call A) (f : A → B) (s : OrderStore)
    → ((m >>= λ a. pure (f a)) s).1 ≡ (m s).1
bind_pure m f s = ground arith

-- The statuses of an order that the operator may have, and that no repair moves by itself.
abbrev pub standing : List OrderStatus
standing = OrderStatus.unknown ∷ OrderStatus.accepted ∷ OrderStatus.reconciliation_required ∷ []

module _ (id : ℕ) (o : Order) (held : is_among o.status standing ≡ true) where
  pub recover-kept :
      (now : ℕ) (s : OrderStore)
      → find_order id s.orders ≡ some o
      → find_order id (recover_stale_submissions now s).1.orders ≡ some o
  unfolding recover_stale_submissions
  recover-kept now s found =
      let other : is_stale_submission now o ≡ false = ground arith in
      find_order-update (is_stale_submission now) _ (λ x. refl) id s.orders ∙ rw (found, other) refl

  abandoned-kept :
      (os : List Order) (s : OrderStore) (l : Defs.Store)
      → find_order id s.orders ≡ some o
      → find_order id (abandoned_tables os s l).orders ≡ some o
  abandoned-kept os s l found =
      let other : holds_id os o ≡ false = ground arith in
      find_order-update (holds_id os) _ (λ x. refl) id s.orders ∙ rw (found, other) refl

  abandon_found-kept :
      (os : List Order) (s : OrderStore) {rs : List ℕ} {s' : OrderStore}
      → abandon_found os s ≡ ok (rs, s')
      → find_order id s.orders ≡ some o
      → find_order id s'.orders ≡ some o
  abandon_found-kept [] s {s' = s'} h found = let same : s' ≡ s = ground arith in rw same found
  abandon_found-kept (p ∷ os) s h found =
      let (l, after, _) = abandon_found-eq_ok p os s h in
      rw after
        (abandoned-kept (select_where (is_reserved_in s.engine.ledger.entries) (p ∷ os)) s l found)

  transact-kept :
      (ids : List ℕ) (s : OrderStore)
      → find_order id s.orders ≡ some o
      → find_order id (transact (cancel_abandoned_batch ids) s).1.orders ≡ some o
  unfolding cancel_abandoned_batch
  transact-kept ids s found = elim (Result-cases (cancel_abandoned_batch ids s)) [
    | inl ((rs, t), e) ↦
        subst (λ (p : Result (List ℕ) × OrderStore). find_order id p.1.orders ≡ some o)
          (sym (run_ok (cancel_abandoned_batch ids) s e))
          (abandon_found-kept (sort_by_id (select_where (is_abandoned ids) s.orders)) s e found)
    | inr (f, e) ↦
        subst (λ (p : Result (List ℕ) × OrderStore). find_order id p.1.orders ≡ some o)
          (sym (run_err (cancel_abandoned_batch ids) s e)) found
  ]

  give_up_stale-kept :
      (os : List Order) (s : OrderStore)
      → find_order id s.orders ≡ some o
      → find_order id (give_up_stale os s).1.orders ≡ some o
  give_up_stale-kept [] s found = found
  give_up_stale-kept (p ∷ os) s found =
      let ids = map (λ p. p.id) (p ∷ os) in
      subst (λ (t : OrderStore). find_order id t.orders ≡ some o)
        (sym (bind_pure (transact (cancel_abandoned_batch ids)) (map given_up_draft) s))
        (transact-kept ids s found)

  pub cancel-kept :
      (env : ReconciliationEnv) (now account_id : ℕ) (s : OrderStore)
      → find_order id s.orders ≡ some o
      → find_order id (cancel_abandoned_reservations env now account_id s).1.orders ≡ some o
  unfolding cancel_abandoned_reservations
  cancel-kept env now account_id s found =
      give_up_stale-kept (select_where (is_stale_reservation env now account_id) s.orders) s found

module _ (q : Order → Bool) where
  pub found-selected :
      (p : Order → Bool) (id : ℕ) (rows : List Order) {o : Order}
      → find_order id rows ≡ some o
      → p o ≡ true
      → q o ≡ true
      → exists_where q (select_where p rows) ≡ true
  found-selected p id [] h t u = cc
  found-selected p id (x ∷ rows) {o} h t u = elim (Bool-cases (x.id == id)) [
    | inl own ↦ let same : x ≡ o = eq_of_some (rw own at h) in rw (same, t, u) refl
    | inr n ↦ ground (arith, found-selected p id rows {o = o} (rw n at h) t u)
  ]

  insert-picked :
      (env : ReconciliationEnv) (o : Order) (rows : List Order)
      → exists_where q (insert_by_age env o rows) ≡ (q o || exists_where q rows)
  insert-picked env o [] = refl
  insert-picked env o (x ∷ rows) = elim (Bool-cases (stands_before env o x)) [
    | inl t ↦ rw t refl
    | inr n ↦ rw n (ground (arith, insert-picked env o rows))
  ]

  pub sort-picked :
      (env : ReconciliationEnv) (rows : List Order)
      → exists_where q (sort_by_age env rows) ≡ exists_where q rows
  sort-picked env [] = refl
  sort-picked env (x ∷ rows) =
      insert-picked env x (sort_by_age env rows) ∙ ap (λ b. q x || b) (sort-picked env rows)

-- Every order that is looked up in vain is a critical item.
draft_of_failure-critical :
    (o : Order) (status : Option LookupStatus) (rest : List ItemDraft)
    → Unanswered status
    → has_critical (draft_of_failure o status rest) ≡ true
draft_of_failure-critical o none rest h = refl
draft_of_failure-critical o (some (LookupStatus.failed why)) rest h = refl
draft_of_failure-critical o (some LookupStatus.not_found) rest h = absurd h
draft_of_failure-critical o (some (LookupStatus.found op)) rest h = absurd h

pub failed_drafts-critical :
    (lookups : List OperatorOrderLookup)
    → ((key : ℕ) → Unanswered (returned key lookups))
    → (rows : List Order)
    → has_critical (failed_drafts lookups rows) ≡ exists_where is_looked_up rows
failed_drafts-critical lookups silent [] = refl
failed_drafts-critical lookups silent (o ∷ os) = elim (Bool-cases (is_looked_up o)) [
  | inl t ↦ rw t (
      draft_of_failure-critical o (returned o.idempotency_key lookups) (failed_drafts lookups os)
        (silent o.idempotency_key))
  | inr n ↦ rw n (failed_drafts-critical lookups silent os)
]
