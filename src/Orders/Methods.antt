-- ===== src/Orders/Methods.antt =====
-- Every method of the pipeline is a sequence of transactions.
use api_score.Base.{
  ℕ, ◌≡◌, refl, sym, ap, ◌∙◌, inl, inr, true, Option, List, [], ◌∷◌, arith, Bool-cases,
}
use mathlib.Core.Path.{subst}
use api_score.Base.Rows.{all_where}
use api_score.Base.Tx.{Result, ok, err, Failure, Result-cases, Tx, run_ok, run_err}
use api_score.Domain.{OrderStatus, RejectionCode, AutoStopTrigger}
use api_score.Operator.{Acceptance, PlaceOrderResult, is_well_formed_acceptance}
use api_score.Orders.Defs.{Order, OrderStore, OrderEnv, rejection_of}
use api_score.Orders.Lifecycle.{is_pending}
use api_score.Orders.Steps.{lock_order, cancel, doubt}
use api_score.Orders.Acceptance.{accept}
use api_score.Orders.Locked.{lock_order-eq_ok}
use api_score.Orders.Reserving.{stopped_if}
use api_score.Orders.Service.{
  Call, ◌>>=◌, transact, effect, read_order, cancel_from, cancel_reserved, cancel_submitting,
  cancel_unknown, apply_acceptance, apply_doubt, apply_placement_result,
}
use api_score.Orders.Reachable.{Step, Reach, here, one, Reach-trans}

-- A method whose tables are reached, whatever comes of it.
abbrev pub Runs : {A : Type 0} → Call A → Type 0
Runs m = (s : OrderStore) → Reach s (m s).1

>>=-ok :
    {A B : Type 0} (m : Call A) (f : A → Call B) (s : OrderStore) {a : A}
    → (m s).0 ≡ ok a
    → (m >>= f) s ≡ f a (m s).1
>>=-ok m f s h = ground arith

>>=-err :
    {A B : Type 0} (m : Call A) (f : A → Call B) (s : OrderStore) {e : Failure}
    → (m s).0 ≡ err e
    → ((m >>= f) s).1 ≡ (m s).1
>>=-err m f s h = ground arith

-- A chain is reached if its first part is, and the rest from where that ends.
pub chain-Reach :
    {A B : Type 0} (m : Call A) (f : A → Call B) (s : OrderStore)
    → Reach s (m s).1
    → ((a : A) → (m s).0 ≡ ok a → Reach (m s).1 (f a (m s).1).1)
    → Reach s ((m >>= f) s).1
chain-Reach m f s first rest = elim (Result-cases (m s).0) [
  | inl (a, e) ↦
      subst (λ (p : Result _ × OrderStore). Reach s p.1) (sym (>>=-ok m f s e))
        (Reach-trans first (rest a e))
  | inr (e, q) ↦ subst (Reach s) (sym (>>=-err m f s q)) first
]

pub >>=-Runs :
    {A B : Type 0} (m : Call A) (f : A → Call B) → Runs m → ((a : A) → Runs (f a)) → Runs (m >>= f)
>>=-Runs m f first rest = λ s. chain-Reach m f s (first s) (λ a e. rest a (m s).1)

-- A transaction that is a step whenever it commits.
pub transact-Runs :
    {A : Type 0} (m : Tx OrderStore A)
    → ((s s' : OrderStore) (a : A) → m s ≡ ok (a, s') → Step s s')
    → Runs (transact m)
transact-Runs m st = λ s. elim (Result-cases (m s)) [
  | inl ((a, t), e) ↦
      subst (λ (p : Result _ × OrderStore). Reach s p.1) (sym (run_ok m s e)) (one (st s t a e))
  | inr (f, e) ↦ subst (λ (p : Result _ × OrderStore). Reach s p.1) (sym (run_err m s e)) here
]

pub read_order-kept : (id : ℕ) (s : OrderStore) → (read_order id s).1 ≡ s
read_order-kept id s = elim (Result-cases (lock_order id s)) [
  | inl ((o, t), e) ↦
      let (_, same) = lock_order-eq_ok id s e in
      ap (λ (p : Result Order × OrderStore). p.1) (run_ok (lock_order id) s e) ∙ same
  | inr (f, e) ↦ ap (λ (p : Result Order × OrderStore). p.1) (run_err (lock_order id) s e)
]

pub read_order-Runs : (id : ℕ) → Runs (read_order id)
read_order-Runs id s = subst (Reach s) (sym (read_order-kept id s)) here

pub stop-Runs : (env : OrderEnv) (t : Option AutoStopTrigger) → Runs (effect (stopped_if env t))
stop-Runs env t s = one (Step.stops env t s)

pub cancel_from-Runs :
    (from : List OrderStatus) (id : ℕ) (code : RejectionCode)
    → all_where is_pending from ≡ true
    → Runs (cancel_from from id code)
cancel_from-Runs from id code pending =
    >>=-Runs (transact (cancel id from code)) (λ _. read_order id)
      (transact-Runs (cancel id from code) (λ s s' a h. Step.cancels id from code s s' pending h))
      (λ _. read_order-Runs id)

pub cancel_reserved-Runs : (id : ℕ) (code : RejectionCode) → Runs (cancel_reserved id code)
cancel_reserved-Runs id code = cancel_from-Runs (OrderStatus.reserved ∷ []) id code refl

pub cancel_submitting-Runs : (id : ℕ) (code : RejectionCode) → Runs (cancel_submitting id code)
cancel_submitting-Runs id code =
    cancel_from-Runs (OrderStatus.submitting ∷ OrderStatus.reserved ∷ []) id code refl

pub cancel_unknown-Runs : (id : ℕ) (code : RejectionCode) → Runs (cancel_unknown id code)
cancel_unknown-Runs id code = cancel_from-Runs (OrderStatus.unknown ∷ []) id code refl

pub apply_acceptance-Runs :
    (env : OrderEnv) (id : ℕ) (a : Acceptance) → Runs (apply_acceptance env id a)
unfolding apply_acceptance
apply_acceptance-Runs env id a =
    >>=-Runs (transact (accept id a env.engine.now))
      (λ stop. effect (stopped_if env stop) >>= λ _. read_order id)
      (transact-Runs (accept id a env.engine.now)
        (λ s s' r h. Step.accepts id a env.engine.now s s' h))
      (λ stop.
        >>=-Runs (effect (stopped_if env stop)) (λ _. read_order id) (stop-Runs env stop)
          (λ _. read_order-Runs id))

apply_doubt-Runs : (env : OrderEnv) (id : ℕ) → Runs (apply_doubt env id)
apply_doubt-Runs env id =
    >>=-Runs (transact (doubt id env.engine.now)) (λ _. read_order id)
      (transact-Runs (doubt id env.engine.now) (λ s s' a h. Step.doubts id env.engine.now s s' h))
      (λ _. read_order-Runs id)

pub apply_placement_result-Runs :
    (env : OrderEnv) (id : ℕ) (r : PlaceOrderResult) → Runs (apply_placement_result env id r)
unfolding apply_placement_result
apply_placement_result-Runs env id PlaceOrderResult.unknown = apply_doubt-Runs env id
apply_placement_result-Runs env id (PlaceOrderResult.rejected reason) =
    >>=-Runs (read_order id) (λ o. cancel_submitting o.id (rejection_of reason))
      (read_order-Runs id) (λ o. cancel_submitting-Runs o.id (rejection_of reason))
apply_placement_result-Runs env id (PlaceOrderResult.accepted a) =
    elim (Bool-cases (is_well_formed_acceptance a)) [
      | inl t ↦ rw t (apply_acceptance-Runs env id a)
      | inr n ↦ rw n (apply_doubt-Runs env id)
    ]
