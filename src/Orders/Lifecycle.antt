-- ===== src/Orders/Lifecycle.antt =====
-- The life of an order as the pipeline means it: which status may follow which, and what never
-- changes.
use api_score.Base.{ℕ, suc, ◌≡◌, refl, ◌∙◌, ◌⊎◌, inl, inr, Bool, true, false, arith}
use mathlib.Core.Path.{subst}
use api_score.Domain.{OrderStatus}
use api_score.Money.{Text}
use api_score.Orders.Defs.{Order}

-- Nothing is known of the order at the operator, or it is not yet entered.
abbrev pub is_pending : OrderStatus → Bool
is_pending OrderStatus.reserved = true
is_pending OrderStatus.submitting = true
is_pending OrderStatus.unknown = true
is_pending _ = false

abbrev pub is_final : OrderStatus → Bool
is_final OrderStatus.rejected = true
is_final OrderStatus.settled = true
is_final OrderStatus.voided = true
is_final OrderStatus.reconciliation_required = true
is_final _ = false

-- A reservation is submitted once; a submission may fall in doubt; what is pending is rejected,
-- accepted or disputed; what is accepted is settled or voided.
pub data Move : OrderStatus → OrderStatus → Type 0 where
  submits : Move OrderStatus.reserved OrderStatus.submitting
  doubts : Move OrderStatus.submitting OrderStatus.unknown
  rejects : {a : OrderStatus} → is_pending a ≡ true → Move a OrderStatus.rejected
  accepts : {a : OrderStatus} → is_pending a ≡ true → Move a OrderStatus.accepted
  disputes : {a : OrderStatus} → is_pending a ≡ true → Move a OrderStatus.reconciliation_required
  settles : Move OrderStatus.accepted OrderStatus.settled
  voids : Move OrderStatus.accepted OrderStatus.voided

-- A number of moves in a row.
pub data Route (a : OrderStatus) : ℕ → OrderStatus → Type 0 where
  stays : Route a 0 a
  goes : {n : ℕ} {b c : OrderStatus} → Route a n b → Move b c → Route a (suc n) c

Route-trans : {a b c : OrderStatus} {n m : ℕ} → Route a n b → Route b m c → (k : ℕ) × Route a k c
Route-trans p stays = (_, p)
Route-trans p (goes q m) = let (k, r) = Route-trans p q in (suc k, goes r m)

-- What is the same in every state of an order.
pub record OrderIdentity : Type 0 where
  pub id : ℕ
  pub decision_id : ℕ
  pub account_id : ℕ
  pub operator_key : ℕ
  pub idempotency_key : ℕ
  pub requested_stake : Text
  pub minimum_odd : ℕ

abbrev pub identity_of : Order → OrderIdentity
identity_of o = record {
  id = o.id;
  decision_id = o.decision_id;
  account_id = o.account_id;
  operator_key = o.operator_key;
  idempotency_key = o.idempotency_key;
  requested_stake = o.requested_stake;
  minimum_odd = o.minimum_odd;
}

abbrev pub IsSameOrder : Order → Order → Type 0
IsSameOrder o o' = identity_of o' ≡ identity_of o

-- A later state of an order: the same order, further on in its life, and the same row if its life
-- was over.
pub record Follows (o o' : Order) : Type 0 where
  pub same : IsSameOrder o o'
  pub life : (n : ℕ) × Route o.status n o'.status
  pub final : (is_final o.status ≡ false) ⊎ (o' ≡ o)

pub Follows-refl : (o : Order) → Follows o o
Follows-refl o = record { same = refl; life = (0, stays); final = inr refl }

pub Follows-trans : {a b c : Order} → Follows a b → Follows b c → Follows a c
Follows-trans {a} {b} {c} p q = record {
  same = q.same ∙ p.same;
  life = Route-trans p.life.1 q.life.1;
  final = elim p.final [
    | inl open_status ↦ inl open_status
    | inr same ↦ subst (λ (x : Order). (is_final x.status ≡ false) ⊎ (c ≡ x)) same q.final
  ];
}

Move-open : {a b : OrderStatus} → Move a b → is_final a ≡ false
Move-open submits = refl
Move-open doubts = refl
Move-open (rejects {a} h) = ground arith
Move-open (accepts {a} h) = ground arith
Move-open (disputes {a} h) = ground arith
Move-open settles = refl
Move-open voids = refl

pub Move-Follows : (o o' : Order) → IsSameOrder o o' → Move o.status o'.status → Follows o o'
Move-Follows o o' same m = record {
  same = same;
  life = (1, goes stays m);
  final = inl (Move-open m);
}
