-- ===== src/Base/Tx.antt =====
-- A database transaction: it reads and writes a store, and a throw rolls every write back.
use mathlib.Core.Bool.{Bool, true, false}
use mathlib.Core.Option.{Option, none, some}
use mathlib.Core.Path.{◌≡◌, refl}
use mathlib.Core.Logic.{◌⊎◌, inl, inr}
use native.Mathlib.Omega.{arith}

-- The rule that a `LedgerRuleError` names.
pub data LedgerRule : Type 0 where
  stake_required payout_required adjustment_required opening_balance : LedgerRule
  available_short release_short settle_short negative_balance : LedgerRule

-- NestJS's HTTP exceptions that the services throw.
pub data HttpError : Type 0 where
  bad_request conflict not_found forbidden unavailable : HttpError

-- What a call throws: `ExecutionBlockedError` with its flag `unreadable`, `LedgerRuleError`, an
-- `HttpException`, or any other `Error`.
pub data Failure : Type 0 where
  blocked : Bool → Failure
  ledger_rule : LedgerRule → Failure
  http : HttpError → Failure
  other : Failure

pub data Result {ℓ} (A : Type ℓ) : Type ℓ where
  ok : A → Result A
  err : Failure → Result A

-- A failed transaction returns no store: the caller goes on with the one it had.
abbrev pub Tx : Type 0 → Type 0 → Type 0
Tx S A = S → Result (A × S)

module _ {S A : Type 0} where
  abbrev pub pure : A → Tx S A
  pure a s = ok (a, s)

  abbrev pub throw : Failure → Tx S A
  throw e s = err e

  abbrev pub gets : (S → A) → Tx S A
  gets f s = ok (f s, s)

  abbrev pub or_throw : Option A → Failure → Tx S A
  or_throw none e s = err e
  or_throw (some a) e s = ok (a, s)

  abbrev pub lift : Result A → Tx S A
  lift (ok a) s = ok (a, s)
  lift (err e) s = err e

infixl 5 ◌>>=◌ ◌>>◌
abbrev pub ◌>>=◌ : {S A B : Type 0} → Tx S A → (A → Tx S B) → Tx S B
◌>>=◌ m f s = elim (m s) [ ok r ↦ f r.0 r.1 | err e ↦ err e ]

abbrev pub ◌>>◌ : {S A B : Type 0} → Tx S A → Tx S B → Tx S B
m >> k = m >>= λ _. k

abbrev pub modify : {S : Type 0} → (S → S) → Tx S (Unit {0})
modify f s = ok (tt, f s)

abbrev pub throw_if : {S : Type 0} → Bool → Failure → Tx S (Unit {0})
throw_if true e s = err e
throw_if false e s = ok (tt, s)

-- How a caller that catches sees a transaction: its outcome, and the store after commit or rollback.
abbrev pub run : {S A : Type 0} → Tx S A → S → Result A × S
run m s = elim (m s) [ ok r ↦ (ok r.0, r.1) | err e ↦ (err e, s) ]

pub Result-cases {ℓ} :
    {A : Type ℓ} (r : Result A) → ((a : A) × (r ≡ ok a)) ⊎ ((e : Failure) × (r ≡ err e))
Result-cases (ok a) = inl (a, refl)
Result-cases (err e) = inr (e, refl)

-- A chain that succeeds has a first step that succeeds, and a rest that does.
pub >>=-eq_ok :
    {S A B : Type 0} (m : Tx S A) (f : A → Tx S B) (s : S) {b : B} {u : S}
    → (m >>= f) s ≡ ok (b, u)
    → (a : A) × (t : S) × (m s ≡ ok (a, t)) × (f a t ≡ ok (b, u))
>>=-eq_ok m f s h = elim (Result-cases (m s)) [
  | inl ((a, t), e) ↦ (a, t, e, ground arith)
  | inr (e, q) ↦ absurd (ground arith)
]

pub run_ok :
    {S A : Type 0} (m : Tx S A) (s : S) {a : A} {t : S} → m s ≡ ok (a, t) → run m s ≡ (ok a, t)
run_ok m s h = ground arith

pub run_err : {S A : Type 0} (m : Tx S A) (s : S) {e : Failure} → m s ≡ err e → run m s ≡ (err e, s)
run_err m s h = ground arith
