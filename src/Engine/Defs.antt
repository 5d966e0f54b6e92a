-- ===== src/Engine/Defs.antt =====
-- State, requests and results of the risk engine, and the monad of a reservation: what is signalled
-- to `onAutoStop` outlives a throw, what is written does not.
use api_score.Base.{ℕ, ◌≡◌, arith, ◌*◌, ◌/◌, Bool, Option, none, some}
use api_score.Base.Int.{ℤ, sub_ℕ}
use api_score.Base.Tx.{Result, ok, err, Tx, Failure}
use api_score.Money.{Text}
use api_score.Domain.{RejectionCode, RiskLimit, AutoStopTrigger}
use api_score.Ledger.Defs.{EntryKey, Entry}
use api_score.Ledger.Defs
use api_score.Control.Defs.{ControlStore}
use api_score.Control.Service.{Env, auto_stop}

pub record Store : Type 0 where
  pub ledger : Defs.Store
  pub control : ControlStore

-- The environment of the control, the application's clock, whether the transaction of an automatic
-- stop fails, the text that names a trigger with its details, and the identifier of a control row
-- that a stop may have to make.
pub record EngineEnv : Type 0 where
  pub control : Env
  pub now : ℕ
  pub stop_fails : Bool
  pub stop_text : AutoStopTrigger → Text
  pub new_id : ℕ

-- `quote_captured_at` is `none` for an invalid date.
pub record ReserveStakeRequest : Type 0 where
  pub account_id : ℕ
  pub entry_key : EntryKey
  pub stake : Text
  pub quote_captured_at : Option ℕ
  pub order_id : Option ℕ
  pub actor_user_id : Option ℕ

pub data ReservationResult : Type 0 where
  reserved : Entry → Bool → ReservationResult
  rejected : RejectionCode → Option RiskLimit → ReservationResult

-- A call with a callback `onAutoStop`: the trigger signalled last, and the outcome.
abbrev pub Attempt : Type 0 → Type 0
Attempt A = Store → Option AutoStopTrigger × Result (A × Store)

abbrev pub later : Option AutoStopTrigger → Option AutoStopTrigger → Option AutoStopTrigger
later first none = first
later first (some t) = some t

abbrev pub continue_with :
    {A : Type 0}
    → Option AutoStopTrigger
    → Option AutoStopTrigger × Result (A × Store)
    → Option AutoStopTrigger × Result (A × Store)
continue_with first (second, r) = (later first second, r)

infixl 5 ◌>>=◌ ◌>>◌
abbrev pub ◌>>=◌ : {A B : Type 0} → Attempt A → (A → Attempt B) → Attempt B
◌>>=◌ m f s = let (t, r) = m s in elim r [ ok p ↦ continue_with t (f p.0 p.1) | err e ↦ (t, err e) ]

abbrev pub ◌>>◌ : {A B : Type 0} → Attempt A → Attempt B → Attempt B
m >> k = m >>= λ _. k

abbrev pub pure : {A : Type 0} → A → Attempt A
pure a s = (none, ok (a, s))

abbrev pub gets : {A : Type 0} → (Store → A) → Attempt A
gets f s = (none, ok (f s, s))

abbrev pub lift : {A : Type 0} → Result A → Attempt A
lift (ok a) s = (none, ok (a, s))
lift (err e) s = (none, err e)

abbrev pub signal : AutoStopTrigger → Attempt (Unit {0})
signal t s = (some t, ok (tt, s))

abbrev pub kept_ledger : {A : Type 0} → Store → Result (A × Defs.Store) → Result (A × Store)
kept_ledger s (ok (a, l)) = ok (a, record s { ledger = l })
kept_ledger s (err e) = err e

abbrev pub on_ledger : {A : Type 0} → Tx Defs.Store A → Attempt A
on_ledger m s = (none, kept_ledger s (m s.ledger))

abbrev pub kept_control : {A : Type 0} → Store → Result (A × ControlStore) → Result (A × Store)
kept_control s (ok (a, c)) = ok (a, record s { control = c })
kept_control s (err e) = err e

abbrev pub on_control : {A : Type 0} → Tx ControlStore A → Attempt A
on_control m s = (none, kept_control s (m s.control))

-- `utcDayStart`: the first millisecond of the UTC day.
abbrev pub utc_day_start : ℕ → ℕ
utc_day_start now = now / 86400000 * 86400000

-- `now.getTime() - quoteCapturedAt.getTime()`, not finite for an invalid date.
abbrev pub quote_age : ℕ → Option ℕ → Option ℤ
quote_age now none = none
quote_age now (some captured) = some (sub_ℕ now captured)

-- `autoStop` after the transaction, if a trigger was signalled.
abbrev pub apply_stop : EngineEnv → Option AutoStopTrigger → Store → Store
apply_stop env none s = s
apply_stop env (some t) s = record s {
  control = (auto_stop env.control env.stop_fails (env.stop_text t) env.new_id s.control).1;
}

-- A step on the ledger, with what follows it.
module _ {A B : Type 0} (m : Tx Defs.Store A) (k : A → Attempt B) (s : Store) where
  pub bind_ledger :
      {a : A} {l : Defs.Store}
      → m s.ledger ≡ ok (a, l)
      → ((on_ledger m >>= k) s).1 ≡ (k a (record s { ledger = l })).1
  bind_ledger e = ground arith

  pub bind_ledger_err : {f : Failure} → m s.ledger ≡ err f → ((on_ledger m >>= k) s).1 ≡ err f
  bind_ledger_err e = ground arith

-- A step on the control, with what follows it.
module _ {A B : Type 0} (m : Tx ControlStore A) (k : A → Attempt B) (s : Store) where
  pub bind_control :
      {a : A} {c : ControlStore}
      → m s.control ≡ ok (a, c)
      → ((on_control m >>= k) s).1 ≡ (k a (record s { control = c })).1
  bind_control e = ground arith

  pub bind_control_err : {f : Failure} → m s.control ≡ err f → ((on_control m >>= k) s).1 ≡ err f
  bind_control_err e = ground arith
