-- ===== src/Engine/Stopped.antt =====
-- While execution is stopped: nothing is reserved, and what is reserved can still be released.
use api_score.Base.{
  ℕ, ◌≡◌, refl, ap, ◌∙◌, inl, inr, Bool, true, false, Option, none, some, arith, Bool-cases,
}
use api_score.Base.Tx.{ok, err, blocked, Result-cases}
use api_score.Money.{Text, to_cents}
use api_score.Domain.{control_disabled, AutoStopTrigger, control_unreadable}
use api_score.Ledger.Defs.{EntryKey, Entry}
use api_score.Ledger.Service.{lock_account, append}
use api_score.Control.Defs.{ControlStore, to_snapshot, execution_allowed}
use api_score.Control.Service.{Env, lock_for_execution, auto_stop}
use api_score.Control.Switch.{IsStopped}
use api_score.Engine.Defs.{Store, EngineEnv, ReserveStakeRequest, rejected, apply_stop}
use api_score.Engine.Service.{
  reserve_within, reserve_stake, concluded, classify_reservation_error, release_stake,
}
use api_score.Engine.Moves.{release_entry}

lock_for_execution-stopped :
    (env : Env) (s : ControlStore)
    → IsStopped s
    → (b : Bool) × (lock_for_execution env s ≡ err (blocked b))
unfolding lock_for_execution to_snapshot execution_allowed
lock_for_execution-stopped env s (row, found, m) = elim (Bool-cases env.control_answers) [
  | inl answers ↦ (false, rw (answers, found, m) refl)
  | inr silent ↦ (true, rw silent refl)
]

reserve_within-blocked :
    (env : EngineEnv) (request : ReserveStakeRequest) (s : Store) (b : Bool)
    → lock_for_execution env.control s.control ≡ err (blocked b)
    → reserve_within env request s ≡ (none, err (blocked b))
unfolding reserve_within
reserve_within-blocked env request s b h = ground arith

auto_stop-stopped :
    (env : Env) (fails : Bool) (text : Text) (new_id : ℕ) (s : ControlStore)
    → IsStopped s
    → (auto_stop env fails text new_id s).1 ≡ s
unfolding auto_stop
auto_stop-stopped env true text new_id s stopped = refl
auto_stop-stopped env false text new_id s (row, found, m) = rw (found, m) refl

apply_stop-stopped :
    (env : EngineEnv) (t : Option AutoStopTrigger) (s : Store)
    → IsStopped s.control
    → apply_stop env t s ≡ s
apply_stop-stopped env none s h = refl
apply_stop-stopped env (some t) s h =
    ap (λ (c : ControlStore). record s { control = c })
      (auto_stop-stopped env.control env.stop_fails (env.stop_text t) env.new_id s.control h)

concluded-blocked :
    (env : EngineEnv) (s : Store) (b : Bool)
    → IsStopped s.control
    → concluded env s (none, err (blocked b)) ≡ (rejected control_disabled none, s)
unfolding classify_reservation_error
concluded-blocked env s true h =
    ap (λ (x : Store). (rejected control_disabled none, x))
      (apply_stop-stopped env (some control_unreadable) s h)
concluded-blocked env s false h = refl

-- While the control row says DISABLED every reservation is refused as such and changes nothing,
-- neither in the ledger nor in the control, whatever the environment.
pub reserve_stake-stopped :
    (env : EngineEnv) (request : ReserveStakeRequest) (s : Store)
    → IsStopped s.control
    → reserve_stake env request s ≡ (rejected control_disabled none, s)
unfolding reserve_stake
reserve_stake-stopped env request s h =
    let (b, e) = lock_for_execution-stopped env.control s.control h in
    ap (concluded env s) (reserve_within-blocked env request s b e) ∙ concluded-blocked env s b h

-- A release that succeeds under some control succeeds under every other, with the same entry and
-- the same ledger, and leaves the control as it is.
release_stake-any_control :
    (id : ℕ) (key : EntryKey) (stake : Text) (order : Option ℕ) (s : Store) (c : ControlStore)
    {e : Entry} {s' : Store}
    → (release_stake id key stake order s).1 ≡ ok (e, s')
    → (release_stake id key stake order (record s { control = c })).1
      ≡ ok (e, record s' { control = c })
unfolding release_stake
release_stake-any_control id key text order s c h = elim (Result-cases (lock_account id s.ledger)) [
  | inr (f, e) ↦ absurd (ground arith)
  | inl ((account, l), e) ↦ elim (Result-cases (to_cents text)) [
    | inr (f, q) ↦ absurd (ground arith)
    | inl (stake, q) ↦ elim (Result-cases (append account (release_entry key stake order) l)) [
      | inr (f, a) ↦ absurd (ground arith)
      | inl (((r, account'), m), a) ↦ ground arith
    ]
  ]
]
