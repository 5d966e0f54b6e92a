-- ===== src/Control/Switch.antt =====
-- The kill switch: stopping always works, and nothing is engaged unless the row plainly allows it.
use api_score.Base.{
  ℕ, ◌≡◌, ◌≢◌, ◌↔◌, ◌⊎◌, inl, inr, refl, sym, ap, ◌∙◌, true, Option, none, some, arith, Bool-cases,
  eq_of_some,
}
use api_score.Base.Tx.{ok}
use api_score.Money.{Text}
use api_score.Domain.{
  ExecutionMode, disabled, live_canary, StoredMode, known, unrecognised, stored_mode_eq, StopSource,
}
use api_score.Control.Defs.{
  ControlRow, ControlStore, ControlSnapshot, is_interlock_open, to_snapshot, execution_allowed,
  sanitize_reason,
}
use api_score.Control.Service.{
  Env, lock_for_execution, stop, stop_row, stopped_row, reason_or_default, admit,
}

-- The control row names a mode, not DISABLED, and LIVE_CANARY only with the interlock open.
pub record IsOpen (env : Env) (row : ControlRow) (mode : ExecutionMode) : Type 0 where
  pub mode_known : row.mode ≡ known mode
  pub running : mode ≢ disabled
  pub guarded : (mode ≢ live_canary) ⊎ (is_interlock_open env.interlock ≡ true)

admit_sound :
    (env : Env) (mode : ExecutionMode) (row : ControlRow) (o : Option ControlRow)
    → row.mode ≡ known mode
    → admit env o ≡ ok row
    → (o ≡ some row) × IsOpen env row mode
unfolding to_snapshot execution_allowed
admit_sound env mode row none m h = cc
admit_sound env mode row (some r) m h = (ground arith, ground arith)

pub StoredMode-cases :
    (m : StoredMode) → ((e : ExecutionMode) × (m ≡ known e)) ⊎ ((n : ℕ) × (m ≡ unrecognised n))
StoredMode-cases (known e) = inl (e, refl)
StoredMode-cases (unrecognised n) = inr (n, refl)

admit-unrecognised :
    (env : Env) (row r : ControlRow) {n : ℕ} → r.mode ≡ unrecognised n → admit env (some r) ≢ ok row
unfolding to_snapshot
admit-unrecognised env row r m h = ground arith

lock_parts :
    (env : Env) (s s' : ControlStore) (row : ControlRow)
    → lock_for_execution env s ≡ ok (row, s')
    → (env.control_answers ≡ true) × (admit env s.control ≡ ok row) × (s' ≡ s)
unfolding lock_for_execution
lock_parts env s s' row h = (ground arith, ground arith, ground arith)

admit-row :
    (env : Env) (o : Option ControlRow) (row : ControlRow) → admit env o ≡ ok row → o ≡ some row
unfolding to_snapshot execution_allowed
admit-row env none row h = cc
admit-row env (some r) row h = ground arith

lock_sound :
    (env : Env) (s s' : ControlStore) (row : ControlRow)
    → lock_for_execution env s ≡ ok (row, s')
    → (m : ExecutionMode) × (env.control_answers ≡ true)
      × (s.control ≡ some row)
      × IsOpen env row m
      × (s' ≡ s)
lock_sound env s s' row h =
    let (answers, admitted, kept) = lock_parts env s s' row h in
    let here = admit-row env s.control row admitted in
    elim (StoredMode-cases row.mode) [
      | inl (m, e) ↦ (m, answers, here, (admit_sound env m row s.control e admitted).1, kept)
      | inr (n, e) ↦ absurd (admit-unrecognised env row row e (rw here at admitted))
    ]

lock_complete :
    (env : Env) (s s' : ControlStore) (row : ControlRow) (m : ExecutionMode)
    → env.control_answers ≡ true
    → s.control ≡ some row
    → IsOpen env row m
    → s' ≡ s
    → lock_for_execution env s ≡ ok (row, s')
unfolding lock_for_execution
lock_complete env s s' row m a c o e = ground arith

-- A caller is let through exactly when the database answers and the control row is there and
-- names a mode that runs, with the interlock open if that is LIVE_CANARY; nothing is written.
pub lock_for_execution_iff :
    (env : Env) (s s' : ControlStore) (row : ControlRow)
    → (lock_for_execution env s ≡ ok (row, s')) ↔ (
        (m : ExecutionMode) × (env.control_answers ≡ true)
        × (s.control ≡ some row)
        × IsOpen env row m
        × (s' ≡ s))
lock_for_execution_iff env s s' row =
    (lock_sound env s s' row, λ (m, a, c, o, e). lock_complete env s s' row m a c o e)

pub stored_disabled :
    (m : StoredMode) → stored_mode_eq m (known disabled) ≡ true → m ≡ known disabled
stored_disabled (known e) h = ground arith
stored_disabled (unrecognised n) h = cc

pub known_eq : {a b : ExecutionMode} → known a ≡ known b → a ≡ b
known_eq h = cc

-- The control row says DISABLED.
abbrev pub IsStopped : ControlStore → Type 0
IsStopped s = (row : ControlRow) × (s.control ≡ some row) × (row.mode ≡ known disabled)

stop_row-IsStopped :
    (reason : Text) (actor : Option ℕ) (source : StopSource) (expected : Option ℕ) (new_id : ℕ)
    (o : Option ControlRow) (s : ControlStore)
    → s.control ≡ o
    → IsStopped (stop_row reason actor source expected new_id o s)
stop_row-IsStopped reason actor source expected new_id none s e = (_, refl, refl)
stop_row-IsStopped reason actor source expected new_id (some row) s e =
    elim (Bool-cases (stored_mode_eq row.mode (known disabled))) [
      | inl stopped ↦ rw stopped (row, e, stored_disabled row.mode stopped)
      | inr running ↦ rw running (stopped_row reason actor source row, refl, refl)
    ]

stop_row_keeps :
    (reason : Text) (actor : Option ℕ) (source : StopSource) (expected : Option ℕ) (new_id : ℕ)
    (o : Option ControlRow) (s : ControlStore)
    → ((stop_row reason actor source expected new_id o s).policies ≡ s.policies)
      × ((stop_row reason actor source expected new_id o s).evidence ≡ s.evidence)
stop_row_keeps reason actor source expected new_id none s = (refl, refl)
stop_row_keeps reason actor source expected new_id (some row) s = (ground arith, ground arith)

-- Stopping succeeds in every state, whatever version the caller expects: afterwards the control
-- row says DISABLED, the snapshot says so too, and policies and evidence are as they were.
pub stop-IsStopped :
    (env : Env) (reason : Text) (actor : Option ℕ) (source : StopSource) (expected : Option ℕ)
    (new_id : ℕ) (s : ControlStore)
    → (snapshot : ControlSnapshot) × (s' : ControlStore) × (stop env reason actor source expected
          new_id s
        ≡ ok (snapshot, s'))
      × IsStopped s'
      × (snapshot.mode ≡ disabled)
      × (s'.policies ≡ s.policies)
      × (s'.evidence ≡ s.evidence)
unfolding stop
stop-IsStopped env reason actor source expected new_id s =
    let text = reason_or_default (sanitize_reason reason) in
    let s' = stop_row text actor source expected new_id s.control s in
    let (row, here, m) = stop_row-IsStopped text actor source expected new_id s.control s refl in
    (
      to_snapshot s'.control (is_interlock_open env.interlock),
      s',
      refl,
      (row, here, m),
      rw (here, m),
      (stop_row_keeps text actor source expected new_id s.control s).0,
      (stop_row_keeps text actor source expected new_id s.control s).1,
    )

-- While the row says DISABLED no caller is let through, in any environment, and a further stop
-- succeeds and changes nothing.
pub IsStopped-blocks :
    (s : ControlStore) (env : Env) (row : ControlRow) (t : ControlStore) (reason : Text)
    (actor : Option ℕ) (source : StopSource) (expected : Option ℕ) (new_id : ℕ)
    → IsStopped s
    → (lock_for_execution env s ≢ ok (row, t))
      × ((snapshot : ControlSnapshot) × (stop env reason actor source expected new_id s
            ≡ ok (snapshot, s)))
unfolding stop
IsStopped-blocks s env r t reason actor source expected new_id (row, here, m) = (
  λ h.
      let (mode, _, there, open_row, _) = lock_sound env s t r h in
      let same : row ≡ r = eq_of_some (sym here ∙ there) in
      open_row.running
        (known_eq (sym open_row.mode_known ∙ (ap (λ (x : ControlRow). x.mode) (sym same) ∙ m))),
  (to_snapshot s.control (is_interlock_open env.interlock), rw (here, m)),
)
