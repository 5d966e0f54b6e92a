-- ===== src/Control/Governed.antt =====
-- In every reachable state an open control row has a risk policy to enforce.
use api_score.Base.{
  ℕ, ◌≡◌, ◌⊎◌, inl, inr, refl, sym, ◌∙◌, true, Option, none, some, List, ◌∷◌, arith, ◌==◌, ==_refl,
  is_some, Bool-cases, Option-cases, eq_of_some,
}
use mathlib.Core.Path.{subst}
use api_score.Base.Rows.{find}
use api_score.Base.Tx.{ok}
use api_score.Money.{Text}
use api_score.Domain.{disabled, mode_eq, known, stored_mode_eq, StopSource, manual}
use api_score.Risk.{RiskPolicy}
use api_score.Gate.{GateEvidence, transition_shape, record_evidence}
use api_score.Control.Defs.{ControlRow, ControlStore, ControlSnapshot, sanitize_reason}
use api_score.Control.Service.{Env, lock_for_execution, stop, stop_row, reason_or_default}
use api_score.Control.Changes.{
  ChangeModeInput, CreateRiskPolicyInput, mode_or_disabled, check_up, changed_row, move_mode,
  change_mode, create_risk_policy, activated_row, active_policy,
}
use api_score.Control.Switch.{lock_for_execution_iff, stored_disabled, known_eq}
use api_score.Control.Ladder.{move_mode-IsMoved}

abbrev pub IsLinked : Option ℕ → List RiskPolicy → Type 0
IsLinked none ps = Unit {0}
IsLinked (some id) ps = is_some (find (λ p. p.id == id) ps) ≡ true

-- The active policy of the row is in the table, and there is one unless the row says DISABLED.
pub record IsGovernedRow (ps : List RiskPolicy) (row : ControlRow) : Type 0 where
  pub linked : IsLinked row.active_risk_policy_id ps
  pub governed : (row.mode ≡ known disabled) ⊎ (is_some row.active_risk_policy_id ≡ true)

abbrev pub IsGoverned : ControlStore → Type 0
IsGoverned s = (row : ControlRow) → s.control ≡ some row → IsGovernedRow s.policies row

-- The operations of an administrator, of an automatic stop, and of the recording of evidence.
pub data Step : ControlStore → ControlStore → Type 0 where
  stops :
      (env : Env) (reason : Text) (actor : Option ℕ) (source : StopSource) (expected : Option ℕ)
      (new_id : ℕ) {s s' : ControlStore} {snapshot : ControlSnapshot}
      → stop env reason actor source expected new_id s ≡ ok (snapshot, s')
      → Step s s'
  changes :
      (env : Env) (input : ChangeModeInput) (actor new_id : ℕ) {s s' : ControlStore}
      {snapshot : ControlSnapshot}
      → change_mode env input actor new_id s ≡ ok (snapshot, s')
      → Step s s'
  creates :
      (input : CreateRiskPolicyInput) (actor new_id : ℕ) {s s' : ControlStore} {p : RiskPolicy}
      → create_risk_policy input actor new_id s ≡ ok (p, s')
      → Step s s'
  records :
      (period_from period_to approver : ℕ) (e : GateEvidence) {s s' : ControlStore}
      {table : List GateEvidence}
      → record_evidence period_from period_to approver e s.evidence ≡ ok table
      → s' ≡ record s { evidence = table }
      → Step s s'

pub data Reach (s : ControlStore) : ControlStore → Type 0 where
  here : Reach s s
  next : {t u : ControlStore} → Reach s t → Step t u → Reach s u

stop_row-IsGoverned :
    (reason : Text) (actor : Option ℕ) (source : StopSource) (expected : Option ℕ) (new_id : ℕ)
    (o : Option ControlRow) (s : ControlStore)
    → s.control ≡ o
    → IsGoverned s
    → IsGoverned (stop_row reason actor source expected new_id o s)
stop_row-IsGoverned reason actor source expected new_id none s e g = λ row f.
    subst (IsGovernedRow s.policies) (eq_of_some f) (record { linked = tt; governed = inl refl })
stop_row-IsGoverned reason actor source expected new_id (some r) s e g =
    elim (Bool-cases (stored_mode_eq r.mode (known disabled))) [
      | inl stopped ↦ rw stopped g
      | inr running ↦ rw running (λ row f.
          subst (IsGovernedRow s.policies) (eq_of_some f)
            (record { linked = (g r e).linked; governed = inl refl }))
    ]

stop-IsGoverned :
    (env : Env) (reason : Text) (actor : Option ℕ) (source : StopSource) (expected : Option ℕ)
    (new_id : ℕ) (s s' : ControlStore) {snapshot : ControlSnapshot}
    → stop env reason actor source expected new_id s ≡ ok (snapshot, s')
    → IsGoverned s
    → IsGoverned s'
unfolding stop
stop-IsGoverned env reason actor source expected new_id s s' h g =
    let t =
      stop_row (reason_or_default (sanitize_reason reason)) actor source expected new_id s.control
        s in
    let e : t ≡ s' = ground arith in
    subst IsGoverned e (
      stop_row-IsGoverned (reason_or_default (sanitize_reason reason)) actor source expected new_id
        s.control s refl g)

change_mode-cases :
    (env : Env) (input : ChangeModeInput) (actor new_id : ℕ) (s : ControlStore)
    {r : ControlSnapshot × ControlStore}
    → change_mode env input actor new_id s ≡ ok r
    → (stop env input.reason (some actor) manual (some input.expected_version) new_id s ≡ ok r)
      ⊎ (move_mode env input actor s ≡ ok r)
unfolding change_mode
change_mode-cases env input actor new_id s h =
    elim (Bool-cases (mode_eq input.target_mode disabled)) [
      | inl e ↦ inl (rw e at h)
      | inr e ↦ inr (rw e at h)
    ]

-- A mode other than DISABLED is left as one that has a policy, or is entered from below with one.
check_up_governed :
    (env : Env) (s : ControlStore) (row : ControlRow) (input : ChangeModeInput)
    → (row.mode ≡ known disabled) ⊎ (is_some row.active_risk_policy_id ≡ true)
    → (transition_shape (mode_or_disabled row.mode) input.target_mode).allowed ≡ true
    → check_up env s row input
        (transition_shape (mode_or_disabled row.mode) input.target_mode).direction
      ≡ ok tt
    → is_some row.active_risk_policy_id ≡ true
unfolding transition_shape
check_up_governed env s row input (inr policy) allowed checked = policy
check_up_governed env s row input (inl m) allowed checked = ground arith

change_mode-IsGoverned :
    (env : Env) (input : ChangeModeInput) (actor new_id : ℕ) (s s' : ControlStore)
    {snapshot : ControlSnapshot}
    → change_mode env input actor new_id s ≡ ok (snapshot, s')
    → IsGoverned s
    → IsGoverned s'
change_mode-IsGoverned env input actor new_id s s' h g =
    elim (change_mode-cases env input actor new_id s h) [
      | inl stopped ↦
          stop-IsGoverned env input.reason (some actor) manual (some input.expected_version) new_id
            s s' stopped g
      | inr moved ↦
          let (r, m) = move_mode-IsMoved env input actor s moved in
          let old = g r m.found in
          λ row f. subst (IsGovernedRow s'.policies) (eq_of_some (sym m.written ∙ f)) (
            subst (λ ps. IsGovernedRow ps (changed_row input.target_mode actor r))
              (sym m.policies_kept)
              (record {
                linked = old.linked;
                governed = inr (check_up_governed env s r input old.governed m.allowed m.checked);
              }))
    ]

IsLinked-cons :
    (id : Option ℕ) (p : RiskPolicy) (ps : List RiskPolicy) → IsLinked id ps → IsLinked id (p ∷ ps)
IsLinked-cons none p ps h = tt
IsLinked-cons (some id) p ps h = ground arith

-- What `create_risk_policy` has written.
create_risk_policy-eq_ok :
    (input : CreateRiskPolicyInput) (actor new_id : ℕ) (s : ControlStore) {p : RiskPolicy}
    {s' : ControlStore}
    → create_risk_policy input actor new_id s ≡ ok (p, s')
    → (s'.policies ≡ p ∷ s.policies)
      × ((s'.control ≡ s.control)
          ⊎ ((row : ControlRow) × (s.control ≡ some row)
              × (stored_mode_eq row.mode (known disabled) ≡ true)
              × (s'.control ≡ some (activated_row p.id actor row))))
unfolding create_risk_policy
create_risk_policy-eq_ok input actor new_id s h = elim (Bool-cases input.activate) [
  | inl activate ↦ elim (Option-cases s.control) [
    | inl missing ↦ absurd (ground arith)
    | inr (row, e) ↦ (ground arith, inr (row, e, ground arith, ground arith))
  ]
  | inr keep ↦ (ground arith, inl (ground arith))
]

create_risk_policy-IsGoverned :
    (input : CreateRiskPolicyInput) (actor new_id : ℕ) (s : ControlStore) {p : RiskPolicy}
    {s' : ControlStore}
    → create_risk_policy input actor new_id s ≡ ok (p, s')
    → IsGoverned s
    → IsGoverned s'
create_risk_policy-IsGoverned input actor new_id s {p} {s'} h g =
    let (policies, control) = create_risk_policy-eq_ok input actor new_id s h in
    elim control [
      | inl kept ↦ λ row f.
          let old = g row (sym kept ∙ f) in
          subst (λ ps. IsGovernedRow ps row) (sym policies)
            (record {
              linked = IsLinked-cons row.active_risk_policy_id p s.policies old.linked;
              governed = old.governed;
            })
      | inr (r, found, stopped, activated) ↦ λ row f.
          subst (IsGovernedRow s'.policies) (eq_of_some (sym activated ∙ f)) (
            subst (λ ps. IsGovernedRow ps (activated_row p.id actor r)) (sym policies)
              (record {
                linked = rw (==_refl p.id);
                governed = inl (stored_disabled r.mode stopped);
              }))
    ]

records-IsGoverned :
    (table : List GateEvidence) (s : ControlStore)
    → IsGoverned s
    → IsGoverned (record s { evidence = table })
records-IsGoverned table s g = g

Step-IsGoverned : {s s' : ControlStore} → Step s s' → IsGoverned s → IsGoverned s'
Step-IsGoverned (stops env reason actor source expected new_id h) g =
    stop-IsGoverned env reason actor source expected new_id _ _ h g
Step-IsGoverned (changes env input actor new_id h) g =
    change_mode-IsGoverned env input actor new_id _ _ h g
Step-IsGoverned (creates input actor new_id h) g =
    create_risk_policy-IsGoverned input actor new_id _ h g
Step-IsGoverned (records period_from period_to approver e {s} {table = table} h q) g =
    subst IsGoverned (sym q) (records-IsGoverned table s g)

pub Reach-IsGoverned : {s s' : ControlStore} → Reach s s' → IsGoverned s → IsGoverned s'
Reach-IsGoverned here g = g
Reach-IsGoverned (next r st) g = Step-IsGoverned st (Reach-IsGoverned r g)

linked_policy :
    (id : Option ℕ) (ps : List RiskPolicy)
    → IsLinked id ps
    → is_some id ≡ true
    → (p : RiskPolicy) × (active_policy id ps ≡ some p)
unfolding active_policy
linked_policy none ps l h = cc
linked_policy (some id) ps l h = elim (Option-cases (find (λ (p : RiskPolicy). p.id == id) ps)) [
  | inl missing ↦ cc (rw missing at l)
  | inr (p, e) ↦ (p, e)
]

-- However the control came to its state by these operations, from a governed one, a caller that is let through finds an active risk policy in the table.
pub open_has_policy :
    (s s' t : ControlStore) (env : Env) (row : ControlRow)
    → IsGoverned s
    → Reach s s'
    → lock_for_execution env s' ≡ ok (row, t)
    → (p : RiskPolicy) × (active_policy row.active_risk_policy_id s'.policies ≡ some p)
open_has_policy s s' t env row g r h =
    let (m, _, found, is_open, _) = (lock_for_execution_iff env s' t row).0 h in
    let row_governed = Reach-IsGoverned r g row found in
    linked_policy row.active_risk_policy_id s'.policies row_governed.linked
      (elim row_governed.governed [
        | inl stopped ↦ absurd (is_open.running (known_eq (sym is_open.mode_known ∙ stopped)))
        | inr policy ↦ policy
      ])
