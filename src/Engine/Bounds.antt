-- ===== src/Engine/Bounds.antt =====
-- After an accepted reservation the account is within the ceilings of the active policy.
use api_score.Base.{ℕ, ◌≤◌, ◌≡◌, inl, inr, sym, ap, ◌∙◌, false, some, arith, ==_refl, le→leb, ◌∷◌}
use mathlib.Core.Path.{subst}
use api_score.Base.Int.{ℤ, pos, ◌+ℤ◌, ◌≤ℤ◌, +ℤ_comm}
use api_score.Base.Tx.{ok}
use api_score.Domain.{reserve}
use api_score.Risk.{RiskPolicy}
use api_score.Risk.Limits.{evaluate_risk_iff}
use api_score.Ledger.Defs
use api_score.Ledger.Defs.{Entry, Account, Effect, PlannedEntry, EntryMovement, movement_effect}
use api_score.Ledger.Service.{find_account, balances_of, planned_row}
use api_score.Ledger.Checks.{sum_of, staked_since}
use api_score.Ledger.Effects.{plan_entry-eq_ok, plan_entry-IsBalanced}
use api_score.Ledger.Invariant.{IsSound, find_account-id}
use api_score.Ledger.AppendLaws.{append-IsSound, append-eq_ok, plan_effect-amounts}
use api_score.Control.Defs.{ControlRow}
use api_score.Control.Changes.{active_policy}
use api_score.Control.Switch.{lock_for_execution_iff}
use api_score.Engine.Defs.{Store, EngineEnv, ReserveStakeRequest, reserved, utc_day_start}
use api_score.Engine.Service.{reserve_stake, risk_input}
use api_score.Engine.Stages.{IsCommitted, reserve_entry}
use api_score.Engine.Reservation.{reserve_within-reserved}
use api_score.Engine.Safety.{reserve_stake-reserved}

-- The account's open exposure and its stakes of the day are within the policy, and it is not
-- overdrawn.
pub record RespectsPolicy (day : ℕ) (policy : RiskPolicy) (account : Account) (ledger : Defs.Store)
    : Type 0 where
  pub exposure : account.reserved ≤ℤ policy.max_open_exposure
  pub budget : sum_of (staked_since day) account.id ledger.entries ≤ℤ policy.max_daily_stake
  pub covered : pos 0 ≤ℤ account.available

reserve_effect :
    (request : ReserveStakeRequest) (stake : ℤ) {e : Effect}
    → movement_effect reserve (reserve_entry request stake).movement ≡ ok e
    → e.reserved_delta_cents ≡ stake
unfolding movement_effect
reserve_effect request stake h = ground arith

-- The day's stakes once a reservation is written.
staked_since-row :
    (day now : ℕ) (request : ReserveStakeRequest) (stake : ℤ) (account : Account) (p : PlannedEntry)
    (ledger : Defs.Store)
    → day ≤ now
    → p.reserved_delta_cents ≡ stake
    → sum_of
        (staked_since day)
        account.id
        (planned_row account (reserve_entry request stake) p now ∷ ledger.entries)
      ≡ sum_of (staked_since day) account.id ledger.entries +ℤ stake
staked_since-row day now request stake account p ledger le delta =
    rw (==_refl account.id, le→leb day now le, delta) (+ℤ_comm stake _)

module _ (env : EngineEnv) (request : ReserveStakeRequest) (policy : RiskPolicy) (account : Account)
    (s s' : Store) (x : Entry) where
  -- A committed reservation that is no replay.
  committed-RespectsPolicy :
      IsSound s.ledger
      → utc_day_start env.now ≤ s.ledger.now
      → find_account account.id s.ledger.accounts ≡ some account
      → IsCommitted env request policy account s s' x false
      → (account' : Account) × IsSound s'.ledger
        × (find_account account.id s'.ledger.accounts ≡ some account')
        × RespectsPolicy (utc_day_start env.now) policy account' s'.ledger
  committed-RespectsPolicy sound day found c =
      let limits =
        (evaluate_risk_iff (risk_input env request policy account c.daily c.stake)).0
          c.risk_passed in
      let entry = reserve_entry request c.stake in
      let (after, row) = append-IsSound account entry s.ledger sound found c.appended in
      elim (append-eq_ok account entry s.ledger c.appended) [
        | inl (e, w) ↦ absurd (cc (c.flag ∙ w.marked))
        | inr (p, _, w) ↦
            let (e, m, q) =
              plan_entry-eq_ok reserve (balances_of account) entry.movement w.planned in
            let balanced =
              plan_entry-IsBalanced reserve (balances_of account) entry.movement w.planned in
            let delta : p.reserved_delta_cents ≡ c.stake =
              (plan_effect-amounts reserve account e q).1 ∙ reserve_effect request c.stake m in
            let exposure : c.account'.reserved ≡ account.reserved +ℤ c.stake =
              ap (λ (a : Account). a.reserved) w.moved
              ∙ (balanced.reserved ∙ ap (λ (z : ℤ). account.reserved +ℤ z) delta) in
            let available : c.account'.available ≡ p.available_after_cents =
              ap (λ (a : Account). a.available) w.moved in
            let since = staked_since (utc_day_start env.now) in
            let spent : sum_of since c.account'.id s'.ledger.entries
                ≡ c.daily.staked_cents +ℤ c.stake =
              ap (λ (a : Account). sum_of since a.id s'.ledger.entries) w.moved
              ∙ (ap (λ (l : Defs.Store). sum_of since account.id l.entries) w.store
                  ∙ (staked_since-row (utc_day_start env.now) s.ledger.now request c.stake account p
                        s.ledger day delta
                      ∙ ap (λ (z : ℤ). z +ℤ c.stake) (sym c.staked))) in
            (
              c.account',
              after,
              row,
              record {
                exposure =
                    subst (λ z. z ≤ℤ policy.max_open_exposure) (sym exposure) limits.exposure;
                budget = subst (λ z. z ≤ℤ policy.max_daily_stake) (sym spent) limits.per_day;
                covered = subst (λ z. pos 0 ≤ℤ z) (sym available) balanced.available_nonneg;
              },
            )
      ]

-- A stake that is newly reserved leaves sound books in which the account's open exposure and its
-- stakes since the start of the UTC day are within the active policy and its balance is not
-- negative, provided the database's clock is not behind the start of the application's day.
pub reserve_stake-RespectsPolicy :
    (env : EngineEnv) (request : ReserveStakeRequest) (s : Store) {x : Entry}
    → IsSound s.ledger
    → utc_day_start env.now ≤ s.ledger.now
    → (reserve_stake env request s).0 ≡ reserved x false
    → (row : ControlRow) × (policy : RiskPolicy) × (account : Account) × (s.control.control
        ≡ some row)
      × (active_policy row.active_risk_policy_id s.control.policies ≡ some policy)
      × (find_account request.account_id (reserve_stake env request s).1.ledger.accounts
          ≡ some account)
      × RespectsPolicy (utc_day_start env.now) policy account (reserve_stake env request s).1.ledger
      × IsSound (reserve_stake env request s).1.ledger
reserve_stake-RespectsPolicy env request s {x} sound day h =
    let (s', within, ledger) = reserve_stake-reserved env request s h in
    let (row, policy, account, r) = reserve_within-reserved env request s within in
    let same = find_account-id request.account_id s.ledger.accounts r.found in
    let found = ap (λ (i : ℕ). find_account i s.ledger.accounts) same ∙ r.found in
    let (account', after, there, respects) =
      committed-RespectsPolicy env request policy account s s' x sound day found r.committed in
    let (_, _, control, _, _) =
      (lock_for_execution_iff env.control s.control s.control row).0 r.locked in
    (
      row,
      policy,
      account',
      control,
      r.active,
      ap (λ (l : Defs.Store). find_account request.account_id l.accounts) ledger
          ∙ (ap (λ (i : ℕ). find_account i s'.ledger.accounts) (sym same) ∙ there),
      subst (RespectsPolicy (utc_day_start env.now) policy account') (sym ledger) respects,
      subst IsSound (sym ledger) after,
    )
