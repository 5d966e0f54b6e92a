-- ===== src/Engine/Stages.antt =====
-- What each stage of a reservation has done, read back from its outcome.
use api_score.Base.{
  ℕ, ◌≡◌, ◌⊎◌, inl, inr, refl, sym, ap, ◌∙◌, Bool, true, Option, none, some, arith, Bool-cases,
  Option-cases,
}
use api_score.Base.Int.{ℤ}
use api_score.Base.Tx.{Result, ok, err, Failure, Result-cases}
use api_score.Money.{to_cents}
use api_score.Domain.{reserve, RejectionCode, risk_check_failed, RiskLimit}
use api_score.Risk.{RiskPolicy, RiskVerdict, passed, refused, evaluate_risk}
use api_score.Ledger.Defs
use api_score.Ledger.Defs.{EntryKey, Entry, Account}
use api_score.Ledger.Service.{AppendInput, AppendResult, find_account, lock_account, append}
use api_score.Ledger.Checks.{DailyAggregates, daily_aggregates, sum_of, staked_since, pnl_since}
use api_score.Control.Defs.{ControlRow}
use api_score.Engine.Defs.{
  Store, EngineEnv, ReserveStakeRequest, ReservationResult, reserved, rejected, utc_day_start,
  bind_ledger, bind_ledger_err,
}
use api_score.Engine.Service.{
  stake_entry, settle_verdict, reserve_matched, reserve_under, reserve_fitting, risk_input, fits,
}

pub lock_account-eq_ok :
    (id : ℕ) (s : Defs.Store) {a : Account} {s' : Defs.Store}
    → lock_account id s ≡ ok (a, s')
    → (find_account id s.accounts ≡ some a) × (s' ≡ s)
unfolding lock_account
lock_account-eq_ok id s h = elim (Option-cases (find_account id s.accounts)) [
  | inl e ↦ absurd (ground arith)
  | inr (a, e) ↦ (ground arith, ground arith)
]

pub daily_aggregates-eq_ok :
    (id day : ℕ) (s : Defs.Store) {d : DailyAggregates} {s' : Defs.Store}
    → daily_aggregates id day s ≡ ok (d, s')
    → (d.staked_cents ≡ sum_of (staked_since day) id s.entries)
      × (d.settled_pnl_cents ≡ sum_of (pnl_since day) id s.entries)
      × (s' ≡ s)
unfolding daily_aggregates
daily_aggregates-eq_ok id day s h = (ground arith, ground arith, ground arith)

-- The entry that a reservation asks for.
abbrev pub reserve_entry : ReserveStakeRequest → ℤ → AppendInput
reserve_entry request stake =
    stake_entry reserve request.entry_key stake none request.order_id request.actor_user_id

-- A refusal by the verdict writes nothing.
settle_verdict-rejected :
    (request : ReserveStakeRequest) (account : Account) (stake : ℤ) (v : RiskVerdict) (s : Store)
    {c : RejectionCode} {l : Option RiskLimit} {s' : Store}
    → (settle_verdict request account stake v s).1 ≡ ok (rejected c l, s')
    → s' ≡ s
unfolding settle_verdict
settle_verdict-rejected request account stake (refused code limit none) s h = ground arith
settle_verdict-rejected request account stake (refused code limit (some x)) s h = ground arith
settle_verdict-rejected request account stake passed s h =
    elim (Result-cases (append account (reserve_entry request stake) s.ledger)) [
      | inl (((r, a), l), e) ↦ absurd (ground arith)
      | inr (f, e) ↦ absurd (ground arith)
    ]

settle_verdict-reserved :
    (request : ReserveStakeRequest) (account : Account) (stake : ℤ) (v : RiskVerdict) (s : Store)
    {x : Entry} {b : Bool} {s' : Store}
    → (settle_verdict request account stake v s).1 ≡ ok (reserved x b, s')
    → (r : AppendResult) × (a : Account) × (v ≡ passed)
      × (append account (reserve_entry request stake) s.ledger ≡ ok ((r, a), s'.ledger))
      × (x ≡ r.entry)
      × (b ≡ r.replayed)
      × (s'.control ≡ s.control)
unfolding settle_verdict
settle_verdict-reserved request account stake (refused code limit none) s h = absurd (ground arith)
settle_verdict-reserved request account stake (refused code limit (some y)) s h =
    absurd (ground arith)
settle_verdict-reserved request account stake passed s h =
    elim (Result-cases (append account (reserve_entry request stake) s.ledger)) [
      | inl (((r, a), l), e) ↦ (r, a, refl, ground arith, ground arith, ground arith, ground arith)
      | inr (f, e) ↦ absurd (ground arith)
    ]

-- What a fresh reservation has checked and written, for an account that fits.
pub record IsCommitted (env : EngineEnv) (request : ReserveStakeRequest) (policy : RiskPolicy)
    (account : Account) (s s' : Store) (x : Entry) (b : Bool) : Type 0 where
  pub daily : DailyAggregates
  pub stake : ℤ
  pub result : AppendResult
  pub account' : Account
  pub staked :
      daily.staked_cents ≡ sum_of (staked_since (utc_day_start env.now)) account.id s.ledger.entries
  pub stake_read : to_cents request.stake ≡ ok stake
  pub risk_passed : evaluate_risk (risk_input env request policy account daily stake) ≡ passed
  pub appended :
      append account (reserve_entry request stake) s.ledger ≡ ok ((result, account'), s'.ledger)
  pub entry : x ≡ result.entry
  pub flag : b ≡ result.replayed
  pub control_kept : s'.control ≡ s.control

module _ (env : EngineEnv) (request : ReserveStakeRequest) (policy : RiskPolicy) (account : Account)
    (s : Store) where
  -- The verdict on the day as it stands, for a stake.
  abbrev verdict_of : DailyAggregates → ℤ → RiskVerdict
  verdict_of daily stake = evaluate_risk (risk_input env request policy account daily stake)

  reserve_matched-eq_ok :
      {r : ReservationResult} {s' : Store}
      → (reserve_matched env request policy account s).1 ≡ ok (r, s')
      → (daily : DailyAggregates) × (stake : ℤ) × (daily.staked_cents
          ≡ sum_of (staked_since (utc_day_start env.now)) account.id s.ledger.entries)
        × (to_cents request.stake ≡ ok stake)
        × ((settle_verdict request account stake (verdict_of daily stake) s).1 ≡ ok (r, s'))
  unfolding reserve_matched
  reserve_matched-eq_ok h =
      elim (Result-cases (daily_aggregates account.id (utc_day_start env.now) s.ledger)) [
        | inr (f, e) ↦ absurd (ground arith)
        | inl ((daily, l), e) ↦ elim (Result-cases (to_cents request.stake)) [
          | inr (f, q) ↦ absurd (ground arith)
          | inl (stake, q) ↦
              let (staked, _, kept) =
                daily_aggregates-eq_ok account.id (utc_day_start env.now) s.ledger e in
              (daily, stake, staked, q, ground arith)
        ]
      ]

  pub reserve_matched-rejected :
      {c : RejectionCode} {l : Option RiskLimit} {s' : Store}
      → (reserve_matched env request policy account s).1 ≡ ok (rejected c l, s')
      → s' ≡ s
  reserve_matched-rejected h =
      let (daily, stake, _, _, v) = reserve_matched-eq_ok h in
      settle_verdict-rejected request account stake (verdict_of daily stake) s v

  pub reserve_matched-reserved :
      {x : Entry} {b : Bool} {s' : Store}
      → (reserve_matched env request policy account s).1 ≡ ok (reserved x b, s')
      → IsCommitted env request policy account s s' x b
  reserve_matched-reserved h =
      let (daily, stake, staked, q, v) = reserve_matched-eq_ok h in
      let (r, a, p, appended, x, b, kept) =
        settle_verdict-reserved request account stake (verdict_of daily stake) s v in
      record {
        daily = daily;
        stake = stake;
        result = r;
        account' = a;
        staked = staked;
        stake_read = q;
        risk_passed = p;
        appended = appended;
        entry = x;
        flag = b;
        control_kept = kept;
      }

pub ok_pair :
    {r q : ReservationResult} {s t : Store}
    → ◌≡◌ {A = Result (ReservationResult × Store)} (ok (q, t)) (ok (r, s))
    → (s ≡ t) × (r ≡ q)
ok_pair h = (ground arith, ground arith)

module _ (env : EngineEnv) (request : ReserveStakeRequest) (row : ControlRow) (s : Store) where
  reserve_under-locked :
      (policy : RiskPolicy) (account : Account) {l : Defs.Store}
      → lock_account request.account_id s.ledger ≡ ok (account, l)
      → (reserve_under env request row (some policy) s).1
        ≡ (reserve_fitting (fits row policy account) env request policy account s).1
  unfolding reserve_under
  reserve_under-locked policy account e =
      let kept = (lock_account-eq_ok request.account_id s.ledger e).1 in
      bind_ledger (lock_account request.account_id)
        (λ a. reserve_fitting (fits row policy a) env request policy a) s e
      ∙ ap
          (λ (x : Defs.Store).
            (reserve_fitting (fits row policy account) env request policy account
              (record s { ledger = x })).1)
          kept

  reserve_under-missing :
      (policy : RiskPolicy) {f : Failure}
      → lock_account request.account_id s.ledger ≡ err f
      → (reserve_under env request row (some policy) s).1 ≡ err f
  unfolding reserve_under
  reserve_under-missing policy e =
      bind_ledger_err (lock_account request.account_id)
        (λ a. reserve_fitting (fits row policy a) env request policy a) s e

  -- A refusal before the account is known to fit writes nothing; else the ceilings decide.
  pub reserve_under-eq_ok :
      (o : Option RiskPolicy) {r : ReservationResult} {s' : Store}
      → (reserve_under env request row o s).1 ≡ ok (r, s')
      → ((s' ≡ s) × (r ≡ rejected risk_check_failed none))
        ⊎ ((policy : RiskPolicy) × (account : Account) × (o ≡ some policy)
            × (find_account request.account_id s.ledger.accounts ≡ some account)
            × (fits row policy account ≡ true)
            × ((reserve_matched env request policy account s).1 ≡ ok (r, s')))
  unfolding reserve_under
  reserve_under-eq_ok none h = inl (ground arith, ground arith)
  reserve_under-eq_ok (some policy) h =
      elim (Result-cases (lock_account request.account_id s.ledger)) [
        | inr (f, e) ↦ cc (sym (reserve_under-missing policy e) ∙ h)
        | inl ((account, l), e) ↦
            let (found, kept) = lock_account-eq_ok request.account_id s.ledger e in
            let k = sym (reserve_under-locked policy account e) ∙ h in
            elim (Bool-cases (fits row policy account)) [
              | inl t ↦ inr (policy, account, refl, found, t, rw t at k)
              | inr n ↦ inl (ok_pair (rw n at k))
            ]
      ]
