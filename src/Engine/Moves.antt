-- ===== src/Engine/Moves.antt =====
-- What any operation of the engine does to the ledger: nothing, or one `append` on a locked account.
use api_score.Base.{ℕ, ◌≡◌, ◌⊎◌, inl, inr, sym, ap, ◌∙◌, Bool, Option, none, some, arith}
use mathlib.Core.Path.{subst}
use api_score.Base.Int.{ℤ}
use api_score.Base.Tx.{ok, Result-cases}
use api_score.Money.{Text, to_cents}
use api_score.Domain.{reserve, release, settle}
use api_score.Ledger.Defs
use api_score.Ledger.Defs.{EntryKey, Entry, Account}
use api_score.Ledger.Service.{AppendInput, AppendResult, find_account, lock_account, append}
use api_score.Ledger.Checks.{daily_aggregates}
use api_score.Ledger.Invariant.{IsSound, find_account-id}
use api_score.Ledger.AppendLaws.{append-IsSound}
use api_score.Engine.Defs.{Store, EngineEnv, ReserveStakeRequest, ReservationResult, utc_day_start}
use api_score.Engine.Service.{stake_entry, release_stake, settle_within, replay_reservation}
use api_score.Engine.Stages.{lock_account-eq_ok, daily_aggregates-eq_ok}

-- One append, on the row that the table holds for the account.
pub record IsMove (l l' : Defs.Store) (account : Account) (input : AppendInput) (r : AppendResult)
    (account' : Account) : Type 0 where
  pub found : find_account account.id l.accounts ≡ some account
  pub appended : append account input l ≡ ok ((r, account'), l')

abbrev pub Moves : Defs.Store → Defs.Store → Type 0
Moves l l' =
    (l' ≡ l)
    ⊎ ((account : Account) × (input : AppendInput) × (r : AppendResult) × (account' : Account)
        × IsMove l l' account input r account')

pub Moves-IsSound : (l l' : Defs.Store) → Moves l l' → IsSound l → IsSound l'
Moves-IsSound l l' (inl e) sound = subst IsSound (sym e) sound
Moves-IsSound l l' (inr (account, input, r, account', m)) sound =
    (append-IsSound account input l sound m.found m.appended).0

pub found_own :
    (id : ℕ) (l : Defs.Store) {a : Account}
    → find_account id l.accounts ≡ some a
    → find_account a.id l.accounts ≡ some a
found_own id l f = ap (λ (i : ℕ). find_account i l.accounts) (find_account-id id l.accounts f) ∙ f

-- The entry of a release.
abbrev pub release_entry : EntryKey → ℤ → Option ℕ → AppendInput
release_entry key stake order = stake_entry release key stake none order none

pub release_stake-eq_ok :
    (id : ℕ) (key : EntryKey) (text : Text) (order : Option ℕ) (s : Store) {e : Entry} {s' : Store}
    → (release_stake id key text order s).1 ≡ ok (e, s')
    → (account : Account) × (stake : ℤ) × (r : AppendResult) × (account' : Account) × (to_cents text
        ≡ ok stake)
      × (find_account id s.ledger.accounts ≡ some account)
      × (append account (release_entry key stake order) s.ledger ≡ ok ((r, account'), s'.ledger))
      × (e ≡ r.entry)
      × (s'.control ≡ s.control)
unfolding release_stake
release_stake-eq_ok id key text order s h = elim (Result-cases (lock_account id s.ledger)) [
  | inr (f, e) ↦ absurd (ground arith)
  | inl ((account, l), e) ↦
      let (found, kept) = lock_account-eq_ok id s.ledger e in
      elim (Result-cases (to_cents text)) [
        | inr (f, q) ↦ absurd (ground arith)
        | inl (stake, q) ↦ elim (Result-cases (append account (release_entry key stake order) l)) [
          | inr (f, a) ↦ absurd (ground arith)
          | inl (((r, account'), m), a) ↦ (
            account,
            stake,
            r,
            account',
            q,
            found,
            rw (← kept) (a ∙ ground arith),
            ground arith,
            ground arith,
          )
        ]
      ]
]

pub release_stake-Moves :
    (id : ℕ) (key : EntryKey) (text : Text) (order : Option ℕ) (s : Store) {e : Entry} {s' : Store}
    → (release_stake id key text order s).1 ≡ ok (e, s')
    → Moves s.ledger s'.ledger
release_stake-Moves id key text order s h =
    let (account, stake, r, account', _, found, appended, _, _) =
      release_stake-eq_ok id key text order s h in
    inr (
      account,
      release_entry key stake order,
      r,
      account',
      record { found = found_own id s.ledger found; appended = appended },
    )

-- The entry of a settlement.
abbrev pub settle_entry : EntryKey → ℤ → ℤ → Option ℕ → AppendInput
settle_entry key stake payout order = stake_entry settle key stake (some payout) order none

pub settle_within-eq_ok :
    (env : EngineEnv) (id : ℕ) (key : EntryKey) (stake_text payout_text : Text) (order : Option ℕ)
    (s : Store) {e : Entry} {b : Bool} {s' : Store}
    → (settle_within env id key stake_text payout_text order s).1 ≡ ok ((e, b), s')
    → (account : Account) × (stake : ℤ) × (payout : ℤ) × (r : AppendResult) × (account' : Account)
      × (to_cents stake_text ≡ ok stake)
      × (to_cents payout_text ≡ ok payout)
      × (find_account id s.ledger.accounts ≡ some account)
      × (append account (settle_entry key stake payout order) s.ledger
          ≡ ok ((r, account'), s'.ledger))
      × (e ≡ r.entry)
      × (s'.control ≡ s.control)
unfolding settle_within
settle_within-eq_ok env id key stake_text payout_text order s h =
    elim (Result-cases (lock_account id s.ledger)) [
      | inr (f, e) ↦ absurd (ground arith)
      | inl ((account, l), e) ↦
          let (found, kept) = lock_account-eq_ok id s.ledger e in
          elim (Result-cases (to_cents stake_text)) [
            | inr (f, q) ↦ absurd (ground arith)
            | inl (stake, q) ↦ elim (Result-cases (to_cents payout_text)) [
              | inr (f, p) ↦ absurd (ground arith)
              | inl (payout, p) ↦
                  elim (Result-cases (append account (settle_entry key stake payout order) l)) [
                    | inr (f, a) ↦ absurd (ground arith)
                    | inl (((r, account'), m), a) ↦
                        elim (Result-cases
                          (daily_aggregates account.id (utc_day_start env.now) m)) [
                            | inr (f, d) ↦ absurd (ground arith)
                            | inl ((daily, n), d) ↦
                                let (_, _, same) =
                                  daily_aggregates-eq_ok account.id (utc_day_start env.now) m d in
                                (
                                  account,
                                  stake,
                                  payout,
                                  r,
                                  account',
                                  q,
                                  p,
                                  found,
                                  rw (← kept) (a ∙ ground arith),
                                  ground arith,
                                  ground arith,
                                )
                          ]
                  ]
            ]
          ]
    ]

pub settle_within-Moves :
    (env : EngineEnv) (id : ℕ) (key : EntryKey) (stake payout : Text) (order : Option ℕ) (s : Store)
    {e : Entry} {b : Bool} {s' : Store}
    → (settle_within env id key stake payout order s).1 ≡ ok ((e, b), s')
    → Moves s.ledger s'.ledger
settle_within-Moves env id key stake payout order s h =
    let (account, cents, paid, r, account', _, _, found, appended, _, _) =
      settle_within-eq_ok env id key stake payout order s h in
    inr (
      account,
      settle_entry key cents paid order,
      r,
      account',
      record { found = found_own id s.ledger found; appended = appended },
    )

pub replay_reservation-Moves :
    (request : ReserveStakeRequest) (s : Store) {r : ReservationResult} {s' : Store}
    → (replay_reservation request s).1 ≡ ok (r, s')
    → Moves s.ledger s'.ledger
unfolding replay_reservation
replay_reservation-Moves request s h =
    elim (Result-cases (lock_account request.account_id s.ledger)) [
      | inr (f, e) ↦ absurd (ground arith)
      | inl ((account, l), e) ↦
          let (found, kept) = lock_account-eq_ok request.account_id s.ledger e in
          elim (Result-cases (to_cents request.stake)) [
            | inr (f, q) ↦ absurd (ground arith)
            | inl (stake, q) ↦
                let entry = stake_entry reserve request.entry_key stake none none none in
                elim (Result-cases (append account entry l)) [
                  | inr (f, a) ↦ absurd (ground arith)
                  | inl (((r, account'), m), a) ↦ inr (
                    account,
                    entry,
                    r,
                    account',
                    record {
                      found = found_own request.account_id s.ledger found;
                      appended = rw (← kept) (a ∙ ground arith);
                    },
                  )
                ]
          ]
    ]
