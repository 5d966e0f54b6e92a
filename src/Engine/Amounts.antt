-- ===== src/Engine/Amounts.antt =====
-- The amounts that a release and a settlement move, and that they move no other account.
use api_score.Base.{
  ℕ, ◌+◌, ◌≡◌, ◌≢◌, refl, sym, ap, ◌∙◌, inl, inr, Option, none, some, arith, ◌==◌, ==_refl,
  Bool-cases, Option-cases,
}
use mathlib.Core.Path.{subst}
use api_score.Base.Int.{ℤ, pos, neg, ◌+ℤ◌, ◌<ℤ◌, ◌≤ℤ◌}
use api_score.Base.Tx.{ok}
use api_score.Money.{Text, to_cents}
use api_score.Domain.{release, settle}
use api_score.Ledger.Defs
use api_score.Ledger.Defs.{EntryKey, Entry, Account, Effect, PlannedEntry, movement_effect}
use api_score.Ledger.Service.{
  AppendInput, AppendResult, find_account, find_entry, append, balances_of,
}
use api_score.Ledger.Effects.{plan_entry-eq_ok, plan_entry-IsBalanced}
use api_score.Ledger.Invariant.{find_account-id, find_account-update, moved_found, moved_if}
use api_score.Ledger.AppendLaws.{append-eq_ok, plan_effect-amounts}
use api_score.Engine.Defs.{Store, EngineEnv}
use api_score.Engine.Service.{release_stake, settle_stake}
use api_score.Engine.Moves.{
  release_stake-eq_ok, settle_within-eq_ok, release_entry, settle_entry, found_own,
}
use api_score.Engine.Once.{settle_stake-eq_ok}

-- An account whose balances have moved by two amounts, its version by one, in tables where no other
-- account has changed.
pub record IsShifted (id : ℕ) (available reserved : ℤ) (l l' : Defs.Store) (other : ℕ)
    (account account' : Account) : Type 0 where
  pub before : find_account id l.accounts ≡ some account
  pub after : find_account id l'.accounts ≡ some account'
  pub available_moved : account'.available ≡ account.available +ℤ available
  pub reserved_moved : account'.reserved ≡ account.reserved +ℤ reserved
  pub version_moved : account'.version ≡ account.version + 1
  pub other_kept : find_account other l'.accounts ≡ find_account other l.accounts

module _ (account : Account) (p : PlannedEntry) where
  moved_if-other : (o : Account) → o.id ≢ account.id → moved_if account p o ≡ o
  moved_if-other o n = elim (Bool-cases (o.id == account.id)) [
    | inl same ↦ absurd (n (ground arith))
    | inr differs ↦ rw differs refl
  ]

  moved_found-other :
      (other : ℕ) (l : Defs.Store)
      → other ≢ account.id
      → moved_found account p (find_account other l.accounts) ≡ find_account other l.accounts
  moved_found-other other l n = elim (Option-cases (find_account other l.accounts)) [
    | inl e ↦ rw e refl
    | inr (o, e) ↦
        let same : o.id ≡ other = find_account-id other l.accounts e in
        rw e (ap some (moved_if-other o (λ h. n (sym same ∙ h))))
  ]

-- What an append under a new key moves.
append_fresh :
    (account : Account) (input : AppendInput) (l : Defs.Store) (other : ℕ) {r : AppendResult}
    {account' : Account} {l' : Defs.Store}
    → find_account account.id l.accounts ≡ some account
    → find_entry input.entry_key l.entries ≡ none
    → other ≢ account.id
    → append account input l ≡ ok ((r, account'), l')
    → (x : Effect) × (movement_effect input.type input.movement ≡ ok x)
      × IsShifted account.id x.amount_cents x.reserved_delta_cents l l' other account account'
append_fresh account input l other found fresh n h = elim (append-eq_ok account input l h) [
  | inl (x, w) ↦ absurd (cc (sym fresh ∙ w.found))
  | inr (p, _, w) ↦
      let (x, m, q) = plan_entry-eq_ok input.type (balances_of account) input.movement w.planned in
      let (amount, delta) = plan_effect-amounts input.type account x q in
      let b = plan_entry-IsBalanced input.type (balances_of account) input.movement w.planned in
      (
        x,
        m,
        record {
          before = found;
          after =
              rw (w.store, w.moved, find_account-update account p account.id l.accounts, found)
                (rw (==_refl account.id, ==_refl account.version));
          available_moved = rw w.moved (b.available ∙ ap (λ z. account.available +ℤ z) amount);
          reserved_moved = rw w.moved (b.reserved ∙ ap (λ z. account.reserved +ℤ z) delta);
          version_moved = rw w.moved refl;
          other_kept = rw w.store (
              find_account-update account p other l.accounts
              ∙ moved_found-other account p other l n);
        },
      )
]

release_effect :
    (key : EntryKey) (stake : ℤ) (order : Option ℕ) {x : Effect}
    → movement_effect release (release_entry key stake order).movement ≡ ok x
    → (pos 0 <ℤ stake) × (x.amount_cents ≡ stake) × (x.reserved_delta_cents ≡ neg stake)
unfolding movement_effect
release_effect key stake order h = (ground arith, ground arith, ground arith)

-- A release under a new key that succeeds moves exactly its stake, which is positive, from the
-- reserved to the available balance of its account, and changes no other account.
release_stake-shifts :
    (id other : ℕ) (key : EntryKey) (text : Text) (order : Option ℕ) (s s' : Store) {e : Entry}
    → other ≢ id
    → find_entry key s.ledger.entries ≡ none
    → (release_stake id key text order s).1 ≡ ok (e, s')
    → (stake : ℤ) × (account : Account) × (account' : Account) × (to_cents text ≡ ok stake)
      × (pos 0 <ℤ stake)
      × IsShifted id stake (neg stake) s.ledger s'.ledger other account account'
release_stake-shifts id other key text order s s' n fresh h =
    let (account, stake, r, account', read, found, appended, _, _) =
      release_stake-eq_ok id key text order s h in
    let own = find_account-id id s.ledger.accounts found in
    let (x, m, shifted) =
      append_fresh account (release_entry key stake order) s.ledger other
        (found_own id s.ledger found) fresh (λ q. n (q ∙ own)) appended in
    let (positive, amount, delta) = release_effect key stake order m in
    (
      stake,
      account,
      account',
      read,
      positive,
      subst (λ i. IsShifted i stake (neg stake) s.ledger s'.ledger other account account') own
          (subst (λ z. IsShifted account.id stake z s.ledger s'.ledger other account account') delta
            (subst
              (λ z.
                IsShifted account.id z x.reserved_delta_cents s.ledger s'.ledger other account
                  account')
              amount shifted)),
    )

settle_effect :
    (key : EntryKey) (stake payout : ℤ) (order : Option ℕ) {x : Effect}
    → movement_effect settle (settle_entry key stake payout order).movement ≡ ok x
    → (pos 0 <ℤ stake)
      × (pos 0 ≤ℤ payout)
      × (x.amount_cents ≡ payout)
      × (x.reserved_delta_cents ≡ neg stake)
unfolding movement_effect
settle_effect key stake payout order h = (ground arith, ground arith, ground arith, ground arith)

-- A settlement under a new key that succeeds takes its stake, which is positive, off the reserved
-- balance of its account, adds its payout, which is not negative, to the available one, and
-- changes no other account.
pub settle_stake-shifts :
    (env : EngineEnv) (id other : ℕ) (key : EntryKey) (stake_text payout_text : Text)
    (order : Option ℕ) (s s' : Store) {e : Entry}
    → other ≢ id
    → find_entry key s.ledger.entries ≡ none
    → settle_stake env id key stake_text payout_text order s ≡ (ok e, s')
    → (stake : ℤ) × (payout : ℤ) × (account : Account) × (account' : Account) × (to_cents stake_text
        ≡ ok stake)
      × (to_cents payout_text ≡ ok payout)
      × (pos 0 <ℤ stake)
      × (pos 0 ≤ℤ payout)
      × IsShifted id payout (neg stake) s.ledger s'.ledger other account account'
settle_stake-shifts env id other key stake_text payout_text order s s' n fresh h =
    let (b, u, within, ledger) = settle_stake-eq_ok env id key stake_text payout_text order s h in
    let (account, stake, payout, r, account', read, paid, found, appended, _, _) =
      settle_within-eq_ok env id key stake_text payout_text order s within in
    let own = find_account-id id s.ledger.accounts found in
    let (x, m, shifted) =
      append_fresh account (settle_entry key stake payout order) s.ledger other
        (found_own id s.ledger found) fresh (λ q. n (q ∙ own)) appended in
    let (positive, nonneg, amount, delta) = settle_effect key stake payout order m in
    (
      stake,
      payout,
      account,
      account',
      read,
      paid,
      positive,
      nonneg,
      subst (λ l. IsShifted id payout (neg stake) s.ledger l other account account') (sym ledger)
          (subst (λ i. IsShifted i payout (neg stake) s.ledger u.ledger other account account') own
            (subst (λ z. IsShifted account.id payout z s.ledger u.ledger other account account')
              delta
              (subst
                (λ z.
                  IsShifted account.id z x.reserved_delta_cents s.ledger u.ledger other account
                    account')
                amount shifted))),
    )
