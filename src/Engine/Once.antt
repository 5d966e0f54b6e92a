-- ===== src/Engine/Once.antt =====
-- A key moves money at most once, whatever keeps the entries between two calls.
use api_score.Base.{ℕ, ◌≡◌, ◌≢◌, refl, sym, ap, ◌∙◌, inl, inr, Bool, true, false, Option, some}
use mathlib.Core.Path.{subst}
use api_score.Base.Tx.{Result, ok, err, Failure}
use api_score.Money.{Text}
use api_score.Domain.{AutoStopTrigger, daily_limit_reached}
use api_score.Ledger.Defs
use api_score.Ledger.Defs.{EntryKey, Entry, Account, movement_effect, Effect}
use api_score.Ledger.Service.{AppendInput, AppendResult, find_entry, append}
use api_score.Ledger.AppendLaws.{append_used_key}
use api_score.Ledger.History.{Keeps, append-Keeps, append-found, open_account-Keeps}
use api_score.Engine.Defs.{Store, EngineEnv}
use api_score.Engine.Service.{release_stake, settle_stake, settle_within, settled}
use api_score.Engine.Moves.{
  Moves, release_stake-Moves, release_stake-eq_ok, settle_within-eq_ok, release_entry, settle_entry,
}
use api_score.Engine.Outcomes.{
  reserve_stake-Moves, settle_stake-Moves, check_ledger_invariant-ledger,
}
use api_score.Engine.Safety.{apply_stop-ledger}
use api_score.Engine.Reachable.{Step, reserves, releases, settles, checks, opens, controls, ticks}

Moves-Keeps : (l l' : Defs.Store) → Moves l l' → Keeps l.entries l'.entries
Moves-Keeps l l' (inl e) = λ key x h. rw e h
Moves-Keeps l l' (inr (account, input, r, account', m)) = append-Keeps account input l m.appended

-- Whatever a call of the engine does, the entries stay.
pub Step-Keeps : {s s' : Store} → Step s s' → Keeps s.ledger.entries s'.ledger.entries
Step-Keeps (reserves env request s) = Moves-Keeps s.ledger _ (reserve_stake-Moves env request s)
Step-Keeps (releases id key stake order s s' h) =
    Moves-Keeps s.ledger s'.ledger (release_stake-Moves id key stake order s h)
Step-Keeps (settles env id key stake payout order s) =
    Moves-Keeps s.ledger _ (settle_stake-Moves env id key stake payout order s)
Step-Keeps (checks env id s) = Moves-Keeps s.ledger _ (inl (check_ledger_invariant-ledger env id s))
Step-Keeps (opens input actor id s l h) = open_account-Keeps input actor id s.ledger h
Step-Keeps (controls s c h) = λ key x f. f
Step-Keeps (ticks s t h) = λ key x f. f

-- A release after another one with its key, where the entries of the first are still there.
pub release_stake-release_stake :
    (id id' : ℕ) (key : EntryKey) (stake stake' : Text) (order order' : Option ℕ)
    (s s' t t' : Store) {e e' : Entry}
    → (release_stake id key stake order s).1 ≡ ok (e, s')
    → Keeps s'.ledger.entries t.ledger.entries
    → (release_stake id' key stake' order' t).1 ≡ ok (e', t')
    → (e' ≡ e) × (t'.ledger ≡ t.ledger)
release_stake-release_stake id id' key stake stake' order order' s s' t t' first between second =
    let (a, cents, r, b, _, _, appended, same, _) =
      release_stake-eq_ok id key stake order s first in
    let (a', cents', r', b', _, _, appended', same', _) =
      release_stake-eq_ok id' key stake' order' t second in
    let there = append-found a (release_entry key cents order) s.ledger appended in
    let still = between key r.entry there in
    let (_, _, found, _, _, _, _, kept) =
      append_used_key a' (release_entry key cents' order') t.ledger r.entry still appended' in
    (same' ∙ (found ∙ sym same), kept)

same_entry :
    {S : Type 0} {a b : Entry} {s t : S} → ◌≡◌ {A = Result Entry × S} (ok a, s) (ok b, t) → a ≡ b
same_entry h = cc

no_entry :
    {S : Type 0} {f : Failure} {b : Entry} {s t : S}
    → ◌≢◌ {A = Result Entry × S} (err f, s) (ok b, t)
no_entry h = cc

module _ (env : EngineEnv) (id : ℕ) (key : EntryKey) (stake payout : Text) (order : Option ℕ)
    (s : Store) where
  settled-eq_ok :
      (t : Option AutoStopTrigger) (x : Result ((Entry × Bool) × Store)) {e : Entry} {s' : Store}
      → settled env s (t, x) ≡ (ok e, s')
      → (b : Bool) × (u : Store) × (x ≡ ok ((e, b), u)) × (s'.ledger ≡ u.ledger)
  settled-eq_ok t (ok ((e, true), u)) {s' = s'} h = (
    true,
    u,
    ap (λ (y : Entry). ok ((y, true), u)) (same_entry h),
    ap (λ (r : Result Entry × Store). r.1.ledger) (sym h)
        ∙ apply_stop-ledger env (some daily_limit_reached) u,
  )
  settled-eq_ok t (ok ((e, false), u)) h = (
    false,
    u,
    ap (λ (y : Entry). ok ((y, false), u)) (same_entry h),
    ap (λ (r : Result Entry × Store). r.1.ledger) (sym h),
  )
  settled-eq_ok t (err f) h = absurd (no_entry h)

  pub settle_stake-eq_ok :
      {e : Entry} {s' : Store}
      → settle_stake env id key stake payout order s ≡ (ok e, s')
      → (b : Bool) × (u : Store) × ((settle_within env id key stake payout order s).1
          ≡ ok ((e, b), u))
        × (s'.ledger ≡ u.ledger)
  unfolding settle_stake
  settle_stake-eq_ok h =
      settled-eq_ok (settle_within env id key stake payout order s).0
        (settle_within env id key stake payout order s).1 h

  -- What a settlement that succeeds has appended.
  pub settle_stake-appended :
      {e : Entry} {s' : Store}
      → settle_stake env id key stake payout order s ≡ (ok e, s')
      → (account : Account) × (input : AppendInput) × (r : AppendResult) × (account' : Account)
        × (input.entry_key ≡ key)
        × (append account input s.ledger ≡ ok ((r, account'), s'.ledger))
        × (e ≡ r.entry)
  settle_stake-appended h =
      let (b, u, within, ledger) = settle_stake-eq_ok h in
      let (account, cents, paid, r, account', _, _, _, appended, same, _) =
        settle_within-eq_ok env id key stake payout order s within in
      (
        account,
        settle_entry key cents paid order,
        r,
        account',
        refl,
        subst
            (λ l.
              append account (settle_entry key cents paid order) s.ledger ≡ ok ((r, account'), l))
            (sym ledger) appended,
        same,
      )

-- A settlement after another one with its key, where the entries of the first are still there.
pub settle_stake-settle_stake :
    (env env' : EngineEnv) (id id' : ℕ) (key : EntryKey) (stake stake' payout payout' : Text)
    (order order' : Option ℕ) (s s' t t' : Store) {e e' : Entry}
    → settle_stake env id key stake payout order s ≡ (ok e, s')
    → Keeps s'.ledger.entries t.ledger.entries
    → settle_stake env' id' key stake' payout' order' t ≡ (ok e', t')
    → (e' ≡ e) × (t'.ledger ≡ t.ledger)
settle_stake-settle_stake env env' id id' key stake stake' payout payout' order order' s s' t t'
      first between second =
    let (a, i, r, b, own, appended, same) =
      settle_stake-appended env id key stake payout order s first in
    let (a', i', r', b', own', appended', same') =
      settle_stake-appended env' id' key stake' payout' order' t second in
    let there = append-found a i s.ledger appended in
    let still = between i.entry_key r.entry there in
    let used = ap (λ (k : EntryKey). find_entry k t.ledger.entries) (own' ∙ sym own) ∙ still in
    let (_, _, found, _, _, _, _, kept) = append_used_key a' i' t.ledger r.entry used appended' in
    (same' ∙ (found ∙ sym same), kept)
