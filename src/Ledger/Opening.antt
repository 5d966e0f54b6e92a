-- ===== src/Ledger/Opening.antt =====
-- `openAccount` starts an account with sound books.
use api_score.Base.{
  ℕ, ◌≡◌, refl, sym, ◌∙◌, ap, inl, inr, true, false, Option, none, some, List, [], ◌∷◌, arith, ◌==◌,
  ==_refl, Bool-cases, eq_of_some,
}
use mathlib.Core.Path.{subst}
use api_score.Base.Int.{ℤ, pos, ◌+ℤ◌, +ℤ_comm, +ℤ-zero}
use api_score.Base.Rows.{exists_where}
use api_score.Base.Tx.{ok, Result-cases}
use api_score.Money.{to_cents}
use api_score.Domain.{StoredMode, known, unrecognised, stored_mode_eq, adjustment}
use api_score.Ledger.Defs.{
  EntryKey, key_eq, Account, Entry, Store, opening, Effect, PlannedEntry, movement_effect,
  plan_entry,
}
use api_score.Ledger.Service.{
  AppendResult, OpenInput, find_account, find_entry, is_account_of, new_account, opening_entry,
  balances_of, moved_account, append, open_account,
}
use api_score.Ledger.Checks.{sum_of, last_entry}
use api_score.Ledger.Invariant.{IsSound, IsConsistent}
use api_score.Ledger.AppendLaws.{append-IsSound, append-eq_ok, plan_effect-amounts, is_replay_parts}
use api_score.Ledger.Effects.{plan_entry-eq_ok, plan_entry-IsBalanced}

stored_mode_eq_refl : (m : StoredMode) → stored_mode_eq m m ≡ true
stored_mode_eq_refl (known m) = ==_refl _
stored_mode_eq_refl (unrecognised n) = ==_refl n

is_account_of-new : (input : OpenInput) (id : ℕ) → is_account_of input (new_account input id) ≡ true
is_account_of-new input id =
    rw (stored_mode_eq_refl input.mode, ==_refl input.operator_key, ==_refl input.currency)

find_account-none :
    (id : ℕ) (rows : List Account)
    → exists_where (λ a. a.id == id) rows ≡ false
    → find_account id rows ≡ none
find_account-none id [] h = refl
find_account-none id (x ∷ rows) h = ground (arith, find_account-none id rows)

pub sum_of-none :
    (f : Entry → ℤ) (id : ℕ) (es : List Entry)
    → exists_where (λ e. e.account_id == id) es ≡ false
    → sum_of f id es ≡ pos 0
sum_of-none f id [] h = refl
sum_of-none f id (e ∷ es) h = ground (arith, sum_of-none f id es)

pub last_entry-none :
    (id : ℕ) (es : List Entry)
    → exists_where (λ e. e.account_id == id) es ≡ false
    → last_entry id es ≡ none
last_entry-none id [] h = refl
last_entry-none id (e ∷ es) h = ground (arith, last_entry-none id es)

new_account-IsConsistent :
    (input : OpenInput) (id : ℕ) (es : List Entry)
    → exists_where (λ e. e.account_id == id) es ≡ false
    → IsConsistent (new_account input id) es
new_account-IsConsistent input id es h = record {
  available_sum = sym (sum_of-none (λ e. e.amount) id es h);
  reserved_sum = sym (sum_of-none (λ e. e.reserved_delta) id es h);
  available_nonneg = omega arith;
  reserved_nonneg = omega arith;
  available_safe = refl;
  reserved_safe = refl;
  last = rw (last_entry-none id es h) tt;
}

-- The tables with the empty account in them.
abbrev pub with_new : OpenInput → ℕ → Store → Store
with_new input id s = record s { accounts = new_account input id ∷ s.accounts }

with_new-IsSound :
    (input : OpenInput) (id : ℕ) (s : Store)
    → exists_where (λ a. a.id == id) s.accounts ≡ false
    → IsSound s
    → IsSound (with_new input id s)
with_new-IsSound input id s fresh sound =
    let empty = sound.owned id (find_account-none id s.accounts fresh) in
    record {
      consistent = λ j a found. elim (Bool-cases (id == j)) [
        | inl same ↦
            subst (λ x. IsConsistent x s.entries) (eq_of_some (sym (rw same) ∙ found))
              (new_account-IsConsistent input id s.entries empty)
        | inr differs ↦ sound.consistent j a (rw differs at found)
      ];
      owned = λ j missing. elim (Bool-cases (id == j)) [
        | inl same ↦ cc (rw same at missing)
        | inr differs ↦ sound.owned j (rw differs at missing)
      ];
    }

-- What `open_account` has done when it succeeds.
pub open_account-eq_ok :
    (input : OpenInput) (actor : Option ℕ) (id : ℕ) (s : Store) {a : Account} {s' : Store}
    → open_account input actor id s ≡ ok (a, s')
    → (cents : ℤ) × (r : AppendResult) × (account' : Account) × (to_cents input.initial_balance
        ≡ ok cents)
      × (exists_where (λ x. x.id == id) s.accounts ≡ false)
      × (append (new_account input id) (opening_entry id cents actor) (with_new input id s)
          ≡ ok ((r, account'), s'))
      × (find_account id s'.accounts ≡ some a)
unfolding open_account
open_account-eq_ok input actor id s {a} {s'} h =
    elim (Result-cases (to_cents input.initial_balance)) [
      | inl (cents, e) ↦
          elim (Result-cases
            (append (new_account input id) (opening_entry id cents actor) (with_new input id s))) [
              | inl (((r, account'), t), q) ↦ (
                cents,
                r,
                account',
                e,
                ground (arith, is_account_of-new input id),
                ground (arith, is_account_of-new input id),
                ground (arith, is_account_of-new input id),
              )
              | inr (b, q) ↦ absurd (ground (arith, is_account_of-new input id))
            ]
      | inr (b, e) ↦ absurd (ground arith)
    ]

opening_effect :
    (cents : ℤ) {x : Effect}
    → movement_effect adjustment
        (record { stake_cents = none; payout_cents = none; adjustment_cents = some cents })
      ≡ ok x
    → (x.amount_cents ≡ cents) × (x.reserved_delta_cents ≡ pos 0)
unfolding movement_effect
opening_effect cents h = ground arith

entry_not_owned :
    (key : EntryKey) (id : ℕ) (es : List Entry)
    → exists_where (λ e. e.account_id == id) es ≡ false
    → (e : Entry) → find_entry key es ≡ some e
    → (e.account_id == id) ≡ true
    → ⊥
entry_not_owned key id [] h e f i = cc
entry_not_owned key id (x ∷ es) h e f i = elim (Bool-cases (key_eq x.entry_key key)) [
  | inl same ↦
      let found : x ≡ e = eq_of_some (rw same at f) in
      let owned : (x.account_id == id) ≡ true = rw found i in ground arith
  | inr differs ↦ entry_not_owned key id es (ground arith) e (rw differs at f) i
]

zero-+ℤ : (z : ℤ) → pos 0 +ℤ z ≡ z
zero-+ℤ z = +ℤ_comm (pos 0) z ∙ +ℤ-zero z

-- Planned on an empty account, the opening entry brings in the initial balance.
plan_entry-opening :
    (input : OpenInput) (id : ℕ) (cents : ℤ) (actor : Option ℕ) {p : PlannedEntry}
    → plan_entry adjustment
        (balances_of (new_account input id))
        (opening_entry id cents actor).movement
      ≡ ok p
    → (p.available_after_cents ≡ cents) × (p.reserved_after_cents ≡ pos 0)
plan_entry-opening input id cents actor h =
    let (x, m, q) =
      plan_entry-eq_ok adjustment (balances_of (new_account input id))
        (opening_entry id cents actor).movement h in
    let (amount, delta) = opening_effect cents m in
    let b =
      plan_entry-IsBalanced adjustment (balances_of (new_account input id))
        (opening_entry id cents actor).movement h in
    let (pa, pd) = plan_effect-amounts adjustment (new_account input id) x q in
    (b.available ∙ (zero-+ℤ _ ∙ (pa ∙ amount)), b.reserved ∙ (zero-+ℤ _ ∙ (pd ∙ delta)))

-- The account that `open_account` returns holds the initial balance, nothing reserved, and stands
-- in sound tables if the tables were sound before.
pub open_account-IsSound :
    (input : OpenInput) (actor : Option ℕ) (id : ℕ) (s : Store) {a : Account} {s' : Store}
    → IsSound s
    → open_account input actor id s ≡ ok (a, s')
    → IsSound s'
      × (find_account id s'.accounts ≡ some a)
      × (to_cents input.initial_balance ≡ ok a.available)
      × (a.reserved ≡ pos 0)
      × (a.version ≡ 2)
open_account-IsSound input actor id s {a} {s'} sound h =
    let (cents, r, account', e, fresh, appended, found) = open_account-eq_ok input actor id s h in
    let before = with_new-IsSound input id s fresh sound in
    let (after, row) =
      append-IsSound (new_account input id) (opening_entry id cents actor) (with_new input id s)
        before (rw (==_refl id)) appended in
    let same : account' ≡ a = eq_of_some (sym row ∙ found) in
    elim (append-eq_ok (new_account input id) (opening_entry id cents actor) (with_new input id s)
      appended) [
        | inl (x, w) ↦ absurd (
            entry_not_owned (opening id) id s.entries
              (sound.owned id (find_account-none id s.accounts fresh)) r.entry w.found
              (is_replay_parts (new_account input id) adjustment x r.entry w.same).0)
        | inr (p, _, w) ↦
            let (available, reserved) = plan_entry-opening input id cents actor w.planned in
            let moved : a ≡ moved_account p (new_account input id) = sym same ∙ w.moved in
            (
              after,
              found,
              e ∙ ap ok (sym (ap (λ (x : Account). x.available) moved ∙ available)),
              ap (λ (x : Account). x.reserved) moved ∙ reserved,
              ap (λ (x : Account). x.version) moved,
            )
      ]
