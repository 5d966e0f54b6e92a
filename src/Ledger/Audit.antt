-- ===== src/Ledger/Audit.antt =====
-- `verifyInvariant` against the books: what its verdict means, and that sound tables pass.
use api_score.Base.{
  ℕ, ◌≡◌, ◌↔◌, refl, sym, true, Option, none, some, List, arith, and_parts, and_true,
}
use api_score.Base.Int.{ℤ}
use api_score.Base.Tx.{ok}
use api_score.Ledger.Defs.{Account, Entry, Store, Balances}
use api_score.Ledger.Service.{find_account, balances_of}
use api_score.Ledger.Checks.{
  sum_of, last_entry, read_sum, InvariantReport, report, verify_invariant, last_agrees,
  same_balances,
}
use api_score.Ledger.Invariant.{IsSound, LastIs, find_account-id}

abbrev pub amount_sum : ℕ → List Entry → ℤ
amount_sum id es = sum_of (λ e. e.amount) id es

abbrev pub reserved_sum : ℕ → List Entry → ℤ
reserved_sum id es = sum_of (λ e. e.reserved_delta) id es

last_agrees_iff : (a : Account) (l : Option Entry) → (last_agrees a l ≡ true) ↔ LastIs a l
last_agrees_iff a none = (λ _. tt, λ _. refl)
last_agrees_iff a (some l) = (λ h. ground arith, λ h. ground arith)

same_balances_iff :
    (a : Account) (sums : Balances)
    → (same_balances (balances_of a) sums ≡ true)
      ↔ ((a.available ≡ sums.available_cents) × (a.reserved ≡ sums.reserved_cents))
same_balances_iff a sums = (λ h. ground arith, λ h. ground arith)

-- The books of an account agree: with the sums of its entries, and with the last entry.
pub record Agrees (a : Account) (es : List Entry) : Type 0 where
  pub available : a.available ≡ amount_sum a.id es
  pub reserved : a.reserved ≡ reserved_sum a.id es
  pub last : LastIs a (last_entry a.id es)

-- The report that `verify_invariant` returns on an account that is there.
verify_invariant-eq_ok :
    (id : ℕ) (s : Store) {a : Account} {rep : InvariantReport} {s' : Store}
    → find_account id s.accounts ≡ some a
    → verify_invariant id s ≡ ok (rep, s')
    → (rep
        ≡ report a
            (record {
              available_cents = amount_sum id s.entries;
              reserved_cents = reserved_sum id s.entries;
            })
            (last_entry id s.entries))
      × (s' ≡ s)
unfolding verify_invariant
verify_invariant-eq_ok id s f h = ground arith

report_iff :
    (a : Account) (es : List Entry)
    → ((report a
          (record { available_cents = amount_sum a.id es; reserved_cents = reserved_sum a.id es })
          (last_entry a.id es)).is_ok
        ≡ true)
      ↔ Agrees a es
report_iff a es =
    let sums : Balances = record {
      available_cents = amount_sum a.id es;
      reserved_cents = reserved_sum a.id es;
    } in
    (
      λ h.
          let (balances, last) = and_parts h in
          let (available, reserved) = (same_balances_iff a sums).0 balances in
          record {
            available = available;
            reserved = reserved;
            last = (last_agrees_iff a (last_entry a.id es)).0 last;
          },
      λ g.
          and_true ((same_balances_iff a sums).1 (g.available, g.reserved))
            ((last_agrees_iff a (last_entry a.id es)).1 g.last),
    )

-- A report that comes back says "ok" exactly when the account's balances are the sums of its
-- entries and its last entry shows the same balances and version; the tables are not changed.
pub verify_invariant_iff :
    (id : ℕ) (s : Store) {a : Account} {rep : InvariantReport} {s' : Store}
    → find_account id s.accounts ≡ some a
    → verify_invariant id s ≡ ok (rep, s')
    → ((rep.is_ok ≡ true) ↔ Agrees a s.entries) × (s' ≡ s)
verify_invariant_iff id s {a} {rep} f h =
    let (e, kept) = verify_invariant-eq_ok id s f h in
    let same : id ≡ a.id = sym (find_account-id id s.accounts f) in
    (rw (e, same) (report_iff a s.entries), kept)

verify_invariant-total :
    (id : ℕ) (s : Store) {a : Account}
    → find_account id s.accounts ≡ some a
    → read_sum (amount_sum id s.entries) ≡ ok (amount_sum id s.entries)
    → read_sum (reserved_sum id s.entries) ≡ ok (reserved_sum id s.entries)
    → (rep : InvariantReport) × (verify_invariant id s ≡ ok (rep, s))
unfolding verify_invariant
verify_invariant-total id s {a} f x y = (
  report a
      (record {
        available_cents = amount_sum id s.entries;
        reserved_cents = reserved_sum id s.entries;
      })
      (last_entry id s.entries),
  rw (f, x, y),
)

-- On sound tables the check of any account that exists comes back, and its verdict is "ok".
pub verify_invariant-IsSound :
    (id : ℕ) (s : Store) {a : Account}
    → IsSound s
    → find_account id s.accounts ≡ some a
    → (rep : InvariantReport) × (verify_invariant id s ≡ ok (rep, s)) × (rep.is_ok ≡ true)
verify_invariant-IsSound id s {a} sound f =
    let c = sound.consistent id a f in
    let same : a.id ≡ id = find_account-id id s.accounts f in
    let (rep, e) =
      verify_invariant-total id s f (rw (← same, ← c.available_sum, c.available_safe))
        (rw (← same, ← c.reserved_sum, c.reserved_safe)) in
    (
      rep,
      e,
      (verify_invariant_iff id s f e).0.1
          (record { available = c.available_sum; reserved = c.reserved_sum; last = c.last }),
    )
