-- ===== src/Ledger/Checks.antt =====
-- The sums of `LedgerService`: the figures of the day, and the check of an account by its entries.
use api_score.Base.{
  ℕ, Bool, true, ◌&&◌, Option, none, some, List, [], ◌∷◌, ltb, leb, ◌==◌, if◌then◌else◌,
}
use api_score.Base.Int.{ℤ, pos, ◌+ℤ◌, eqb_ℤ}
use api_score.Base.Tx.{
  Result, ok, err, http, not_found, other, Tx, pure, gets, or_throw, lift, ◌>>=◌,
}
use api_score.Money.{is_safe_integer}
use api_score.Domain.{reserve, settle, entry_type_eq}
use api_score.Ledger.Defs.{Account, Entry, Store, Balances}
use api_score.Ledger.Service.{find_account, balances_of}

-- `SUM` over the entries of an account, for one amount of the entry.
abbrev pub sum_of : (Entry → ℤ) → ℕ → List Entry → ℤ
sum_of f id [] = pos 0
sum_of f id (e ∷ es) = if e.account_id == id then f e +ℤ sum_of f id es else sum_of f id es

pub record DailyAggregates : Type 0 where
  pub staked_cents : ℤ
  pub settled_pnl_cents : ℤ

abbrev pub staked_since : ℕ → Entry → ℤ
staked_since day e =
    if leb day e.created_at && entry_type_eq e.entry_type reserve then e.reserved_delta else pos 0

abbrev pub pnl_since : ℕ → Entry → ℤ
pnl_since day e =
    if leb day e.created_at && entry_type_eq e.entry_type settle
    then e.amount +ℤ e.reserved_delta
    else pos 0

-- `toCents(String(…))` of a sum: refused outside the safe integers.
abbrev pub read_sum : ℤ → Result ℤ
read_sum z = if is_safe_integer z then ok z else err other

unfoldable pub daily_aggregates : ℕ → ℕ → Tx Store DailyAggregates
daily_aggregates id day = do
  entries ← gets (λ s. s.entries)
  staked ← lift (read_sum (sum_of (staked_since day) id entries))
  pnl ← lift (read_sum (sum_of (pnl_since day) id entries))
  pure (record { staked_cents = staked; settled_pnl_cents = pnl })

abbrev pub newer : Entry → Option Entry → Option Entry
newer e none = some e
newer e (some l) = if ltb e.account_version l.account_version then some l else some e

-- The entry of an account with the highest version.
abbrev pub last_entry : ℕ → List Entry → Option Entry
last_entry id [] = none
last_entry id (e ∷ es) = if e.account_id == id then newer e (last_entry id es) else last_entry id es

pub record InvariantReport : Type 0 where
  pub is_ok : Bool
  pub account : Balances
  pub ledger_sum : Balances
  pub last_balances : Option Balances

abbrev pub same_balances : Balances → Balances → Bool
same_balances a b =
    eqb_ℤ a.available_cents b.available_cents && eqb_ℤ a.reserved_cents b.reserved_cents

abbrev pub after_of : Entry → Balances
after_of e = record { available_cents = e.available_after; reserved_cents = e.reserved_after }

abbrev pub last_agrees : Account → Option Entry → Bool
last_agrees a none = true
last_agrees a (some l) =
    same_balances (balances_of a) (after_of l) && l.account_version == a.version

abbrev pub balances_after : Option Entry → Option Balances
balances_after none = none
balances_after (some e) = some (after_of e)

abbrev pub report : Account → Balances → Option Entry → InvariantReport
report account sums last = record {
  is_ok = same_balances (balances_of account) sums && last_agrees account last;
  account = balances_of account;
  ledger_sum = sums;
  last_balances = balances_after last;
}

unfoldable pub verify_invariant : ℕ → Tx Store InvariantReport
verify_invariant id = do
  found ← gets (λ s. find_account id s.accounts)
  account ← or_throw found (http not_found)
  entries ← gets (λ s. s.entries)
  available ← lift (read_sum (sum_of (λ e. e.amount) id entries))
  reserved ← lift (read_sum (sum_of (λ e. e.reserved_delta) id entries))
  pure (
      report account (record { available_cents = available; reserved_cents = reserved })
        (last_entry id entries))
