-- ===== src/Sandbox/Defs.antt =====
-- The state of the sandbox, its maps and its amounts.
use api_score.Base.{
  ℕ, zero, suc, ◌+◌, ◌-◌, ◌*◌, ◌/◌, Option, none, some, List, [], ◌∷◌, ◌++◌, ◌==◌, if◌then◌else◌,
  is_some,
}
use api_score.Base.Int.{ℤ, pos, negsuc, ◌+ℤ◌, neg}
use api_score.Base.Rows.{length, find, update_where, exists_where}
use api_score.Money.{Text, decimal}
use api_score.Operator.{OperatorOrder, PlaceOrderRequest}

pub data SandboxScenario : Type 0 where
  accept reject odd_moved timeout_before_accept timeout_after_accept : SandboxScenario
  delayed malformed duplicate_receipt : SandboxScenario

pub record BookRow : Type 0 where
  pub key : ℕ
  pub order : OperatorOrder

-- An entry of `hiddenReads` or `placeCalls`.
pub record CountRow : Type 0 where
  pub key : ℕ
  pub count : ℕ

pub record BalanceRow : Type 0 where
  pub currency : ℕ
  pub available : ℤ
  pub exposure : ℤ

-- An entry of `currencies`, by the number in the external identifier.
pub record CurrencyRow : Type 0 where
  pub external_order_id : Option Text
  pub currency : ℕ

pub record Sandbox : Type 0 where
  pub book : List BookRow
  pub hidden_reads : List CountRow
  pub place_calls : List CountRow
  pub balances : List BalanceRow
  pub queue : List SandboxScenario
  pub quote_odd : Option ℕ
  pub sequence : ℕ
  pub last_receipt_hash : Option Text
  pub currencies : List CurrencyRow

-- What the adapter meets outside: the clock, SHA-256 in hexadecimal over the parts of a receipt,
-- and the number that stands for the currency "EUR".
pub record SandboxEnv : Type 0 where
  pub now : ℕ
  pub sha256 : Text → PlaceOrderRequest → Text
  pub eur : ℕ

-- `x * k` and `Math.round(x / 1000)`, a half upwards.
abbrev pub scaled : ℤ → ℕ → ℤ
scaled (pos a) k = pos (a * k)
scaled (negsuc a) k = neg (pos (suc a * k))

abbrev pub rounded_thousandth : ℤ → ℤ
rounded_thousandth (pos n) = pos ((2 * n + 1000) / 2000)
rounded_thousandth (negsuc n) = neg (pos ((2 * suc n + 999) / 2000))

-- `winningProfitCents`, of an odd in thousandths.
unfoldable pub winning_profit_cents : ℤ → ℕ → ℤ
unfolding ◌+ℤ◌ neg
winning_profit_cents stake odd = rounded_thousandth (scaled stake odd +ℤ neg (scaled stake 1000))

abbrev pub count_or_zero : Option CountRow → ℕ
count_or_zero none = 0
count_or_zero (some r) = r.count

abbrev pub count_of : ℕ → List CountRow → ℕ
count_of key rows = count_or_zero (find (λ r. r.key == key) rows)

-- `Map.set`
abbrev pub set_count : ℕ → ℕ → List CountRow → List CountRow
set_count key n rows =
    if exists_where (λ (r : CountRow). r.key == key) rows
    then update_where (λ r. r.key == key) (λ r. record r { count = n }) rows
    else rows ++ (record { key = key; count = n } ∷ [])

abbrev pub find_booked : ℕ → List BookRow → Option BookRow
find_booked key = find (λ r. r.key == key)

-- `placeCallsFor` and `placementsFor`
abbrev pub place_calls_for : ℕ → Sandbox → ℕ
place_calls_for key s = count_of key s.place_calls

abbrev pub placements_for : ℕ → Sandbox → ℕ
placements_for key s = if is_some (find_booked key s.book) then 1 else 0

-- `balanceOf`, which makes an empty balance.
abbrev pub balance_made : ℕ → List BalanceRow → List BalanceRow
balance_made currency rows =
    if exists_where (λ (r : BalanceRow). r.currency == currency) rows
    then rows
    else rows ++ (record { currency = currency; available = pos 0; exposure = pos 0 } ∷ [])

abbrev pub shifted : ℤ → ℤ → BalanceRow → BalanceRow
shifted available exposure r = record r {
  available = r.available +ℤ available;
  exposure = r.exposure +ℤ exposure;
}

abbrev pub shift_balances : ℕ → ℤ → ℤ → List BalanceRow → List BalanceRow
shift_balances currency available exposure rows =
    update_where (λ r. r.currency == currency) (shifted available exposure)
      (balance_made currency rows)

abbrev pub zeros : ℕ → Text → Text
zeros zero t = t
zeros (suc m) t = b'0' ∷ zeros m t

-- `SBX-${String(sequence).padStart(6, '0')}`
abbrev pub external_id : ℕ → Text
external_id n =
    let digits = decimal (suc n) n [] in
    b'S' ∷ b'B' ∷ b'X' ∷ b'-' ∷ zeros (6 - length digits) digits
