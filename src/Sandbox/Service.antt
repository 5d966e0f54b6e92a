-- ===== src/Sandbox/Service.antt =====
-- The other methods of the sandbox.
use api_score.Base.{ℕ, zero, suc, Bool, true, Option, none, some, List, [], ◌++◌, ◌==◌}
use api_score.Base.Int.{ℤ, pos, ◌+ℤ◌, neg}
use api_score.Base.Rows.{find, update_where}
use api_score.Base.Tx.{Result, ok, err, other}
use api_score.Money.{Text, to_cents, from_cents}
use api_score.Operator.{OperatorOrder, OperatorOrderStatus, OperatorQuote}
use api_score.Orders.Acceptance.{text_option_eq}
use api_score.Sandbox.Defs.{
  BalanceRow, SandboxScenario, BookRow, CurrencyRow, Sandbox, SandboxEnv, winning_profit_cents,
  count_of, set_count, find_booked, balance_made, shift_balances,
}

-- `settle`: the outcome of an accepted order of the book, found by its external identifier.
pub data SandboxOutcome : Type 0 where
  won lost void : SandboxOutcome

abbrev pub has_external : Text → BookRow → Bool
has_external id r = text_option_eq r.order.acceptance.external_order_id (some id)

abbrev pub odd_or_zero : Option ℕ → ℕ
odd_or_zero none = 0
odd_or_zero (some odd) = odd

abbrev pub payout_of : SandboxOutcome → ℤ → Option ℕ → ℤ
payout_of SandboxOutcome.won stake odd = stake +ℤ winning_profit_cents stake (odd_or_zero odd)
payout_of SandboxOutcome.void stake odd = stake
payout_of SandboxOutcome.lost stake odd = pos 0

abbrev pub settled_status : SandboxOutcome → OperatorOrderStatus
settled_status SandboxOutcome.void = OperatorOrderStatus.voided
settled_status _ = OperatorOrderStatus.settled

abbrev pub settled_row : SandboxEnv → SandboxOutcome → Option Text → BookRow → BookRow
settled_row env outcome payout r = record r {
  order = record r.order {
    status = settled_status outcome;
    payout = payout;
    settled_at = some env.now;
  };
}

abbrev pub currency_or : ℕ → Option CurrencyRow → ℕ
currency_or eur none = eur
currency_or eur (some r) = r.currency

-- `currencyOf`
abbrev pub currency_of : SandboxEnv → Text → Sandbox → ℕ
currency_of env id s =
    currency_or env.eur (find (λ r. text_option_eq r.external_order_id (some id)) s.currencies)

-- The balance has moved before the payout is printed; a status without its payout is then left.
abbrev pub settled_with :
    SandboxEnv → Text → SandboxOutcome → Result Text → Sandbox → Result (Unit {0}) × Sandbox
settled_with env id outcome (ok payout) s = (
  ok tt,
  record s { book = update_where (has_external id) (settled_row env outcome (some payout)) s.book },
)
settled_with env id outcome (err e) s = (
  err e,
  record s {
    book =
        update_where (has_external id)
          (λ r. record r { order = record r.order { status = settled_status outcome } }) s.book;
  },
)

abbrev pub settle_read :
    SandboxEnv → Text → SandboxOutcome → BookRow → Result ℤ → Sandbox → Result (Unit {0}) × Sandbox
settle_read env id outcome row (err e) s = (err e, s)
settle_read env id outcome row (ok stake) s =
    let payout = payout_of outcome stake row.order.acceptance.accepted_odd in
    settled_with env id outcome (from_cents payout)
      (record s { balances = shift_balances (currency_of env id s) payout (neg stake) s.balances })

abbrev pub read_stake : Option Text → Result ℤ
read_stake none = err other
read_stake (some t) = to_cents t

abbrev pub settle_status :
    SandboxEnv
    → Text
    → SandboxOutcome
    → BookRow
    → OperatorOrderStatus
    → Sandbox
    → Result (Unit {0}) × Sandbox
settle_status env id outcome row OperatorOrderStatus.accepted s =
    settle_read env id outcome row (read_stake row.order.acceptance.accepted_stake) s
settle_status env id outcome row _ s = (err other, s)

abbrev pub settle_found :
    SandboxEnv → Text → SandboxOutcome → Option BookRow → Sandbox → Result (Unit {0}) × Sandbox
settle_found env id outcome none s = (err other, s)
settle_found env id outcome (some row) s = settle_status env id outcome row row.order.status s

unfoldable pub settle : SandboxEnv → Text → SandboxOutcome → Sandbox → Result (Unit {0}) × Sandbox
unfolding winning_profit_cents to_cents from_cents ◌+ℤ◌ neg
settle env id outcome s = settle_found env id outcome (find (has_external id) s.book) s

abbrev pub map_order : Option BookRow → Option OperatorOrder
map_order none = none
map_order (some r) = some r.order

abbrev pub quoted : ℕ → Option ℕ → Option OperatorQuote
quoted at none = none
quoted at (some odd) = some (record { odd_value = odd; captured_at = some at; available = true })

-- `getOrderByIdempotencyKey`: a hidden read counts down.
abbrev pub read_hidden : ℕ → ℕ → Sandbox → Option OperatorOrder × Sandbox
read_hidden key (suc n) s = (none, record s { hidden_reads = set_count key n s.hidden_reads })
read_hidden key zero s = (map_order (find_booked key s.book), s)

unfoldable pub order_by_idempotency_key : ℕ → Sandbox → Option OperatorOrder × Sandbox
order_by_idempotency_key key s = read_hidden key (count_of key s.hidden_reads) s

-- `reset`: all but the sequence and the currencies.
unfoldable pub reset : Sandbox → Sandbox
reset s = record s {
  book = [];
  hidden_reads = [];
  place_calls = [];
  balances = [];
  queue = [];
  quote_odd = some 1900;
  last_receipt_hash = none;
}

unfoldable pub enqueue : List SandboxScenario → Sandbox → Sandbox
enqueue scenarios s = record s { queue = s.queue ++ scenarios }

-- `getExecutableQuote`
unfoldable pub executable_quote : ℕ → Sandbox → Option OperatorQuote
executable_quote at s = quoted at s.quote_odd

abbrev pub funded : ℕ → Result ℤ → Sandbox → Result (Unit {0}) × Sandbox
funded currency (err e) s = (err e, s)
funded currency (ok cents) s = (
  ok tt,
  record s {
    balances =
        update_where (λ r. r.currency == currency)
          (λ r. record r { available = cents; exposure = pos 0 })
          (balance_made currency s.balances);
  },
)

unfoldable pub fund : ℕ → Text → Sandbox → Result (Unit {0}) × Sandbox
unfolding to_cents
fund currency amount s = funded currency (to_cents amount) s

unfoldable pub shift_balance : ℕ → ℤ → Sandbox → Sandbox
unfolding ◌+ℤ◌
shift_balance currency delta s = record s {
  balances = shift_balances currency delta (pos 0) s.balances;
}

unfoldable pub set_quote_odd : Option ℕ → Sandbox → Sandbox
set_quote_odd odd s = record s { quote_odd = odd }

unfoldable pub order_by_external_id : Text → Sandbox → Option OperatorOrder
order_by_external_id id s = map_order (find (has_external id) s.book)

abbrev pub printed_both : Result Text → Result Text → Result (Text × Text)
printed_both (err e) exposure = err e
printed_both (ok available) (err e) = err e
printed_both (ok available) (ok exposure) = ok (available, exposure)

abbrev pub row_printed : Option BalanceRow → Result (Text × Text)
row_printed none = err other
row_printed (some r) = printed_both (from_cents r.available) (from_cents r.exposure)

-- `getBalance`: what is available and what is at stake; a currency without a balance gets one.
unfoldable pub balance : ℕ → Sandbox → Result (Text × Text) × Sandbox
unfolding from_cents
balance currency s =
    let rows = balance_made currency s.balances in
    (row_printed (find (λ r. r.currency == currency) rows), record s { balances = rows })
