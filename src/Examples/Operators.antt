-- ===== src/Examples/Operators.antt =====
-- Runs of the sandbox on concrete inputs.
use api_score.Base.{◌≡◌, refl, none, some, [], ◌∷◌}
use api_score.Base.Int.{pos, ◌+ℤ◌, neg}
use api_score.Money.{to_cents}
use api_score.Operator.{PlaceOrderRequest}
use api_score.Sandbox.Defs.{Sandbox, SandboxEnv, SandboxScenario, BalanceRow}
use api_score.Sandbox.Place.{place_order}
use api_score.Sandbox.Placing.{IsConserving, place_order-IsConserving}

abbrev env : SandboxEnv
env = record { now = 90000000; sha256 = λ id request. id; eur = 1 }

-- 25.00 for the order 12.
abbrev request : PlaceOrderRequest
request = record {
  order_id = 9;
  idempotency_key = 12;
  operator_key = 1;
  requested_odd = 1850;
  minimum_odd = 1800;
  stake = b'2' ∷ b'5' ∷ [];
  currency = 1;
}

-- 100.00 at the operator, and an answer that will be late.
abbrev funded_sandbox : Sandbox
funded_sandbox = record {
  book = [];
  hidden_reads = [];
  place_calls = [];
  balances = record { currency = 1; available = pos 10000; exposure = pos 0 } ∷ [];
  queue = SandboxScenario.delayed ∷ [];
  quote_odd = some 1900;
  sequence = 3;
  last_receipt_hash = none;
  currencies = [];
}

abbrev staked_row : BalanceRow
staked_row = record { currency = 1; available = pos 7500; exposure = pos 2500 }

place_order-delayed : (place_order env request funded_sandbox).1.balances ≡ staked_row ∷ []
unfolding place_order to_cents ◌+ℤ◌ neg
place_order-delayed = refl

place_order-IsConserving_example :
    IsConserving funded_sandbox (place_order env request funded_sandbox).1
place_order-IsConserving_example = place_order-IsConserving env request funded_sandbox
