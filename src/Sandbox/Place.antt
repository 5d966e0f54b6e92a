-- ===== src/Sandbox/Place.antt =====
-- `placeOrder` and the scenarios that it plays.
use api_score.Base.{ℕ, ◌+◌, Option, none, some, List, [], ◌∷◌, ◌++◌, ◌==◌, if◌then◌else◌}
use api_score.Base.Rows.{update_where, exists_where}
use api_score.Base.Int.{ℤ, neg}
use api_score.Base.Tx.{Result, ok, err, other}
use api_score.Money.{Text, to_cents}
use api_score.Operator.{
  OperatorOrder, OperatorOrderStatus, PlaceOrderRequest, PlaceOrderResult, OperatorReason,
}
use api_score.Sandbox.Defs.{
  SandboxScenario, BookRow, Sandbox, SandboxEnv, set_count, find_booked, place_calls_for,
  shift_balances, external_id,
}

abbrev pub made_order : SandboxEnv → PlaceOrderRequest → Text → OperatorOrder
made_order env input id = record {
  acceptance = record {
    external_order_id = some id;
    accepted_odd = some input.requested_odd;
    accepted_stake = some input.stake;
    accepted_at = some env.now;
    receipt_hash = some (env.sha256 id input);
  };
  status = OperatorOrderStatus.accepted;
  payout = none;
  settled_at = none;
}

-- The order of the operator once its stake is read; the sequence has moved before.
abbrev pub booked :
    SandboxEnv → PlaceOrderRequest → Result ℤ → Sandbox → Result OperatorOrder × Sandbox
booked env input (err e) s = (err e, s)
booked env input (ok stake) s =
    let id = external_id s.sequence in
    (
      ok (made_order env input id),
      record s {
        balances = shift_balances input.currency (neg stake) stake s.balances;
        last_receipt_hash = some (env.sha256 id input);
        currencies =
            s.currencies
            ++ (record { external_order_id = some id; currency = input.currency } ∷ []);
      },
    )

-- `newOrder`
unfoldable pub booked_order :
    SandboxEnv → PlaceOrderRequest → Sandbox → Result OperatorOrder × Sandbox
unfolding to_cents
booked_order env input s =
    booked env input (to_cents input.stake) (record s { sequence = s.sequence + 1 })

-- `accepted`
abbrev pub accepted_of : OperatorOrder → PlaceOrderResult
accepted_of o = PlaceOrderResult.accepted o.acceptance

-- The answer without a hash of the receipt and without an odd.
abbrev pub malformed_of : OperatorOrder → PlaceOrderResult
malformed_of o =
    PlaceOrderResult.accepted (record o.acceptance { accepted_odd = none; receipt_hash = some [] })

abbrev pub with_hash : Option Text → OperatorOrder → OperatorOrder
with_hash none o = o
with_hash (some h) o = record o { acceptance = record o.acceptance { receipt_hash = some h } }

-- `Map.set`
abbrev pub set_booked : ℕ → OperatorOrder → List BookRow → List BookRow
set_booked key o rows =
    if exists_where (λ (r : BookRow). r.key == key) rows
    then update_where (λ r. r.key == key) (λ r. record r { order = o }) rows
    else rows ++ (record { key = key; order = o } ∷ [])

abbrev pub in_book : ℕ → OperatorOrder → Sandbox → Sandbox
in_book key o s = record s { book = set_booked key o s.book }

-- A new order with what becomes of it: the order in the book, the answer, the reads that are hidden.
abbrev pub placed_with :
    ℕ
    → (OperatorOrder → OperatorOrder)
    → (OperatorOrder → Result PlaceOrderResult)
    → Result OperatorOrder × Sandbox
    → Result PlaceOrderResult × Sandbox
placed_with key f answer (err e, s) = (err e, s)
placed_with key f answer (ok o, s) = (answer (f o), in_book key (f o) s)

abbrev pub hidden_once : ℕ → Result PlaceOrderResult × Sandbox → Result PlaceOrderResult × Sandbox
hidden_once key (err e, s) = (err e, s)
hidden_once key (ok r, s) = (ok r, record s { hidden_reads = set_count key 1 s.hidden_reads })

abbrev pub play :
    SandboxEnv → PlaceOrderRequest → SandboxScenario → Sandbox → Result PlaceOrderResult × Sandbox
play env i SandboxScenario.reject s =
    (ok (PlaceOrderResult.rejected OperatorReason.other_reason), s)
play env i SandboxScenario.odd_moved s =
    (ok (PlaceOrderResult.rejected OperatorReason.odd_moved), s)
play env i SandboxScenario.timeout_before_accept s = (err other, s)
play env i SandboxScenario.timeout_after_accept s =
    placed_with i.idempotency_key (λ o. o) (λ o. err other) (booked_order env i s)
play env i SandboxScenario.delayed s = hidden_once i.idempotency_key (
    placed_with i.idempotency_key (λ o. o) (λ o. ok PlaceOrderResult.unknown)
      (booked_order env i s))
play env i SandboxScenario.malformed s =
    placed_with i.idempotency_key (λ o. o) (λ o. ok (malformed_of o)) (booked_order env i s)
play env i SandboxScenario.duplicate_receipt s =
    placed_with i.idempotency_key (with_hash s.last_receipt_hash) (λ o. ok (accepted_of o))
      (booked_order env i s)
play env i SandboxScenario.accept s =
    placed_with i.idempotency_key (λ o. o) (λ o. ok (accepted_of o)) (booked_order env i s)

abbrev pub play_next :
    SandboxEnv
    → PlaceOrderRequest
    → List SandboxScenario
    → Sandbox
    → Result PlaceOrderResult × Sandbox
play_next env i [] s = play env i SandboxScenario.accept s
play_next env i (scenario ∷ rest) s = play env i scenario (record s { queue = rest })

abbrev pub place_known :
    SandboxEnv → PlaceOrderRequest → Option BookRow → Sandbox → Result PlaceOrderResult × Sandbox
place_known env i (some row) s = (ok (accepted_of row.order), s)
place_known env i none s = play_next env i s.queue s

-- `placeOrder`
unfoldable pub place_order :
    SandboxEnv → PlaceOrderRequest → Sandbox → Result PlaceOrderResult × Sandbox
unfolding booked_order
place_order env i s = place_known env i (find_booked i.idempotency_key s.book) (record s {
  place_calls = set_count i.idempotency_key (place_calls_for i.idempotency_key s + 1) s.place_calls;
})
