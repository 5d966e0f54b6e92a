-- ===== src/Orders/Columns.antt =====
-- The amounts of an order as its columns hold them: DECIMAL(14,2) in bet-order.entity.ts.
use api_score.Base.{◌≡◌, ◌∙◌, ap}
use api_score.Base.Int.{ℤ}
use api_score.Base.Tx.{ok}
use api_score.Money.{Text, to_cents}
use api_score.Money.RoundTrip.{to_cents-from_cents}
use api_score.Money.Safe.{to_cents-safe}
use api_score.Orders.Defs.{column_amount, printed}

-- The column holds the same amount.
pub column_amount-to_cents :
    (t : Text) (c : ℤ) → to_cents t ≡ ok c → to_cents (column_amount t) ≡ ok c
column_amount-to_cents t c h =
    let (x, printed_as, read) = to_cents-from_cents c (to_cents-safe t c h) in
    let same : column_amount t ≡ x = rw h (ap (printed t) printed_as) in ap to_cents same ∙ read
