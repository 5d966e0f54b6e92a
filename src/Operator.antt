-- ===== src/Operator.antt =====
-- The contract with a betting operator: backend/src/execution/operator.port.ts. What an operator
-- answers is an argument of the code that asks. Odds are thousandths.
use api_score.Base.{ℕ, Bool, true, false, ◌&&◌, ◌||◌, Option, none, some, [], ◌∷◌, ltb, leb, ◌==◌}
use api_score.Base.Rows.{length}
use api_score.Money.{Text, is_digit, span_digits}

-- `captured_at` is `none` for an invalid date.
pub record OperatorQuote : Type 0 where
  pub odd_value : ℕ
  pub captured_at : Option ℕ
  pub available : Bool

pub record PlaceOrderRequest : Type 0 where
  pub order_id : ℕ
  pub idempotency_key : ℕ
  pub operator_key : ℕ
  pub requested_odd : ℕ
  pub minimum_odd : ℕ
  pub stake : Text
  pub currency : ℕ

-- The operator's reasons of a refusal; any other text is `other_reason`.
pub data OperatorReason : Type 0 where
  odd_moved no_quote market_suspended other_reason : OperatorReason

-- What an acceptance holds. `none` is a field that is missing, of another type or not finite.
pub record Acceptance : Type 0 where
  pub external_order_id : Option Text
  pub accepted_odd : Option ℕ
  pub accepted_stake : Option Text
  pub accepted_at : Option ℕ
  pub receipt_hash : Option Text

pub data PlaceOrderResult : Type 0 where
  accepted : Acceptance → PlaceOrderResult
  rejected : OperatorReason → PlaceOrderResult
  unknown : PlaceOrderResult

pub data OperatorOrderStatus : Type 0 where
  accepted rejected settled voided : OperatorOrderStatus

pub record OperatorOrder : Type 0 where
  pub acceptance : Acceptance
  pub status : OperatorOrderStatus
  pub payout : Option Text
  pub settled_at : Option ℕ

-- What is left after the digits: nothing, or a point with one digit or two.
abbrev pub is_cents_tail : Text → Bool
is_cents_tail [] = true
is_cents_tail (c ∷ d ∷ []) = c == b'.' && is_digit d
is_cents_tail (c ∷ d ∷ e ∷ []) = c == b'.' && is_digit d && is_digit e
is_cents_tail _ = false

-- `/^\d{1,12}(\.\d{1,2})?$/`
unfoldable pub is_amount_text : Text → Bool
unfolding span_digits
is_amount_text t =
    let (digits, tail) = span_digits t in
    leb 1 (length digits) && leb (length digits) 12 && is_cents_tail tail

abbrev pub is_hex : ℕ → Bool
is_hex c = is_digit c || (leb b'a' c && leb c b'f')

abbrev pub all_hex : Text → Bool
all_hex [] = true
all_hex (c ∷ cs) = is_hex c && all_hex cs

-- `/^[0-9a-f]{64}$/`
unfoldable pub is_receipt_hash : Text → Bool
is_receipt_hash t = length t == 64 && all_hex t

abbrev pub text_test : (Text → Bool) → Option Text → Bool
text_test p none = false
text_test p (some t) = p t

abbrev pub odd_above_one : Option ℕ → Bool
odd_above_one none = false
odd_above_one (some odd) = ltb 1000 odd

abbrev pub is_date : Option ℕ → Bool
is_date none = false
is_date (some _) = true

-- `isWellFormedAcceptance`
unfoldable pub is_well_formed_acceptance : Acceptance → Bool
unfolding is_amount_text is_receipt_hash
is_well_formed_acceptance a =
    text_test (λ t. leb 1 (length t) && leb (length t) 128) a.external_order_id
    && odd_above_one a.accepted_odd
    && text_test is_amount_text a.accepted_stake
    && is_date a.accepted_at
    && text_test is_receipt_hash a.receipt_hash
