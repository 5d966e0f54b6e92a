-- ===== src/Reconciliation/Balance.antt =====
-- The account against the balance that the operator states.
use api_score.Base.{ℕ, Bool, true, false, Option, none, some, List, [], ◌∷◌, ◌==◌, if◌then◌else◌}
use api_score.Base.Int.{ℤ, eqb_ℤ}
use api_score.Base.Tx.{Result, ok, err, Failure}
use api_score.Money.{Text, to_cents}
use api_score.Ledger.Defs.{Account}
use api_score.Reconciliation.Defs.{
  ItemType, ItemResult, Severity, Detail, Evidence, ItemDraft, Answer, OperatorBalance,
  OperatorKind, OperatorPort, slice,
}
use api_score.Reconciliation.Compare.{item}

-- An amount that cannot be read throws; the next one is read only if this one is the same.
abbrev pub same_amount : Result ℤ → ℤ → Result Bool → Result Bool
same_amount (err e) cents next = err e
same_amount (ok read) cents next = if eqb_ℤ read cents then next else ok false

unfoldable pub balance_agrees : Account → OperatorBalance → Result Bool
unfolding to_cents
balance_agrees a b =
    if b.currency == a.currency
    then same_amount (to_cents b.available) a.available
        (same_amount (to_cents b.exposure) a.reserved (ok true))
    else ok false

abbrev pub balance_item :
    ItemResult → Severity → Detail → Option Evidence → Option Evidence → ItemDraft
balance_item = item none ItemType.balance

-- 255 characters, less the 28 of "Solde opérateur illisible : ".
abbrev pub unreadable_item : Text → ItemDraft
unreadable_item message =
    balance_item ItemResult.pending Severity.critical
      (Detail.balance_unreadable (slice 227 message)) none none

abbrev pub agreement_item : (Failure → Text) → Account → OperatorBalance → Result Bool → ItemDraft
agreement_item message a b (err e) = unreadable_item (message e)
agreement_item message a b (ok same) =
    let expected : Option Evidence = some (Evidence.account_amounts a.available a.reserved) in
    let observed : Option Evidence = some (Evidence.operator_amounts b.available b.exposure) in
    if same
    then balance_item ItemResult.matches Severity.info Detail.balance_agrees expected observed
    else balance_item ItemResult.mismatch Severity.critical Detail.balance_differs expected observed

abbrev pub answered_item : (Failure → Text) → Account → Answer OperatorBalance → ItemDraft
answered_item message a (Answer.thrown text) = unreadable_item text
answered_item message a (Answer.answer b) = agreement_item message a b (balance_agrees a b)

-- `port.kind !== 'PAPER'`
abbrev pub is_tracked : OperatorKind → Bool
is_tracked OperatorKind.paper = false
is_tracked _ = true

-- The balance is compared only if no order is in between.
abbrev pub compared_balance : (Failure → Text) → OperatorPort → Account → ℕ → List ItemDraft
compared_balance message port a ambiguous =
    if ambiguous == 0
    then answered_item message a (port.balance_in a.currency) ∷ []
    else balance_item ItemResult.pending Severity.warning (Detail.not_comparable ambiguous) none
        none
      ∷ []

unfoldable pub balance_items : (Failure → Text) → OperatorPort → Account → ℕ → List ItemDraft
unfolding balance_agrees
balance_items message port a ambiguous =
    if is_tracked port.kind then compared_balance message port a ambiguous else []
