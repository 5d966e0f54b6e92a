-- ===== src/Reconciliation/Cause.antt =====
-- `stopTriggerFor`: the cause of a stop.
use api_score.Base.{
  Bool, true, false, ◌&&◌, ◌||◌, Option, none, some, List, [], ◌∷◌, ◌==◌, if◌then◌else◌,
}
use api_score.Base.Rows.{exists_where, select_where}
use api_score.Money.{Text}
use api_score.Domain.{
  AutoStopTrigger, operator_error_rate, operator_balance_mismatch, receipt_missing,
  ledger_invariant_broken, unknown_order_too_old, operator_contract_violation,
}
use api_score.Reconciliation.Defs.{ItemType, Detail, reason, ItemDraft, is_critical}

abbrev pub starts_with : Text → Text → Bool
starts_with [] t = true
starts_with (c ∷ cs) [] = false
starts_with (c ∷ cs) (d ∷ ds) = c == d && starts_with cs ds

-- `text.includes(word)`
abbrev pub includes : Text → Text → Bool
includes word [] = starts_with word []
includes word (c ∷ cs) = starts_with word (c ∷ cs) || includes word cs

-- "LOOKUP_FAILED" and "UNKNOWN"
abbrev pub lookup_failed_word : Text
lookup_failed_word =
    b'L' ∷ b'O' ∷ b'O' ∷ b'K' ∷ b'U' ∷ b'P' ∷ b'_' ∷ b'F' ∷ b'A' ∷ b'I' ∷ b'L' ∷ b'E' ∷ b'D' ∷ []

abbrev pub unknown_word : Text
unknown_word = b'U' ∷ b'N' ∷ b'K' ∷ b'N' ∷ b'O' ∷ b'W' ∷ b'N' ∷ []

-- `detail.includes(...)`: in the words of the code, or in those that it was given.
abbrev pub mentions_failure : Detail → Bool
mentions_failure (Detail.lookup_failed _) = true
mentions_failure (Detail.status_reason t) = includes lookup_failed_word t
mentions_failure (Detail.balance_unreadable t) = includes lookup_failed_word t
mentions_failure _ = false

abbrev pub mentions_unknown : Detail → Bool
mentions_unknown (Detail.unknown_became _) = true
mentions_unknown (Detail.lookup_failed (reason t)) = includes unknown_word t
mentions_unknown (Detail.status_reason t) = includes unknown_word t
mentions_unknown (Detail.balance_unreadable t) = includes unknown_word t
mentions_unknown _ = false

abbrev pub is_balance : ItemDraft → Bool
is_balance d = elim d.item_type [ ItemType.balance ↦ true | _ ↦ false ]

abbrev pub is_about_receipt : ItemDraft → Bool
is_about_receipt d = elim d.item_type [ ItemType.receipt ↦ true | _ ↦ false ]

abbrev pub is_about_ledger : ItemDraft → Bool
is_about_ledger d = elim d.item_type [ ItemType.ledger ↦ true | _ ↦ false ]

abbrev pub cause_of : List ItemDraft → AutoStopTrigger
cause_of critical =
    if exists_where (λ d. mentions_failure d.detail) critical
    then operator_error_rate
    else if exists_where is_balance critical
    then operator_balance_mismatch
    else if exists_where is_about_receipt critical
    then receipt_missing
    else if exists_where is_about_ledger critical
    then ledger_invariant_broken
    else if exists_where (λ d. mentions_unknown d.detail) critical
    then unknown_order_too_old
    else operator_contract_violation

abbrev pub cause_if_any : List ItemDraft → Option AutoStopTrigger
cause_if_any [] = none
cause_if_any (d ∷ ds) = some (cause_of (d ∷ ds))

-- `stopTriggerFor`
unfoldable pub stop_trigger_for : List ItemDraft → Option AutoStopTrigger
stop_trigger_for items = cause_if_any (select_where is_critical items)
