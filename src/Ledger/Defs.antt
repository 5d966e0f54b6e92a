-- ===== src/Ledger/Defs.antt =====
-- Rows, and the effect of an entry: `movementEffect` and `planEntry`.
use api_score.Base.{
  ℕ, Bool, true, false, not, ◌&&◌, ◌||◌, Option, none, some, List, ◌==◌, if◌then◌else◌,
}
use api_score.Base.Int.{ℤ, pos, ◌+ℤ◌, neg, ltb_ℤ, eqb_ℤ}
use api_score.Base.Tx.{
  Result, ok, err, ledger_rule, stake_required, payout_required, adjustment_required,
  available_short, release_short, settle_short, negative_balance,
}
use api_score.Money.{is_safe_integer}
use api_score.Domain.{StoredMode, LedgerEntryType, reserve, release, settle, adjustment}

-- The keys of entries: a prefix, and the account's id or the order's idempotency key.
pub data EntryKey : Type 0 where
  opening : ℕ → EntryKey
  reserve_key release_key release_partial_key settle_key : ℕ → EntryKey

abbrev pub key_eq : EntryKey → EntryKey → Bool
key_eq (opening a) (opening b) = a == b
key_eq (reserve_key a) (reserve_key b) = a == b
key_eq (release_key a) (release_key b) = a == b
key_eq (release_partial_key a) (release_partial_key b) = a == b
key_eq (settle_key a) (settle_key b) = a == b
key_eq _ _ = false

pub record Account : Type 0 where
  pub id : ℕ
  pub mode : StoredMode
  pub operator_key : ℕ
  pub currency : ℕ
  pub available : ℤ
  pub reserved : ℤ
  pub version : ℕ

pub record Entry : Type 0 where
  pub account_id : ℕ
  pub order_id : Option ℕ
  pub entry_key : EntryKey
  pub entry_type : LedgerEntryType
  pub amount : ℤ
  pub reserved_delta : ℤ
  pub available_after : ℤ
  pub reserved_after : ℤ
  pub currency : ℕ
  pub account_version : ℕ
  pub actor_user_id : Option ℕ
  pub created_at : ℕ

-- The tables, and the database's clock.
pub record Store : Type 0 where
  pub accounts : List Account
  pub entries : List Entry
  pub now : ℕ

pub record Balances : Type 0 where
  pub available_cents : ℤ
  pub reserved_cents : ℤ

pub record Effect : Type 0 where
  pub amount_cents : ℤ
  pub reserved_delta_cents : ℤ

pub record PlannedEntry : Type 0 where
  pub amount_cents : ℤ
  pub reserved_delta_cents : ℤ
  pub available_after_cents : ℤ
  pub reserved_after_cents : ℤ

-- `none` is a field left out.
pub record EntryMovement : Type 0 where
  pub stake_cents : Option ℤ
  pub payout_cents : Option ℤ
  pub adjustment_cents : Option ℤ

-- `isPositiveInteger`, with the value that it lets through.
abbrev pub positive_integer? : Option ℤ → Option ℤ
positive_integer? none = none
positive_integer? (some v) = if is_safe_integer v && ltb_ℤ (pos 0) v then some v else none

abbrev pub payout? : Option ℤ → Option ℤ
payout? none = none
payout? (some v) = if not (is_safe_integer v) || ltb_ℤ v (pos 0) then none else some v

abbrev pub adjustment? : Option ℤ → Option ℤ
adjustment? none = none
adjustment? (some v) = if not (is_safe_integer v) || eqb_ℤ v (pos 0) then none else some v

-- The cases of `movementEffect` once the stake is known to be positive.
abbrev pub staked_effect : LedgerEntryType → ℤ → Option ℤ → Result Effect
staked_effect reserve stake _ =
    ok (record { amount_cents = neg stake; reserved_delta_cents = stake })
staked_effect release stake _ =
    ok (record { amount_cents = stake; reserved_delta_cents = neg stake })
staked_effect settle stake none = err (ledger_rule payout_required)
staked_effect settle stake (some payout) =
    ok (record { amount_cents = payout; reserved_delta_cents = neg stake })
staked_effect adjustment stake _ = err (ledger_rule adjustment_required)

abbrev pub stake_or_throw : LedgerEntryType → EntryMovement → Result Effect
stake_or_throw type m = elim (positive_integer? m.stake_cents) [
  | none ↦ err (ledger_rule stake_required)
  | some stake ↦ staked_effect type stake (payout? m.payout_cents)
]

unfoldable pub movement_effect : LedgerEntryType → EntryMovement → Result Effect
movement_effect adjustment m = elim (adjustment? m.adjustment_cents) [
  | none ↦ err (ledger_rule adjustment_required)
  | some v ↦ ok (record { amount_cents = v; reserved_delta_cents = pos 0 })
]
movement_effect type m = stake_or_throw type m

abbrev pub is_reserve : LedgerEntryType → Bool
is_reserve reserve = true
is_reserve _ = false

-- The check of the reserved balance, with the error of RELEASE or SETTLE.
abbrev pub reserved_rule : LedgerEntryType → Balances → Effect → Bool
reserved_rule release b e = ltb_ℤ b.reserved_cents (neg e.reserved_delta_cents)
reserved_rule settle b e = ltb_ℤ b.reserved_cents (neg e.reserved_delta_cents)
reserved_rule _ b e = false

abbrev pub reserved_error : {A : Type 0} → LedgerEntryType → Result A
reserved_error release = err (ledger_rule release_short)
reserved_error _ = err (ledger_rule settle_short)

abbrev pub plan_effect : LedgerEntryType → Balances → Effect → Result PlannedEntry
plan_effect type b e =
    if is_reserve type && ltb_ℤ b.available_cents (neg e.amount_cents)
    then err (ledger_rule available_short)
    else if reserved_rule type b e
    then reserved_error type
    else if ltb_ℤ (b.available_cents +ℤ e.amount_cents) (pos 0)
        || ltb_ℤ (b.reserved_cents +ℤ e.reserved_delta_cents) (pos 0)
    then err (ledger_rule negative_balance)
    else ok (record {
      amount_cents = e.amount_cents;
      reserved_delta_cents = e.reserved_delta_cents;
      available_after_cents = b.available_cents +ℤ e.amount_cents;
      reserved_after_cents = b.reserved_cents +ℤ e.reserved_delta_cents;
    })

abbrev pub plan_from : LedgerEntryType → Balances → Result Effect → Result PlannedEntry
plan_from type b (ok e) = plan_effect type b e
plan_from type b (err f) = err f

unfoldable pub plan_entry : LedgerEntryType → Balances → EntryMovement → Result PlannedEntry
unfolding movement_effect
plan_entry type b m = plan_from type b (movement_effect type m)
