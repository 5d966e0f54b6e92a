-- ===== src/Ledger/Effects.antt =====
-- The accounting effect of an entry.
use api_score.Base.{◌≡◌, refl, arith}
use api_score.Base.Int.{pos, ◌+ℤ◌, ◌≤ℤ◌}
use api_score.Base.Tx.{Result, ok, err}
use api_score.Domain.{LedgerEntryType, reserve}
use api_score.Ledger.Defs.{
  Balances, Effect, PlannedEntry, EntryMovement, movement_effect, plan_entry, plan_effect,
  plan_from,
}

-- What a planned entry guarantees: new balances that are the old ones moved by the entry, neither
-- of them negative.
pub record IsBalanced (b : Balances) (p : PlannedEntry) : Type 0 where
  pub available : p.available_after_cents ≡ b.available_cents +ℤ p.amount_cents
  pub reserved : p.reserved_after_cents ≡ b.reserved_cents +ℤ p.reserved_delta_cents
  pub available_nonneg : pos 0 ≤ℤ p.available_after_cents
  pub reserved_nonneg : pos 0 ≤ℤ p.reserved_after_cents

plan_effect-IsBalanced :
    (type : LedgerEntryType) (b : Balances) (e : Effect) {p : PlannedEntry}
    → plan_effect type b e ≡ ok p
    → IsBalanced b p
plan_effect-IsBalanced reserve b e h = ground arith
plan_effect-IsBalanced _ b e h = ground arith

pub plan_entry-eq_ok :
    (type : LedgerEntryType) (b : Balances) (m : EntryMovement) {p : PlannedEntry}
    → plan_entry type b m ≡ ok p
    → (e : Effect) × (movement_effect type m ≡ ok e) × (plan_effect type b e ≡ ok p)
unfolding plan_entry
plan_entry-eq_ok type b m {p} h = go (movement_effect type m) refl h
  where
    go :
        (r : Result Effect)
        → movement_effect type m ≡ r
        → plan_from type b r ≡ ok p
        → (e : Effect) × (movement_effect type m ≡ ok e) × (plan_effect type b e ≡ ok p)
    go (ok e) q k = (e, q, k)
    go (err f) q k = cc

-- A planned entry moves both balances by its amounts and leaves neither negative.
pub plan_entry-IsBalanced :
    (type : LedgerEntryType) (b : Balances) (m : EntryMovement) {p : PlannedEntry}
    → plan_entry type b m ≡ ok p
    → IsBalanced b p
plan_entry-IsBalanced type b m h =
    let (e, _, q) = plan_entry-eq_ok type b m h in plan_effect-IsBalanced type b e q
