-- ===== src/Money/Safe.antt =====
-- `toCents` gives safe integers only.
use api_score.Base.{
  ℕ, ◌≤◌, ◌≡◌, inl, inr, Bool, true, false, Option, none, some, [], ◌∷◌, arith, ◌==◌, Bool-cases,
}
use api_score.Base.Int.{ℤ, abs, neg}
use api_score.Base.Tx.{ok}
use api_score.Money.{
  Text, max_safe_integer, signed_cents, unsigned_cents, parse_signed, trim, to_cents,
}

signed_cents-safe :
    (minus : Bool) (n : Option ℕ) (c : ℤ) → signed_cents minus n ≡ ok c → abs c ≤ max_safe_integer
unfolding neg
signed_cents-safe minus none c h = cc
signed_cents-safe true (some n) c h = ground arith
signed_cents-safe false (some n) c h = ground arith

parse_signed-safe : (t : Text) (c : ℤ) → parse_signed t ≡ ok c → abs c ≤ max_safe_integer
unfolding parse_signed
parse_signed-safe [] c h = cc
parse_signed-safe (x ∷ xs) c h = elim (Bool-cases (x == b'-')) [
  | inl t ↦ signed_cents-safe true (unsigned_cents xs) c (rw t at h)
  | inr n ↦ signed_cents-safe false (unsigned_cents (x ∷ xs)) c (rw n at h)
]

pub to_cents-safe : (t : Text) (c : ℤ) → to_cents t ≡ ok c → abs c ≤ max_safe_integer
unfolding to_cents
to_cents-safe t c h = parse_signed-safe (trim t) c h
