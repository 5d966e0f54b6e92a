-- ===== src/Money/RoundTrip.antt =====
-- What `fromCents` prints, `toCents` reads back.
use api_score.Base.{ℕ, suc, ◌+◌, ◌*◌, ◌/◌, ◌%◌, ◌≤◌, ◌≡◌, refl, ◌∙◌, ap, true, [], ◌∷◌, some, arith}
use api_score.Base.Int.{ℤ, pos, negsuc, abs}
use api_score.Base.Tx.{ok}
use api_score.Money.{
  Text, max_safe_integer, span_digits, value_from, fraction_cents, decimal, combined,
  unsigned_cents, unsigned_text, parse_signed, to_cents, from_cents,
}
use api_score.Money.Digits.{
  value_from-decimal, span_digits-decimal, decimal_first, no_space, trim-no_space, no_space-decimal,
  pad_two-decimal,
}

-- The two digits behind the point.
abbrev hundredths : ℕ → Text
hundredths n = b'.' ∷ (b'0' + n % 100 / 10) ∷ (b'0' + n % 100 % 10) ∷ []

unsigned_text_lem : (n : ℕ) → unsigned_text n ≡ decimal (suc (n / 100)) (n / 100) (hundredths n)
unfolding unsigned_text
unsigned_text_lem n = rw (pad_two-decimal (n % 100) (omega arith))

fraction_cents-hundredths : (n : ℕ) → fraction_cents (hundredths n) ≡ some (n % 100)
unfolding fraction_cents
fraction_cents-hundredths n = ground arith

span_digits-unsigned_text :
    (n : ℕ) → span_digits (unsigned_text n) ≡ (decimal (suc (n / 100)) (n / 100) [], hundredths n)
unfolding span_digits
span_digits-unsigned_text n =
    rw unsigned_text_lem
      (span_digits-decimal (suc (n / 100)) (n / 100) (hundredths n) [] (hundredths n) refl)

combined_lem :
    (t units rest : Text) (f : ℕ)
    → span_digits t ≡ (units, rest)
    → fraction_cents rest ≡ some f
    → combined t ≡ some (value_from 0 units * 100 + f)
unfolding combined
combined_lem t units rest f h k = ground arith

value_from_nil : (n : ℕ) → value_from (n / 100) [] * 100 + n % 100 ≡ n
unfolding value_from
value_from_nil n = omega arith

combined-unsigned_text : (n : ℕ) → combined (unsigned_text n) ≡ some n
combined-unsigned_text n =
    combined_lem (unsigned_text n) (decimal (suc (n / 100)) (n / 100) []) (hundredths n) (n % 100)
      (span_digits-unsigned_text n) (fraction_cents-hundredths n)
    ∙ ap some (
        ap (λ (v : ℕ). v * 100 + n % 100)
          (value_from-decimal (suc (n / 100)) (n / 100) [] (omega arith))
        ∙ value_from_nil n)

unsigned_cents-unsigned_text : (n : ℕ) → unsigned_cents (unsigned_text n) ≡ some n
unfolding unsigned_cents
unsigned_cents-unsigned_text n =
    let (d, cs, e, p) = decimal_first (suc (n / 100)) (n / 100) [] (omega arith) in
    rw (span_digits-unsigned_text n, e) (combined-unsigned_text n)

no_space-unsigned_text : (n : ℕ) → no_space (unsigned_text n) ≡ true
no_space-unsigned_text n =
    rw unsigned_text_lem (no_space-decimal (suc (n / 100)) (n / 100) (hundredths n) (ground arith))

parse_signed-unsigned_text :
    (n : ℕ) → n ≤ max_safe_integer → parse_signed (unsigned_text n) ≡ ok (pos n)
unfolding parse_signed
parse_signed-unsigned_text n h =
    let (d, cs, e, p) = decimal_first (suc (n / 100)) (n / 100) (hundredths n) (omega arith) in
    let text_eq : unsigned_text n ≡ d ∷ cs = unsigned_text_lem n ∙ e in
    let read : unsigned_cents (d ∷ cs) ≡ some n = rw text_eq at (unsigned_cents-unsigned_text n) in
    rw text_eq (ground arith)

parse_signed-minus :
    (n : ℕ) → suc n ≤ max_safe_integer → parse_signed (b'-' ∷ unsigned_text (suc n)) ≡ ok (negsuc n)
unfolding parse_signed
parse_signed-minus n h = rw (unsigned_cents-unsigned_text (suc n)) (ground arith)

to_cents_lem : (t : Text) → no_space t ≡ true → to_cents t ≡ parse_signed t
unfolding to_cents
to_cents_lem t h = ap parse_signed (trim-no_space t h)

-- A safe amount in cents is printed, and the text is read back as the same amount.
pub to_cents-from_cents :
    (cents : ℤ)
    → abs cents ≤ max_safe_integer
    → (t : Text) × (from_cents cents ≡ ok t) × (to_cents t ≡ ok cents)
unfolding from_cents
to_cents-from_cents (pos n) h = (
  unsigned_text n,
  ground arith,
  to_cents_lem (unsigned_text n) (no_space-unsigned_text n)
      ∙ parse_signed-unsigned_text n (omega arith),
)
to_cents-from_cents (negsuc n) h = (
  b'-' ∷ unsigned_text (suc n),
  ground arith,
  to_cents_lem (b'-' ∷ unsigned_text (suc n)) (no_space-unsigned_text (suc n))
      ∙ parse_signed-minus n (omega arith),
)
