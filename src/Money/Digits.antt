-- ===== src/Money/Digits.antt =====
-- Digits printed by `decimal` are read back by `span_digits` and `value_from`.
use api_score.Base.{
  ℕ, zero, suc, ◌+◌, ◌/◌, ◌%◌, ◌<◌, ◌≡◌, refl, Bool, true, false, ◌&&◌, [], ◌∷◌, arith, ltb, not,
  Bool-cases, inl, inr,
}
use api_score.Money.{
  Text, trim_start, trim_end, is_digit, is_space, trim, span_digits, value_from, decimal, pad_two,
}

-- Read from zero, the digits of `n` give `n`.
pub value_from-decimal :
    (f n : ℕ) (rest : Text) → n < f → value_from 0 (decimal f n rest) ≡ value_from n rest
unfolding value_from decimal
value_from-decimal zero n rest h = elim h [ ]
value_from-decimal (suc f) n rest h =
    ground (arith, value_from-decimal f (n / 10) ((b'0' + n % 10) ∷ rest))

-- Digits in front of a text are split off together with the digits that the text begins with.
pub span_digits-decimal :
    (f n : ℕ) (rest a r : Text)
    → span_digits rest ≡ (a, r)
    → span_digits (decimal f n rest) ≡ (decimal f n a, r)
unfolding span_digits decimal
span_digits-decimal zero n rest a r h = h
span_digits-decimal (suc f) n rest a r h =
    ground (arith, span_digits-decimal f (n / 10) ((b'0' + n % 10) ∷ rest) ((b'0' + n % 10) ∷ a) r)

-- A number with enough fuel has a first digit.
pub decimal_first :
    (f n : ℕ) (rest : Text)
    → n < f
    → (d : ℕ) × (cs : Text) × (decimal f n rest ≡ d ∷ cs) × (is_digit d ≡ true)
unfolding decimal
decimal_first zero n rest h = elim h [ ]
decimal_first (suc f) n rest h = elim (Bool-cases (ltb n 10)) [
  | inl small ↦ (b'0' + n, rest, rw small, ground arith)
  | inr large ↦
      let (d, cs, e, p) = decimal_first f (n / 10) ((b'0' + n % 10) ∷ rest) (ground arith) in
      (d, cs, rw large e, p)
]

-- No white space: `trim` has nothing to take off.
abbrev pub no_space : Text → Bool
no_space [] = true
no_space (c ∷ cs) = not (is_space c) && no_space cs

trim_end-no_space : (t : Text) → no_space t ≡ true → trim_end t ≡ t
unfolding trim_end
trim_end-no_space [] h = refl
trim_end-no_space (c ∷ cs) h = ground (arith, trim_end-no_space cs)

pub trim-no_space : (t : Text) → no_space t ≡ true → trim t ≡ t
unfolding trim trim_start
trim-no_space [] h = trim_end-no_space [] h
trim-no_space (c ∷ cs) h = elim (Bool-cases (is_space c)) [
  | inl s ↦ absurd (ground arith)
  | inr s ↦ rw s (trim_end-no_space (c ∷ cs) h)
]

is_space_digit : (c : ℕ) → is_digit c ≡ true → is_space c ≡ false
is_space_digit c h = ground arith

pub no_space-decimal :
    (f n : ℕ) (rest : Text) → no_space rest ≡ true → no_space (decimal f n rest) ≡ true
unfolding decimal
no_space-decimal zero n rest h = h
no_space-decimal (suc f) n rest h = ground (
  arith,
  no_space-decimal f (n / 10) ((b'0' + n % 10) ∷ rest),
  is_space_digit (b'0' + n % 10),
  is_space_digit (b'0' + n),
)

-- The hundredths below 100, padded, are two digits.
pub pad_two-decimal :
    (n : ℕ) → n < 100 → pad_two (decimal (suc n) n []) ≡ (b'0' + n / 10) ∷ (b'0' + n % 10) ∷ []
unfolding decimal
pad_two-decimal zero h = refl
pad_two-decimal (suc n) h = ground arith
