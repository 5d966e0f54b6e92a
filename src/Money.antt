-- ===== src/Money.antt =====
-- Exact decimal amounts: `toCents` and `fromCents` of backend/src/execution/execution.types.ts.
-- A text is the list of its character codes.
pub mod Digits
pub mod RoundTrip
pub mod Safe
use Prim.Native.Nat.{pred}
use api_score.Base.{
  ℕ, zero, suc, ◌+◌, ◌-◌, ◌*◌, ◌/◌, ◌%◌, Bool, true, false, ◌&&◌, ◌||◌, Option, none, some, List,
  [], ◌∷◌, ltb, leb, ◌==◌, if◌then◌else◌,
}
use api_score.Base.Int.{ℤ, pos, negsuc, neg, abs}
use api_score.Base.Tx.{Result, ok, err, other}

abbrev pub Text : Type 0
Text = List ℕ

-- `Number.MAX_SAFE_INTEGER`
abbrev pub max_safe_integer : ℕ
max_safe_integer = 9007199254740991

-- `Number.isSafeInteger`
abbrev pub is_safe_integer : ℤ → Bool
is_safe_integer z = leb (abs z) max_safe_integer

abbrev pub is_digit : ℕ → Bool
is_digit c = leb b'0' c && leb c b'9'

-- The white space and line ends that `String.prototype.trim` takes off.
abbrev pub is_space : ℕ → Bool
is_space c =
    (leb 9 c && leb c 13)
    || c == 32
    || c == 160
    || c == 0x1680
    || (leb 0x2000 c && leb c 0x200a)
    || c == 0x2028
    || c == 0x2029
    || c == 0x202f
    || c == 0x205f
    || c == 0x3000
    || c == 0xfeff

abbrev pub all_space : Text → Bool
all_space [] = true
all_space (c ∷ cs) = is_space c && all_space cs

trim_start : Text → Text
trim_start [] = []
trim_start (c ∷ cs) = if is_space c then trim_start cs else c ∷ cs

trim_end : Text → Text
trim_end [] = []
trim_end (c ∷ cs) = if is_space c && all_space cs then [] else c ∷ trim_end cs

unfoldable pub trim : Text → Text
unfolding trim_start trim_end
trim t = trim_end (trim_start t)

-- `\d+`, or `\d*`, as far as it goes, and what follows.
unfoldable pub span_digits : Text → Text × Text
span_digits [] = ([], [])
span_digits (c ∷ cs) =
    if is_digit c then (c ∷ (span_digits cs).0, (span_digits cs).1) else ([], c ∷ cs)

-- `Number` on digits, continued from `v`.
pub value_from : ℕ → Text → ℕ
value_from v [] = v
value_from v (c ∷ cs) = value_from (v * 10 + (c - b'0')) cs

-- `(?:\.(\d{1,2}))?$`: the hundredths, after `padEnd(2, '0')`.
pub fraction_cents : Text → Option ℕ
fraction_cents [] = some 0
fraction_cents (p ∷ []) = none
fraction_cents (p ∷ a ∷ []) = if p == b'.' && is_digit a then some ((a - b'0') * 10) else none
fraction_cents (p ∷ a ∷ b ∷ []) =
    if p == b'.' && is_digit a && is_digit b then some ((a - b'0') * 10 + (b - b'0')) else none
fraction_cents (p ∷ a ∷ b ∷ c ∷ cs) = none

abbrev has_any : Text → Bool
has_any [] = false
has_any (_ ∷ _) = true

-- `Number(units) * 100 + Number(fraction.padEnd(2, '0'))`
combined : Text → Option ℕ
unfolding span_digits value_from fraction_cents
combined t =
    let (units, rest) = span_digits t in
    elim (fraction_cents rest) [ none ↦ none | some f ↦ some (value_from 0 units * 100 + f) ]

-- The match of DECIMAL_PATTERN behind its sign, as a number of hundredths.
pub unsigned_cents : Text → Option ℕ
unfolding combined
unsigned_cents t = if has_any (span_digits t).0 then combined t else none

-- The range check at the end of `toCents`, and the sign.
abbrev pub signed_cents : Bool → Option ℕ → Result ℤ
signed_cents minus none = err other
signed_cents minus (some n) =
    if leb n max_safe_integer then ok (if minus then neg (pos n) else pos n) else err other

pub parse_signed : Text → Result ℤ
unfolding unsigned_cents neg
parse_signed [] = err other
parse_signed (c ∷ cs) =
    if c == b'-'
    then signed_cents true (unsigned_cents cs)
    else signed_cents false (unsigned_cents (c ∷ cs))

-- `toCents`
unfoldable pub to_cents : Text → Result ℤ
unfolding parse_signed trim
to_cents value = parse_signed (trim value)

-- `String(n)` in front of `rest`; fuel above `n` is enough.
pub decimal : ℕ → ℕ → Text → Text
decimal zero n rest = rest
decimal (suc f) n rest =
    let more = decimal f (n / 10) ((b'0' + n % 10) ∷ rest) in
    if ltb n 10 then (b'0' + n) ∷ rest else more

-- `padStart(2, '0')`
abbrev pub pad_two : Text → Text
pad_two [] = b'0' ∷ b'0' ∷ []
pad_two (c ∷ []) = b'0' ∷ c ∷ []
pad_two (c ∷ d ∷ cs) = c ∷ d ∷ cs

-- `${units}.${fraction}`
pub unsigned_text : ℕ → Text
unfolding decimal
unsigned_text n =
    decimal (suc (n / 100)) (n / 100) (b'.' ∷ pad_two (decimal (suc (n % 100)) (n % 100) []))

-- `fromCents`
unfoldable pub from_cents : ℤ → Result Text
unfolding unsigned_text
from_cents cents =
    if is_safe_integer cents
    then ok (elim cents [ pos n ↦ unsigned_text n | negsuc n ↦ b'-' ∷ unsigned_text (suc n) ])
    else err other
