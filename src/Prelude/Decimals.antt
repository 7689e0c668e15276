-- ===== src/Prelude/Decimals.antt =====
-- The numbers that JavaScript prints, compared by their texts: a double is printed by the decimal
-- closest to it, so that two doubles compare as their texts do.
use Prim.Native.Char.{Char, code}
use Prim.Native.Nat.{ℕ, ◌+◌, ◌-◌, ◌*◌, ◌^◌}
use Prim.Native.String.{String}
use mathlib.Core.Path.{refl, ◌≡◌}
use mathlib.Core.Bool.{Bool, false, not, true, ◌&&◌, ◌||◌}
use airport_inspection_platf.Prelude.Tests.{if◌then◌else◌, leb, ltb, str_eq, ◌==◌}

-- `numerator / denominator` with a sign
pub record Decimal : Type 0 where
  pub negative : Bool
  pub numerator : ℕ
  pub denominator : ℕ

pub data Mark : Type 0 where
  point exponent minus plus other : Mark
  digit : ℕ → Mark

mark_of : Char → Mark
mark_of c =
    if code c == b'.'
    then point
    else if code c == b'e'
    then exponent
    else if code c == b'-'
    then minus
    else if code c == b'+'
    then plus
    else if leb b'0' (code c) && leb (code c) b'9'
    then digit (code c - b'0')
    else other

-- The digits after `e`, as a power of ten.
power : ℕ → String → ℕ
power n String.[] = 10 ^ n
power n (String.◌∷◌ c s) = elim (mark_of c) [ digit d ↦ power (n * 10 + d) s | _ ↦ power n s ]

with_exponent : Bool → ℕ → ℕ → String → Decimal
with_exponent negative n d String.[] = record {
  negative = negative;
  numerator = n;
  denominator = d;
}
with_exponent negative n d (String.◌∷◌ c s) = elim (mark_of c) [
  | minus ↦ record { negative = negative; numerator = n; denominator = d * power 0 s }
  | _ ↦ record { negative = negative; numerator = n * power 0 s; denominator = d }
]

-- `fraction` says whether the point has been read.
mantissa : Bool → Bool → ℕ → ℕ → String → Decimal
mantissa negative fraction n d String.[] = record {
  negative = negative;
  numerator = n;
  denominator = d;
}
mantissa negative fraction n d (String.◌∷◌ c s) = elim (mark_of c) [
  | point ↦ mantissa negative true n d s
  | exponent ↦ with_exponent negative n d s
  | minus ↦ mantissa true fraction n d s
  | digit k ↦ mantissa negative fraction (n * 10 + k) (if fraction then d * 10 else d) s
  | _ ↦ mantissa negative fraction n d s
]

unfoldable pub decimal : String → Decimal
unfolding mantissa with_exponent power mark_of
decimal s = mantissa false false 0 1 s

-- `Number.isFinite`
abbrev pub is_finite : String → Bool
is_finite s = not (str_eq s "Infinity") && (not (str_eq s "-Infinity") && not (str_eq s "NaN"))

abbrev below : Decimal → Decimal → Bool
below x y =
    if x.negative
    then if y.negative
      then ltb (y.numerator * x.denominator) (x.numerator * y.denominator)
      else true
    else if y.negative
    then false
    else ltb (x.numerator * y.denominator) (y.numerator * x.denominator)

-- `a < b` of two numbers, of which none is NaN
unfoldable pub less : String → String → Bool
unfolding decimal below
less a b =
    if str_eq a b
    then false
    else if str_eq a "-Infinity" || str_eq b "Infinity"
    then true
    else if str_eq a "Infinity" || str_eq b "-Infinity"
    then false
    else below (decimal a) (decimal b)

fraction_below : less "2.5" "12" ≡ true
unfolding less
fraction_below = refl

small_below : less "-1e+21" "1.5e-7" ≡ true
unfolding less
small_below = refl
