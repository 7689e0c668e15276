-- ===== src/Validation/Risk/Tests.antt =====
-- The score of a detection in hundredths, and the theorem at an input that meets its hypotheses.
use native.Mathlib.Nat.{mul-le-mul_left, mul_comm}
use airport_inspection_platf.Prelude.{
  String, arith, false, leb, none, refl, some, true, ℕ, ◌*◌, ◌+◌, ◌-◌, ◌/◌, ◌≡◌, ◌≤◌,
}
use airport_inspection_platf.Prelude.Decimals.{decimal}
use airport_inspection_platf.Validation.Risk.{
  Doubles, ExtractedPayload, combine, severity_weight_of,
}
use airport_inspection_platf.Validation.Risk.Monotone.{IsIeee, IsUnit, factors, risk_monotone}

abbrev hundredths : Doubles
hundredths = record {
  Num = ℕ;
  nan = 0;
  of_text = λ t. (decimal t).numerator * 100 / (decimal t).denominator;
  of_nat = λ n. n * 100;
  is_nan = λ n. false;
  le = leb;
  add = λ a b. a + b;
  sub = λ a b. a - b;
  mul = λ a b. a * b / 100;
  div = λ a b. a * 100 / b;
  to_fixed_3 = λ n. "";
  print = λ n. "";
}

leb_le : (a b : ℕ) → leb a b ≡ true → a ≤ b
leb_le a b h = ground arith

le_leb : (a b : ℕ) → a ≤ b → leb a b ≡ true
le_leb a b h = ground arith

scaled_mono : (a b c : ℕ) → leb a b ≡ true → leb (a * c / 100) (b * c / 100) ≡ true
scaled_mono a b c h =
    let le : c * a ≤ c * b = mul-le-mul_left c (leb_le a b h) in
    let e : c * a ≡ a * c = mul_comm c a in
    let f : c * b ≡ b * c = mul_comm c b in le_leb _ _ (omega arith)

hundredths-IsIeee : IsIeee hundredths
unfolding decimal
hundredths-IsIeee = record {
  le_trans = λ x y z h k. ground arith;
  le_total = λ x y n m h. ground arith;
  le_left = λ x y h. refl;
  le_right = λ x y h. refl;
  zero_le_one = refl;
  weights = ((refl, refl), ((refl, refl), tt));
  add_mono = λ a b c d h k i j. ground arith;
  add_nonneg = λ a c h k. ground arith;
  mul_mono = λ a b c u v w h. scaled_mono a b c h;
  mul_nonneg = λ a c u v. ground arith;
  one_sub_mono = λ a b h. ground arith;
  fifths_mono = λ m n h. ground arith;
}

abbrev unsure : ExtractedPayload
unsure = record { confidence = "0.42"; severity_hint = some "high"; captured_at = none }

abbrev score : String → ℕ → ℕ
score confidence failures =
    combine hundredths (
      factors hundredths hundredths-IsIeee (λ t. some 0) none unsure 6 0 3600000 confidence
        failures)

risk_monotone_example :
    (leb (score "0.9" 0) (score "0.42" 2) ≡ true)
    × IsUnit hundredths (score "0.9" 0)
    × IsUnit hundredths (score "0.42" 2)
unfolding severity_weight_of decimal
risk_monotone_example =
    risk_monotone hundredths hundredths-IsIeee (λ t. some 0) none unsure 6 0 3600000 "0.42" "0.9" 0
      2 (refl, refl) refl (omega arith)
