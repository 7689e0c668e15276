-- ===== src/Validation/Risk/Monotone.antt =====
-- services/validation-engine/src/layers/07-risk: a detection with less behind it scores no lower.
use airport_inspection_platf.Prelude.{
  All, Bool-cases, Option, Option-cases, String, [], false, if_false, if_true, inl, inr, refl,
  subst, sym, true, truthy, ℕ, ◌==◌, ◌∷◌, ◌≡◌, ◌≤◌,
}
use airport_inspection_platf.Validation.Risk.{
  Doubles, ExtractedPayload, RiskFactors, clamp, clamp01, combine, compute_factors,
  compute_freshness, first_of, one_num, severity_weight_of, zero_num,
}

abbrev pub IsUnit : (D : Doubles) → D.Num → Type 0
IsUnit D x = (D.le (zero_num D) x ≡ true) × (D.le x (one_num D) ≡ true)

-- What IEEE 754 says of the operations, for the numbers that the score meets: the order is total but for NaN, and rounding is monotone.
pub record IsIeee (D : Doubles) : Type 0 where
  pub le_trans : (x y z : D.Num) → D.le x y ≡ true → D.le y z ≡ true → D.le x z ≡ true
  pub le_total :
      (x y : D.Num) → D.is_nan x ≡ false → D.is_nan y ≡ false → D.le x y ≡ false → D.le y x ≡ true
  pub le_left : (x y : D.Num) → D.le x y ≡ true → D.is_nan x ≡ false
  pub le_right : (x y : D.Num) → D.le x y ≡ true → D.is_nan y ≡ false
  pub zero_le_one : D.le (zero_num D) (one_num D) ≡ true
  pub weights : All (λ t. IsUnit D (D.of_text t)) ("0.2" ∷ "0.3" ∷ [])
  pub add_mono :
      (a b c d : D.Num)
      → D.le (zero_num D) a ≡ true
      → D.le a b ≡ true
      → D.le (zero_num D) c ≡ true
      → D.le c d ≡ true
      → D.le (D.add a c) (D.add b d) ≡ true
  pub add_nonneg :
      (a c : D.Num)
      → D.le (zero_num D) a ≡ true
      → D.le (zero_num D) c ≡ true
      → D.le (zero_num D) (D.add a c) ≡ true
  pub mul_mono :
      (a b c : D.Num)
      → IsUnit D a
      → IsUnit D b
      → IsUnit D c
      → D.le a b ≡ true
      → D.le (D.mul a c) (D.mul b c) ≡ true
  pub mul_nonneg : (a c : D.Num) → IsUnit D a → IsUnit D c → D.le (zero_num D) (D.mul a c) ≡ true
  pub one_sub_mono :
      (a b : D.Num) → D.le a b ≡ true → D.le (D.sub (one_num D) b) (D.sub (one_num D) a) ≡ true
  pub fifths_mono :
      (m n : ℕ)
      → m ≤ n
      → D.le (D.div (D.of_nat m) (D.of_nat 5)) (D.div (D.of_nat n) (D.of_nat 5)) ≡ true

module _ (D : Doubles) (laws : IsIeee D) where
  open D use {Num, nan, of_text, is_nan, le, add, mul}

  zero_real : is_nan (zero_num D) ≡ false
  zero_real = laws.le_left _ _ laws.zero_le_one

  one_real : is_nan (one_num D) ≡ false
  one_real = laws.le_right _ _ laws.zero_le_one

  le_refl : (x : Num) → is_nan x ≡ false → le x x ≡ true
  le_refl x n = elim (Bool-cases (le x x)) [ inl h ↦ h | inr h ↦ laws.le_total x x n n h ]

  -- A number that is not NaN is clamped to a number from 0 to 1.
  clamp-IsUnit : (x : Num) → is_nan x ≡ false → IsUnit D (clamp D x)
  unfolding clamp
  clamp-IsUnit x n = rw n (elim (Bool-cases (le (one_num D) x)) [
    | inl over ↦ rw over (laws.zero_le_one, le_refl (one_num D) one_real)
    | inr below ↦ rw below (elim (Bool-cases (le x (zero_num D))) [
      | inl under ↦ rw under (le_refl (zero_num D) zero_real, laws.zero_le_one)
      | inr above ↦ rw above (
        laws.le_total x (zero_num D) n zero_real above,
        laws.le_total (one_num D) x one_real n below,
      )
    ])
  ])

  clamp_over : (x : Num) → is_nan x ≡ false → le (one_num D) x ≡ true → clamp D x ≡ one_num D
  unfolding clamp
  clamp_over x n h = rw (n, h) refl

  clamp_under :
      (x : Num)
      → is_nan x ≡ false
      → le (one_num D) x ≡ false
      → le x (zero_num D) ≡ true
      → clamp D x ≡ zero_num D
  unfolding clamp
  clamp_under x n h k = rw (n, h, k) refl

  clamp_within :
      (x : Num)
      → is_nan x ≡ false
      → le (one_num D) x ≡ false
      → le x (zero_num D) ≡ false
      → clamp D x ≡ x
  unfolding clamp
  clamp_within x n h k = rw (n, h, k) refl

  clamp_mono : (x y : Num) → le x y ≡ true → le (clamp D x) (clamp D y) ≡ true
  clamp_mono x y h =
      let n = laws.le_left x y h in
      let m = laws.le_right x y h in
      elim (Bool-cases (le (one_num D) y)) [
        | inl over ↦ rw (clamp_over y m over) (clamp-IsUnit x n).1
        | inr below ↦ elim (Bool-cases (le (one_num D) x)) [
          | inl x_over ↦ absurd (cc (laws.le_trans (one_num D) x y x_over h))
          | inr x_below ↦ elim (Bool-cases (le x (zero_num D))) [
            | inl under ↦ rw (clamp_under x n x_below under) (clamp-IsUnit y m).0
            | inr above ↦ elim (Bool-cases (le y (zero_num D))) [
              | inl y_under ↦ absurd (cc (laws.le_trans x y (zero_num D) h y_under))
              | inr y_above ↦ rw (clamp_within x n x_below above, clamp_within y m below y_above) h
            ]
          ]
        ]
      ]

  clamp01-clamp : (x : Num) → is_nan x ≡ false → clamp01 D x ≡ clamp D x
  unfolding clamp01
  clamp01-clamp x n = if_false _ _ _ n

  clamp01_mono : (x y : Num) → le x y ≡ true → le (clamp01 D x) (clamp01 D y) ≡ true
  clamp01_mono x y h =
      rw (clamp01-clamp x (laws.le_left x y h), clamp01-clamp y (laws.le_right x y h))
        (clamp_mono x y h)

  zero-IsUnit : IsUnit D (zero_num D)
  zero-IsUnit = (le_refl (zero_num D) zero_real, laws.zero_le_one)

  clamp01_nan : (x : Num) → is_nan x ≡ true → clamp01 D x ≡ zero_num D
  unfolding clamp01
  clamp01_nan x n = if_true _ _ _ n

  clamp01-IsUnit : (x : Num) → IsUnit D (clamp01 D x)
  clamp01-IsUnit x = elim (Bool-cases (is_nan x)) [
    | inl n ↦ subst (IsUnit D) (sym (clamp01_nan x n)) zero-IsUnit
    | inr n ↦ subst (IsUnit D) (sym (clamp01-clamp x n)) (clamp-IsUnit x n)
  ]

  -- Each factor is from 0 to 1.
  pub record IsScaled (f : RiskFactors D) : Type 0 where
    pub gap : IsUnit D f.confidence_gap
    pub fresh : IsUnit D f.freshness
    pub severity : IsUnit D f.severity_weight
    pub density : IsUnit D f.prior_failure_density

  -- Each factor of the first is at most that of the second.
  pub record IsBelow (f g : RiskFactors D) : Type 0 where
    pub gap : le f.confidence_gap g.confidence_gap ≡ true
    pub fresh : le f.freshness g.freshness ≡ true
    pub severity : le f.severity_weight g.severity_weight ≡ true
    pub density : le f.prior_failure_density g.prior_failure_density ≡ true

  combine_mono :
      (f g : RiskFactors D)
      → IsScaled f
      → IsScaled g
      → IsBelow f g
      → le (combine D f) (combine D g) ≡ true
  unfolding combine
  combine_mono f g s t b =
      let fifth = laws.weights.0 in
      let third = laws.weights.1.0 in
      let g₁ = laws.mul_nonneg f.confidence_gap (of_text "0.3") s.gap third in
      let f₁ = laws.mul_nonneg f.freshness (of_text "0.2") s.fresh fifth in
      let s₁ = laws.mul_nonneg f.severity_weight (of_text "0.3") s.severity third in
      let d₁ = laws.mul_nonneg f.prior_failure_density (of_text "0.2") s.density fifth in
      let gf = laws.add_nonneg _ _ g₁ f₁ in
      clamp_mono _ _ (
        laws.add_mono _ _ _ _ (laws.add_nonneg _ _ gf s₁)
          (laws.add_mono _ _ _ _ gf
            (laws.add_mono _ _ _ _ g₁ (laws.mul_mono _ _ _ s.gap t.gap third b.gap) f₁
              (laws.mul_mono _ _ _ s.fresh t.fresh fifth b.fresh))
            s₁ (laws.mul_mono _ _ _ s.severity t.severity third b.severity))
          d₁ (laws.mul_mono _ _ _ s.density t.density fifth b.density))

  combine-IsUnit : (f : RiskFactors D) → IsScaled f → IsUnit D (combine D f)
  unfolding combine
  combine-IsUnit f s =
      let fifth = laws.weights.0 in
      let third = laws.weights.1.0 in
      clamp-IsUnit _ (
        laws.le_right _ _ (
          laws.add_nonneg _ _
            (laws.add_nonneg _ _
              (laws.add_nonneg _ _ (laws.mul_nonneg f.confidence_gap (of_text "0.3") s.gap third)
                (laws.mul_nonneg f.freshness (of_text "0.2") s.fresh fifth))
              (laws.mul_nonneg f.severity_weight (of_text "0.3") s.severity third))
            (laws.mul_nonneg f.prior_failure_density (of_text "0.2") s.density fifth)))

  module _ (date_parse : String → Option ℕ) where
    freshness-IsUnit :
        (timestamp : Option String) (now span : ℕ)
        → IsUnit D (compute_freshness D date_parse timestamp now span)
    unfolding compute_freshness
    freshness-IsUnit timestamp now span = elim (Option-cases (truthy timestamp)) [
      | inl e ↦ rw (e, compute_freshness) zero-IsUnit
      | inr (text, e) ↦ elim (Option-cases (date_parse text)) [
        | inl k ↦ rw (e, compute_freshness) (rw k zero-IsUnit)
        | inr (t, k) ↦ rw (e, compute_freshness) (rw k (clamp01-IsUnit _))
      ]
    ]

    module _ (timestamp : Option String) (p : ExtractedPayload) (total now span : ℕ) where
      abbrev pub factors : String → ℕ → RiskFactors D
      factors confidence failures =
          compute_factors D date_parse timestamp (record p { confidence = confidence }) total
            failures now span

      density-IsUnit :
          (confidence : String) (failures : ℕ)
          → IsUnit D (factors confidence failures).prior_failure_density
      unfolding compute_factors
      density-IsUnit confidence failures = elim (Bool-cases (total == 0)) [
        | inl e ↦ subst (IsUnit D) (sym (if_true _ _ _ e)) zero-IsUnit
        | inr e ↦ subst (IsUnit D) (sym (if_false _ _ _ e)) (clamp01-IsUnit _)
      ]

      density_mono :
          (c d : String) (m n : ℕ)
          → m ≤ n
          → le (factors d m).prior_failure_density (factors c n).prior_failure_density ≡ true
      unfolding compute_factors
      density_mono c d m n h = elim (Bool-cases (total == 0)) [
        | inl e ↦ rw e zero-IsUnit.0
        | inr e ↦ rw e (clamp01_mono _ _ (laws.fifths_mono m n h))
      ]

      factors-IsScaled :
          (confidence : String) (failures : ℕ)
          → IsUnit D (severity_weight_of D p.severity_hint)
          → IsScaled (factors confidence failures)
      unfolding compute_factors
      factors-IsScaled confidence failures h = record {
        gap = clamp01-IsUnit _;
        fresh = freshness-IsUnit (first_of p.captured_at timestamp) now span;
        severity = h;
        density = density-IsUnit confidence failures;
      }

      -- Of two detections that are alike but for their confidence, and whose severity is one of the five, the less confident one scores at least as high, also if more layers before have failed; and both scores are from 0 to 1. This rests on IEEE 754: rounding is monotone.
      pub risk_monotone :
          (c d : String) (m n : ℕ)
          → IsUnit D (severity_weight_of D p.severity_hint)
          → le (of_text c) (of_text d) ≡ true
          → m ≤ n
          → (le (combine D (factors d m)) (combine D (factors c n)) ≡ true)
            × IsUnit D (combine D (factors d m))
            × IsUnit D (combine D (factors c n))
      unfolding compute_factors
      risk_monotone c d m n h sure few =
          let below : IsBelow (factors d m) (factors c n) = record {
            gap = clamp01_mono _ _ (laws.one_sub_mono _ _ sure);
            fresh = le_refl _ (
                laws.le_right _ _ (freshness-IsUnit (first_of p.captured_at timestamp) now span).0);
            severity = le_refl _ (laws.le_right _ _ h.0);
            density = density_mono c d m n few;
          } in
          (
            combine_mono (factors d m) (factors c n) (factors-IsScaled d m h)
                (factors-IsScaled c n h) below,
            combine-IsUnit (factors d m) (factors-IsScaled d m h),
            combine-IsUnit (factors c n) (factors-IsScaled c n h),
          )
