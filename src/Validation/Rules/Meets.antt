-- ===== src/Validation/Rules/Meets.antt =====
-- services/validation-engine/src/layers/03-business-rules: what the operating procedures ask of a detection.
use airport_inspection_platf.Prelude.{
  Bool-cases, String, arith, eq_iff, false, if_false, inl, inr, refl, some, str_eq_ne, subst, sym,
  true, ◌↔◌, ◌∙◌, ◌≡◌, ◌≢◌, ◌⊎◌,
}
use airport_inspection_platf.Prelude.Decimals.{less}
use airport_inspection_platf.Validation.Rules.Thresholds.{
  LocationCategory, SeverityBands, SopThresholds, apron, crack_severity_for, rank, runway_active,
  runway_inactive, severity_at_least, taxiway,
}
use airport_inspection_platf.Validation.Rules.{
  DetectionPayload, is_one_of, location_category, metadata_of, min_setback, number_or, string_or,
}

abbrev pub category_text : LocationCategory → String
category_text runway_active = "runway_active"
category_text runway_inactive = "runway_inactive"
category_text taxiway = "taxiway"
category_text apron = "apron"

-- A field that is absent, or has another type, asks for nothing.
pub record MeetsFod (sop : SopThresholds) (d : DetectionPayload) : Type 0 where
  pub dimension :
      (dim : String)
      → number_or "object_dimension_cm" (metadata_of d) ≡ some dim
      → less dim sop.min_object_dimension_cm ≡ false
  pub location :
      (loc : String)
      → string_or "location_category" (metadata_of d) ≡ some loc
      → (l : LocationCategory) → loc ≡ category_text l
      → d.severity_hint ≡ sop.location_severity l

-- The severity of a width: low up to the first bound, medium up to the second, high up to the third, and
-- critical above.
pub record IsBand (bands : SeverityBands) (width severity : String) : Type 0 where
  pub low : less bands.low width ≡ false → severity ≡ "low"
  pub medium : less bands.low width ≡ true → less bands.medium width ≡ false → severity ≡ "medium"
  pub high :
      less bands.low width ≡ true
      → less bands.medium width ≡ true
      → less bands.high width ≡ false
      → severity ≡ "high"
  pub critical :
      less bands.low width ≡ true
      → less bands.medium width ≡ true
      → less bands.high width ≡ true
      → severity ≡ "critical"

pub record MeetsCrack (sop : SopThresholds) (d : DetectionPayload) : Type 0 where
  pub band :
      (width : String)
      → number_or "crack_width_mm" (metadata_of d) ≡ some width
      → IsBand sop.severity_bands_mm width d.severity_hint

pub record MeetsSnowbank (sop : SopThresholds) (d : DetectionPayload) : Type 0 where
  pub height :
      (h : String)
      → number_or "snowbank_height_cm" (metadata_of d) ≡ some h
      → less sop.max_height_cm h ≡ false
  pub runway_setback :
      (s : String)
      → number_or "setback_m" (metadata_of d) ≡ some s
      → string_or "surface_kind" (metadata_of d) ≡ some "runway"
      → less s sop.runway_setback_min_m ≡ false
  pub other_setback :
      (s : String)
      → number_or "setback_m" (metadata_of d) ≡ some s
      → (surface : String) → string_or "surface_kind" (metadata_of d) ≡ some surface
      → surface ≢ "runway"
      → less s sop.taxiway_setback_min_m ≡ false

pub record MeetsWildlife (sop : SopThresholds) (d : DetectionPayload) : Type 0 where
  pub severity :
      (species : String)
      → string_or "species" (metadata_of d) ≡ some species
      → is_one_of species sop.high_risk_classes ≡ true
      → (d.severity_hint ≡ "high") ⊎ (d.severity_hint ≡ "critical")

pub record MeetsProcedures (sop : SopThresholds) (d : DetectionPayload) : Type 0 where
  pub fod : d.detection_class ≡ "fod" → MeetsFod sop d
  pub crack : d.detection_class ≡ "crack" → MeetsCrack sop d
  pub snowbank : d.detection_class ≡ "snowbank" → MeetsSnowbank sop d
  pub wildlife : d.detection_class ≡ "wildlife" → MeetsWildlife sop d

pub crack_severity_for-IsBand :
    (bands : SeverityBands) (width : String) → IsBand bands width (crack_severity_for width bands)
unfolding crack_severity_for
crack_severity_for-IsBand bands width = record {
  low = λ a. rw a refl;
  medium = λ a b. rw (a, b) refl;
  high = λ a b c. rw (a, b, c) refl;
  critical = λ a b c. rw (a, b, c) refl;
}

pub band_unique :
    (bands : SeverityBands) (width s t : String)
    → IsBand bands width s
    → IsBand bands width t
    → s ≡ t
band_unique bands width s t h k = elim (Bool-cases (less bands.low width)) [
  | inr a ↦ h.low a ∙ sym (k.low a)
  | inl a ↦ elim (Bool-cases (less bands.medium width)) [
    | inr b ↦ h.medium a b ∙ sym (k.medium a b)
    | inl b ↦ elim (Bool-cases (less bands.high width)) [
      | inr c ↦ h.high a b c ∙ sym (k.high a b c)
      | inl c ↦ h.critical a b c ∙ sym (k.critical a b c)
    ]
  ]
]

pub at_least_high :
    (s : String) → (severity_at_least s "high" ≡ true) ↔ ((s ≡ "high") ⊎ (s ≡ "critical"))
unfolding severity_at_least rank
at_least_high s = (
  λ h. ground (
    arith,
    h,
    eq_iff s "info",
    eq_iff s "low",
    eq_iff s "medium",
    eq_iff s "high",
    eq_iff s "critical",
  ),
  λ h. elim h [
    | inl e ↦ subst (λ t. severity_at_least t "high" ≡ true) (sym e) refl
    | inr e ↦ subst (λ t. severity_at_least t "high" ≡ true) (sym e) refl
  ],
)

pub min_setback_runway : (sop : SopThresholds) → min_setback "runway" sop ≡ sop.runway_setback_min_m
min_setback_runway sop = refl

pub min_setback_other :
    (surface : String) (sop : SopThresholds)
    → surface ≢ "runway"
    → min_setback surface sop ≡ sop.taxiway_setback_min_m
min_setback_other surface sop ne = if_false _ _ _ (str_eq_ne surface "runway" ne)

pub named_category : (l : LocationCategory) → location_category (category_text l) ≡ some l
unfolding location_category
named_category runway_active = refl
named_category runway_inactive = refl
named_category taxiway = refl
named_category apron = refl

pub category_named :
    (loc : String) (l : LocationCategory) → location_category loc ≡ some l → loc ≡ category_text l
unfolding location_category
category_named loc runway_active h = ground (arith, h, eq_iff loc "runway_active")
category_named loc runway_inactive h = ground (arith, h, eq_iff loc "runway_inactive")
category_named loc taxiway h = ground (arith, h, eq_iff loc "taxiway")
category_named loc apron h = ground (arith, h, eq_iff loc "apron")
