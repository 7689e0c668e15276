-- ===== src/Validation/Rules/Procedures.antt =====
-- services/validation-engine/src/layers/03-business-rules: layer 3 asks just what the operating procedures ask.
use airport_inspection_platf.Validation.Rules.Thresholds.{
  LocationCategory, SopOverride, SopThresholds, severity_at_least, thresholds_of,
}
use airport_inspection_platf.Validation.Rules.Meets.{
  IsBand, MeetsCrack, MeetsFod, MeetsProcedures, MeetsSnowbank, MeetsWildlife, at_least_high,
  band_unique, category_named, crack_severity_for-IsBand, min_setback_other, named_category,
}
use airport_inspection_platf.Validation.Rules.Configured.{IsConfigured, thresholds_of-IsConfigured}
use airport_inspection_platf.Prelude.Decimals.{less}
use airport_inspection_platf.Validation.Layers.{
  LayerFailure, ValidationContext, ValidationLayerResult, business_rules, result_of,
}
use airport_inspection_platf.Validation.Layers.Collected.{
  append-nil, append_nil, equal_of, nil-push_if, passed-result_of, push_if-nil, result_of-passed,
}
use airport_inspection_platf.Validation.Rules.{
  DetectionPayload, business_rules_run, check_class, check_crack, check_fod, check_snowbank,
  check_wildlife, detection_in, is_one_of, location_category, metadata_of, min_setback, number_or,
  optional, risky_species, small_object, string_or, too_high, too_near, wrong_band, wrong_location,
}
use airport_inspection_platf.Prelude.{
  Bool, Bool-cases, List, Option, String, [], ap, arith, eq_iff, false, if_false, if_true, inl, inr,
  none, not, refl, some, some_eq, str_dec, str_eq, subst, sym, true, ◌&&◌, ◌↔◌, ◌∙◌, ◌≡◌,
}

optional-each :
    {A : Type 0} (o : Option A) (f : A → List LayerFailure)
    → optional o f ≡ []
    → (a : A) → o ≡ some a
    → f a ≡ []
optional-each none f h a e = absurd (cc)
optional-each (some b) f h a e = subst (λ x. f x ≡ []) (some_eq e) h

optional-nil :
    {A : Type 0} (o : Option A) (f : A → List LayerFailure)
    → ((a : A) → o ≡ some a → f a ≡ [])
    → optional o f ≡ []
optional-nil none f h = refl
optional-nil (some b) f h = h b refl

pub of_equal : (s t : String) → s ≡ t → not (str_eq s t) ≡ false
of_equal s t h = ground (arith, eq_iff s t)

spared : (b c : Bool) → (b ≡ true → c ≡ true) → b && not c ≡ false
spared true c h = rw (h refl) refl
spared false c h = refl

module _ (sop : SopThresholds) (d : DetectionPayload) where
  located : String → List LayerFailure
  located loc = optional (location_category loc) (wrong_location sop d loc)

  near : String → List LayerFailure
  near setback = optional (string_or "surface_kind" (metadata_of d)) (too_near sop setback)

  small_object-nil :
      (dim : String) → small_object sop dim ≡ [] → less dim sop.min_object_dimension_cm ≡ false
  unfolding small_object
  small_object-nil dim h = push_if-nil _ _ h

  located-nil :
      (loc : String)
      → located loc ≡ []
      → (l : LocationCategory) → location_category loc ≡ some l
      → d.severity_hint ≡ sop.location_severity l
  unfolding located wrong_location
  located-nil loc h l k =
      let right : wrong_location sop d loc l ≡ [] =
        optional-each (location_category loc) (wrong_location sop d loc) h l k in
      equal_of d.severity_hint (sop.location_severity l) (push_if-nil _ _ right)

  too_high-nil : (x : String) → too_high sop x ≡ [] → less sop.max_height_cm x ≡ false
  unfolding too_high
  too_high-nil x h = push_if-nil _ _ h

  near-nil :
      (s : String)
      → near s ≡ []
      → (surface : String) → string_or "surface_kind" (metadata_of d) ≡ some surface
      → less s (min_setback surface sop) ≡ false
  unfolding near too_near
  near-nil s h surface k =
      let far : too_near sop s surface ≡ [] =
        optional-each (string_or "surface_kind" (metadata_of d)) (too_near sop s) h surface k in
      push_if-nil _ _ far

  check_fod-Meets : check_fod d sop ≡ [] → MeetsFod sop d
  unfolding check_fod located
  check_fod-Meets h =
      let (dimensions, locations) =
        append-nil (optional (number_or "object_dimension_cm" (metadata_of d)) (small_object sop))
          (optional (string_or "location_category" (metadata_of d)) located) h in
      record {
        dimension =
            λ dim e. small_object-nil dim (optional-each _ (small_object sop) dimensions dim e);
        location = λ loc e l k.
            located-nil loc (optional-each _ located locations loc e) l
              (ap location_category k ∙ named_category l);
      }

  Meets-check_fod : MeetsFod sop d → check_fod d sop ≡ []
  unfolding check_fod small_object wrong_location
  Meets-check_fod m =
      append_nil _ _ (optional-nil _ _ (λ dim e. nil-push_if _ _ (m.dimension dim e))) (
        optional-nil _ _ (λ loc e.
          optional-nil _ _
            (λ l k. nil-push_if _ _ (of_equal _ _ (m.location loc e l (category_named loc l k))))))

  check_crack-Meets : check_crack d sop ≡ [] → MeetsCrack sop d
  unfolding check_crack wrong_band
  check_crack-Meets h = record {
    band = λ width e.
        subst (IsBand sop.severity_bands_mm width)
          (sym (equal_of _ _ (push_if-nil _ _ (optional-each _ _ h width e))))
          (crack_severity_for-IsBand sop.severity_bands_mm width);
  }

  Meets-check_crack : MeetsCrack sop d → check_crack d sop ≡ []
  unfolding check_crack wrong_band
  Meets-check_crack m = optional-nil _ _ (λ width e. nil-push_if _ _ (
      of_equal _ _ (
        band_unique sop.severity_bands_mm width _ _ (m.band width e)
          (crack_severity_for-IsBand sop.severity_bands_mm width))))

  check_snowbank-Meets : check_snowbank d sop ≡ [] → MeetsSnowbank sop d
  unfolding check_snowbank near
  check_snowbank-Meets h =
      let (heights, setbacks) =
        append-nil (optional (number_or "snowbank_height_cm" (metadata_of d)) (too_high sop))
          (optional (number_or "setback_m" (metadata_of d)) near) h in
      record {
        height = λ x e. too_high-nil x (optional-each _ (too_high sop) heights x e);
        runway_setback = λ s e k. near-nil s (optional-each _ near setbacks s e) "runway" k;
        other_setback = λ s e surface k ne.
            subst (λ bound. less s bound ≡ false) (min_setback_other surface sop ne)
              (near-nil s (optional-each _ near setbacks s e) surface k);
      }

  far_enough :
      MeetsSnowbank sop d
      → (s : String) → number_or "setback_m" (metadata_of d) ≡ some s
      → (surface : String) → string_or "surface_kind" (metadata_of d) ≡ some surface
      → less s (min_setback surface sop) ≡ false
  far_enough m s e surface k = elim (str_dec surface "runway") [
    | yes r ↦
        subst (λ x. less s (min_setback x sop) ≡ false) (sym r)
          (m.runway_setback s e (k ∙ ap some r))
    | no ne ↦
        subst (λ bound. less s bound ≡ false) (sym (min_setback_other surface sop ne))
          (m.other_setback s e surface k ne)
  ]

  Meets-check_snowbank : MeetsSnowbank sop d → check_snowbank d sop ≡ []
  unfolding check_snowbank too_high too_near
  Meets-check_snowbank m =
      append_nil _ _ (optional-nil _ _ (λ x e. nil-push_if _ _ (m.height x e))) (
        optional-nil _ _
          (λ s e. optional-nil _ _ (λ surface k. nil-push_if _ _ (far_enough m s e surface k))))

  check_wildlife-Meets : check_wildlife d sop ≡ [] → MeetsWildlife sop d
  unfolding check_wildlife risky_species
  check_wildlife-Meets h = record {
    severity = λ species e k.
        let low = push_if-nil _ _ (optional-each _ _ h species e) in
        (at_least_high d.severity_hint).0 (ground arith);
  }

  Meets-check_wildlife : MeetsWildlife sop d → check_wildlife d sop ≡ []
  unfolding check_wildlife risky_species
  Meets-check_wildlife m = optional-nil _ _ (λ species e. nil-push_if _ _ (
      spared (is_one_of species sop.high_risk_classes) (severity_at_least d.severity_hint "high")
        (λ k. (at_least_high d.severity_hint).1 (m.severity species e k))))

  check_class-Meets : check_class d.detection_class d sop ≡ [] → MeetsProcedures sop d
  unfolding check_class
  check_class-Meets h = record {
    fod = λ e. check_fod-Meets (sym (ap (λ c. check_class c d sop) e) ∙ h);
    crack = λ e. check_crack-Meets (sym (ap (λ c. check_class c d sop) e) ∙ h);
    snowbank = λ e. check_snowbank-Meets (sym (ap (λ c. check_class c d sop) e) ∙ h);
    wildlife = λ e. check_wildlife-Meets (sym (ap (λ c. check_class c d sop) e) ∙ h);
  }

  Meets-check_class : MeetsProcedures sop d → check_class d.detection_class d sop ≡ []
  unfolding check_class
  Meets-check_class m = elim (Bool-cases (str_eq d.detection_class "fod")) [
    | inl fod ↦ if_true _ _ _ fod ∙ Meets-check_fod (m.fod ((eq_iff d.detection_class "fod").0 fod))
    | inr f ↦ if_false _ _ _ f ∙ elim (Bool-cases (str_eq d.detection_class "crack")) [
      | inl crack ↦
          if_true _ _ _ crack
          ∙ Meets-check_crack (m.crack ((eq_iff d.detection_class "crack").0 crack))
      | inr c ↦ if_false _ _ _ c ∙ elim (Bool-cases (str_eq d.detection_class "snowbank")) [
        | inl snow ↦
            if_true _ _ _ snow
            ∙ Meets-check_snowbank (m.snowbank ((eq_iff d.detection_class "snowbank").0 snow))
        | inr s ↦ if_false _ _ _ s ∙ elim (Bool-cases (str_eq d.detection_class "wildlife")) [
          | inl wild ↦
              if_true _ _ _ wild
              ∙ Meets-check_wildlife (m.wildlife ((eq_iff d.detection_class "wildlife").0 wild))
          | inr w ↦ if_false _ _ _ w
        ]
      ]
    ]
  ]

business_rules_run-some :
    (config : Option SopOverride) (ctx : ValidationContext) (d : DetectionPayload)
    → detection_in ctx.payload ≡ some d
    → business_rules_run config ctx
      ≡ result_of business_rules (check_class d.detection_class d (thresholds_of config))
unfolding business_rules_run
business_rules_run-some config ctx d e = rw (e, business_rules_run) refl

-- For an AI detection, layer 3 passes exactly if the detection meets the operating procedures of its
-- class under thresholds that are, each, what the configuration gives and else the default: a FOD that is
-- large enough and has the severity of its location, a crack with the severity of the band of its width,
-- a snowbank that is low enough and as far off as its surface asks, a high-risk species with the
-- severity high or critical; a field that is absent or of another type asks for nothing, and a detection
-- of any other class always passes.
pub business_rules_iff :
    (config : Option SopOverride) (ctx : ValidationContext) (d : DetectionPayload)
    → detection_in ctx.payload ≡ some d
    → (sop : SopThresholds) × IsConfigured config sop
      × (((business_rules_run config ctx).passed ≡ true) ↔ MeetsProcedures sop d)
business_rules_iff config ctx d e =
    let ran =
      ap (λ (r : ValidationLayerResult). r.passed) (business_rules_run-some config ctx d e) in
    (
      thresholds_of config,
      thresholds_of-IsConfigured config,
      (
        λ h.
            check_class-Meets (thresholds_of config) d
              (result_of-passed business_rules _ (sym ran ∙ h)),
        λ m. ran ∙ passed-result_of business_rules _ (Meets-check_class (thresholds_of config) d m),
      ),
    )
