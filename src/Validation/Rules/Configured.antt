-- ===== src/Validation/Rules/Configured.antt =====
-- services/validation-engine/src/layers/03-business-rules/sop-thresholds.ts: what a configuration makes of
-- the default thresholds.
use airport_inspection_platf.Prelude.{Option, [], none, or_else, refl, some, some_eq, ◌∷◌, ◌≡◌}
use airport_inspection_platf.Validation.Rules.Thresholds.{
  SopOverride, SopThresholds, apron, merge_thresholds, runway_active, runway_inactive, taxiway,
  thresholds_of,
}

-- A threshold is what the configuration gives, and else the default.
abbrev pub Chosen : {A : Type 0} → Option A → A → A → Type 0
Chosen {A} given default x = (given ≡ none → x ≡ default) × ((v : A) → given ≡ some v → x ≡ v)

abbrev pub given : {A : Type 0} → (SopOverride → Option A) → Option SopOverride → Option A
given pick none = none
given pick (some over) = pick over

pub record IsConfigured (config : Option SopOverride) (sop : SopThresholds) : Type 0 where
  pub dimension :
      Chosen (given (λ o. o.min_object_dimension_cm) config) "2" sop.min_object_dimension_cm
  pub active :
      Chosen
        (given (λ o. o.location_severity runway_active) config)
        "critical"
        (sop.location_severity runway_active)
  pub inactive :
      Chosen
        (given (λ o. o.location_severity runway_inactive) config)
        "high"
        (sop.location_severity runway_inactive)
  pub taxi :
      Chosen
        (given (λ o. o.location_severity taxiway) config)
        "medium"
        (sop.location_severity taxiway)
  pub parked :
      Chosen (given (λ o. o.location_severity apron) config) "low" (sop.location_severity apron)
  pub height : Chosen (given (λ o. o.max_height_cm) config) "240" sop.max_height_cm
  pub runway : Chosen (given (λ o. o.runway_setback_min_m) config) "6" sop.runway_setback_min_m
  pub other : Chosen (given (λ o. o.taxiway_setback_min_m) config) "3" sop.taxiway_setback_min_m
  pub low : Chosen (given (λ o. o.low) config) "6" sop.severity_bands_mm.low
  pub medium : Chosen (given (λ o. o.medium) config) "12" sop.severity_bands_mm.medium
  pub high : Chosen (given (λ o. o.high) config) "25" sop.severity_bands_mm.high
  pub species :
      Chosen
        (given (λ o. o.high_risk_classes) config)
        ("deer" ∷ "coyote" ∷ "large_bird" ∷ [])
        sop.high_risk_classes

none_Chosen : {A : Type 0} (default : A) → Chosen none default default
none_Chosen default = (λ e. refl, λ v e. absurd (cc))

or_else-Chosen : {A : Type 0} (o : Option A) (default : A) → Chosen o default (or_else o default)
or_else-Chosen none default = none_Chosen default
or_else-Chosen (some a) default = (λ e. absurd (cc), λ v e. some_eq e)

pub thresholds_of-IsConfigured :
    (config : Option SopOverride) → IsConfigured config (thresholds_of config)
unfolding thresholds_of merge_thresholds
thresholds_of-IsConfigured none = record {
  dimension = none_Chosen _;
  active = none_Chosen _;
  inactive = none_Chosen _;
  taxi = none_Chosen _;
  parked = none_Chosen _;
  height = none_Chosen _;
  runway = none_Chosen _;
  other = none_Chosen _;
  low = none_Chosen _;
  medium = none_Chosen _;
  high = none_Chosen _;
  species = none_Chosen _;
}
thresholds_of-IsConfigured (some over) = record {
  dimension = or_else-Chosen over.min_object_dimension_cm _;
  active = or_else-Chosen (over.location_severity runway_active) _;
  inactive = or_else-Chosen (over.location_severity runway_inactive) _;
  taxi = or_else-Chosen (over.location_severity taxiway) _;
  parked = or_else-Chosen (over.location_severity apron) _;
  height = or_else-Chosen over.max_height_cm _;
  runway = or_else-Chosen over.runway_setback_min_m _;
  other = or_else-Chosen over.taxiway_setback_min_m _;
  low = or_else-Chosen over.low _;
  medium = or_else-Chosen over.medium _;
  high = or_else-Chosen over.high _;
  species = or_else-Chosen over.high_risk_classes _;
}
