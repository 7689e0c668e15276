-- ===== src/Validation/Rules/Thresholds.antt =====
-- services/validation-engine/src/layers/03-business-rules/sop-thresholds.ts, and how a configuration
-- overrides the thresholds.
use airport_inspection_platf.Prelude.Decimals.{less}
use airport_inspection_platf.Prelude.{
  Bool, List, Option, String, [], if◌then◌else◌, leb, none, not, or_else, some, str_eq, ℕ, ◌∷◌,
}

pub data LocationCategory : Type 0 where
  runway_active runway_inactive taxiway apron : LocationCategory

-- The bounds of the bands that a width is compared with; the one of `critical` is never read.
pub record SeverityBands : Type 0 where
  pub low : String
  pub medium : String
  pub high : String
  pub critical : String

-- The thresholds; a number stands by its text.
pub record SopThresholds : Type 0 where
  pub min_object_dimension_cm : String
  pub location_severity : LocationCategory → String
  pub max_height_cm : String
  pub runway_setback_min_m : String
  pub taxiway_setback_min_m : String
  pub severity_bands_mm : SeverityBands
  pub high_risk_classes : List String

abbrev pub default_location_severity : LocationCategory → String
default_location_severity runway_active = "critical"
default_location_severity runway_inactive = "high"
default_location_severity taxiway = "medium"
default_location_severity apron = "low"

abbrev pub default_sop_thresholds : SopThresholds
default_sop_thresholds = record {
  min_object_dimension_cm = "2";
  location_severity = default_location_severity;
  max_height_cm = "240";
  runway_setback_min_m = "6";
  taxiway_setback_min_m = "3";
  severity_bands_mm = record { low = "6"; medium = "12"; high = "25"; critical = "50" };
  high_risk_classes = "deer" ∷ "coyote" ∷ "large_bird" ∷ [];
}

-- What a configuration overrides.
pub record SopOverride : Type 0 where
  pub min_object_dimension_cm : Option String
  pub location_severity : LocationCategory → Option String
  pub max_height_cm : Option String
  pub runway_setback_min_m : Option String
  pub taxiway_setback_min_m : Option String
  pub low : Option String
  pub medium : Option String
  pub high : Option String
  pub critical : Option String
  pub high_risk_classes : Option (List String)

unfoldable pub merge_thresholds : SopThresholds → SopOverride → SopThresholds
merge_thresholds base over = record {
  min_object_dimension_cm = or_else over.min_object_dimension_cm base.min_object_dimension_cm;
  location_severity = λ l. or_else (over.location_severity l) (base.location_severity l);
  max_height_cm = or_else over.max_height_cm base.max_height_cm;
  runway_setback_min_m = or_else over.runway_setback_min_m base.runway_setback_min_m;
  taxiway_setback_min_m = or_else over.taxiway_setback_min_m base.taxiway_setback_min_m;
  severity_bands_mm = record {
    low = or_else over.low base.severity_bands_mm.low;
    medium = or_else over.medium base.severity_bands_mm.medium;
    high = or_else over.high base.severity_bands_mm.high;
    critical = or_else over.critical base.severity_bands_mm.critical;
  };
  high_risk_classes = or_else over.high_risk_classes base.high_risk_classes;
}

unfoldable pub thresholds_of : Option SopOverride → SopThresholds
unfolding merge_thresholds
thresholds_of none = default_sop_thresholds
thresholds_of (some over) = merge_thresholds default_sop_thresholds over

-- `SEVERITY_ORDER.indexOf(s)`, one more, so that a text that is not there has 0
unfoldable pub rank : String → ℕ
rank s =
    if str_eq s "info"
    then 1
    else if str_eq s "low"
    then 2
    else if str_eq s "medium"
    then 3
    else if str_eq s "high"
    then 4
    else if str_eq s "critical"
    then 5
    else 0

unfoldable pub severity_at_least : String → String → Bool
unfolding rank
severity_at_least actual required = leb (rank required) (rank actual)

-- `width <= bound`
abbrev pub at_most : String → String → Bool
unfolding less
at_most a b = not (less b a)

unfoldable pub crack_severity_for : String → SeverityBands → String
unfolding at_most
crack_severity_for width bands =
    if at_most width bands.low
    then "low"
    else if at_most width bands.medium
    then "medium"
    else if at_most width bands.high
    then "high"
    else "critical"
