-- ===== src/Validation/Rules.antt =====
-- services/validation-engine/src/layers/03-business-rules: the operating procedures that a detection
-- must meet.
pub mod Procedures
pub mod Meets
pub mod Configured
pub mod Thresholds
use Prim.Native.String
use airport_inspection_platf.Validation.Rules.Thresholds.{
  LocationCategory, SopOverride, SopThresholds, apron, crack_severity_for, runway_active,
  runway_inactive, severity_at_least, taxiway, thresholds_of,
}
use airport_inspection_platf.Prelude.Json.{
  Fields, Json, end, member, num, record_of, str, string_of,
}
use airport_inspection_platf.Prelude.Decimals.{is_finite, less}
use airport_inspection_platf.Validation.Layers.{
  LayerFailure, ValidationContext, ValidationLayerResult, business_rules, push_if, result_of,
}
use airport_inspection_platf.Validation.Review.{is_ai_detection, join}
use airport_inspection_platf.Prelude.{
  Bool, List, Option, String, [], false, if◌then◌else◌, none, not, or_else, some, str_eq, ◌&&◌,
  ◌++◌, ◌||◌, ◌∷◌,
}

pub record DetectionPayload : Type 0 where
  pub detection_class : String
  pub severity_hint : String
  pub metadata : Option Fields

abbrev pub metadata_of : DetectionPayload → Fields
metadata_of d = or_else d.metadata end

abbrev finite_number : Option Json → Option String
finite_number (some (num n)) = if is_finite n then some n else none
finite_number _ = none

-- `numberOr(meta[key])`
unfoldable pub number_or : String → Fields → Option String
unfolding finite_number member
number_or key meta = finite_number (member key meta)

-- `stringOr(meta[key])`
unfoldable pub string_or : String → Fields → Option String
unfolding member
string_or key meta = string_of (member key meta)

unfoldable pub location_category : String → Option LocationCategory
location_category s =
    if str_eq s "runway_active"
    then some runway_active
    else if str_eq s "runway_inactive"
    then some runway_inactive
    else if str_eq s "taxiway"
    then some taxiway
    else if str_eq s "apron"
    then some apron
    else none

abbrev rule_failure : String → List String → String → Json → String → LayerFailure
rule_failure code message place actual expected = record {
  code = code;
  message = join "" message;
  field = some place;
  value = none;
  expected = some (str expected);
  actual = some actual;
}

-- a check of a field that is there
abbrev pub optional : {A : Type 0} → Option A → (A → List LayerFailure) → List LayerFailure
optional none f = []
optional (some a) f = f a

unfoldable pub small_object : SopThresholds → String → List LayerFailure
unfolding less
small_object sop dim = push_if (less dim sop.min_object_dimension_cm) (
    rule_failure "FOD_BELOW_MIN_DIMENSION"
      ("FOD object_dimension_cm " ∷ dim ∷ " is below SOP minimum " ∷ sop.min_object_dimension_cm
        ∷ [])
      "payload.metadata.object_dimension_cm" (num dim)
      (join "" (">= " ∷ sop.min_object_dimension_cm ∷ [])))

abbrev hint_failure : String → List String → DetectionPayload → String → List LayerFailure
hint_failure code message d expected = push_if (not (str_eq d.severity_hint expected)) (
    rule_failure code (message ++ expected ∷ ", got " ∷ d.severity_hint ∷ [])
      "payload.severity_hint" (str d.severity_hint) expected)

unfoldable pub wrong_location :
    SopThresholds → DetectionPayload → String → LocationCategory → List LayerFailure
wrong_location sop d loc l =
    hint_failure "FOD_LOCATION_SEVERITY_MISMATCH" ("FOD on " ∷ loc ∷ " must be severity " ∷ []) d
      (sop.location_severity l)

unfoldable pub check_fod : DetectionPayload → SopThresholds → List LayerFailure
unfolding small_object wrong_location number_or string_or location_category
check_fod d sop =
    optional (number_or "object_dimension_cm" (metadata_of d)) (small_object sop)
    ++ optional (string_or "location_category" (metadata_of d))
        (λ loc. optional (location_category loc) (wrong_location sop d loc))

unfoldable pub wrong_band : SopThresholds → DetectionPayload → String → List LayerFailure
unfolding crack_severity_for
wrong_band sop d width =
    hint_failure "CRACK_SEVERITY_BAND_MISMATCH" ("crack " ∷ width ∷ "mm requires severity " ∷ []) d
      (crack_severity_for width sop.severity_bands_mm)

unfoldable pub check_crack : DetectionPayload → SopThresholds → List LayerFailure
unfolding number_or wrong_band
check_crack d sop = optional (number_or "crack_width_mm" (metadata_of d)) (wrong_band sop d)

unfoldable pub too_high : SopThresholds → String → List LayerFailure
unfolding less
too_high sop height = push_if (less sop.max_height_cm height) (
    rule_failure "SNOWBANK_HEIGHT_OVER_MAX"
      ("snowbank height " ∷ height ∷ "cm exceeds SOP max " ∷ sop.max_height_cm ∷ "cm" ∷ [])
      "payload.metadata.snowbank_height_cm" (num height) (join "" ("<= " ∷ sop.max_height_cm ∷ [])))

-- Any surface but a runway has the setback of a taxiway.
abbrev pub min_setback : String → SopThresholds → String
min_setback surface sop =
    if str_eq surface "runway" then sop.runway_setback_min_m else sop.taxiway_setback_min_m

unfoldable pub too_near : SopThresholds → String → String → List LayerFailure
unfolding less
too_near sop setback surface = push_if (less setback (min_setback surface sop)) (
    rule_failure "SNOWBANK_SETBACK_BELOW_MIN"
      ("snowbank "
        ∷ setback
        ∷ "m setback below "
        ∷ surface
        ∷ " SOP min "
        ∷ min_setback surface sop
        ∷ "m"
        ∷ [])
      "payload.metadata.setback_m" (num setback) (join "" (">= " ∷ min_setback surface sop ∷ [])))

unfoldable pub check_snowbank : DetectionPayload → SopThresholds → List LayerFailure
unfolding too_high too_near number_or string_or
check_snowbank d sop =
    optional (number_or "snowbank_height_cm" (metadata_of d)) (too_high sop)
    ++ optional (number_or "setback_m" (metadata_of d))
        (λ setback. optional (string_or "surface_kind" (metadata_of d)) (too_near sop setback))

-- `classes.includes(species)`
abbrev pub is_one_of : String → List String → Bool
is_one_of s [] = false
is_one_of s (t ∷ ts) = str_eq t s || is_one_of s ts

unfoldable pub risky_species : SopThresholds → DetectionPayload → String → List LayerFailure
unfolding severity_at_least
risky_species sop d species =
    push_if
      (is_one_of species sop.high_risk_classes && not (severity_at_least d.severity_hint "high"))
      (rule_failure "WILDLIFE_HIGH_RISK_SEVERITY_TOO_LOW"
        ("wildlife species \"" ∷ species
          ∷ "\" is high-risk; severity must be at least \"high\", got " ∷ d.severity_hint ∷ [])
        "payload.severity_hint" (str d.severity_hint) ">= high")

unfoldable pub check_wildlife : DetectionPayload → SopThresholds → List LayerFailure
unfolding risky_species string_or
check_wildlife d sop = optional (string_or "species" (metadata_of d)) (risky_species sop d)

-- the `switch` over the class
unfoldable pub check_class : String → DetectionPayload → SopThresholds → List LayerFailure
unfolding check_fod check_crack check_snowbank check_wildlife
check_class detection_class d sop =
    if str_eq detection_class "fod"
    then check_fod d sop
    else if str_eq detection_class "crack"
    then check_crack d sop
    else if str_eq detection_class "snowbank"
    then check_snowbank d sop
    else if str_eq detection_class "wildlife"
    then check_wildlife d sop
    else []

abbrev detection_of : Option String → Option String → Option Fields → Option DetectionPayload
detection_of (some detection_class) (some severity_hint) metadata = some (record {
  detection_class = detection_class;
  severity_hint = severity_hint;
  metadata = metadata;
})
detection_of _ _ metadata = none

abbrev record_in : Option Json → Option Fields
record_in none = none
record_in (some v) = record_of v

unfoldable pub extract_detection : Option Json → Option DetectionPayload
unfolding detection_of member
extract_detection raw = elim (record_in raw) [
  | none ↦ none
  | some p ↦
      detection_of (string_of (member "detection_class" p)) (string_of (member "severity_hint" p))
        (record_in (member "metadata" p))
]

-- The detection of an envelope that names an AI detection.
unfoldable pub detection_in : Json → Option DetectionPayload
unfolding extract_detection is_ai_detection member
detection_in value = elim (record_of value) [
  | none ↦ none
  | some env ↦ elim (string_of (member "event_type" env)) [
    | none ↦ none
    | some event_type ↦
        if is_ai_detection event_type then extract_detection (member "payload" env) else none
  ]
]

-- `run` of layer 3, with the thresholds that the configuration gives
unfoldable pub business_rules_run : Option SopOverride → ValidationContext → ValidationLayerResult
unfolding result_of thresholds_of check_class detection_in
business_rules_run config ctx = elim (detection_in ctx.payload) [
  | none ↦ result_of business_rules []
  | some d ↦ result_of business_rules (check_class d.detection_class d (thresholds_of config))
]
