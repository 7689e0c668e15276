-- ===== src/Validation/Risk.antt =====
-- services/validation-engine/src/layers/07-risk: the score of a detection.
pub mod Monotone
mod Tests
use Prim.Native.String
use airport_inspection_platf.Prelude.{
  Bool, List, Option, String, [], false, filter, if◌then◌else◌, length, none, not, or_else, some,
  str_eq, true, truthy, ℕ, ◌*◌, ◌-◌, ◌==◌, ◌||◌, ◌∷◌,
}
use airport_inspection_platf.Prelude.Json.{Json, member, num, obj, string_of}
use airport_inspection_platf.Validation.Layers.{
  ValidationContext, ValidationLayerResult, no_details, risk, risk_details,
}
use airport_inspection_platf.Validation.Review.{is_ai_detection, join}

-- The doubles of the host: a literal and a JSON number by its text, the arithmetic, and two ways to
-- print a number. A comparison with NaN is false.
pub record Doubles : Type 1 where
  pub Num : Type 0
  pub nan : Num
  pub of_text : String → Num
  pub of_nat : ℕ → Num
  pub is_nan : Num → Bool
  pub le : Num → Num → Bool
  pub add : Num → Num → Num
  pub sub : Num → Num → Num
  pub mul : Num → Num → Num
  pub div : Num → Num → Num
  pub to_fixed_3 : Num → String
  pub print : Num → String

pub record ExtractedPayload : Type 0 where
  pub confidence : String
  pub severity_hint : Option String
  pub captured_at : Option String

pub record ExtractedEnvelope : Type 0 where
  pub event_type : String
  pub timestamp : Option String
  pub payload : Option ExtractedPayload

abbrev is_among : String → List String → Bool
is_among s [] = false
is_among s (t ∷ ts) = str_eq t s || is_among s ts

-- the keys that every object inherits, which `in` finds too
abbrev inherited : List String
inherited =
    "constructor" ∷ "toString" ∷ "toLocaleString" ∷ "valueOf" ∷ "hasOwnProperty" ∷ "isPrototypeOf"
    ∷ "propertyIsEnumerable" ∷ "__proto__" ∷ "__defineGetter__" ∷ "__defineSetter__"
    ∷ "__lookupGetter__" ∷ "__lookupSetter__" ∷ []

abbrev pub severities : List String
severities = "critical" ∷ "high" ∷ "medium" ∷ "low" ∷ "info" ∷ []

-- `typeof p.severity_hint === "string" && p.severity_hint in SEVERITY_WEIGHT`
abbrev known_hint : Option String → Option String
known_hint none = none
known_hint (some s) = if is_among s severities || is_among s inherited then some s else none

abbrev number_in : Option Json → Option String
number_in (some (num n)) = some n
number_in _ = none

-- `a ?? b`, where `b` may be undefined too
abbrev pub first_of : Option String → Option String → Option String
first_of none b = b
first_of (some a) b = some a

unfoldable pub extract_payload : Option Json → Option ExtractedPayload
unfolding member
extract_payload (some (obj p)) = elim (number_in (member "confidence" p)) [
  | none ↦ none
  | some confidence ↦ some (record {
    confidence = confidence;
    severity_hint = known_hint (string_of (member "severity_hint" p));
    captured_at = string_of (member "captured_at" p);
  })
]
extract_payload _ = none

unfoldable pub extract_envelope : Json → Option ExtractedEnvelope
unfolding extract_payload member
extract_envelope (obj env) = elim (string_of (member "event_type" env)) [
  | none ↦ none
  | some event_type ↦ some (record {
    event_type = event_type;
    timestamp = string_of (member "timestamp" env);
    payload = extract_payload (member "payload" env);
  })
]
extract_envelope _ = none

module _ (D : Doubles) where
  open D use {Num, nan, of_text, of_nat, is_nan, le, add, sub, mul, div, to_fixed_3, print}

  pub record RiskFactors : Type 0 where
    pub confidence_gap : Num
    pub freshness : Num
    pub severity_weight : Num
    pub prior_failure_density : Num

  abbrev pub zero_num : Num
  zero_num = of_text "0"

  abbrev pub one_num : Num
  one_num = of_text "1"

  -- `Math.max(0, Math.min(1, n))`
  unfoldable pub clamp : Num → Num
  clamp n =
      if is_nan n
      then nan
      else if le one_num n
      then one_num
      else if le n zero_num
      then zero_num
      else n

  unfoldable pub clamp01 : Num → Num
  unfolding clamp
  clamp01 n = if is_nan n then zero_num else clamp n

  -- `SEVERITY_WEIGHT[hint]`, which is no number at an inherited key
  unfoldable pub severity_weight_of : Option String → Num
  severity_weight_of none = zero_num
  severity_weight_of (some s) =
      if str_eq s "critical"
      then one_num
      else if str_eq s "high"
      then of_text "0.75"
      else if str_eq s "medium"
      then of_text "0.5"
      else if str_eq s "low"
      then of_text "0.25"
      else if str_eq s "info"
      then zero_num
      else nan

  unfoldable pub combine : RiskFactors → Num
  unfolding clamp
  combine f = clamp (
      add
        (add (add (mul f.confidence_gap (of_text "0.3")) (mul f.freshness (of_text "0.2")))
          (mul f.severity_weight (of_text "0.3")))
        (mul f.prior_failure_density (of_text "0.2")))

  -- `date_parse` is `Date.parse`, none for NaN; times are milliseconds.
  module _ (date_parse : String → Option ℕ) where
    unfoldable pub compute_freshness : Option String → ℕ → ℕ → Num
    unfolding clamp01
    compute_freshness timestamp now span_ms = elim (truthy timestamp) [
      | none ↦ zero_num
      | some text ↦ elim (date_parse text) [
        | none ↦ zero_num
        | some t ↦ clamp01 (div (of_nat (now - t)) (of_nat span_ms))
      ]
    ]

    unfoldable pub compute_factors : Option String → ExtractedPayload → ℕ → ℕ → ℕ → ℕ → RiskFactors
    unfolding clamp01 compute_freshness severity_weight_of
    compute_factors timestamp payload total_prior prior_failures now span_ms = record {
      confidence_gap = clamp01 (sub one_num (of_text payload.confidence));
      freshness = compute_freshness (first_of payload.captured_at timestamp) now span_ms;
      severity_weight = severity_weight_of payload.severity_hint;
      prior_failure_density =
          if total_prior == 0 then zero_num else clamp01 (div (of_nat prior_failures) (of_nat 5));
    }

    pub record RiskScoringConfig : Type 0 where
      pub hitl_score_threshold : Num
      pub exception_score_threshold : Num
      pub freshness_span_ms : ℕ

    -- `cfg.x ?? DEFAULT_X`
    unfoldable pub risk_config : Option Num → Option Num → Option ℕ → RiskScoringConfig
    risk_config hitl exception span = record {
      hitl_score_threshold = or_else hitl (of_text "0.6");
      exception_score_threshold = or_else exception (of_text "0.95");
      freshness_span_ms = or_else span (60 * 60 * 1000);
    }

    abbrev pub not_scored : ValidationLayerResult
    not_scored = record {
      layer = risk;
      passed = true;
      error_code = none;
      error_message = none;
      details = no_details;
    }

    -- the result for a score
    unfoldable pub risk_result : RiskScoringConfig → Num → ValidationLayerResult
    risk_result cfg score =
        let details = risk_details (record {
          score = to_fixed_3 score;
          routes_to_hitl = le cfg.hitl_score_threshold score;
        }) in
        if le cfg.exception_score_threshold score
        then record {
          layer = risk;
          passed = false;
          error_code = some "RISK_EXCEPTION_THRESHOLD";
          error_message = some (
              join "" (
                "risk score "
                ∷ to_fixed_3 score
                ∷ " >= exception threshold "
                ∷ print cfg.exception_score_threshold
                ∷ []));
          details = details;
        }
        else record {
          layer = risk;
          passed = true;
          error_code = none;
          error_message = none;
          details = details;
        }

    abbrev pub failures_in : List ValidationLayerResult → List ValidationLayerResult
    failures_in = filter (λ (r : ValidationLayerResult). not r.passed)

    unfoldable pub risk_run : RiskScoringConfig → ℕ → ValidationContext → ValidationLayerResult
    unfolding extract_envelope is_ai_detection compute_factors combine risk_result
    risk_run cfg now ctx = elim (extract_envelope ctx.payload) [
      | none ↦ not_scored
      | some env ↦ if not (is_ai_detection env.event_type) then not_scored else elim env.payload [
        | none ↦ not_scored
        | some payload ↦ risk_result cfg (
            combine (
              compute_factors env.timestamp payload (length ctx.previous_results)
                (length (failures_in ctx.previous_results)) now cfg.freshness_span_ms))
      ]
    ]
