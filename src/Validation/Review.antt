-- ===== src/Validation/Review.antt =====
-- services/validation-engine/src/layers/08-human-review and 10-certification.
pub mod Gate
use Prim.Native.String
use Prim.Native.Char.{code}
use airport_inspection_platf.Prelude.Slices.{after_prefix}
use airport_inspection_platf.Prelude.Json.{Json, member, record_of, string_of}
use airport_inspection_platf.Validation.Layers.{
  Details, HitlDecision, RiskReport, ValidationContext, ValidationLayer, ValidationLayerId,
  ValidationLayerResult, ai_output, audit, business_rules, certification, certified_details,
  cross_system, failed_layers, high_priority, hitl_details, human_review, input, no_details,
  normal_priority, risk, risk_details, schema, source_of_truth,
}
use airport_inspection_platf.Prelude.{
  Bool, List, Option, String, [], false, filter, if◌then◌else◌, leb, length, ltb, map, none, not,
  or_else, some, str_eq, true, truthy, ℕ, ◌&&◌, ◌++◌, ◌==◌, ◌||◌, ◌∷◌,
}

-- `[a-z_]`
abbrev is_word_char : ℕ → Bool
is_word_char c = (leb b'a' c && leb c b'z') || (c == b'_')

-- `[a-z_]*` and then the suffix
abbrev words_then : String → String → Bool
words_then suffix String.[] = str_eq "" suffix
words_then suffix (String.◌∷◌ c s) =
    let rest = words_then suffix s in
    if is_word_char (code c) then rest else str_eq (String.◌∷◌ c s) suffix

-- `[a-z_]+` and then `.emitted`
abbrev emitted : Option String → Bool
emitted none = false
emitted (some String.[]) = false
emitted (some (String.◌∷◌ c s)) = is_word_char (code c) && words_then ".emitted" s

-- `AI_DETECTION_EVENT_TYPE_RE.test(event_type)`
unfoldable pub is_ai_detection : String → Bool
unfolding after_prefix
is_ai_detection event_type = emitted (after_prefix "ai.detection." event_type)

-- the two texts that layer 8 takes from the payload
pub record ExtractedEnvelope : Type 0 where
  pub event_type : String
  pub severity_hint : Option String

abbrev severity_hint_of : Option Json → Option String
unfolding member
severity_hint_of none = none
severity_hint_of (some payload) = elim (record_of payload) [
  | none ↦ none
  | some p ↦ string_of (member "severity_hint" p)
]

unfoldable pub extract_envelope : Json → Option ExtractedEnvelope
unfolding severity_hint_of member
extract_envelope value = elim (record_of value) [
  | none ↦ none
  | some env ↦ elim (string_of (member "event_type" env)) [
    | none ↦ none
    | some event_type ↦ some (record {
      event_type = event_type;
      severity_hint = severity_hint_of (member "payload" env);
    })
  ]
]

unfoldable pub read_risk_report : List ValidationLayerResult → Option RiskReport
read_risk_report [] = none
read_risk_report (r ∷ rs) =
    let rest = read_risk_report rs in
    elim r.layer [
      | risk ↦ elim r.details [ risk_details report ↦ some report | _ ↦ rest ]
      | _ ↦ rest
    ]

unfoldable pub read_hitl_decision : List ValidationLayerResult → Option HitlDecision
read_hitl_decision [] = none
read_hitl_decision (r ∷ rs) =
    let rest = read_hitl_decision rs in
    elim r.layer [
      | human_review ↦ elim r.details [ hitl_details decision ↦ some decision | _ ↦ rest ]
      | _ ↦ rest
    ]

abbrev pub layer_text : ValidationLayerId → String
layer_text input = "01_input"
layer_text schema = "02_schema"
layer_text business_rules = "03_business_rules"
layer_text source_of_truth = "04_source_of_truth"
layer_text cross_system = "05_cross_system"
layer_text ai_output = "06_ai_output"
layer_text risk = "07_risk"
layer_text human_review = "08_human_review"
layer_text audit = "09_audit"
layer_text certification = "10_certification"

-- `texts.join(separator)`
abbrev pub join : String → List String → String
join separator [] = ""
join separator (t ∷ []) = t
join separator (t ∷ u ∷ ts) = String.◌++◌ t (String.◌++◌ separator (join separator (u ∷ ts)))

abbrev pub failed : List ValidationLayerResult → List ValidationLayerResult
failed results = filter (λ r. not r.passed) results

abbrev pub layers_of : List ValidationLayerResult → List String
layers_of results = map (λ r. layer_text r.layer) results

abbrev risk_reasons : Option RiskReport → List String
risk_reasons none = []
risk_reasons (some report) =
    if report.routes_to_hitl
    then join "" ("risk_score=" ∷ report.score ∷ " >= hitl_threshold" ∷ []) ∷ []
    else []

abbrev failure_reasons : List ValidationLayerResult → List String
failure_reasons [] = []
failure_reasons (r ∷ rs) = String.◌++◌ "prior_layer_failure=" (join "," (layers_of (r ∷ rs))) ∷ []

-- the decision on an AI detection
unfoldable pub hitl_decision : Option String → List ValidationLayerResult → HitlDecision
unfolding read_risk_report
hitl_decision severity_hint previous =
    let reasons = risk_reasons (read_risk_report previous) ++ failure_reasons (failed previous) in
    let routed = ltb 0 (length reasons) in
    record {
      routed_to_hitl = routed;
      priority =
          if routed && str_eq (or_else severity_hint "") "critical"
          then high_priority
          else normal_priority;
      reasons = reasons;
    }

abbrev pub passed_with : ValidationLayerId → Details → ValidationLayerResult
passed_with layer details = record {
  layer = layer;
  passed = true;
  error_code = none;
  error_message = none;
  details = details;
}

-- `run` of layer 8
unfoldable pub human_review_run : ValidationContext → ValidationLayerResult
unfolding extract_envelope is_ai_detection hitl_decision
human_review_run ctx = elim (extract_envelope ctx.payload) [
  | none ↦ passed_with human_review no_details
  | some env ↦
      if is_ai_detection env.event_type
      then passed_with human_review
          (hitl_details (hitl_decision env.severity_hint ctx.previous_results))
      else passed_with human_review no_details
]

abbrev pub human_review_layer : ValidationLayer
human_review_layer = record { id = human_review; run = human_review_run }

-- `requiredLayers.has(layer)`, by default
unfoldable pub is_required : ValidationLayerId → Bool
is_required risk = false
is_required human_review = false
is_required certification = false
is_required _ = true

abbrev text_field : String → Json → Option String
unfolding member
text_field key value = elim (record_of value) [
  | none ↦ none
  | some fields ↦ truthy (string_of (member key fields))
]

abbrev rejected_with : String → String → Details → ValidationLayerResult
rejected_with code message details = record {
  layer = certification;
  passed = false;
  error_code = some code;
  error_message = some message;
  details = details;
}

-- `run` of layer 10 once no reviewer is waited for
unfoldable pub certify :
    (ValidationLayerId → Bool) → String → ValidationContext → ValidationLayerResult
unfolding text_field
certify required now ctx =
    elim (filter (λ r. not r.passed && required r.layer) ctx.previous_results) [
      | [] ↦ passed_with certification (
          certified_details (record {
            event_id = text_field "event_id" ctx.payload;
            event_type = text_field "event_type" ctx.payload;
            certified_at = now;
          }))
      | r ∷ rs ↦
          rejected_with "CERTIFICATION_INELIGIBLE"
            (String.◌++◌ "required layers failed: " (join ", " (layers_of (r ∷ rs))))
            (failed_layers (map (λ r. r.layer) (r ∷ rs)))
    ]

-- `run` of layer 10
unfoldable pub certification_run :
    (ValidationLayerId → Bool) → String → ValidationContext → ValidationLayerResult
unfolding read_hitl_decision certify
certification_run required now ctx = elim (read_hitl_decision ctx.previous_results) [
  | none ↦ certify required now ctx
  | some hitl ↦
      if hitl.routed_to_hitl
      then rejected_with "HITL_PENDING"
          (join ""
            ("routed to HITL (" ∷ join "; " hitl.reasons ∷ "); reviewer decision required" ∷ []))
          (hitl_details hitl)
      else certify required now ctx
]

abbrev pub certification_layer : (ValidationLayerId → Bool) → String → ValidationLayer
certification_layer required now = record {
  id = certification;
  run = certification_run required now;
}
