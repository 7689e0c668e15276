-- ===== src/Validation/Tests.antt =====
-- Runs of the validation engine at concrete inputs, and the theorems at inputs that meet their
-- hypotheses.
use airport_inspection_platf.Validation.Rules.Thresholds.{
  SopThresholds, crack_severity_for, thresholds_of,
}
use airport_inspection_platf.Prelude.Slices.{after_prefix}
use airport_inspection_platf.Incident.Requests.{is_uuid}
use airport_inspection_platf.Validation.Input.{
  check_context, check_coordinate, check_event_id, check_event_type, check_geo, check_payload,
  check_skew, check_timestamp, collect_failures, input_run, missing_fields,
}
use airport_inspection_platf.Validation.Input.Gate.{IsAccepted, input-IsAccepted}
use airport_inspection_platf.Prelude.Decimals.{decimal, less}
use airport_inspection_platf.Prelude.Map.{get, set}
use airport_inspection_platf.Validation.References.{
  Ids, ReferenceDataClient, checks_of, consistent, cross_system_run, degraded, extract_ids,
  in_memory_client, sensor_checks, source_of_truth_run,
}
use airport_inspection_platf.Validation.References.Agreement.{IsConsistent, references_agree}
use airport_inspection_platf.Validation.Rules.{
  DetectionPayload, business_rules_run, check_class, check_crack, detection_in, extract_detection,
  number_or, wrong_band,
}
use airport_inspection_platf.Validation.Rules.Meets.{MeetsProcedures}
use airport_inspection_platf.Validation.Rules.Configured.{IsConfigured}
use airport_inspection_platf.Validation.Rules.Procedures.{business_rules_iff}
use airport_inspection_platf.Prelude.Json.{
  Fields, Json, end, field, member, num, obj, record_of, str,
}
use airport_inspection_platf.Validation.Layers.{
  ValidationContext, ValidationLayer, ValidationLayerResult, result_of, risk, risk_details,
}
use airport_inspection_platf.Validation.Orchestrator.{RunOptions, run_validation}
use airport_inspection_platf.Validation.Orchestrator.Runs.{short_circuit_lem, up_to_failure}
use airport_inspection_platf.Validation.Review.{
  ExtractedEnvelope, certification_layer, certification_run, extract_envelope, human_review_layer,
  human_review_run, is_ai_detection, is_required, passed_with, read_hitl_decision, read_risk_report,
}
use airport_inspection_platf.Validation.Review.Gate.{risky_held}
use airport_inspection_platf.Prelude.{
  Option, String, [], false, if◌then◌else◌, length, none, refl, some, str_eq, true, ℕ, ◌++◌, ◌↔◌,
  ◌∷◌, ◌≡◌,
}

abbrev detection : Json
detection = obj (
    field "event_type" (str "ai.detection.fod.emitted")
      (field "payload" (obj (field "severity_hint" (str "critical") end)) end))

abbrev risky : ValidationLayerResult
risky = passed_with risk (risk_details (record { score = "0.700"; routes_to_hitl = true }))

abbrev risk_layer : ValidationLayer
risk_layer = record { id = risk; run = λ ctx. risky }

abbrev options : RunOptions
options = record {
  layers = risk_layer ∷ human_review_layer ∷ certification_layer is_required "t1" ∷ risk_layer ∷ [];
  short_circuit = true;
  submission_id = "s";
  run_id = "r";
  started_at = "t0";
  finished_at = "t2";
}

short_circuit_lem_example :
    let short = run_validation detection (record options { short_circuit = true }) in
    let whole = run_validation detection (record options { short_circuit = false }) in
    (short.layers ≡ up_to_failure whole.layers) × (short.certified ≡ whole.certified)
short_circuit_lem_example = short_circuit_lem detection options

abbrev ctx : ValidationContext
ctx = record { submission_id = "s"; payload = detection; previous_results = risky ∷ [] }

abbrev envelope : ExtractedEnvelope
envelope = record { event_type = "ai.detection.fod.emitted"; severity_hint = some "critical" }

risky_held_example :
    let later = record ctx {
      previous_results = ctx.previous_results ++ human_review_run ctx ∷ [];
    } in
    (certification_run is_required "t1" later).passed ≡ false
unfolding extract_envelope is_ai_detection read_hitl_decision read_risk_report member
risky_held_example =
    risky_held is_required "t1" ctx envelope (record { score = "0.700"; routes_to_hitl = true }) []
      refl refl refl refl refl

-- The run of the risky detection stops at the certification and is not certified.
validation_run :
    let run = run_validation detection options in (length run.layers ≡ 3) × (run.certified ≡ false)
unfolding run_validation human_review_run certification_run is_required
validation_run = (refl, refl)

abbrev den_client : ReferenceDataClient
den_client =
    in_memory_client (record { id = "s1"; airport_id = "den"; status = degraded } ∷ [])
      (record { id = "den"; iata_code = "DEN" } ∷ [])

abbrev den_ids : Ids
den_ids = record { sensor_id = some "s1"; airport_id = some "den" }

abbrev den_context : ValidationContext
den_context = record {
  submission_id = "v1";
  payload = obj (
      field "payload" (obj (field "sensor_id" (str "s1") (field "airport_id" (str "den") end)))
        end);
  previous_results = [];
}

den_ids_extracted : extract_ids den_context.payload ≡ some den_ids
unfolding extract_ids member
den_ids_extracted = refl

four_passes : (source_of_truth_run (some den_client) den_context).passed ≡ true
unfolding source_of_truth_run extract_ids member result_of in_memory_client set get
four_passes = refl

five_passes : (cross_system_run (some den_client) den_context).passed ≡ true
unfolding cross_system_run consistent sensor_checks checks_of extract_ids member result_of
    in_memory_client set get
five_passes = refl

references_agree_example : IsConsistent den_client den_ids "s1"
references_agree_example =
    references_agree den_client den_context den_ids "s1" den_ids_extracted refl four_passes
      five_passes

abbrev crack_7mm : DetectionPayload
crack_7mm = record {
  detection_class = "crack";
  severity_hint = "medium";
  metadata = some (field "crack_width_mm" (num "7") end);
}

abbrev crack_context : ValidationContext
crack_context = record {
  submission_id = "v2";
  payload = obj (
      field "event_type" (str "ai.detection.crack.emitted") (
        field "payload"
          (obj (
            field "detection_class" (str "crack") (
              field "severity_hint" (str "medium")
                (field "metadata" (obj (field "crack_width_mm" (num "7") end)) end))))
          end));
  previous_results = [];
}

crack_detected : detection_in crack_context.payload ≡ some crack_7mm
unfolding detection_in extract_detection is_ai_detection member
crack_detected = refl

business_rules_iff_example :
    (sop : SopThresholds) × IsConfigured none sop
    × (((business_rules_run none crack_context).passed ≡ true) ↔ MeetsProcedures sop crack_7mm)
business_rules_iff_example = business_rules_iff none crack_context crack_7mm crack_detected

crack_passes : (business_rules_run none crack_context).passed ≡ true
unfolding business_rules_run detection_in extract_detection is_ai_detection member thresholds_of
    check_class check_crack wrong_band crack_severity_for number_or less decimal result_of
crack_passes = refl

abbrev toy_date : String → Option ℕ
toy_date t = if str_eq t "t1" then some 100000000 else none

abbrev toy_number : ℕ → String
toy_number n = "1"

abbrev frame_context : ValidationContext
frame_context = record {
  submission_id = "v3";
  payload = obj (
      field "event_id" (str "00000000-0000-4000-8000-000000000001") (
        field "event_type" (str "sensor.frame.captured") (
          field "schema_version" (str "v1") (
            field "source" (obj end) (
              field "timestamp" (str "t1") (
                field "payload"
                  (obj (
                    field "geo" (obj (field "lat" (num "39.8") (field "lng" (num "-104.7") end)))
                      end))
                  end))))));
  previous_results = [];
}

frame_passes :
    (input_run toy_date toy_number (check_context 100000500 none none) frame_context).passed ≡ true
unfolding input_run collect_failures missing_fields check_event_id is_uuid check_event_type
    after_prefix is_ai_detection check_timestamp check_skew check_payload check_geo check_coordinate
    less decimal member result_of
frame_passes = refl

input-IsAccepted_example :
    (env : Fields) × (record_of frame_context.payload ≡ some env)
    × IsAccepted toy_date (check_context 100000500 none none) env
input-IsAccepted_example =
    input-IsAccepted toy_date toy_number (check_context 100000500 none none) frame_context
      frame_passes
