-- ===== src/Validation/Sanity.antt =====
-- services/validation-engine/src/layers/06-ai-output: whether the output of a model can be believed.
use airport_inspection_platf.Prelude.Json.{Fields, Json, member, num, record_of, str, string_of}
use airport_inspection_platf.Prelude.Decimals.{less}
use airport_inspection_platf.Prelude.Slices.{trim}
use airport_inspection_platf.Validation.Layers.{
  LayerFailure, ValidationContext, ValidationLayerResult, ai_output, push_if, result_of,
}
use airport_inspection_platf.Validation.Review.{is_ai_detection, join}
use airport_inspection_platf.Prelude.{
  Bool, List, Option, String, [], false, if◌then◌else◌, ltb, none, or_else, some, str_eq, truthy, ℕ,
  ◌*◌, ◌++◌, ◌+◌, ◌-◌, ◌/◌, ◌||◌, ◌∷◌,
}

pub record Bbox : Type 0 where
  pub x : String
  pub y : String
  pub w : String
  pub h : String

pub record ExtractedPayload : Type 0 where
  pub detection_id : Option String
  pub sensor_id : Option String
  pub frame_id : Option String
  pub confidence : String
  pub captured_at : Option String
  pub bbox : Option Bbox

-- The event type is one of an AI detection.
pub record ExtractedDetection : Type 0 where
  pub timestamp : Option String
  pub payload : ExtractedPayload

abbrev number_at : String → Fields → Option String
unfolding member
number_at key fs = elim (member key fs) [
  | none ↦ none
  | some v ↦ elim v [ num n ↦ some n | _ ↦ none ]
]

abbrev record_at : String → Fields → Option Fields
unfolding member
record_at key fs = elim (member key fs) [ none ↦ none | some v ↦ record_of v ]

abbrev bbox_of : Option String → Option String → Option String → Option String → Option Bbox
bbox_of (some x) (some y) (some w) (some h) = some (record { x = x; y = y; w = w; h = h })
bbox_of _ _ _ _ = none

unfoldable pub extract_bbox : Option Fields → Option Bbox
unfolding number_at
extract_bbox none = none
extract_bbox (some b) =
    bbox_of (number_at "x" b) (number_at "y" b) (number_at "w" b) (number_at "h" b)

unfoldable pub extract_payload : Option Fields → Option ExtractedPayload
unfolding number_at record_at extract_bbox member
extract_payload none = none
extract_payload (some p) = elim (number_at "confidence" p) [
  | none ↦ none
  | some confidence ↦ some (record {
    detection_id = string_of (member "detection_id" p);
    sensor_id = string_of (member "sensor_id" p);
    frame_id = string_of (member "frame_id" p);
    confidence = confidence;
    captured_at = string_of (member "captured_at" p);
    bbox = extract_bbox (record_at "bbox" p);
  })
]

abbrev detection_with : Option String → Option ExtractedPayload → Option ExtractedDetection
detection_with timestamp none = none
detection_with timestamp (some payload) = some (record { timestamp = timestamp; payload = payload })

-- The envelope of an AI detection whose payload can be read; all others pass.
unfoldable pub detection_of : Json → Option ExtractedDetection
unfolding record_at extract_payload is_ai_detection member
detection_of value = elim (record_of value) [
  | none ↦ none
  | some env ↦ elim (string_of (member "event_type" env)) [
    | none ↦ none
    | some event_type ↦
        if is_ai_detection event_type
        then detection_with (string_of (member "timestamp" env))
            (extract_payload (record_at "payload" env))
        else none
  ]
]

abbrev sanity_failure : String → String → Option String → LayerFailure
sanity_failure code message place = record {
  code = code;
  message = message;
  field = place;
  value = none;
  expected = none;
  actual = none;
}

-- `a === b`, where both are texts
abbrev pub same_text : Option String → Option String → Bool
same_text (some a) (some b) = str_eq a b
same_text _ _ = false

abbrev sentinels : List String
sentinels = "unknown" ∷ "n/a" ∷ "na" ∷ "none" ∷ "null" ∷ "-" ∷ []

abbrev is_among : String → List String → Bool
is_among s [] = false
is_among s (t ∷ ts) = str_eq t s || is_among s ts

pub record AiOutputSanityConfig : Type 0 where
  pub min_confidence : String
  pub max_capture_skew_ms : ℕ

-- the defaults: 0.4 and five minutes
abbrev pub sanity_config : Option String → Option ℕ → AiOutputSanityConfig
sanity_config min_confidence max_capture_skew_ms = record {
  min_confidence = or_else min_confidence "0.4";
  max_capture_skew_ms = or_else max_capture_skew_ms (5 * 60 * 1000);
}

-- `sum_of` is the addition of two doubles, by their texts; `to_lower` is `toLowerCase`; `date_parse` and
-- `number_text` are as in layer 1.
module _ (sum_of : String → String → String) (to_lower : String → String)
    (date_parse : String → Option ℕ) (number_text : ℕ → String) where
  abbrev past_edge : String → String → String → String → List LayerFailure
  unfolding less
  past_edge edge terms start extent = push_if (less "1.0001" (sum_of start extent)) (
      sanity_failure "BBOX_EXTENT_OUT_OF_IMAGE"
        (join "" ("bbox extends past " ∷ edge ∷ " edge: " ∷ terms ∷ "=" ∷ sum_of start extent ∷ []))
        (some "payload.bbox"))

  unfoldable pub check_bbox : Option Bbox → List LayerFailure
  unfolding past_edge
  check_bbox none = []
  check_bbox (some b) = past_edge "right" "x+w" b.x b.w ++ past_edge "bottom" "y+h" b.y b.h

  unfoldable pub check_confidence : AiOutputSanityConfig → String → List LayerFailure
  unfolding less
  check_confidence cfg confidence = push_if (less confidence cfg.min_confidence) (record {
    code = "CONFIDENCE_BELOW_MIN";
    message =
        join ""
          ("confidence " ∷ confidence ∷ " is below operational floor " ∷ cfg.min_confidence ∷ []);
    field = some "payload.confidence";
    value = none;
    expected = some (str (join "" (">= " ∷ cfg.min_confidence ∷ [])));
    actual = some (num confidence);
  })

  unfoldable pub is_blank_sentinel : Option String → Bool
  unfolding trim
  is_blank_sentinel none = false
  is_blank_sentinel (some s) = is_among (to_lower (trim s)) sentinels

  unfoldable pub check_linkage : ExtractedPayload → List LayerFailure
  unfolding is_blank_sentinel
  check_linkage p =
      push_if (is_blank_sentinel p.detection_id) (
        sanity_failure "EVIDENCE_LINKAGE_BLANK"
          (join "" (
            "detection_id \""
            ∷ or_else p.detection_id "undefined"
            ∷ "\" looks like a sentinel"
            ∷ []))
          (some "payload.detection_id"))
      ++ (push_if (same_text p.detection_id p.frame_id) (
            sanity_failure "EVIDENCE_LINKAGE_DUPLICATE"
              "detection_id and frame_id are identical — evidence linkage is unreliable" none)
          ++ push_if (same_text p.detection_id p.sensor_id || same_text p.frame_id p.sensor_id) (
              sanity_failure "EVIDENCE_LINKAGE_DUPLICATE"
                "sensor_id collides with detection_id or frame_id — evidence linkage is unreliable"
                none))

  abbrev rounded_seconds : ℕ → String
  rounded_seconds ms = number_text ((ms + 500) / 1000)

  abbrev capture_gap :
      AiOutputSanityConfig → String → String → Option ℕ → Option ℕ → List LayerFailure
  capture_gap cfg timestamp captured_at (some t) (some c) =
      if ltb t c
      then sanity_failure "CAPTURED_AT_AFTER_ENVELOPE"
          (join "" (
            "payload.captured_at (" ∷ captured_at ∷ ") is after envelope.timestamp (" ∷ timestamp
            ∷ ")" ∷ []))
          (some "payload.captured_at")
        ∷ []
      else push_if (ltb cfg.max_capture_skew_ms (t - c)) (
          sanity_failure "CAPTURE_SKEW_EXCEEDS_MAX"
            (join "" (
              "frame captured "
              ∷ rounded_seconds (t - c)
              ∷ "s before envelope; max allowed "
              ∷ rounded_seconds cfg.max_capture_skew_ms
              ∷ "s"
              ∷ []))
            (some "payload.captured_at"))
  capture_gap cfg timestamp captured_at _ _ = []

  unfoldable pub check_capture :
      AiOutputSanityConfig → Option String → Option String → List LayerFailure
  unfolding capture_gap
  check_capture cfg (some timestamp) (some captured_at) =
      capture_gap cfg timestamp captured_at (date_parse timestamp) (date_parse captured_at)
  check_capture cfg _ _ = []

  unfoldable pub check_output : AiOutputSanityConfig → ExtractedDetection → List LayerFailure
  unfolding check_bbox check_confidence check_linkage check_capture
  check_output cfg d =
      check_bbox d.payload.bbox
      ++ (check_confidence cfg d.payload.confidence
          ++ (check_linkage d.payload
              ++ check_capture cfg (truthy d.timestamp) (truthy d.payload.captured_at)))

  -- `run` of layer 6
  unfoldable pub ai_output_run : AiOutputSanityConfig → ValidationContext → ValidationLayerResult
  unfolding result_of detection_of check_output
  ai_output_run cfg ctx = elim (detection_of ctx.payload) [
    | none ↦ result_of ai_output []
    | some d ↦ result_of ai_output (check_output cfg d)
  ]
