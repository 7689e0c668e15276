-- ===== src/Validation/Input.antt =====
-- services/validation-engine/src/layers/01-input: the gate that every payload passes first.
pub mod Gate
use Prim.Native.String
use airport_inspection_platf.Prelude.Json.{Fields, Json, member, null, num, obj, record_of, str}
use airport_inspection_platf.Prelude.Decimals.{less}
use airport_inspection_platf.Prelude.Slices.{after_prefix}
use airport_inspection_platf.Incident.Requests.{is_uuid}
use airport_inspection_platf.Validation.Layers.{
  LayerFailure, ValidationContext, ValidationLayerResult, input, push_if, result_of,
}
use airport_inspection_platf.Validation.Review.{is_ai_detection, join}
use airport_inspection_platf.Prelude.{
  List, Option, String, [], if◌then◌else◌, is_some, ltb, none, not, or_else, some, str_eq, ℕ, ◌&&◌,
  ◌*◌, ◌++◌, ◌+◌, ◌-◌, ◌/◌, ◌||◌, ◌∷◌,
}

abbrev input_failure : String → String → Option String → Option Json → LayerFailure
input_failure code message place value = record {
  code = code;
  message = message;
  field = place;
  value = value;
  expected = none;
  actual = none;
}

abbrev pub required_fields : List String
required_fields =
    "event_id" ∷ "event_type" ∷ "schema_version" ∷ "source" ∷ "timestamp" ∷ "payload" ∷ []

-- the loop over the required fields
unfoldable pub missing_fields : List String → Fields → List LayerFailure
unfolding member
missing_fields [] env = []
missing_fields (name ∷ names) env =
    push_if (not (is_some (member name env))) (
      input_failure "MISSING_FIELD" (join "" ("required field \"" ∷ name ∷ "\" is missing" ∷ []))
        (some name) none)
    ++ missing_fields names env

unfoldable pub check_event_id : Option Json → List LayerFailure
unfolding is_uuid
check_event_id (some (str id)) =
    push_if (not (is_uuid id))
      (input_failure "INVALID_UUID" "event_id must be a UUID" (some "event_id") (some (str id)))
check_event_id _ = []

-- An event type that starts with `ai.detection.` must be one of a detection.
unfoldable pub check_event_type : Option Json → List LayerFailure
unfolding after_prefix is_ai_detection
check_event_type (some (str t)) =
    if str_eq t ""
    then input_failure "EMPTY_EVENT_TYPE" "event_type must be non-empty" (some "event_type") none
      ∷ []
    else push_if (is_some (after_prefix "ai.detection." t) && not (is_ai_detection t)) (
        input_failure "INVALID_AI_DETECTION_EVENT_TYPE"
          "event_type must match \"ai.detection.<class>.emitted\"" (some "event_type")
          (some (str t)))
check_event_type _ = []

-- the bounds of a coordinate
unfoldable pub check_coordinate :
    String → String → String → String → Option Json → List LayerFailure
unfolding less
check_coordinate code key low high (some (num n)) = push_if (less n low || less high n) (
    input_failure code
      (join "" ("payload.geo." ∷ key ∷ " must be in [" ∷ low ∷ ", " ∷ high ∷ "]" ∷ []))
      (some (String.◌++◌ "payload.geo." key)) (some (num n)))
check_coordinate code key low high _ = []

unfoldable pub check_geo : Option Json → List LayerFailure
unfolding check_coordinate member
check_geo none = []
check_geo (some null) = []
check_geo (some (obj g)) =
    check_coordinate "GEO_LAT_OUT_OF_RANGE" "lat" "-90" "90" (member "lat" g)
    ++ check_coordinate "GEO_LNG_OUT_OF_RANGE" "lng" "-180" "180" (member "lng" g)
check_geo (some _) =
    input_failure "GEO_NOT_OBJECT" "payload.geo must be an object when present" (some "payload.geo")
      none
    ∷ []

unfoldable pub check_payload : Option Json → List LayerFailure
unfolding check_geo member
check_payload none = []
check_payload (some (obj p)) = check_geo (member "geo" p)
check_payload (some _) =
    input_failure "PAYLOAD_NOT_OBJECT" "payload must be a non-array object" (some "payload") none
    ∷ []

-- The bounds on the skew of a timestamp, in milliseconds.
pub record CheckContext : Type 0 where
  pub now : ℕ
  pub max_future : ℕ
  pub max_past : ℕ

-- the defaults: five minutes and a day
abbrev pub check_context : ℕ → Option ℕ → Option ℕ → CheckContext
check_context now max_future max_past = record {
  now = now;
  max_future = or_else max_future (5 * 60 * 1000);
  max_past = or_else max_past (24 * 60 * 60 * 1000);
}

-- `date_parse` is `Date.parse`, none for NaN, in milliseconds from an instant before all dates, from which
-- the clock counts too: only differences matter. `number_text` prints a number.
module _ (date_parse : String → Option ℕ) (number_text : ℕ → String) where
  -- `Math.round(ms / 1000)`
  abbrev seconds : ℕ → String
  seconds ms = number_text ((ms + 500) / 1000)

  unfoldable pub check_skew : CheckContext → String → ℕ → List LayerFailure
  check_skew c text parsed =
      if ltb (c.now + c.max_future) parsed
      then input_failure "TIMESTAMP_IN_FUTURE"
          (join "" (
            "timestamp is "
            ∷ seconds (parsed - c.now)
            ∷ "s in the future (max "
            ∷ seconds c.max_future
            ∷ "s)"
            ∷ []))
          (some "timestamp") (some (str text))
        ∷ []
      else push_if (ltb (parsed + c.max_past) c.now) (
          input_failure "TIMESTAMP_TOO_OLD"
            (join "" (
              "timestamp is "
              ∷ seconds (c.now - parsed)
              ∷ "s old (max "
              ∷ seconds c.max_past
              ∷ "s)"
              ∷ []))
            (some "timestamp") (some (str text)))

  unfoldable pub check_timestamp : CheckContext → Option Json → List LayerFailure
  unfolding check_skew
  check_timestamp c (some (str t)) = elim (date_parse t) [
    | none ↦
        input_failure "INVALID_TIMESTAMP" "timestamp must be ISO-8601" (some "timestamp")
          (some (str t))
        ∷ []
    | some parsed ↦ check_skew c t parsed
  ]
  check_timestamp c _ = []

  unfoldable pub collect_failures : Json → CheckContext → List LayerFailure
  unfolding missing_fields check_event_id check_event_type check_timestamp check_payload member
  collect_failures value c = elim (record_of value) [
    | none ↦
        input_failure "ENVELOPE_NOT_OBJECT" "submission payload must be a non-array object" none
          none
        ∷ []
    | some env ↦
        missing_fields required_fields env
        ++ (check_event_id (member "event_id" env)
            ++ (check_event_type (member "event_type" env)
                ++ (check_timestamp c (member "timestamp" env)
                    ++ check_payload (member "payload" env))))
  ]

  -- `run` of layer 1
  unfoldable pub input_run : CheckContext → ValidationContext → ValidationLayerResult
  unfolding result_of collect_failures
  input_run c ctx = result_of input (collect_failures ctx.payload c)
