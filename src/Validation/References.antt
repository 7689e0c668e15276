-- ===== src/Validation/References.antt =====
-- services/validation-engine/src/layers/04-source-of-truth and 05-cross-system, with
-- src/reference/client.ts: what a detection names, against the reference data.
pub mod Agreement
use Prim.Native.String
use airport_inspection_platf.Prelude.Map
use airport_inspection_platf.Prelude.Json.{Json, member, record_of, str, string_of}
use airport_inspection_platf.Validation.Layers.{
  LayerFailure, ValidationContext, ValidationLayerResult, cross_system, push_if, result_of,
  source_of_truth,
}
use airport_inspection_platf.Prelude.{
  Bool, List, Option, String, [], false, is_some, none, not, some, str_eq, true, truthy, ◌++◌, ◌∷◌,
}

pub data SensorStatus : Type 0 where
  online degraded offline : SensorStatus

pub record SensorReference : Type 0 where
  pub id : String
  pub airport_id : String
  pub status : SensorStatus

pub record AirportReference : Type 0 where
  pub id : String
  pub iata_code : String

pub record ReferenceDataClient : Type 0 where
  pub get_sensor_by_id : String → Option SensorReference
  pub get_airport_by_id : String → Option AirportReference

abbrev sensors_by_id :
    List SensorReference → List (String × SensorReference) → List (String × SensorReference)
sensors_by_id [] m = m
sensors_by_id (s ∷ ss) m = sensors_by_id ss (Map.set s.id s m)

abbrev airports_by_id :
    List AirportReference → List (String × AirportReference) → List (String × AirportReference)
airports_by_id [] m = m
airports_by_id (a ∷ rest) m = airports_by_id rest (Map.set a.id a m)

-- `new InMemoryReferenceDataClient(opts)`: of two entries with one id, the later counts
unfoldable pub in_memory_client : List SensorReference → List AirportReference → ReferenceDataClient
in_memory_client sensors airports = record {
  get_sensor_by_id = λ id. Map.get id (sensors_by_id sensors []);
  get_airport_by_id = λ id. Map.get id (airports_by_id airports []);
}

-- An empty id counts as none at its uses.
pub record Ids : Type 0 where
  pub sensor_id : Option String
  pub airport_id : Option String

unfoldable pub extract_ids : Json → Option Ids
unfolding member
extract_ids value = elim (record_of value) [
  | none ↦ none
  | some env ↦ elim (member "payload" env) [
    | none ↦ none
    | some payload ↦ elim (record_of payload) [
      | none ↦ none
      | some p ↦ some (record {
        sensor_id = truthy (string_of (member "sensor_id" p));
        airport_id = truthy (string_of (member "airport_id" p));
      })
    ]
  ]
]

abbrev pub not_found : String → String → String → LayerFailure
not_found code key id = record {
  code = code;
  message = String.◌++◌ key (String.◌++◌ " \"" (String.◌++◌ id "\" not present in reference-data"));
  field = some (String.◌++◌ "payload." key);
  value = some (str id);
  expected = none;
  actual = none;
}

abbrev pub missing_sensor : ReferenceDataClient → Option String → List LayerFailure
missing_sensor client none = []
missing_sensor client (some id) =
    push_if (not (is_some (client.get_sensor_by_id id)))
      (not_found "SENSOR_NOT_FOUND" "sensor_id" id)

abbrev pub missing_airport : ReferenceDataClient → Option String → List LayerFailure
missing_airport client none = []
missing_airport client (some id) =
    push_if (not (is_some (client.get_airport_by_id id)))
      (not_found "AIRPORT_NOT_FOUND" "airport_id" id)

-- `run` of layer 4
unfoldable pub source_of_truth_run :
    Option ReferenceDataClient → ValidationContext → ValidationLayerResult
unfolding result_of extract_ids
source_of_truth_run none ctx = result_of source_of_truth []
source_of_truth_run (some client) ctx = elim (extract_ids ctx.payload) [
  | none ↦ result_of source_of_truth []
  | some ids ↦
      result_of source_of_truth
        (missing_sensor client ids.sensor_id ++ missing_airport client ids.airport_id)
]

abbrev pub is_offline : SensorStatus → Bool
is_offline offline = true
is_offline _ = false

abbrev pub airport_mismatch : String → SensorReference → LayerFailure
airport_mismatch id sensor = record {
  code = "SENSOR_AIRPORT_MISMATCH";
  message = String.◌++◌ "payload.airport_id " (
      String.◌++◌ id (
        String.◌++◌ " does not match sensor "
          (String.◌++◌ sensor.id (String.◌++◌ "'s airport " sensor.airport_id))));
  field = some "payload.airport_id";
  value = none;
  expected = some (str sensor.airport_id);
  actual = some (str id);
}

abbrev pub mismatched : Option String → SensorReference → List LayerFailure
mismatched none sensor = []
mismatched (some id) sensor =
    push_if (not (str_eq id sensor.airport_id)) (airport_mismatch id sensor)

abbrev pub offline_at_capture : SensorReference → LayerFailure
offline_at_capture sensor = record {
  code = "SENSOR_OFFLINE_AT_CAPTURE";
  message =
      String.◌++◌ "sensor "
        (String.◌++◌ sensor.id " is registered as offline but produced a detection");
  field = some "payload.sensor_id";
  value = none;
  expected = some (str "online | degraded");
  actual = some (str "offline");
}

unfoldable pub checks_of : Ids → Option SensorReference → ValidationLayerResult
unfolding result_of
checks_of ids none = result_of cross_system []
checks_of ids (some sensor) = result_of cross_system (
    mismatched ids.airport_id sensor
    ++ push_if (is_offline sensor.status) (offline_at_capture sensor))

unfoldable pub sensor_checks : ReferenceDataClient → Ids → Option String → ValidationLayerResult
unfolding checks_of
sensor_checks client ids none = result_of cross_system []
sensor_checks client ids (some sensor_id) = checks_of ids (client.get_sensor_by_id sensor_id)

-- layer 5 on the ids of a payload; a sensor that is not found is left to layer 4
unfoldable pub consistent : ReferenceDataClient → Ids → ValidationLayerResult
unfolding sensor_checks
consistent client ids = sensor_checks client ids ids.sensor_id

-- `run` of layer 5
unfoldable pub cross_system_run :
    Option ReferenceDataClient → ValidationContext → ValidationLayerResult
unfolding result_of extract_ids consistent
cross_system_run none ctx = result_of cross_system []
cross_system_run (some client) ctx = elim (extract_ids ctx.payload) [
  | none ↦ result_of cross_system []
  | some ids ↦ consistent client ids
]
