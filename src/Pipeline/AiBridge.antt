-- ===== src/Pipeline/AiBridge.antt =====
-- services/event-pipeline/src/ai-detections/bridge.ts: AI detections enter the outbox.
pub mod Airports
use Prim.Native.String
use airport_inspection_platf.Prelude.Map
use airport_inspection_platf.Prelude.Json.{Json, arr, member, null, obj, string_of}
use airport_inspection_platf.Prelude.Slices.{after_prefix}
use airport_inspection_platf.Pipeline.Persistence.{OutboxRow}
use airport_inspection_platf.Prelude.{
  Bool, List, Option, String, [], false, if◌then◌else◌, is_some, none, or_else, some, str_eq, suc,
  truthy, ℕ, ◌++◌, ◌∷◌,
}

-- The bridge, its counters, of which two are those of `invalid` by their reasons, and the table it
-- writes to.
pub record AiDetectionBridge : Type 0 where
  pub pattern : String
  pub broadcast_channel_prefix : String
  pub default_airport_id : String
  pub started : Bool
  pub bridged : List (String × ℕ)
  pub malformed_payload : ℕ
  pub handler_error : ℕ
  pub event_outbox : List OutboxRow

-- the constructor, which throws where no default airport is given
unfoldable pub new_ai_bridge :
    Option String → Option String → String → List OutboxRow → Option AiDetectionBridge
new_ai_bridge pattern prefix default_airport_id event_outbox =
    if str_eq default_airport_id ""
    then none
    else some (record {
      pattern = or_else pattern "ai.detection.*.emitted";
      broadcast_channel_prefix = or_else prefix "events.broadcast";
      default_airport_id = default_airport_id;
      started = false;
      bridged = [];
      malformed_payload = 0;
      handler_error = 0;
      event_outbox = event_outbox;
    })

-- A text parsed: undefined, an airport, or the error of reading a field of null.
pub data ParsedAirport : Type 0 where
  undefined type_error : ParsedAirport
  airport : String → ParsedAirport

abbrev pub airport_or : String → Option String → ParsedAirport
airport_or default_airport_id none = airport default_airport_id
airport_or default_airport_id (some id) = airport id

-- `typeof payload === "object"` is true of an array as well, which has no airport.
abbrev pub airport_of : String → Option Json → ParsedAirport
unfolding member
airport_of default_airport_id (some (obj p)) =
    airport_or default_airport_id (truthy (string_of (member "airport_id" p)))
airport_of default_airport_id (some (arr items)) = airport default_airport_id
airport_of default_airport_id _ = undefined

abbrev pub is_detection : Option String → Bool
unfolding after_prefix
is_detection none = false
is_detection (some event_type) = is_some (after_prefix "ai.detection." event_type)

unfoldable pub airport_in : String → Json → ParsedAirport
unfolding is_detection airport_of member
airport_in default_airport_id null = type_error
airport_in default_airport_id (obj fs) =
    if is_detection (string_of (member "event_type" fs))
    then airport_of default_airport_id (member "payload" fs)
    else undefined
airport_in default_airport_id _ = undefined

-- `JSON.parse` of the host
module _ (json_parse : String → Option Json) where
  unfoldable pub parse_airport : String → String → ParsedAirport
  unfolding airport_in
  parse_airport default_airport_id raw = elim (json_parse raw) [
    | none ↦ undefined
    | some v ↦ airport_in default_airport_id v
  ]

  abbrev pub bridge_channel : AiDetectionBridge → String → String
  bridge_channel b id = String.◌++◌ b.broadcast_channel_prefix (String.◌++◌ "." id)

  abbrev count_bridged : String → AiDetectionBridge → AiDetectionBridge
  count_bridged id b = record b {
    bridged = Map.set id (suc (or_else (Map.get id b.bridged) 0)) b.bridged;
  }

  -- `handle_message` under its `catch`, by what was parsed; `refused` says whether PostgreSQL refuses the
  -- row, which is then lost but for its count
  unfoldable pub on_parsed : Bool → String → ParsedAirport → AiDetectionBridge → AiDetectionBridge
  unfolding count_bridged
  on_parsed refused raw undefined b = record b { malformed_payload = suc b.malformed_payload }
  on_parsed refused raw type_error b = record b { handler_error = suc b.handler_error }
  on_parsed refused raw (airport id) b =
      if refused
      then record b { handler_error = suc b.handler_error }
      else count_bridged id (record b {
        event_outbox =
            b.event_outbox ++ record { channel = bridge_channel b id; payload = raw } ∷ [];
      })

  unfoldable pub on_pmessage : Bool → String → AiDetectionBridge → AiDetectionBridge
  unfolding on_parsed parse_airport
  on_pmessage refused raw b = on_parsed refused raw (parse_airport b.default_airport_id raw) b
