-- ===== src/Pipeline/Persistence.antt =====
-- services/event-pipeline/src/persistence/persist-handler.ts: a frame and its outbox row, in one
-- transaction.
pub mod Once
use Prim.Native.String
use airport_inspection_platf.Prelude.Json.{Json}
use airport_inspection_platf.Prelude.{
  Bool, List, Option, Result, String, [], err, false, if◌then◌else◌, none, ok, or_else, some,
  str_eq, true, truthy, ◌++◌, ◌∷◌,
}

-- The event that the schema of a sensor frame gives.
pub record SensorFrameEvent : Type 0 where
  pub event_id : String
  pub idempotency_key : Option String
  pub sensor_id : String
  pub sensor_type : String
  pub frame_id : String
  pub captured_at : String
  pub geo : Json
  pub metadata : Json

-- A row of `sensor_events`; its key is unique.
pub record SensorEventRow : Type 0 where
  pub event : SensorFrameEvent
  pub airport_id : Option String
  pub row_key : String

pub record OutboxRow : Type 0 where
  pub channel : String
  pub payload : String

pub record Tables : Type 0 where
  pub sensor_events : List SensorEventRow
  pub event_outbox : List OutboxRow

pub data PersistError : Type 0 where
  malformed_json schema_violation database_refused : PersistError

-- A raw message as the parser and the schema take it.
pub data Parsed : Type 0 where
  not_json not_a_frame : Parsed
  frame : SensorFrameEvent → Parsed

-- `event.idempotency_key ?? event.event_id`
abbrev pub key_of : SensorFrameEvent → String
key_of event = or_else event.idempotency_key event.event_id

-- `ON CONFLICT (idempotency_key)`: whether a row has the key
unfoldable pub has_key : String → List SensorEventRow → Bool
has_key key [] = false
has_key key (r ∷ rows) = let rest = has_key key rows in if str_eq r.row_key key then true else rest

abbrev pub channel_name : String → Option String → String
channel_name prefix airport_id = elim (truthy airport_id) [
  | none ↦ prefix
  | some id ↦ String.◌++◌ prefix (String.◌++◌ "." id)
]

-- the body of the transaction
unfoldable pub insert_once : String → Option String → String → SensorFrameEvent → Tables → Tables
unfolding has_key
insert_once prefix airport_id raw_payload event tables =
    if has_key (key_of event) tables.sensor_events then tables else record {
      sensor_events =
          tables.sensor_events
          ++ record { event = event; airport_id = airport_id; row_key = key_of event } ∷ [];
      event_outbox =
          tables.event_outbox
          ++ record { channel = channel_name prefix airport_id; payload = raw_payload } ∷ [];
    }

-- The handler. `refused` says whether PostgreSQL refuses a statement, so that all is rolled back.
unfoldable pub persist :
    String → Option String → Bool → Parsed → String → Tables → Result PersistError Unit × Tables
unfolding insert_once
persist prefix airport_id refused not_json raw_payload tables = (err malformed_json, tables)
persist prefix airport_id refused not_a_frame raw_payload tables = (err schema_violation, tables)
persist prefix airport_id refused (frame event) raw_payload tables =
    if refused
    then (err database_refused, tables)
    else (ok tt, insert_once prefix airport_id raw_payload event tables)
