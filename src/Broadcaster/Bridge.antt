-- ===== src/Broadcaster/Bridge.antt =====
-- services/ws-broadcaster/src/redis-bridge.ts: what comes from Redis goes to the clients of an airport.
pub mod Route
use Prim.Native.String
use airport_inspection_platf.Prelude.Map
use airport_inspection_platf.Prelude.Json.{
  Fields, Json, end, field, member, null, obj, str, string_of,
}
use airport_inspection_platf.Prelude.Slices.{after_prefix}
use airport_inspection_platf.Broadcaster.Registry.{ChannelRegistry, Sent, dispatch}
use airport_inspection_platf.Prelude.{
  Bool, List, Option, String, [], false, if◌then◌else◌, none, or_else, some, suc, true, truthy, ℕ,
  ◌∷◌,
}

-- The bridge with its two counters, of which the second is kept by its reason.
pub record RedisBridge : Type 0 where
  pub pattern : String
  pub prefix : String
  pub started : Bool
  pub received : List (String × ℕ)
  pub missing_airport : ℕ
  pub malformed_payload : ℕ

pub data RedisCall : Type 0 where
  psubscribe punsubscribe : String → RedisCall

abbrev pub new_bridge : Option String → Option String → RedisBridge
new_bridge pattern prefix = record {
  pattern = or_else pattern "events.broadcast.*";
  prefix = or_else prefix "events.broadcast";
  started = false;
  received = [];
  missing_airport = 0;
  malformed_payload = 0;
}

unfoldable pub start : RedisBridge → RedisBridge × List RedisCall
start b = if b.started then (b, []) else (record b { started = true }, psubscribe b.pattern ∷ [])

unfoldable pub stop : RedisBridge → RedisBridge × List RedisCall
stop b = if b.started then (record b { started = false }, punsubscribe b.pattern ∷ []) else (b, [])

-- `tail.length > 0 ? tail : undefined`
unfoldable pub extract_airport_id : String → String → Option String
extract_airport_id prefix channel = truthy (after_prefix (String.◌++◌ prefix ".") channel)

-- `typeof parsed.event_type === "string"`, where `JSON.parse` may throw, as may reading a field of null
abbrev pub event_type_of : Json → Option String
unfolding member
event_type_of (obj fs) = string_of (member "event_type" fs)
event_type_of _ = none

-- `JSON.parse` and `JSON.stringify` of the host
module _ (parse : String → Option Json) (stringify : Json → String) where
  -- An empty event type counts as none at its use.
  unfoldable pub peek_event_type : String → Option String
  unfolding event_type_of
  peek_event_type raw = elim (parse raw) [
    | none ↦ none
    | some parsed ↦ truthy (event_type_of parsed)
  ]

  abbrev pub id_field : Option String → Fields → Fields
  id_field none fs = fs
  id_field (some id) fs = field "last_event_id" (str id) fs

  -- `parsed["payload"] ?? parsed`
  abbrev pub payload_of : Option Json → Json → Json
  payload_of none parsed = parsed
  payload_of (some null) parsed = parsed
  payload_of (some v) parsed = v

  abbrev pub envelope_of : String → String → Fields → Json
  unfolding member
  envelope_of event_type now fs = obj (
      field "type" (str event_type) (
        field "schema_version" (str (or_else (string_of (member "schema_version" fs)) "v1")) (
          field "timestamp" (str (or_else (string_of (member "timestamp" fs)) now)) (
            id_field (string_of (member "event_id" fs))
              (field "payload" (payload_of (member "payload" fs) (obj fs)) end)))))

  -- It is called on a payload whose type was read, so that what it parses is an object.
  abbrev pub wrap : String → String → Option Json → String
  wrap event_type now (some (obj fs)) = stringify (envelope_of event_type now fs)
  wrap event_type now _ = ""

  unfoldable pub to_ws_envelope : String → String → String → String
  unfolding wrap
  to_ws_envelope raw event_type now = wrap event_type now (parse raw)

  abbrev pub count_received : String → RedisBridge → RedisBridge
  count_received airport_id b = record b {
    received = Map.set airport_id (suc (or_else (Map.get airport_id b.received) 0)) b.received;
  }

  -- `sends` says which sockets take a message.
  unfoldable pub handle_message :
      (String → Bool)
      → String
      → String
      → String
      → ChannelRegistry
      → RedisBridge
      → RedisBridge × Sent
  unfolding extract_airport_id peek_event_type to_ws_envelope dispatch
  handle_message sends now channel payload r b = elim (extract_airport_id b.prefix channel) [
    | none ↦ (record b { missing_airport = suc b.missing_airport }, [])
    | some airport_id ↦ elim (peek_event_type payload) [
      | none ↦ (record b { malformed_payload = suc b.malformed_payload }, [])
      | some event_type ↦ (
        count_received airport_id b,
        dispatch sends airport_id event_type (to_ws_envelope payload event_type now) r,
      )
    ]
  ]
