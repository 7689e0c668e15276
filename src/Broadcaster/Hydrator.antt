-- ===== src/Broadcaster/Hydrator.antt =====
-- services/ws-broadcaster/src/channels/hydrator.ts: the rows that a client is sent when it connects.
pub mod Resume
use airport_inspection_platf.Prelude.Json.{Json, end, field, obj, str}
use airport_inspection_platf.Prelude.Sort.{is_lt, sort}
use airport_inspection_platf.Prelude.Text.{text_lt}
use airport_inspection_platf.Incident.Requests.{is_uuid}
use Prim.Native.Nat.{Ordering}
use airport_inspection_platf.Prelude.{
  Bool, List, Option, String, [], drop, filter, if◌then◌else◌, length, ltb, max, min, none, not,
  or_else, some, str_eq, suc, take, ℕ, ◌-◌, ◌∷◌,
}

-- A row of `sensor_events`, with the rest of its columns as the payload that they make.
pub record SensorEventRow : Type 0 where
  pub event_id : String
  pub airport_id : String
  pub received_at : String
  pub payload : Json

pub record HydrationFrame : Type 0 where
  pub event_id : String
  pub received_at : String
  pub message : String

pub data HydrationMode : Type 0 where
  resume resume_fallback resume_capped : HydrationMode

pub record HydrationResult : Type 0 where
  pub frames : List SensorEventRow
  pub mode : HydrationMode

pub record FrameHydrator : Type 0 where
  pub default_limit : ℕ
  pub default_resume_limit : ℕ

-- the constructor: 50 and 500 by default, capped at 200 and 1000
abbrev pub new_hydrator : Option ℕ → Option ℕ → FrameHydrator
new_hydrator default_limit default_resume_limit = record {
  default_limit = min (or_else default_limit 50) 200;
  default_resume_limit = min (or_else default_resume_limit 500) 1000;
}

-- `ORDER BY received_at ASC, event_id ASC`
unfoldable pub compare_rows : SensorEventRow → SensorEventRow → Ordering
compare_rows x y =
    if text_lt x.received_at y.received_at
    then Ordering.lt
    else if text_lt y.received_at x.received_at
    then Ordering.gt
    else if text_lt x.event_id y.event_id
    then Ordering.lt
    else if text_lt y.event_id x.event_id
    then Ordering.gt
    else Ordering.eq

-- the rows of an airport, oldest first
unfoldable pub rows_of : String → List SensorEventRow → List SensorEventRow
unfolding sort compare_rows
rows_of airport_id table = sort compare_rows (filter (λ r. str_eq r.airport_id airport_id) table)

-- `(e.received_at, e.event_id) > (cursor.received_at, cursor.event_id)`
abbrev pub after_row : SensorEventRow → SensorEventRow → Bool
after_row cursor r = is_lt (compare_rows cursor r)

-- `WHERE event_id = $2`, of which there is one row at most
unfoldable pub find_row : String → List SensorEventRow → Option SensorEventRow
find_row event_id [] = none
find_row event_id (r ∷ rows) =
    let rest = find_row event_id rows in if str_eq r.event_id event_id then some r else rest

-- `hydrate`: the freshest rows, oldest first
unfoldable pub hydrate :
    FrameHydrator → String → Option ℕ → List SensorEventRow → List SensorEventRow
unfolding rows_of
hydrate h airport_id limit table =
    let effective_limit = min (max 1 (or_else limit h.default_limit)) 200 in
    let rows = rows_of airport_id table in drop (length rows - effective_limit) rows

-- the rows after the cursor, if there is one
unfoldable pub rows_after : String → String → List SensorEventRow → List SensorEventRow
unfolding rows_of find_row
rows_after airport_id last_event_id table = elim (find_row last_event_id table) [
  | none ↦ []
  | some cursor ↦ filter (after_row cursor) (rows_of airport_id table)
]

-- the result by the rows that the query gives, one more than the limit at most
unfoldable pub resumed :
    FrameHydrator → String → List SensorEventRow → ℕ → List SensorEventRow → HydrationResult
unfolding hydrate
resumed h airport_id table effective_limit [] = record {
  frames = hydrate h airport_id none table;
  mode = resume_fallback;
}
resumed h airport_id table effective_limit (r ∷ rows) =
    if ltb effective_limit (length (r ∷ rows))
    then record { frames = take effective_limit (r ∷ rows); mode = resume_capped }
    else record { frames = r ∷ rows; mode = resume }

abbrev pub limit_of : FrameHydrator → Option ℕ → ℕ
limit_of h limit = min (max 1 (or_else limit h.default_resume_limit)) 1000

unfoldable pub hydrate_since :
    FrameHydrator → String → String → Option ℕ → List SensorEventRow → HydrationResult
unfolding resumed rows_after hydrate
hydrate_since h airport_id last_event_id limit table =
    if not (is_uuid last_event_id)
    then record { frames = hydrate h airport_id none table; mode = resume_fallback }
    else resumed h airport_id table (limit_of h limit)
        (take (suc (limit_of h limit)) (rows_after airport_id last_event_id table))

-- `rowToFrame`
unfoldable pub row_to_frame : (Json → String) → SensorEventRow → HydrationFrame
row_to_frame stringify r = record {
  event_id = r.event_id;
  received_at = r.received_at;
  message = stringify (
      obj (
        field "type" (str "sensor.frame.captured") (
          field "schema_version" (str "v1") (
            field "timestamp" (str r.received_at)
              (field "last_event_id" (str r.event_id) (field "payload" r.payload end))))));
}
