-- ===== src/Incident/Repository.antt =====
-- services/incident-service/src/repository/in-memory.ts and types.ts, with the envelope of packages/shared-contracts/src/domain/incident.ts
pub mod Order
pub mod Stored
pub mod Pages
use airport_inspection_platf.Prelude.Map
use mathlib.Core.Option
use Prim.Native.Nat.{Ordering}
use airport_inspection_platf.Prelude.Json.{Json, end, field, member, obj, str, string_of}
use airport_inspection_platf.Prelude.Text.{text_lt}
use airport_inspection_platf.Incident.Lifecycle.{IncidentStatus, new}
use airport_inspection_platf.Incident.Aggregate.{
  Severity, critical, high, info, low, medium, status_name,
}
use airport_inspection_platf.Prelude.{
  Bool, List, Option, Result, String, err, false, filter, if◌then◌else◌, last?, length, ltb, map,
  none, not, ok, or_else, some, str_eq, take, true, truthy, ℕ, ◌&&◌, ◌||◌,
}
use airport_inspection_platf.Prelude.Sort.{sort}

pub record Incident : Type 0 where
  pub id : String
  pub airport_id : String
  pub runway_id : Option String
  pub severity : Severity
  pub status : IncidentStatus
  pub title : String
  pub details : Option Json
  pub acknowledged_by : Option String
  pub acknowledged_at : Option String
  pub assigned_to : Option String
  pub resolved_at : Option String
  pub idempotency_key : Option String
  pub created_at : String
  pub updated_at : String

-- `now` is the text of the clock's reading.
pub record NewIncidentInput : Type 0 where
  pub id : Option String
  pub airport_id : String
  pub runway_id : Option String
  pub severity : Severity
  pub status : Option IncidentStatus
  pub title : String
  pub details : Option Json
  pub idempotency_key : Option String
  pub now : String

pub record ListIncidentsQuery : Type 0 where
  pub status : Option IncidentStatus
  pub severity : Option Severity
  pub airport_id : Option String
  pub runway_id : Option String
  pub created_after : Option String
  pub created_before : Option String

pub record PageRequest : Type 0 where
  pub cursor : Option String
  pub limit : ℕ

pub record IncidentListResult : Type 0 where
  pub items : List Incident
  pub next_cursor : Option String
  pub total : ℕ

pub record IdempotencyKeyConflictError : Type 0 where
  pub key : String
  pub existing_id : String

pub record InMemoryIncidentRepository : Type 0 where
  pub items : List (String × Incident)
  pub idempotency_index : List (String × String)

abbrev pub index_key : Option String → String → List (String × String) → List (String × String)
index_key none id index = index
index_key (some key) id index = Map.set key id index

-- The part of `create` after the idempotency check; `random_uuid` is what `randomUUID()` returns.
unfoldable pub create_new :
    NewIncidentInput → String → InMemoryIncidentRepository → Incident × InMemoryIncidentRepository
create_new input random_uuid repo =
    let incident : Incident = record {
      id = or_else input.id random_uuid;
      airport_id = input.airport_id;
      runway_id = input.runway_id;
      severity = input.severity;
      status = or_else input.status new;
      title = input.title;
      details = input.details;
      acknowledged_by = none;
      acknowledged_at = none;
      assigned_to = none;
      resolved_at = none;
      idempotency_key = input.idempotency_key;
      created_at = input.now;
      updated_at = input.now;
    } in
    (
      incident,
      record {
        items = Map.set incident.id incident repo.items;
        idempotency_index =
            index_key (truthy incident.idempotency_key) incident.id repo.idempotency_index;
      },
    )

-- The idempotency check: the incident that the key stands for, a conflict, or nothing.
unfoldable pub existing_for :
    Option String
    → InMemoryIncidentRepository
    → Option (Result IdempotencyKeyConflictError Incident)
existing_for none repo = none
existing_for (some key) repo = elim (truthy (Map.get key repo.idempotency_index)) [
  | none ↦ none
  | some existing ↦ elim (Map.get existing repo.items) [
    | some item ↦ some (ok item)
    | none ↦ some (err (record { key = key; existing_id = existing }))
  ]
]

unfoldable pub create :
    NewIncidentInput
    → String
    → InMemoryIncidentRepository
    → Result IdempotencyKeyConflictError Incident × InMemoryIncidentRepository
unfolding create_new existing_for
create input random_uuid repo = elim (existing_for (truthy input.idempotency_key) repo) [
  | some found ↦ (found, repo)
  | none ↦ let (incident, repo') = create_new input random_uuid repo in (ok incident, repo')
]

unfoldable pub find_by_id : String → InMemoryIncidentRepository → Option Incident
find_by_id id repo = Map.get id repo.items

unfoldable pub save : Incident → InMemoryIncidentRepository → Incident × InMemoryIncidentRepository
save incident repo = (incident, record repo { items = Map.set incident.id incident repo.items })

unfoldable pub severity_name : Severity → String
severity_name critical = "critical"
severity_name high = "high"
severity_name medium = "medium"
severity_name low = "low"
severity_name info = "info"

-- `query.x && item.x !== query.x` is false
abbrev agrees : Option String → Option String → Bool
agrees none actual = true
agrees (some wanted) none = false
agrees (some wanted) (some actual) = str_eq actual wanted

abbrev no_earlier : Option String → String → Bool
no_earlier none created_at = true
no_earlier (some after) created_at = not (text_lt created_at after)

abbrev earlier : Option String → String → Bool
earlier none created_at = true
earlier (some before) created_at = text_lt created_at before

unfoldable pub matches : Incident → ListIncidentsQuery → Bool
unfolding status_name severity_name
matches item query =
    agrees (Option.map status_name query.status) (some (status_name item.status))
    && agrees (Option.map severity_name query.severity) (some (severity_name item.severity))
    && agrees (truthy query.airport_id) (some item.airport_id)
    && agrees (truthy query.runway_id) item.runway_id
    && no_earlier (truthy query.created_after) item.created_at
    && earlier (truthy query.created_before) item.created_at

unfoldable pub compare_descending : Incident → Incident → Ordering
compare_descending a b =
    if text_lt a.created_at b.created_at
    then Ordering.gt
    else if text_lt b.created_at a.created_at
    then Ordering.lt
    else if text_lt a.id b.id
    then Ordering.gt
    else if text_lt b.id a.id
    then Ordering.lt
    else Ordering.eq

-- `Buffer`, base64url and `JSON`: `parse` is none where `JSON.parse` throws.
pub record CursorCodec : Type 0 where
  pub stringify : Json → String
  pub parse : String → Option Json
  pub to_base64url : String → String
  pub from_base64url : String → String

abbrev pub cursor_json : String → String → Json
cursor_json created_at id = obj (field "created_at" (str created_at) (field "id" (str id) end))

abbrev both : Option String → Option String → Option (String × String)
both (some a) (some b) = some (a, b)
both _ _ = none

-- The two fields of a decoded cursor, if they are texts.
abbrev cursor_fields : Option Json → Option (String × String)
cursor_fields (some (obj fs)) =
    both (string_of (member "created_at" fs)) (string_of (member "id" fs))
cursor_fields _ = none

-- The test of `list` for what lies after the cursor.
abbrev pub after_cursor : String → String → Incident → Bool
after_cursor created_at id item =
    text_lt item.created_at created_at || (str_eq item.created_at created_at && text_lt item.id id)

abbrev pub from_decoded : Option (String × String) → List Incident → List Incident
from_decoded none matched = matched
from_decoded (some (created_at, id)) matched = filter (after_cursor created_at id) matched

module _ (codec : CursorCodec) where
  open codec use {stringify, parse, to_base64url, from_base64url}

  unfoldable pub encode_cursor : String → String → String
  encode_cursor created_at id = to_base64url (stringify (cursor_json created_at id))

  unfoldable pub decode_cursor : String → Option (String × String)
  unfolding member
  decode_cursor raw = cursor_fields (parse (from_base64url raw))

  abbrev pub from_cursor : Option String → List Incident → List Incident
  from_cursor none matched = matched
  from_cursor (some raw) matched = from_decoded (decode_cursor raw) matched

  abbrev pub cursor_after : Option Incident → Option String
  cursor_after none = none
  cursor_after (some item) = some (encode_cursor item.created_at item.id)

  unfoldable pub list :
      ListIncidentsQuery → PageRequest → InMemoryIncidentRepository → IncidentListResult
  unfolding matches compare_descending sort encode_cursor decode_cursor text_lt
  list query page repo =
      let matched =
        sort compare_descending (filter (λ item. matches item query) (map (λ e. e.1) repo.items)) in
      let rest = from_cursor (truthy page.cursor) matched in
      let slice = take page.limit rest in
      record {
        items = slice;
        next_cursor = if ltb (length slice) (length rest) then cursor_after (last? slice) else none;
        total = length matched;
      }
