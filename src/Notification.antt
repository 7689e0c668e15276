-- ===== src/Notification.antt =====
-- services/notification-service/src/subscribers/incident-notifications.ts: the transitions of incidents
-- that are notified.
pub mod Duplicates
pub mod Channels
mod Tests
use airport_inspection_platf.Prelude.Json.{Fields, Json, member, null, obj, string_of}
use airport_inspection_platf.Incident.Requests.{is_uuid}
use airport_inspection_platf.Prelude.{
  Bool, List, Option, String, [], drop, false, if◌then◌else◌, length, ltb, none, or_else, some,
  str_eq, suc, ℕ, ◌++◌, ◌||◌, ◌∷◌,
}

pub record NotificationEvent : Type 0 where
  pub event_id : String
  pub event_type : String
  pub subject_id : String
  pub source : String
  pub occurred_at : String
  pub payload : Json
  pub rationale : Option String

-- What `parse` gives: undefined, an event, or the error of reading a field of null.
pub data ParsedEvent : Type 0 where
  malformed type_error : ParsedEvent
  parsed : NotificationEvent → ParsedEvent

-- `transition?.[key]`, where it is a text
abbrev pub transition_text : String → Option Json → Option String
unfolding member
transition_text key (some (obj t)) = string_of (member key t)
transition_text key _ = none

abbrev pub event_of : String → Fields → String → NotificationEvent
unfolding transition_text member
event_of now fs incident_id = record {
  event_id = or_else (string_of (member "event_id" fs)) incident_id;
  event_type = "incident.transitioned";
  subject_id = incident_id;
  source = "incident-service";
  occurred_at =
      or_else (transition_text "occurred_at" (member "transition" fs))
        (or_else (string_of (member "timestamp" fs)) now);
  payload = obj fs;
  rationale = transition_text "reason" (member "transition" fs);
}

abbrev pub incident_event : String → Fields → Option String → ParsedEvent
unfolding event_of is_uuid
incident_event now fs none = malformed
incident_event now fs (some incident_id) =
    if is_uuid incident_id then parsed (event_of now fs incident_id) else malformed

unfoldable pub event_in : String → Json → ParsedEvent
unfolding incident_event member
event_in now null = type_error
event_in now (obj fs) =
    if str_eq (or_else (string_of (member "event_type" fs)) "") "incident.transitioned"
    then incident_event now fs (string_of (member "incident_id" fs))
    else malformed
event_in now _ = malformed

-- The subscriber, with the events that it has dispatched to the channels, oldest first.
pub record IncidentNotificationsSubscriber : Type 0 where
  pub dropped : ℕ
  pub duplicates : ℕ
  pub seen : List String
  pub idempotency_window : ℕ
  pub dispatched : List NotificationEvent

abbrev pub includes : String → List String → Bool
includes id [] = false
includes id (s ∷ ss) = str_eq s id || includes id ss

-- `remember`: past the window, the oldest id goes
unfoldable pub remember : ℕ → String → List String → List String
remember window id seen =
    let longer = seen ++ id ∷ [] in if ltb window (length longer) then drop 1 longer else longer

-- `handleMessage` by what was parsed, under its `catch`
unfoldable pub handle_event :
    ParsedEvent → IncidentNotificationsSubscriber → IncidentNotificationsSubscriber
unfolding remember
handle_event malformed s = record s { dropped = suc s.dropped }
handle_event type_error s = s
handle_event (parsed event) s =
    if includes event.event_id s.seen
    then record s { duplicates = suc s.duplicates }
    else record s {
      seen = remember s.idempotency_window event.event_id s.seen;
      dispatched = s.dispatched ++ event ∷ [];
    }

-- `json_parse` is `JSON.parse`, none where it throws.
unfoldable pub handle_message :
    (String → Option Json)
    → String
    → String
    → IncidentNotificationsSubscriber
    → IncidentNotificationsSubscriber
unfolding event_in handle_event
handle_message json_parse now raw s = elim (json_parse raw) [
  | none ↦ handle_event malformed s
  | some v ↦ handle_event (event_in now v) s
]
