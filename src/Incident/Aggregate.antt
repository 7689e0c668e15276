-- ===== src/Incident/Aggregate.antt =====
-- services/incident-service/src/domain/incident.ts and events.ts: the aggregate root, which applies a command and builds the event to publish.
pub mod History
use Prim.Native.String
use airport_inspection_platf.Incident.Lifecycle.{
  IncidentCommand, IncidentStatus, Transition, TransitionContext, TransitionError, acknowledged,
  archived, assigned, escalated, in_progress, new, rejected, resolved, transition,
}
use airport_inspection_platf.Prelude.{List, Option, Result, String, [], err, ok, ◌++◌, ◌>>=◌, ◌∷◌}

pub data Severity : Type 0 where
  critical high medium low info : Severity

pub record IncidentSnapshot : Type 0 where
  pub id : String
  pub airport_id : String
  pub sensor_id : Option String
  pub severity : Severity
  pub title : String
  pub detail : Option String
  pub status : IncidentStatus
  pub assignee : Option String
  pub created_at : String
  pub updated_at : String
  pub history : List Transition

-- `now` is the text of the clock's reading.
pub record DispatchOptions : Type 0 where
  pub command : IncidentCommand
  pub actor : String
  pub reason : Option String
  pub now : String
  pub correlation_id : Option String

pub record IncidentTransitionedEvent : Type 0 where
  pub event_type : String
  pub schema_version : String
  pub incident_id : String
  pub transition : Transition
  pub correlation_id : Option String

pub record DispatchResult : Type 0 where
  pub next : IncidentSnapshot
  pub transition : Transition
  pub event : IncidentTransitionedEvent

unfoldable pub status_name : IncidentStatus → String
status_name new = "new"
status_name acknowledged = "acknowledged"
status_name assigned = "assigned"
status_name in_progress = "in_progress"
status_name resolved = "resolved"
status_name escalated = "escalated"
status_name archived = "archived"
status_name rejected = "rejected"

unfoldable pub channel_for : Transition → String
unfolding status_name
channel_for t = String.◌++◌ "incident.transition." (status_name t.to)

unfoldable pub build_transition_event :
    String → Transition → Option String → IncidentTransitionedEvent
build_transition_event incident_id t correlation_id = record {
  event_type = "incident.transitioned";
  schema_version = "v1";
  incident_id = incident_id;
  transition = t;
  correlation_id = correlation_id;
}

unfoldable pub applied : IncidentSnapshot → Option String → Transition → DispatchResult
unfolding build_transition_event
applied s correlation_id t = record {
  next = record s { status = t.to; updated_at = t.occurred_at; history = s.history ++ (t ∷ []) };
  transition = t;
  event = build_transition_event s.id t correlation_id;
}

abbrev pub context : DispatchOptions → TransitionContext
context opts = record { actor = opts.actor; reason = opts.reason; now = opts.now }

unfoldable pub dispatch : IncidentSnapshot → DispatchOptions → Result TransitionError DispatchResult
unfolding applied
dispatch s opts = do
  t ← transition s.status opts.command (context opts)
  ok (applied s opts.correlation_id t)

-- The caller of `dispatch` keeps the snapshot when a command is refused.
abbrev pub next_or : IncidentSnapshot → Result TransitionError DispatchResult → IncidentSnapshot
next_or s (ok r) = r.next
next_or s (err e) = s

unfoldable pub dispatch_all : IncidentSnapshot → List DispatchOptions → IncidentSnapshot
dispatch_all s [] = s
dispatch_all s (opts ∷ rest) = dispatch_all (next_or s (dispatch s opts)) rest
