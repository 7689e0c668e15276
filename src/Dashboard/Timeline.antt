-- ===== src/Dashboard/Timeline.antt =====
-- apps/web/utils/incident-timeline.ts: the timeline of an incident, read back from the audit log.
use Prim.Native.String
pub mod Recorded
pub mod History
mod Tests
use Prim.Native.Nat.{Ordering}
use airport_inspection_platf.Prelude.{
  List, Option, String, [], if◌then◌else◌, length, map, min, none, or_else, some, str_eq, suc,
  truthy, zero, ℕ, ◌∷◌,
}
use airport_inspection_platf.Prelude.Sort.{sort}
use airport_inspection_platf.Prelude.Json.{Fields, Json, member, record_of, str, string_of}
use airport_inspection_platf.Incident.Lifecycle.{
  IncidentStatus, acknowledged, archived, assigned, escalated, in_progress, new, rejected, resolved,
}

-- The fields of a row of the audit log that the timeline reads.
pub record AuditEventRow : Type 0 where
  pub event_id : String
  pub occurred_at : String
  pub event_type : String
  pub actor_user_id : Option String
  pub payload : Fields
  pub rationale : Option String

-- `"created"` and `"transition"`
pub data TimelineStepKind : Type 0 where
  created transitioned : TimelineStepKind

pub record TimelineStep : Type 0 where
  pub kind : TimelineStepKind
  pub id : String
  pub status : IncidentStatus
  pub occurred_at : String
  pub actor : Option String
  pub rationale : Option String
  pub from : Option IncidentStatus
  pub command : Option String

pub record ExtractedTransition : Type 0 where
  pub event_id : String
  pub occurred_at : String
  pub from : IncidentStatus
  pub to : IncidentStatus
  pub command : String
  pub actor : Option String
  pub rationale : Option String

-- `VALID_STATUSES`, and the status that a text is
abbrev pub status_of_text : String → Option IncidentStatus
status_of_text s =
    if str_eq s "new"
    then some new
    else if str_eq s "acknowledged"
    then some acknowledged
    else if str_eq s "assigned"
    then some assigned
    else if str_eq s "in_progress"
    then some in_progress
    else if str_eq s "resolved"
    then some resolved
    else if str_eq s "escalated"
    then some escalated
    else if str_eq s "archived"
    then some archived
    else if str_eq s "rejected"
    then some rejected
    else none

-- `isStatus(v) ? v : undefined`
abbrev pub is_status : Option Json → Option IncidentStatus
is_status (some (str s)) = status_of_text s
is_status _ = none

-- `payload.transition` where it is an object
abbrev pub transition_in : Option Json → Option Fields
transition_in none = none
transition_in (some t) = record_of t

abbrev pub extracted :
    AuditEventRow
    → Fields
    → Option IncidentStatus
    → Option IncidentStatus
    → Option String
    → Option ExtractedTransition
extracted row t (some from) (some to) (some command) = some (record {
  event_id = row.event_id;
  occurred_at = or_else (string_of (member "occurred_at" t)) row.occurred_at;
  from = from;
  to = to;
  command = command;
  actor = row.actor_user_id;
  rationale = row.rationale;
})
extracted row t _ _ _ = none

unfoldable pub extract_transition : AuditEventRow → Option ExtractedTransition
unfolding member
extract_transition row = elim (transition_in (member "transition" row.payload)) [
  | none ↦ none
  | some t ↦
      extracted row t (is_status (member "from" t)) (is_status (member "to" t))
        (truthy (string_of (member "command" t)))
]

abbrev pub keep_some :
    Option ExtractedTransition → List ExtractedTransition → List ExtractedTransition
keep_some none ts = ts
keep_some (some t) ts = t ∷ ts

-- the rows of transitions that have the shape of one
unfoldable pub extract_all : List AuditEventRow → List ExtractedTransition
unfolding extract_transition
extract_all [] = []
extract_all (r ∷ rows) =
    let rest = extract_all rows in
    if str_eq r.event_type "incident.transitioned"
    then keep_some (extract_transition r) rest
    else rest

abbrev pub created_step : ExtractedTransition → TimelineStep
created_step first = record {
  kind = created;
  id = String.◌++◌ "created:" first.event_id;
  status = first.from;
  occurred_at = first.occurred_at;
  actor = none;
  rationale = none;
  from = none;
  command = none;
}

abbrev pub transition_step : ExtractedTransition → TimelineStep
transition_step t = record {
  kind = transitioned;
  id = String.◌++◌ "transition:" t.event_id;
  status = t.to;
  occurred_at = t.occurred_at;
  actor = t.actor;
  rationale = t.rationale;
  from = some t.from;
  command = some t.command;
}

abbrev pub steps_of : List ExtractedTransition → List TimelineStep
steps_of [] = []
steps_of (first ∷ rest) = created_step first ∷ map transition_step (first ∷ rest)

-- `buildIncidentTimeline`; `locale_compare` is `localeCompare`.
unfoldable pub build_incident_timeline :
    (String → String → Ordering) → List AuditEventRow → List TimelineStep
unfolding extract_all sort
build_incident_timeline locale_compare rows =
    steps_of (sort (λ a b. locale_compare a.occurred_at b.occurred_at) (extract_all rows))

abbrev step_at : ℕ → List TimelineStep → Option TimelineStep
step_at index [] = none
step_at zero (step ∷ steps) = some step
step_at (suc index) (step ∷ steps) = step_at index steps

-- `snapshotAt`, for an index that is not negative
unfoldable pub snapshot_at : List TimelineStep → ℕ → Option TimelineStep
snapshot_at [] index = none
snapshot_at (first ∷ rest) index = step_at (min index (length rest)) (first ∷ rest)
