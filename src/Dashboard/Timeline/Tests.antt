-- ===== src/Dashboard/Timeline/Tests.antt =====
-- A timeline of two transitions, and the theorem on it.
use Prim.Native.Nat.{Ordering}
use airport_inspection_platf.Prelude.{List, String, [], if◌then◌else◌, none, refl, some, ◌∷◌}
use airport_inspection_platf.Prelude.Text.{text_lt}
use airport_inspection_platf.Prelude.Json.{Fields, end, field, member, obj, str}
use airport_inspection_platf.Incident.Lifecycle.{
  IncidentCommand, IncidentStatus, Transition, acknowledge, acknowledged, assign, assigned, new,
}
use airport_inspection_platf.Dashboard.Timeline.{AuditEventRow}
use airport_inspection_platf.Dashboard.Timeline.Recorded.{
  Entry, Recorded, ignored, other_type, recorded,
}

abbrev by_text : String → String → Ordering
by_text s t = if text_lt s t then Ordering.lt else if text_lt t s then Ordering.gt else Ordering.eq

abbrev fields_of : String → String → String → String → Fields
fields_of from to command occurred_at = field "from" (str from) (
    field "to" (str to) (field "command" (str command) (field "occurred_at" (str occurred_at) end)))

abbrev row_of : String → Fields → AuditEventRow
row_of event_id fields = record {
  event_id = event_id;
  occurred_at = "2026-01-01T00:09:00.000Z";
  event_type = "incident.transitioned";
  actor_user_id = some "u1";
  payload = field "incident_id" (str "i1") (field "transition" (obj fields) end);
  rationale = none;
}

abbrev transition_of : IncidentStatus → IncidentStatus → IncidentCommand → String → Transition
transition_of from to command occurred_at = record {
  from = from;
  to = to;
  command = command;
  actor = "u1";
  reason = none;
  occurred_at = occurred_at;
}

abbrev acknowledged_row : Recorded
unfolding member
acknowledged_row = record {
  row = row_of "e1" (fields_of "new" "acknowledged" "acknowledge" "2026-01-01T00:01:00.000Z");
  change = transition_of new acknowledged acknowledge "2026-01-01T00:01:00.000Z";
  fields = fields_of "new" "acknowledged" "acknowledge" "2026-01-01T00:01:00.000Z";
  is_transition = refl;
  has_fields = refl;
  has_from = refl;
  has_to = refl;
  has_command = refl;
  has_occurred_at = refl;
}

abbrev assigned_row : Recorded
unfolding member
assigned_row = record {
  row = row_of "e2" (fields_of "acknowledged" "assigned" "assign" "2026-01-01T00:02:00.000Z");
  change = transition_of acknowledged assigned assign "2026-01-01T00:02:00.000Z";
  fields = fields_of "acknowledged" "assigned" "assign" "2026-01-01T00:02:00.000Z";
  is_transition = refl;
  has_fields = refl;
  has_from = refl;
  has_to = refl;
  has_command = refl;
  has_occurred_at = refl;
}

abbrev other_row : AuditEventRow
other_row = record (row_of "e3" end) { event_type = "auth.login" }

abbrev entries : List Entry
entries =
    recorded assigned_row
    ∷ ignored other_row (other_type (λ e. cc e))
    ∷ recorded acknowledged_row
    ∷ []
