-- ===== src/Dashboard/Timeline/Recorded.antt =====
-- apps/web/utils/incident-timeline.ts: the rows that record transitions, and those that give no step.
use airport_inspection_platf.Prelude.{
  Bool-cases, List, Option, String, [], false, inl, inr, map, none, refl, some, str_eq, str_eq_ne,
  truthy, ◌∷◌, ◌≡◌, ◌≢◌, ◌⊎◌,
}
use airport_inspection_platf.Prelude.Json.{Fields, member, obj, str}
use airport_inspection_platf.Incident.Lifecycle.{
  IncidentCommand, IncidentStatus, Transition, acknowledge, acknowledged, archive, archived, assign,
  assigned, escalate, escalated, in_progress, new, reject, rejected, resolve, resolved,
  start_progress,
}
use airport_inspection_platf.Dashboard.Timeline.{
  AuditEventRow, ExtractedTransition, extract_all, extract_transition, extracted, is_status,
  status_of_text,
}

abbrev pub text_of_status : IncidentStatus → String
text_of_status new = "new"
text_of_status acknowledged = "acknowledged"
text_of_status assigned = "assigned"
text_of_status in_progress = "in_progress"
text_of_status resolved = "resolved"
text_of_status escalated = "escalated"
text_of_status archived = "archived"
text_of_status rejected = "rejected"

abbrev pub text_of_command : IncidentCommand → String
text_of_command acknowledge = "acknowledge"
text_of_command assign = "assign"
text_of_command start_progress = "start_progress"
text_of_command resolve = "resolve"
text_of_command escalate = "escalate"
text_of_command archive = "archive"
text_of_command reject = "reject"

-- A row whose payload is the event of a transition, with whatever else it holds.
pub record Recorded : Type 0 where
  pub row : AuditEventRow
  pub change : Transition
  pub fields : Fields
  pub is_transition : row.event_type ≡ "incident.transitioned"
  pub has_fields : member "transition" row.payload ≡ some (obj fields)
  pub has_from : member "from" fields ≡ some (str (text_of_status change.from))
  pub has_to : member "to" fields ≡ some (str (text_of_status change.to))
  pub has_command : member "command" fields ≡ some (str (text_of_command change.command))
  pub has_occurred_at : member "occurred_at" fields ≡ some (str change.occurred_at)

-- What the timeline should show of it.
abbrev pub shown : Recorded → ExtractedTransition
shown r = record {
  event_id = r.row.event_id;
  occurred_at = r.change.occurred_at;
  from = r.change.from;
  to = r.change.to;
  command = text_of_command r.change.command;
  actor = r.row.actor_user_id;
  rationale = r.row.rationale;
}

is_status-text : (s : IncidentStatus) → is_status (some (str (text_of_status s))) ≡ some s
is_status-text new = refl
is_status-text acknowledged = refl
is_status-text assigned = refl
is_status-text in_progress = refl
is_status-text resolved = refl
is_status-text escalated = refl
is_status-text archived = refl
is_status-text rejected = refl

truthy-command :
    (c : IncidentCommand) → truthy (some (text_of_command c)) ≡ some (text_of_command c)
truthy-command acknowledge = refl
truthy-command assign = refl
truthy-command start_progress = refl
truthy-command resolve = refl
truthy-command escalate = refl
truthy-command archive = refl
truthy-command reject = refl

extract_transition-shown : (r : Recorded) → extract_transition r.row ≡ some (shown r)
unfolding extract_transition
extract_transition-shown r =
    rw (extract_transition, r.has_fields)
      (rw (r.has_from, r.has_to, r.has_command)
        (rw (is_status-text r.change.from) (
          rw (is_status-text r.change.to)
            (rw (truthy-command r.change.command) (rw r.has_occurred_at refl)))))

-- Why a row gives no step: it is of another type, it has no transition, or one of the statuses is unknown.
pub data IsIgnored (row : AuditEventRow) : Type 0 where
  other_type : row.event_type ≢ "incident.transitioned" → IsIgnored row
  no_transition : member "transition" row.payload ≡ none → IsIgnored row
  unknown_from :
      (fields : Fields) (text : String)
      → member "transition" row.payload ≡ some (obj fields)
      → member "from" fields ≡ some (str text)
      → ((s : IncidentStatus) → text ≢ text_of_status s)
      → IsIgnored row
  unknown_to :
      (fields : Fields) (text : String)
      → member "transition" row.payload ≡ some (obj fields)
      → member "to" fields ≡ some (str text)
      → ((s : IncidentStatus) → text ≢ text_of_status s)
      → IsIgnored row

-- A row of the audit log: of a transition, or without a step.
pub data Entry : Type 0 where
  recorded : Recorded → Entry
  ignored : (row : AuditEventRow) → IsIgnored row → Entry

abbrev pub row_in : Entry → AuditEventRow
row_in (recorded r) = r.row
row_in (ignored row why) = row

abbrev pub recorded_in : List Entry → List Recorded
recorded_in [] = []
recorded_in (recorded r ∷ entries) = r ∷ recorded_in entries
recorded_in (ignored row why ∷ entries) = recorded_in entries

unknown_status :
    (text : String) → ((s : IncidentStatus) → text ≢ text_of_status s) → status_of_text text ≡ none
unknown_status text n =
    rw
      (
        str_eq_ne text "new" (n new),
        str_eq_ne text "acknowledged" (n acknowledged),
        str_eq_ne text "assigned" (n assigned),
        str_eq_ne text "in_progress" (n in_progress),
        str_eq_ne text "resolved" (n resolved),
        str_eq_ne text "escalated" (n escalated),
        str_eq_ne text "archived" (n archived),
        str_eq_ne text "rejected" (n rejected),
      )
      refl

extracted_no_to :
    (row : AuditEventRow) (t : Fields) (from : Option IncidentStatus) (command : Option String)
    → extracted row t from none command ≡ none
extracted_no_to row t none command = refl
extracted_no_to row t (some from) command = refl

extract_ignored :
    (row : AuditEventRow)
    → IsIgnored row
    → (str_eq row.event_type "incident.transitioned" ≡ false) ⊎ (extract_transition row ≡ none)
unfolding extract_transition
extract_ignored row (other_type n) = inl (str_eq_ne row.event_type "incident.transitioned" n)
extract_ignored row (no_transition e) = inr (rw (extract_transition, e) refl)
extract_ignored row (unknown_from fields text e f n) =
    inr (rw (extract_transition, e) (rw f (rw (unknown_status text n) refl)))
extract_ignored row (unknown_to fields text e f n) = inr (
    rw (extract_transition, e) (rw f (rw (unknown_status text n) (extracted_no_to row fields _ _))))

pub extract_all-shown :
    (entries : List Entry) → extract_all (map row_in entries) ≡ map shown (recorded_in entries)
unfolding extract_all
extract_all-shown [] = refl
extract_all-shown (recorded r ∷ entries) =
    rw (r.is_transition, extract_transition-shown r, extract_all-shown entries) refl
extract_all-shown (ignored row why ∷ entries) = elim (extract_ignored row why) [
  | inl other ↦ rw other (extract_all-shown entries)
  | inr nothing ↦ elim (Bool-cases (str_eq row.event_type "incident.transitioned")) [
    | inl t ↦ rw (t, nothing) (extract_all-shown entries)
    | inr o ↦ rw o (extract_all-shown entries)
  ]
]
