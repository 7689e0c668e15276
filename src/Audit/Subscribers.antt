-- ===== src/Audit/Subscribers.antt =====
-- services/audit-service/src/subscribers: the messages of Redis that become entries of the chain.
pub mod Chained
use airport_inspection_platf.Prelude.Json.{
  Fields, Json, arr, end, member, null, obj, str, string_of,
}
use airport_inspection_platf.Incident.Requests.{is_uuid}
use airport_inspection_platf.Audit.Chain.{ChainEntry}
use airport_inspection_platf.Audit.Writer.{AuditAppendInput, Statement, append}
use airport_inspection_platf.Prelude.{
  Bool, List, Option, String, if◌then◌else◌, none, or_else, some, str_eq, suc, truthy, ℕ,
}

-- What `parse` gives: undefined, an input of the writer, or the error of reading a field of null.
pub data ParsedMessage : Type 0 where
  malformed type_error : ParsedMessage
  parsed : AuditAppendInput → ParsedMessage

abbrev uuid_only : Option String → Option String
unfolding is_uuid
uuid_only none = none
uuid_only (some s) = if is_uuid s then some s else none

-- `envelope.transition` as its fields: an array is an object without them
abbrev pub transition_fields : Option Json → Option Fields
transition_fields (some (obj fs)) = some fs
transition_fields (some (arr items)) = some end
transition_fields _ = none

abbrev pub transition_input : Json → Fields → String → Fields → AuditAppendInput
unfolding uuid_only member
transition_input envelope env incident_id t = record {
  source = "incident-service";
  event_type = "incident.transitioned";
  payload = envelope;
  occurred_at = truthy (string_of (member "occurred_at" t));
  actor_user_id = uuid_only (string_of (member "actor" t));
  subject_id = some incident_id;
  correlation_id = uuid_only (string_of (member "correlation_id" env));
  rationale = truthy (string_of (member "reason" t));
  event_id = none;
}

abbrev pub input_or_malformed : Option AuditAppendInput → ParsedMessage
input_or_malformed none = malformed
input_or_malformed (some input) = parsed input

-- `parse` of incident-transitions.ts on a value of JSON
unfoldable pub parse_transition : Json → ParsedMessage
unfolding transition_input uuid_only member
parse_transition null = type_error
parse_transition (obj env) =
    if str_eq (or_else (string_of (member "event_type" env)) "") "incident.transitioned"
    then elim (uuid_only (string_of (member "incident_id" env))) [
      | none ↦ malformed
      | some incident_id ↦ elim (transition_fields (member "transition" env)) [
        | none ↦ malformed
        | some t ↦ parsed (transition_input (obj env) env incident_id t)
      ]
    ]
    else malformed
parse_transition _ = malformed

-- an id that may be null, or else is a UUID; none where neither holds
abbrev pub nullable_uuid : Option Json → Option (Option String)
unfolding is_uuid
nullable_uuid (some null) = some none
nullable_uuid (some (str s)) = if is_uuid s then some (some s) else none
nullable_uuid _ = none

abbrev service_of : Option Json → Option String
unfolding member
service_of (some (obj source)) = truthy (string_of (member "service" source))
service_of _ = none

abbrev pub security_input :
    Json
    → Fields
    → Option String
    → Option String
    → Option (Option String)
    → Option (Option String)
    → Option AuditAppendInput
unfolding member
security_input envelope env (some event_type) (some service) (some actor) (some subject) =
    some (record {
      source = service;
      event_type = event_type;
      payload = envelope;
      occurred_at = truthy (string_of (member "timestamp" env));
      actor_user_id = actor;
      subject_id = subject;
      correlation_id = truthy (string_of (member "correlation_id" env));
      rationale = none;
      event_id = none;
    })
security_input envelope env _ _ _ _ = none

-- `parse` of security-events.ts on a value of JSON
unfoldable pub parse_security_event : Json → ParsedMessage
unfolding security_input nullable_uuid service_of member
parse_security_event null = type_error
parse_security_event (obj env) =
    if str_eq (or_else (string_of (member "schema_version" env)) "") "v1"
    then input_or_malformed (
        security_input (obj env) env (string_of (member "event_type" env))
          (service_of (member "source" env)) (nullable_uuid (member "actor_user_id" env))
          (nullable_uuid (member "subject_id" env)))
    else malformed
parse_security_event _ = malformed

-- The count of dropped messages of each subscriber, with the table of the chain.
pub record AuditLog : Type 0 where
  pub dropped_transitions : ℕ
  pub dropped_security_events : ℕ
  pub rows : List ChainEntry

-- A message with what surrounds it: whether it is a transition or a security event, the statement of the
-- transaction that PostgreSQL refuses, if any, and the id and the time that would be drawn.
pub record AuditMessage : Type 0 where
  pub is_transition : Bool
  pub raw : String
  pub refuses : Option Statement
  pub random_id : String
  pub now : String

module _ (sha256 : String → String) (stringify : Json → String)
    (json_parse : String → Option Json) where
  abbrev pub parse : Bool → String → ParsedMessage
  unfolding parse_transition parse_security_event
  parse is_transition raw = elim (json_parse raw) [
    | none ↦ malformed
    | some v ↦ if is_transition then parse_transition v else parse_security_event v
  ]

  -- `handle_message` under its `catch`: an error is logged and the message is lost
  unfoldable pub handle_parsed : ParsedMessage → AuditMessage → AuditLog → AuditLog
  unfolding append
  handle_parsed malformed m log =
      if m.is_transition
      then record log { dropped_transitions = suc log.dropped_transitions }
      else record log { dropped_security_events = suc log.dropped_security_events }
  handle_parsed type_error m log = log
  handle_parsed (parsed input) m log = record log {
    rows = (append sha256 stringify (λ e. tt) m.refuses input m.random_id m.now log.rows).1;
  }

  unfoldable pub on_pmessage : AuditMessage → AuditLog → AuditLog
  unfolding handle_parsed parse
  on_pmessage m log = handle_parsed (parse m.is_transition m.raw) m log
