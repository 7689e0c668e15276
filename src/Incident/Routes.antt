-- ===== src/Incident/Routes.antt =====
-- services/incident-service/src/routes/incidents.ts and events/publisher.ts
pub mod Laws
pub mod Log
use airport_inspection_platf.Prelude.Json.{Json}
use airport_inspection_platf.Auth.{
  Auth, Gate, Permission, forbidden, incident_acknowledge, incident_archive, incident_assign,
  incident_create, incident_escalate, incident_read, incident_reject, incident_resolve,
  incident_start_progress, pass, require_role, roles_for, unauthorized,
}
use airport_inspection_platf.Incident.Lifecycle.{
  IncidentCommand, Transition, TransitionError, acknowledge, archive, assign, escalate,
  illegal_transition, reject, resolve, start_progress, terminal_state,
}
use airport_inspection_platf.Incident.Aggregate.{
  DispatchOptions, DispatchResult, IncidentSnapshot, IncidentTransitionedEvent, channel_for,
  dispatch, status_name,
}
use airport_inspection_platf.Incident.Repository.{
  CursorCodec, IdempotencyKeyConflictError, InMemoryIncidentRepository, Incident,
  IncidentListResult, ListIncidentsQuery, NewIncidentInput, PageRequest, create, find_by_id, list,
  save,
}
use airport_inspection_platf.Incident.Requests.{TransitionBody, is_uuid, parse_body, parse_create}
use airport_inspection_platf.Prelude.{
  Bool, List, Option, Result, String, [], err, false, if◌then◌else◌, none, ok, some, true, ℕ, ◌++◌,
  ◌∷◌,
}

-- The publisher: what Redis took, and the labels for which each counter was raised.
pub record IncidentEventPublisher : Type 0 where
  pub sent : List (String × IncidentTransitionedEvent)
  pub published : List String
  pub failures : List String

-- `emit`: `up` says whether Redis takes the message. The result says whether `emit` returned.
unfoldable pub emit :
    Bool → IncidentTransitionedEvent → IncidentEventPublisher → Bool × IncidentEventPublisher
unfolding channel_for status_name
emit up event p =
    if up
    then (
      true,
      record p {
        sent = p.sent ++ ((channel_for event.transition, event) ∷ []);
        published = p.published ++ (status_name event.transition.to ∷ []);
      },
    )
    else (false, record p { failures = p.failures ++ (status_name event.transition.to ∷ []) })

pub record Service : Type 0 where
  pub repository : InMemoryIncidentRepository
  pub events : Option IncidentEventPublisher

pub data Reply : Type 0 where
  incident : ℕ → Incident → Reply
  page : IncidentListResult → Reply
  failure : ℕ → String → Reply

unfoldable pub permission_of : IncidentCommand → Permission
permission_of acknowledge = incident_acknowledge
permission_of assign = incident_assign
permission_of start_progress = incident_start_progress
permission_of resolve = incident_resolve
permission_of escalate = incident_escalate
permission_of archive = incident_archive
permission_of reject = incident_reject

-- The fields that a route sets on the envelope after its transition.
unfoldable pub denormalize : IncidentCommand → TransitionBody → Transition → Incident → Incident
denormalize acknowledge body t item = record item {
  acknowledged_by = some t.actor;
  acknowledged_at = some t.occurred_at;
}
denormalize assign body t item = record item { assigned_to = body.assignee_id }
denormalize resolve body t item = record item { resolved_at = some t.occurred_at }
denormalize _ body t item = item

-- `{ ...found, history: [] }` as a snapshot
unfoldable pub snapshot_of : Incident → IncidentSnapshot
snapshot_of found = record {
  id = found.id;
  airport_id = found.airport_id;
  sensor_id = none;
  severity = found.severity;
  title = found.title;
  detail = none;
  status = found.status;
  assignee = none;
  created_at = found.created_at;
  updated_at = found.updated_at;
  history = [];
}

-- A publish failure is swallowed.
abbrev pub publish :
    Bool → IncidentTransitionedEvent → Option IncidentEventPublisher → Option IncidentEventPublisher
unfolding emit
publish up event none = none
publish up event (some p) = some (emit up event p).1

abbrev pub refuse : TransitionError → Reply
refuse (illegal_transition from command) = failure 409 "ILLEGAL_TRANSITION"
refuse (terminal_state from command) = failure 410 "TERMINAL_STATE"

-- What the route does with the result of `dispatch`: save the envelope, publish the event, reply.
unfoldable pub settle :
    IncidentCommand
    → TransitionBody
    → Incident
    → Bool
    → Result TransitionError DispatchResult
    → Service
    → Reply × Service
unfolding denormalize save emit
settle command body found up (err e) s = (refuse e, s)
settle command body found up (ok dispatched) s =
    let moved = record found {
      status = dispatched.next.status;
      updated_at = dispatched.transition.occurred_at;
    } in
    let (persisted, repository) =
      save (denormalize command body dispatched.transition moved) s.repository in
    (
      incident 200 persisted,
      record { repository = repository; events = publish up dispatched.event s.events },
    )

-- A request to a transition route; `now` is the clock's text, and `up` says whether Redis takes a message.
pub record TransitionRequest : Type 0 where
  pub command : IncidentCommand
  pub auth : Option Auth
  pub id : String
  pub body : Json
  pub now : String
  pub up : Bool

abbrev pub options : TransitionRequest → TransitionBody → DispatchOptions
options req body = record {
  command = req.command;
  actor = body.operator_id;
  reason = body.reason;
  now = req.now;
  correlation_id = none;
}

unfoldable pub on_found :
    TransitionRequest → TransitionBody → Option Incident → Service → Reply × Service
unfolding settle dispatch snapshot_of
on_found req body none s = (failure 404 "INCIDENT_NOT_FOUND", s)
on_found req body (some found) s =
    settle req.command body found req.up (dispatch (snapshot_of found) (options req body)) s

unfoldable pub on_body : TransitionRequest → Option TransitionBody → Service → Reply × Service
unfolding on_found find_by_id
on_body req none s = (failure 400 "VALIDATION", s)
on_body req (some body) s = on_found req body (find_by_id req.id s.repository) s

unfoldable pub on_gate : Gate → (Service → Reply × Service) → Service → Reply × Service
on_gate unauthorized handler s = (failure 401 "unauthorized", s)
on_gate forbidden handler s = (failure 403 "forbidden", s)
on_gate pass handler s = handler s

module _ (zod_uuid : String → Bool) where
  -- the handler that `registerTransitionRoute` registers
  unfoldable pub transition_route : TransitionRequest → Service → Reply × Service
  unfolding on_gate on_body parse_body is_uuid require_role roles_for permission_of
  transition_route req s =
      on_gate (require_role (roles_for (permission_of req.command)) req.auth)
        (λ s'.
          if is_uuid req.id
          then on_body req (parse_body zod_uuid req.command req.body) s'
          else (failure 400 "INVALID_ID", s'))
        s

-- `GET /incidents/:id`
unfoldable pub get_route : Option Auth → String → Service → Reply × Service
unfolding on_gate is_uuid require_role roles_for find_by_id
get_route auth id s =
    on_gate (require_role (roles_for incident_read) auth)
      (λ s'.
        if is_uuid id
        then (elim (find_by_id id s'.repository) [
          | none ↦ (failure 404 "INCIDENT_NOT_FOUND", s')
          | some item ↦ (incident 200 item, s')
        ])
        else (failure 400 "INVALID_ID", s'))
      s

abbrev created : Result IdempotencyKeyConflictError Incident → Reply
created (ok item) = incident 201 item
created (err e) = failure 409 "IDEMPOTENCY_KEY_CONFLICT"

unfoldable pub on_create : Option NewIncidentInput → String → Service → Reply × Service
unfolding create
on_create none random_uuid s = (failure 400 "VALIDATION", s)
on_create (some input) random_uuid s =
    let (result, repository) = create input random_uuid s.repository in
    (created result, record s { repository = repository })

module _ (zod_uuid : String → Bool) where
  -- `POST /incidents`
  unfoldable pub create_route : Option Auth → Json → String → String → Service → Reply × Service
  unfolding on_gate on_create parse_create require_role roles_for
  create_route auth body now random_uuid s =
      on_gate (require_role (roles_for incident_create) auth)
        (on_create (parse_create zod_uuid now body) random_uuid) s

module _ (codec : CursorCodec) where
  -- `GET /incidents`; the query and the page are what zod's `safeParse` returns
  unfoldable pub on_list :
      Option ListIncidentsQuery → Option PageRequest → Service → Reply × Service
  unfolding list
  on_list none requested s = (failure 400 "VALIDATION", s)
  on_list (some query) none s = (failure 400 "VALIDATION", s)
  on_list (some query) (some requested) s = (page (list codec query requested s.repository), s)

  unfoldable pub list_route :
      Option Auth → Option ListIncidentsQuery → Option PageRequest → Service → Reply × Service
  unfolding on_gate on_list require_role roles_for
  list_route auth query requested s =
      on_gate (require_role (roles_for incident_read) auth) (on_list query requested) s
