-- ===== src/Incident/Routes/Laws.antt =====
-- Every outcome of a transition route, and what each leaves behind.
use airport_inspection_platf.Auth.{
  Auth, Gate, forbidden, is_allowed, pass, require_role, roles_for, unauthorized,
}
use airport_inspection_platf.Incident.Lifecycle.{
  IncidentCommand, IncidentStatus, Transition, TransitionContext, TransitionError, archived, edge,
  illegal_transition, rejected, terminal_state, transition,
}
use airport_inspection_platf.Incident.Lifecycle.Laws.{Edge, transition-cases}
use airport_inspection_platf.Incident.Aggregate.{DispatchResult, build_transition_event}
use airport_inspection_platf.Incident.Repository.{Incident, find_by_id, save}
use airport_inspection_platf.Incident.Requests.{TransitionBody, is_uuid, parse_body}
use airport_inspection_platf.Incident.Routes.{
  Reply, Service, TransitionRequest, denormalize, failure, incident, on_body, on_found, on_gate,
  permission_of, publish, refuse, settle, transition_route,
}
use airport_inspection_platf.Prelude.{
  Bool, Bool-cases, Option, Option-cases, Result, String, ap, err, false, if◌then◌else◌, inl, inr,
  none, ok, refl, some, subst, sym, true, ◌∙◌, ◌≡◌, ◌≢◌, ◌⊎◌,
}
use airport_inspection_platf.Auth.Laws.{require_role_iff}

-- The transition that a request makes of an incident.
abbrev pub moved_by : TransitionRequest → TransitionBody → Incident → IncidentStatus → Transition
moved_by req body found to = record {
  from = found.status;
  to = to;
  command = req.command;
  actor = body.operator_id;
  reason = body.reason;
  occurred_at = req.now;
}

-- The envelope that the request stores.
abbrev pub updated : TransitionRequest → TransitionBody → Incident → IncidentStatus → Incident
updated req body found to =
    denormalize req.command body (moved_by req body found to)
      (record found { status = to; updated_at = req.now })

-- The service after a request that is served.
abbrev pub served :
    TransitionRequest → TransitionBody → Incident → IncidentStatus → Service → Service
served req body found to s = record {
  repository = (save (updated req body found to) s.repository).1;
  events =
      publish req.up (build_transition_event found.id (moved_by req body found to) none) s.events;
}

module _ (zod_uuid : String → Bool) where
  -- The caller's role may give the command, the id is a UUID and the body parses.
  pub record IsAdmitted (req : TransitionRequest) (body : TransitionBody) : Type 0 where
    pub gate : require_role (roles_for (permission_of req.command)) req.auth ≡ pass
    pub id : is_uuid req.id ≡ true
    pub parsed : parse_body zod_uuid req.command req.body ≡ some body

  pub data Outcome (req : TransitionRequest) (s : Service) (r : Reply × Service) : Type 0 where
    no_auth : req.auth ≡ none → r ≡ (failure 401 "unauthorized", s) → Outcome req s r
    wrong_role :
        (a : Auth)
        → req.auth ≡ some a
        → is_allowed a.role (permission_of req.command) ≡ false
        → r ≡ (failure 403 "forbidden", s)
        → Outcome req s r
    bad_id :
        require_role (roles_for (permission_of req.command)) req.auth ≡ pass
        → is_uuid req.id ≡ false
        → r ≡ (failure 400 "INVALID_ID", s)
        → Outcome req s r
    bad_body :
        require_role (roles_for (permission_of req.command)) req.auth ≡ pass
        → is_uuid req.id ≡ true
        → parse_body zod_uuid req.command req.body ≡ none
        → r ≡ (failure 400 "VALIDATION", s)
        → Outcome req s r
    missing :
        (body : TransitionBody)
        → IsAdmitted req body
        → find_by_id req.id s.repository ≡ none
        → r ≡ (failure 404 "INCIDENT_NOT_FOUND", s)
        → Outcome req s r
    illegal :
        (body : TransitionBody) (found : Incident)
        → IsAdmitted req body
        → find_by_id req.id s.repository ≡ some found
        → (found.status ≢ archived) × (found.status ≢ rejected)
        → ((to : IncidentStatus) → ¬ Edge found.status req.command to)
        → r ≡ (failure 409 "ILLEGAL_TRANSITION", s)
        → Outcome req s r
    terminal :
        (body : TransitionBody) (found : Incident)
        → IsAdmitted req body
        → find_by_id req.id s.repository ≡ some found
        → (found.status ≡ archived) ⊎ (found.status ≡ rejected)
        → r ≡ (failure 410 "TERMINAL_STATE", s)
        → Outcome req s r
    moved :
        (body : TransitionBody) (found : Incident) (to : IncidentStatus)
        → IsAdmitted req body
        → find_by_id req.id s.repository ≡ some found
        → Edge found.status req.command to
        → r ≡ (incident 200 (updated req body found to), served req body found to s)
        → Outcome req s r

abbrev ctx_of : TransitionRequest → TransitionBody → TransitionContext
ctx_of req body = record { actor = body.operator_id; reason = body.reason; now = req.now }

on_found-moved :
    (req : TransitionRequest) (body : TransitionBody) (found : Incident) (to : IncidentStatus)
    (s : Service)
    → transition found.status req.command (ctx_of req body) ≡ ok (moved_by req body found to)
    → on_found req body (some found) s
      ≡ (incident 200 (updated req body found to), served req body found to s)
unfolding on_found
on_found-moved req body found to s e = rw (e, on_found)

on_found-err :
    (req : TransitionRequest) (body : TransitionBody) (found : Incident) (x : TransitionError)
    (s : Service)
    → transition found.status req.command (ctx_of req body) ≡ err x
    → on_found req body (some found) s ≡ (refuse x, s)
unfolding on_found
on_found-err req body found x s e = rw (e, on_found)

module _ (req : TransitionRequest) (s : Service) where
  on_body-none : on_body req none s ≡ (failure 400 "VALIDATION", s)
  unfolding on_body
  on_body-none = refl

  on_body-missing :
      (body : TransitionBody)
      → find_by_id req.id s.repository ≡ none
      → on_body req (some body) s ≡ (failure 404 "INCIDENT_NOT_FOUND", s)
  unfolding on_found on_body
  on_body-missing body e = rw (e, on_body, on_found)

  on_body-found :
      (body : TransitionBody) (found : Incident)
      → find_by_id req.id s.repository ≡ some found
      → on_body req (some body) s ≡ on_found req body (some found) s
  unfolding on_body
  on_body-found body found e = rw (e, on_body)

module _ (zod_uuid : String → Bool) (req : TransitionRequest) (s : Service) where
  on_found-cases :
      (body : TransitionBody) (found : Incident)
      → IsAdmitted zod_uuid req body
      → find_by_id req.id s.repository ≡ some found
      → Outcome zod_uuid req s (on_found req body (some found) s)
  on_found-cases body found adm there =
      elim (transition-cases found.status req.command (ctx_of req body)) [
        | inl (to, edge, e) ↦
            moved body found to adm there edge (on_found-moved req body found to s e)
        | inr (inl (e, open_a, open_r, none_to)) ↦
            illegal body found adm there (open_a, open_r) none_to
              (on_found-err req body found (illegal_transition found.status req.command) s e)
        | inr (inr (e, closed)) ↦
            terminal body found adm there closed
              (on_found-err req body found (terminal_state found.status req.command) s e)
      ]

  on_body-cases :
      (body : TransitionBody)
      → IsAdmitted zod_uuid req body
      → Outcome zod_uuid req s (on_body req (some body) s)
  on_body-cases body adm = elim (Option-cases (find_by_id req.id s.repository)) [
    | inl absent ↦ missing body adm absent (on_body-missing req s body absent)
    | inr (found, there) ↦
        subst (Outcome zod_uuid req s) (sym (on_body-found req s body found there))
          (on_found-cases body found adm there)
  ]

  gated-cases :
      (body : Option TransitionBody)
      → require_role (roles_for (permission_of req.command)) req.auth ≡ pass
      → is_uuid req.id ≡ true
      → parse_body zod_uuid req.command req.body ≡ body
      → Outcome zod_uuid req s (on_body req body s)
  gated-cases none gate id e = bad_body gate id e (on_body-none req s)
  gated-cases (some body) gate id e =
      on_body-cases body (record { gate = gate; id = id; parsed = e })

  abbrev handler : Service → Reply × Service
  handler s' =
      if is_uuid req.id
      then on_body req (parse_body zod_uuid req.command req.body) s'
      else (failure 400 "INVALID_ID", s')

  route-gate :
      {g : Gate}
      → require_role (roles_for (permission_of req.command)) req.auth ≡ g
      → transition_route zod_uuid req s ≡ on_gate g handler s
  unfolding transition_route
  route-gate e = ap (λ g. on_gate g handler s) e

  passed-cases :
      require_role (roles_for (permission_of req.command)) req.auth ≡ pass
      → Outcome zod_uuid req s (handler s)
  passed-cases gate = elim (Bool-cases (is_uuid req.id)) [
    | inl id ↦ rw id (gated-cases _ gate id refl)
    | inr bad ↦ rw bad (bad_id gate bad refl)
  ]

  on_gate-values :
      (on_gate unauthorized handler s ≡ (failure 401 "unauthorized", s))
      × (on_gate forbidden handler s ≡ (failure 403 "forbidden", s))
      × (on_gate pass handler s ≡ handler s)
  unfolding on_gate
  on_gate-values = (refl, refl, refl)

  gate-cases :
      (g : Gate)
      → require_role (roles_for (permission_of req.command)) req.auth ≡ g
      → Outcome zod_uuid req s (transition_route zod_uuid req s)
  gate-cases unauthorized e =
      no_auth ((require_role_iff (permission_of req.command) req.auth).1.0 e)
        (route-gate e ∙ on_gate-values.0)
  gate-cases forbidden e =
      let (a, who, barred) = (require_role_iff (permission_of req.command) req.auth).2.0 e in
      wrong_role a who barred (route-gate e ∙ on_gate-values.1)
  gate-cases pass e =
      subst (Outcome zod_uuid req s) (sym (route-gate e ∙ on_gate-values.2)) (passed-cases e)

  pub transition_route_cases : Outcome zod_uuid req s (transition_route zod_uuid req s)
  transition_route_cases = gate-cases _ refl

-- Two answers with the same reply and the same stored incidents.
abbrev pub SameStored : Reply × Service → Reply × Service → Type 0
SameStored r r' = (r.0 ≡ r'.0) × (r.1.repository ≡ r'.1.repository)

settle-up :
    (c : IncidentCommand) (body : TransitionBody) (found : Incident) (u v : Bool)
    (r : Result TransitionError DispatchResult) (s : Service)
    → SameStored (settle c body found u r s) (settle c body found v r s)
unfolding settle
settle-up c body found u v (ok d) s = (refl, refl)
settle-up c body found u v (err e) s = (refl, refl)

module _ (zod_uuid : String → Bool) (req : TransitionRequest) (up : Bool) where
  abbrev other : TransitionRequest
  other = record req { up = up }

  on_found-up :
      (body : TransitionBody) (o : Option Incident) (s : Service)
      → SameStored (on_found req body o s) (on_found other body o s)
  unfolding on_found
  on_found-up body none s = (refl, refl)
  on_found-up body (some found) s = settle-up req.command body found req.up up _ s

  on_body-up :
      (parsed : Option TransitionBody) (s : Service)
      → SameStored (on_body req parsed s) (on_body other parsed s)
  unfolding on_body
  on_body-up none s = (refl, refl)
  on_body-up (some body) s = on_found-up body (find_by_id req.id s.repository) s

  checked-up :
      (b : Bool) (s : Service)
      → SameStored
          (if b
            then on_body req (parse_body zod_uuid req.command req.body) s
            else (failure 400 "INVALID_ID", s))
          (if b
            then on_body other (parse_body zod_uuid req.command req.body) s
            else (failure 400 "INVALID_ID", s))
  checked-up true s = on_body-up (parse_body zod_uuid req.command req.body) s
  checked-up false s = (refl, refl)

  on_gate-up :
      (g : Gate) (f f' : Service → Reply × Service) (s : Service)
      → SameStored (f s) (f' s)
      → SameStored (on_gate g f s) (on_gate g f' s)
  unfolding on_gate
  on_gate-up unauthorized f f' s h = (refl, refl)
  on_gate-up forbidden f f' s h = (refl, refl)
  on_gate-up pass f f' s h = h

  -- Whether Redis takes the event or not, a transition request gets the same reply and leaves the same incidents stored.
  pub publish_failure_harmless :
      (s : Service)
      → SameStored (transition_route zod_uuid req s) (transition_route zod_uuid other s)
  unfolding transition_route
  publish_failure_harmless s =
      on_gate-up (require_role (roles_for (permission_of req.command)) req.auth) _ _ s
        (checked-up (is_uuid req.id) s)
