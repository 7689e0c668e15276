-- ===== src/Incident/Routes/Log.antt =====
-- The published events against the stored incidents, over whole runs of the service.
use airport_inspection_platf.Prelude.Map
use airport_inspection_platf.Prelude.Json.{Json}
use airport_inspection_platf.Auth.{
  Auth, Gate, forbidden, incident_create, pass, require_role, roles_for, unauthorized,
}
use airport_inspection_platf.Incident.Lifecycle.{IncidentStatus, Transition, edge, new}
use airport_inspection_platf.Incident.Lifecycle.Laws.{Edge}
use airport_inspection_platf.Incident.Aggregate.{
  IncidentTransitionedEvent, build_transition_event, channel_for,
}
use airport_inspection_platf.Incident.Aggregate.History.{Traces, Traces-snoc}
use airport_inspection_platf.Incident.Repository.{
  IdempotencyKeyConflictError, InMemoryIncidentRepository, Incident, NewIncidentInput, create,
  create_new, find_by_id, save,
}
use airport_inspection_platf.Incident.Repository.Stored.{
  IsWellFormed, create-absent, create-existing, create_new-IsWellFormed, create_new_found,
  create_new_others, existing_for-cases, save_lem,
}
use airport_inspection_platf.Incident.Requests.{
  TransitionBody, parse_create, parse_create-IsNewInput,
}
use airport_inspection_platf.Incident.Routes.{
  IncidentEventPublisher, Reply, Service, TransitionRequest, create_route, denormalize, emit,
  on_create, on_gate, publish, transition_route,
}
use airport_inspection_platf.Incident.Routes.Laws.{
  Outcome, bad_body, bad_id, illegal, missing, moved, moved_by, no_auth, served, terminal,
  transition_route_cases, updated, wrong_role,
}
use airport_inspection_platf.Prelude.{
  Bool, Bool-cases, List, Option, Result, String, [], ap, ap₂, arith, eq_iff, if◌then◌else◌, inl,
  inr, none, ok, refl, some, str_eq, subst, subst₂, sym, true, truthy, ◌++◌, ◌∙◌, ◌∷◌, ◌≡◌, ◌≢◌,
}

-- The transitions of one incident among the events that Redis took, in order.
abbrev pub log_of : String → List (String × IncidentTransitionedEvent) → List Transition
log_of id [] = []
log_of id (e ∷ es) =
    if str_eq e.1.incident_id id then e.1.transition ∷ log_of id es else log_of id es

log_of-snoc :
    (id : String) (es : List (String × IncidentTransitionedEvent))
    (e : String × IncidentTransitionedEvent)
    → log_of id (es ++ (e ∷ []))
      ≡ (if str_eq e.1.incident_id id then log_of id es ++ (e.1.transition ∷ []) else log_of id es)
log_of-snoc id [] e = ground arith
log_of-snoc id (x ∷ es) e = ground (arith, log_of-snoc id es e)

-- A request that changes the service: a creation, with what `randomUUID()` returns, or a transition.
pub data Request : Type 0 where
  creation : Option Auth → Json → String → String → Request
  advance : TransitionRequest → Request

module _ (zod_uuid : String → Bool) where
  unfoldable pub serve : Request → Service → Service
  serve (creation auth body now random_uuid) s =
      (create_route zod_uuid auth body now random_uuid s).1
  serve (advance req) s = (transition_route zod_uuid req s).1

  unfoldable pub serve_all : List Request → Service → Service
  serve_all [] s = s
  serve_all (r ∷ rs) s = serve_all rs (serve r s)

-- `randomUUID()` gives an id that no incident has, and Redis takes the message.
abbrev pub IsSteady : Request → Service → Type 0
IsSteady (creation auth body now random_uuid) s = find_by_id random_uuid s.repository ≡ none
IsSteady (advance req) s = req.up ≡ true

module _ (zod_uuid : String → Bool) where
  abbrev pub IsSteadyRun : List Request → Service → Type 0
  IsSteadyRun [] s = Unit
  IsSteadyRun (r ∷ rs) s = IsSteady r s × IsSteadyRun rs (serve zod_uuid r s)

-- The published events of each stored incident lead from `new` to its status, and no event is published for an id that is not stored.
pub record IsLogged (s : Service) : Type 0 where
  pub publisher : IncidentEventPublisher
  pub has_events : s.events ≡ some publisher
  pub well_formed : IsWellFormed s.repository
  pub stored :
      (id : String) (item : Incident)
      → find_by_id id s.repository ≡ some item
      → Traces new (log_of id publisher.sent) item.status
  pub unlogged : (id : String) → find_by_id id s.repository ≡ none → log_of id publisher.sent ≡ []

updated-status :
    (req : TransitionRequest) (body : TransitionBody) (found : Incident) (to : IncidentStatus)
    → ((updated req body found to).status ≡ to) × ((updated req body found to).id ≡ found.id)
unfolding denormalize
updated-status req body found to = ground arith

module _ (req : TransitionRequest) (body : TransitionBody) (found : Incident) (to : IncidentStatus)
    (s : Service) (h : IsLogged s) (there : find_by_id req.id s.repository ≡ some found) where
  abbrev event : IncidentTransitionedEvent
  event = build_transition_event found.id (moved_by req body found to) none

  abbrev emitted : IncidentEventPublisher
  emitted = (emit true event h.publisher).1

  abbrev stored_now : Incident
  stored_now = updated req body found to

  saved :
      IsWellFormed (served req body found to s).repository
      × (find_by_id found.id (served req body found to s).repository ≡ some stored_now)
      × ((id : String)
          → found.id ≢ id
          → find_by_id id (served req body found to s).repository ≡ find_by_id id s.repository)
  saved =
      let (wf, self, others) = save_lem stored_now s.repository h.well_formed in
      let same = (updated-status req body found to).1 in
      (
        wf,
        subst (λ j. find_by_id j (save stored_now s.repository).1 ≡ some stored_now) same self,
        λ id ne. others id (λ e. ne (sym same ∙ e)),
      )

  log-emitted :
      (id : String)
      → log_of id emitted.sent ≡ (
          if str_eq found.id id
          then log_of id h.publisher.sent ++ (moved_by req body found to ∷ [])
          else log_of id h.publisher.sent)
  unfolding emit build_transition_event
  log-emitted id = log_of-snoc id h.publisher.sent (channel_for (moved_by req body found to), event)

  found-key : found.id ≡ req.id
  unfolding find_by_id
  found-key =
      Map.get-All (λ e. e.1.id ≡ e.0) req.id found s.repository.items h.well_formed.keyed there

  found-logged : Traces new (log_of found.id h.publisher.sent) found.status
  found-logged =
      h.stored found.id found
        (subst (λ j. find_by_id j s.repository ≡ some found) (sym found-key) there)

  saved_at :
      (id : String)
      → found.id ≡ id
      → find_by_id id (served req body found to s).repository ≡ some stored_now
  saved_at id key =
      subst (λ j. find_by_id j (served req body found to s).repository ≡ some stored_now) key
        saved.1

  stored_after :
      (id : String) (item : Incident)
      → Edge found.status req.command to
      → find_by_id id (served req body found to s).repository ≡ some item
      → Traces new (log_of id emitted.sent) item.status
  stored_after id item edge e = elim (Bool-cases (str_eq found.id id)) [
    | inl same ↦
        let key : found.id ≡ id = (eq_iff found.id id).0 same in
        let here = saved_at id key in
        let value : item ≡ stored_now = cc in
        rw (log-emitted id, same)
          (subst₂
            (λ j st. Traces new (log_of j h.publisher.sent ++ (moved_by req body found to ∷ [])) st)
            key (sym (updated-status req body found to).0 ∙ sym (ap (λ x. x.status) value))
            (Traces-snoc new found.status (log_of found.id h.publisher.sent)
              (moved_by req body found to) found-logged refl edge))
    | inr other ↦
        let ne : found.id ≢ id = λ q. absurd (ground (arith, eq_iff found.id id)) in
        rw (log-emitted id, other) (h.stored id item (sym (saved.2 id ne) ∙ e))
  ]

  unlogged_after :
      (id : String)
      → find_by_id id (served req body found to s).repository ≡ none
      → log_of id emitted.sent ≡ []
  unlogged_after id e = elim (Bool-cases (str_eq found.id id)) [
    | inl same ↦ absurd (ground (arith, saved_at id ((eq_iff found.id id).0 same)))
    | inr other ↦
        let ne : found.id ≢ id = λ q. absurd (ground (arith, eq_iff found.id id)) in
        rw (log-emitted id, other) (h.unlogged id (sym (saved.2 id ne) ∙ e))
  ]

  emitted-served : req.up ≡ true → (served req body found to s).events ≡ some emitted
  unfolding publish emit
  emitted-served up = ap₂ (λ u es. publish u event es) up h.has_events

  moved-IsLogged :
      req.up ≡ true → Edge found.status req.command to → IsLogged (served req body found to s)
  moved-IsLogged up edge = record {
    publisher = emitted;
    has_events = emitted-served up;
    well_formed = saved.0;
    stored = λ id item e. stored_after id item edge e;
    unlogged = unlogged_after;
  }

on_gate-IsLogged :
    (g : Gate) (handler : Service → Reply × Service) (s : Service)
    → IsLogged s
    → IsLogged (handler s).1
    → IsLogged (on_gate g handler s).1
unfolding on_gate
on_gate-IsLogged unauthorized handler s h k = h
on_gate-IsLogged forbidden handler s h k = h
on_gate-IsLogged pass handler s h k = k

-- What a creation stores for a fresh id: a new incident, and nothing else.
create_new-stored :
    (input : NewIncidentInput) (random_uuid : String) (repo : InMemoryIncidentRepository)
    → (input.id ≡ none) × (input.status ≡ none)
    → ((create_new input random_uuid repo).0.id ≡ random_uuid)
      × ((create_new input random_uuid repo).0.status ≡ new)
unfolding create_new
create_new-stored input random_uuid repo (e, f) = ground arith

module _ (s : Service) (h : IsLogged s) (input : NewIncidentInput) (random_uuid : String)
    (plain : (input.id ≡ none) × (input.status ≡ none))
    (fresh : find_by_id random_uuid s.repository ≡ none) where
  abbrev item_new : Incident
  item_new = (create_new input random_uuid s.repository).0

  abbrev repo_new : InMemoryIncidentRepository
  repo_new = (create_new input random_uuid s.repository).1

  new_at : (id : String) → random_uuid ≡ id → find_by_id id repo_new ≡ some item_new
  new_at id key =
      let same = (create_new-stored input random_uuid s.repository plain).0 in
      subst (λ j. find_by_id j repo_new ≡ some item_new) (same ∙ key)
        (create_new_found input random_uuid s.repository)

  old_at : (id : String) → random_uuid ≢ id → find_by_id id repo_new ≡ find_by_id id s.repository
  old_at id ne =
      let same = (create_new-stored input random_uuid s.repository plain).0 in
      create_new_others input random_uuid s.repository id (λ e. ne (sym same ∙ e))

  new_stored :
      (id : String) (item : Incident)
      → find_by_id id repo_new ≡ some item
      → Traces new (log_of id h.publisher.sent) item.status
  new_stored id item e = elim (Bool-cases (str_eq random_uuid id)) [
    | inl same ↦
        let key : random_uuid ≡ id = (eq_iff random_uuid id).0 same in
        let here = new_at id key in
        let value : item ≡ item_new = cc in
        let status = (create_new-stored input random_uuid s.repository plain).1 in
        let quiet = h.unlogged id (subst (λ j. find_by_id j s.repository ≡ none) key fresh) in
        rw quiet (sym (ap (λ x. x.status) value ∙ status))
    | inr other ↦
        let ne : random_uuid ≢ id = λ q. absurd (ground (arith, eq_iff random_uuid id)) in
        h.stored id item (sym (old_at id ne) ∙ e)
  ]

  new_unlogged : (id : String) → find_by_id id repo_new ≡ none → log_of id h.publisher.sent ≡ []
  new_unlogged id e = elim (Bool-cases (str_eq random_uuid id)) [
    | inl same ↦ absurd (ground (arith, new_at id ((eq_iff random_uuid id).0 same)))
    | inr other ↦
        let ne : random_uuid ≢ id = λ q. absurd (ground (arith, eq_iff random_uuid id)) in
        h.unlogged id (sym (old_at id ne) ∙ e)
  ]

  create_new-IsLogged : IsLogged (record s { repository = repo_new })
  create_new-IsLogged = record {
    publisher = h.publisher;
    has_events = h.has_events;
    well_formed = create_new-IsWellFormed input random_uuid s.repository h.well_formed;
    stored = new_stored;
    unlogged = new_unlogged;
  }

on_create-repository :
    (input : NewIncidentInput) (random_uuid : String) (s : Service)
    {result : Result IdempotencyKeyConflictError Incident × InMemoryIncidentRepository}
    → create input random_uuid s.repository ≡ result
    → (on_create (some input) random_uuid s).1 ≡ record s { repository = result.1 }
unfolding on_create
on_create-repository input random_uuid s e = ap (λ r. record s { repository = r.1 }) e

on_create-IsLogged :
    (parsed : Option NewIncidentInput) (random_uuid : String) (s : Service)
    → IsLogged s
    → ((input : NewIncidentInput) → parsed ≡ some input → (input.id ≡ none) × (input.status ≡ none))
    → find_by_id random_uuid s.repository ≡ none
    → IsLogged (on_create parsed random_uuid s).1
on_create-IsLogged none random_uuid s h plain fresh = unfold on_create in h
on_create-IsLogged (some input) random_uuid s h plain fresh =
    elim (existing_for-cases (truthy input.idempotency_key) s.repository h.well_formed) [
      | inr (item, found, stored) ↦
          subst IsLogged
            (sym (
              on_create-repository input random_uuid s
                (create-existing input random_uuid s.repository (ok item) found)))
            h
      | inl absent ↦
          subst IsLogged
            (sym (
              on_create-repository input random_uuid s
                (create-absent input random_uuid s.repository absent)))
            (create_new-IsLogged s h input random_uuid (plain input refl) fresh)
    ]

module _ (zod_uuid : String → Bool) where
  transition-IsLogged :
      (req : TransitionRequest) (s : Service) (r : Reply × Service)
      → IsLogged s
      → req.up ≡ true
      → Outcome zod_uuid req s r
      → IsLogged r.1
  transition-IsLogged req s r h up (no_auth _ e) = subst IsLogged (sym (ap (λ x. x.1) e)) h
  transition-IsLogged req s r h up (wrong_role _ _ _ e) = subst IsLogged (sym (ap (λ x. x.1) e)) h
  transition-IsLogged req s r h up (bad_id _ _ e) = subst IsLogged (sym (ap (λ x. x.1) e)) h
  transition-IsLogged req s r h up (bad_body _ _ _ e) = subst IsLogged (sym (ap (λ x. x.1) e)) h
  transition-IsLogged req s r h up (missing _ _ _ e) = subst IsLogged (sym (ap (λ x. x.1) e)) h
  transition-IsLogged req s r h up (illegal _ _ _ _ _ _ e) =
      subst IsLogged (sym (ap (λ x. x.1) e)) h
  transition-IsLogged req s r h up (terminal _ _ _ _ _ e) = subst IsLogged (sym (ap (λ x. x.1) e)) h
  transition-IsLogged req s r h up (moved body found to _ there edge e) =
      subst IsLogged (sym (ap (λ x. x.1) e)) (moved-IsLogged req body found to s h there up edge)

  create-IsLogged :
      (auth : Option Auth) (body : Json) (now random_uuid : String) (s : Service)
      → IsLogged s
      → find_by_id random_uuid s.repository ≡ none
      → IsLogged (create_route zod_uuid auth body now random_uuid s).1
  unfolding create_route
  create-IsLogged auth body now random_uuid s h fresh =
      on_gate-IsLogged (require_role (roles_for incident_create) auth)
        (on_create (parse_create zod_uuid now body) random_uuid) s h
        (on_create-IsLogged (parse_create zod_uuid now body) random_uuid s h
          (parse_create-IsNewInput zod_uuid now body) fresh)

  serve-IsLogged :
      (r : Request) (s : Service) → IsLogged s → IsSteady r s → IsLogged (serve zod_uuid r s)
  unfolding serve
  serve-IsLogged (creation auth body now random_uuid) s h fresh =
      create-IsLogged auth body now random_uuid s h fresh
  serve-IsLogged (advance req) s h up =
      transition-IsLogged req s _ h up (transition_route_cases zod_uuid req s)

  -- Over any run of creations and commands in which new ids are fresh and Redis takes every message, the published events of each stored incident, in order, lead from `new` to exactly its stored status, and no event is published for an id that is not stored.
  pub serve_all-IsLogged :
      (rs : List Request) (s : Service)
      → IsLogged s
      → IsSteadyRun zod_uuid rs s
      → IsLogged (serve_all zod_uuid rs s)
  unfolding serve_all
  serve_all-IsLogged [] s h steady = h
  serve_all-IsLogged (r ∷ rs) s h (now, later) =
      serve_all-IsLogged rs (serve zod_uuid r s) (serve-IsLogged r s h now) later
