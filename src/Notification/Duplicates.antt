-- ===== src/Notification/Duplicates.antt =====
-- The transitions that services/incident-service publishes, at the subscriber that tells them apart by
-- an event id.
use airport_inspection_platf.Prelude.Json.{Fields, Json, end, field, member, obj, str}
use airport_inspection_platf.Incident.Requests.{is_uuid}
use airport_inspection_platf.Incident.Lifecycle.{Transition}
use airport_inspection_platf.Incident.Aggregate.{IncidentTransitionedEvent, build_transition_event}
use airport_inspection_platf.Notification.{
  IncidentNotificationsSubscriber, NotificationEvent, ParsedEvent, event_in, handle_event,
  handle_message, includes, parsed, remember,
}
use airport_inspection_platf.Prelude.{
  Bool-cases, List, Option, String, [], ap, arith, if_false, if_true, inl, inr, length, ltb, none,
  refl, some, str_eq_refl, suc, sym, true, ℕ, ◌++◌, ◌∙◌, ◌∷◌, ◌≡◌, ◌≤◌,
}

abbrev correlation : Option String → Fields
correlation none = end
correlation (some id) = field "correlation_id" (str id) end

-- The event as the publisher prints it; `transition_json` is the object of the transition.
abbrev pub event_json : (Transition → Json) → IncidentTransitionedEvent → Json
event_json transition_json e = obj (
    field "event_type" (str e.event_type) (
      field "schema_version" (str e.schema_version) (
        field "incident_id" (str e.incident_id)
          (field "transition" (transition_json e.transition) (correlation e.correlation_id)))))

-- What is parsed from a published event has the id of the incident for its event id.
IsOf : String → ParsedEvent → Type 0
IsOf incident_id p =
    (event : NotificationEvent) × (p ≡ parsed event) × (event.event_id ≡ incident_id)

published-IsOf :
    (transition_json : Transition → Json) (now incident_id : String) (t : Transition)
    (correlation_id : Option String)
    → is_uuid incident_id ≡ true
    → IsOf incident_id (
        event_in now
          (event_json transition_json (build_transition_event incident_id t correlation_id)))
unfolding IsOf event_in build_transition_event member
published-IsOf transition_json now incident_id t none u = (_, if_true _ _ _ u, refl)
published-IsOf transition_json now incident_id t (some c) u = (_, if_true _ _ _ u, refl)

includes-append : (id : String) (seen : List String) → includes id (seen ++ id ∷ []) ≡ true
includes-append id [] = ground (arith, str_eq_refl id)
includes-append id (s ∷ seen) = ground (arith, includes-append id seen)

includes-remember :
    (window : ℕ) (id : String) (seen : List String)
    → 1 ≤ window
    → includes id (remember window id seen) ≡ true
unfolding remember
includes-remember window id [] h = elim (Bool-cases (ltb window 1)) [
  | inl over ↦ absurd (ground arith)
  | inr within ↦ rw within (ground (arith, str_eq_refl id))
]
includes-remember window id (s ∷ seen) h =
    elim (Bool-cases (ltb window (length (s ∷ seen ++ id ∷ [])))) [
      | inl over ↦ rw over (includes-append id seen)
      | inr within ↦ rw within (includes-append id (s ∷ seen))
    ]

handled-includes :
    (event : NotificationEvent) (s : IncidentNotificationsSubscriber)
    → 1 ≤ s.idempotency_window
    → includes event.event_id (handle_event (parsed event) s).seen ≡ true
unfolding handle_event
handled-includes event s h = elim (Bool-cases (includes event.event_id s.seen)) [
  | inl before ↦
      ap (λ (x : IncidentNotificationsSubscriber). includes event.event_id x.seen)
        (if_true _ _ _ before)
      ∙ before
  | inr unseen ↦
      ap (λ (x : IncidentNotificationsSubscriber). includes event.event_id x.seen)
        (if_false _ _ _ unseen)
      ∙ includes-remember s.idempotency_window event.event_id s.seen h
]

repeated :
    (event : NotificationEvent) (s : IncidentNotificationsSubscriber)
    → includes event.event_id s.seen ≡ true
    → handle_event (parsed event) s ≡ record s { duplicates = suc s.duplicates }
unfolding handle_event
repeated event s h = if_true _ _ _ h

handle_message-some :
    (json_parse : String → Option Json) (now raw : String) (s : IncidentNotificationsSubscriber)
    (v : Json) (event : NotificationEvent)
    → json_parse raw ≡ some v
    → event_in now v ≡ parsed event
    → handle_message json_parse now raw s ≡ handle_event (parsed event) s
unfolding handle_message
handle_message-some json_parse now raw s v event e k =
    rw (e, handle_message) (ap (λ p. handle_event p s) k)

-- The events that incident-service builds have no event id, so that the subscriber takes the id of the
-- incident for it: of two transitions of one incident that are published one after the other, whatever
-- they are, the second counts as a duplicate of the first and is not dispatched to any channel.
pub second_transition_unnotified :
    (json_parse : String → Option Json) (transition_json : Transition → Json)
    (first second now later incident_id : String) (t u : Transition) (c d : Option String)
    (s : IncidentNotificationsSubscriber)
    → is_uuid incident_id ≡ true
    → 1 ≤ s.idempotency_window
    → json_parse first ≡ some (event_json transition_json (build_transition_event incident_id t c))
    → json_parse second ≡ some (event_json transition_json (build_transition_event incident_id u d))
    → let notified = handle_message json_parse now first s in
      handle_message json_parse later second notified
      ≡ record notified { duplicates = suc notified.duplicates }
unfolding IsOf
second_transition_unnotified json_parse transition_json first second now later incident_id t u c d s
      id w e k =
    let (event, p, i) = published-IsOf transition_json now incident_id t c id in
    let (again, q, j) = published-IsOf transition_json later incident_id u d id in
    let one = handle_message-some json_parse now first s _ event e p in
    let seen =
      ap (λ (x : IncidentNotificationsSubscriber). includes again.event_id x.seen) one
      ∙ ap (λ a. includes a (handle_event (parsed event) s).seen) (j ∙ sym i)
      ∙ handled-includes event s w in
    handle_message-some json_parse later second (handle_message json_parse now first s) _ again k q
    ∙ repeated again (handle_message json_parse now first s) seen
