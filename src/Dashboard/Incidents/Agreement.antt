-- ===== src/Dashboard/Incidents/Agreement.antt =====
-- apps/web/stores/incidents.ts against services/incident-service/src/domain/state-machine.ts: the status that the page shows in advance.
use airport_inspection_platf.Prelude.{ok, refl, ◌∙◌, ◌≡◌}
use airport_inspection_platf.Incident.Lifecycle.{
  IncidentCommand, IncidentStatus, Transition, TransitionContext, acknowledge, acknowledged,
  archive, archived, assign, assigned, escalate, escalated, in_progress, reject, rejected, resolve,
  resolved, start_progress, transition,
}
use airport_inspection_platf.Incident.Lifecycle.Laws.{
  Edge, begin, close, drop_acknowledged, drop_assigned, drop_escalated, drop_in_progress, drop_new,
  finish, handle, raise_acknowledged, raise_assigned, raise_in_progress, raise_new, reroute, route,
  transition_sound, triage,
}
use airport_inspection_platf.Incident.Repository.{Incident}
use airport_inspection_platf.Dashboard.Incidents.{TransitionParams, optimistic}

-- the status that each patch writes
abbrev status_for : IncidentCommand → IncidentStatus
status_for acknowledge = acknowledged
status_for assign = assigned
status_for start_progress = in_progress
status_for resolve = resolved
status_for escalate = escalated
status_for archive = archived
status_for reject = rejected

optimistic-status :
    (p : TransitionParams) (i : Incident) → (optimistic p i).status ≡ status_for p.command
unfolding optimistic
optimistic-status p i = of_command p.command refl
  where
    of_command :
        (c : IncidentCommand) → p.command ≡ c → (optimistic p i).status ≡ status_for p.command
    of_command acknowledge e = rw (e, optimistic) refl
    of_command assign e = rw (e, optimistic) refl
    of_command start_progress e = rw (e, optimistic) refl
    of_command resolve e = rw (e, optimistic) refl
    of_command escalate e = rw (e, optimistic) refl
    of_command archive e = rw (e, optimistic) refl
    of_command reject e = rw (e, optimistic) refl

Edge-status_for :
    {from to : IncidentStatus} {command : IncidentCommand}
    → Edge from command to
    → ¬ ((from ≡ escalated) × (command ≡ acknowledge))
    → status_for command ≡ to
Edge-status_for triage n = refl
Edge-status_for route n = refl
Edge-status_for begin n = refl
Edge-status_for finish n = refl
Edge-status_for reroute n = absurd (n (refl, refl))
Edge-status_for handle n = refl
Edge-status_for close n = refl
Edge-status_for raise_new n = refl
Edge-status_for raise_acknowledged n = refl
Edge-status_for raise_assigned n = refl
Edge-status_for raise_in_progress n = refl
Edge-status_for drop_new n = refl
Edge-status_for drop_acknowledged n = refl
Edge-status_for drop_assigned n = refl
Edge-status_for drop_in_progress n = refl
Edge-status_for drop_escalated n = refl

-- Whenever the state machine of the service takes a command, the status that the page shows in advance is the one that the incident moves to, except where an escalated incident is acknowledged.
pub optimistic-transition :
    (p : TransitionParams) (i : Incident) (ctx : TransitionContext) (t : Transition)
    → transition i.status p.command ctx ≡ ok t
    → ¬ ((i.status ≡ escalated) × (p.command ≡ acknowledge))
    → (optimistic p i).status ≡ t.to
optimistic-transition p i ctx t h n =
    optimistic-status p i ∙ Edge-status_for (transition_sound i.status p.command ctx t h).0 n
