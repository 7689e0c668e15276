-- ===== src/Dashboard/Incidents.antt =====
-- apps/web/stores/incidents.ts: the dashboard's incidents, changed before the server answers.
pub mod Optimistic
pub mod Agreement
use airport_inspection_platf.Prelude.Map
use airport_inspection_platf.Prelude.{
  Bool, List, Option, Result, String, err, false, none, ok, or_else, some, true,
}
use airport_inspection_platf.Incident.Lifecycle.{
  IncidentCommand, acknowledge, acknowledged, archive, archived, assign, assigned, escalate,
  escalated, in_progress, reject, rejected, resolve, resolved, start_progress,
}
use airport_inspection_platf.Incident.Repository.{Incident}
use airport_inspection_platf.Dashboard.IncidentApi.{
  IncidentApiError, SendError, api_error, exception,
}

pub record IncidentsState : Type 0 where
  pub by_id : List (String × Incident)
  pub pending : List (String × Bool)
  pub errors : List (String × Option IncidentApiError)

-- the getters
unfoldable pub incident_of : IncidentsState → String → Option Incident
incident_of state id = Map.get id state.by_id

unfoldable pub is_pending : IncidentsState → String → Bool
is_pending state id = or_else (Map.get id state.pending) false

unfoldable pub error_for : IncidentsState → String → Option IncidentApiError
error_for state id = or_else (Map.get id state.errors) none

-- The action `set`.
unfoldable pub set_incident : Incident → IncidentsState → IncidentsState
set_incident incident state = record state { by_id = Map.set incident.id incident state.by_id }

-- The arguments of an action: the command, and the operator or the assignee that its patch names.
pub record TransitionParams : Type 0 where
  pub command : IncidentCommand
  pub operator_id : String
  pub assignee_id : String

-- `{ ...original, ...optimistic }`, with the `optimistic` of the seven actions
unfoldable pub optimistic : TransitionParams → Incident → Incident
optimistic t original = elim t.command [
  | acknowledge ↦ record original { status = acknowledged; acknowledged_by = some t.operator_id }
  | assign ↦ record original { status = assigned; assigned_to = some t.assignee_id }
  | start_progress ↦ record original { status = in_progress }
  | resolve ↦ record original { status = resolved }
  | escalate ↦ record original { status = escalated }
  | archive ↦ record original { status = archived }
  | reject ↦ record original { status = rejected }
]

-- `runTransition` up to its `await`: the incident as it was, or nothing where it is not loaded.
unfoldable pub run_begin :
    String → TransitionParams → IncidentsState → Option Incident × IncidentsState
unfolding optimistic
run_begin id t store = elim (Map.get id store.by_id) [
  | none ↦ (none, store)
  | some original ↦ (
    some original,
    record {
      by_id = Map.set id (optimistic t original) store.by_id;
      pending = Map.set id true store.pending;
      errors = Map.set id none store.errors;
    },
  )
]

-- `err instanceof IncidentApiError ? err : undefined`
abbrev pub api_error_of : SendError → Option IncidentApiError
api_error_of (api_error e) = some e
api_error_of (exception message) = none

-- The rest of `runTransition`, given the incident as it was and how the call ended.
unfoldable pub run_settle :
    String → Incident → Result SendError Incident → IncidentsState → IncidentsState
run_settle id original (ok updated) store = record store {
  by_id = Map.set id updated store.by_id;
  pending = Map.set id false store.pending;
}
run_settle id original (err e) store = record {
  by_id = Map.set id original store.by_id;
  pending = Map.set id false store.pending;
  errors = Map.set id (api_error_of e) store.errors;
}
