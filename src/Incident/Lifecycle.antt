-- ===== src/Incident/Lifecycle.antt =====
-- services/incident-service/src/domain/state-machine.ts
pub mod Laws
pub mod Reachability
use airport_inspection_platf.Prelude.{
  Bool, List, Option, Result, String, [], err, false, if◌then◌else◌, is_some, length, map, none, ok,
  some, true, ◌==◌, ◌∷◌,
}

pub data IncidentStatus : Type 0 where
  new acknowledged assigned in_progress resolved escalated archived rejected : IncidentStatus

pub data IncidentCommand : Type 0 where
  acknowledge assign start_progress resolve escalate archive reject : IncidentCommand

-- `===` on the command names
abbrev pub command_eq : IncidentCommand → IncidentCommand → Bool
command_eq acknowledge acknowledge = true
command_eq assign assign = true
command_eq start_progress start_progress = true
command_eq resolve resolve = true
command_eq escalate escalate = true
command_eq archive archive = true
command_eq reject reject = true
command_eq _ _ = false

-- The edges out of each status, in the order in which the object literal lists them.
unfoldable pub legal_transitions : IncidentStatus → List (IncidentCommand × IncidentStatus)
legal_transitions new =
    (acknowledge, acknowledged) ∷ (escalate, escalated) ∷ (reject, rejected) ∷ []
legal_transitions acknowledged =
    (assign, assigned) ∷ (escalate, escalated) ∷ (reject, rejected) ∷ []
legal_transitions assigned =
    (start_progress, in_progress) ∷ (escalate, escalated) ∷ (reject, rejected) ∷ []
legal_transitions in_progress =
    (resolve, resolved) ∷ (escalate, escalated) ∷ (reject, rejected) ∷ []
legal_transitions escalated =
    (acknowledge, assigned) ∷ (resolve, resolved) ∷ (reject, rejected) ∷ []
legal_transitions resolved = (archive, archived) ∷ []
legal_transitions archived = []
legal_transitions rejected = []

-- `edges[command]`
abbrev pub edge : IncidentCommand → List (IncidentCommand × IncidentStatus) → Option IncidentStatus
edge c [] = none
edge c ((d, s) ∷ edges) = if command_eq d c then some s else edge c edges

-- membership in `STATES_WITHOUT_TRANSITIONS`, which is computed from the table
unfoldable pub is_terminal : IncidentStatus → Bool
unfolding legal_transitions
is_terminal s = length (legal_transitions s) == 0

pub data TransitionError : Type 0 where
  terminal_state : IncidentStatus → IncidentCommand → TransitionError
  illegal_transition : IncidentStatus → IncidentCommand → TransitionError

-- `now` is the text of the clock's reading.
pub record TransitionContext : Type 0 where
  pub actor : String
  pub reason : Option String
  pub now : String

pub record Transition : Type 0 where
  pub from : IncidentStatus
  pub to : IncidentStatus
  pub command : IncidentCommand
  pub actor : String
  pub reason : Option String
  pub occurred_at : String

abbrev completed :
    IncidentStatus
    → IncidentCommand
    → TransitionContext
    → Option IncidentStatus
    → Result TransitionError Transition
completed from command ctx none = err (illegal_transition from command)
completed from command ctx (some next) = ok (record {
  from = from;
  to = next;
  command = command;
  actor = ctx.actor;
  reason = ctx.reason;
  occurred_at = ctx.now;
})

unfoldable pub transition :
    IncidentStatus → IncidentCommand → TransitionContext → Result TransitionError Transition
unfolding is_terminal legal_transitions
transition from command ctx =
    if is_terminal from
    then err (terminal_state from command)
    else completed from command ctx (edge command (legal_transitions from))

unfoldable pub is_legal_command : IncidentStatus → IncidentCommand → Bool
unfolding is_terminal legal_transitions
is_legal_command from command =
    if is_terminal from then false else is_some (edge command (legal_transitions from))

unfoldable pub available_commands : IncidentStatus → List IncidentCommand
unfolding is_terminal legal_transitions
available_commands from = if is_terminal from then [] else map (λ e. e.0) (legal_transitions from)
