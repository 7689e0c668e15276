-- ===== src/Incident/Lifecycle/Laws.antt =====
-- What `transition`, `isLegalCommand` and `availableCommands` do on every status and command.
use airport_inspection_platf.Prelude.{
  Bool, List, Result-cases, [], ap, arith, err, false, if◌then◌else◌, inl, inr, ok, refl, true, ◌↔◌,
  ◌∙◌, ◌∷◌, ◌≡◌, ◌≢◌, ◌⊎◌,
}
use airport_inspection_platf.Incident.Lifecycle.{
  IncidentCommand, IncidentStatus, Transition, TransitionContext, TransitionError, acknowledge,
  acknowledged, archive, archived, assign, assigned, available_commands, command_eq, escalate,
  escalated, illegal_transition, in_progress, is_legal_command, new, reject, rejected, resolve,
  resolved, start_progress, terminal_state, transition,
}

-- The documented diagram, as a relation.
pub data Edge : IncidentStatus → IncidentCommand → IncidentStatus → Type 0 where
  triage : Edge new acknowledge acknowledged
  route : Edge acknowledged assign assigned
  begin : Edge assigned start_progress in_progress
  finish : Edge in_progress resolve resolved
  reroute : Edge escalated acknowledge assigned
  handle : Edge escalated resolve resolved
  close : Edge resolved archive archived
  raise_new : Edge new escalate escalated
  raise_acknowledged : Edge acknowledged escalate escalated
  raise_assigned : Edge assigned escalate escalated
  raise_in_progress : Edge in_progress escalate escalated
  drop_new : Edge new reject rejected
  drop_acknowledged : Edge acknowledged reject rejected
  drop_assigned : Edge assigned reject rejected
  drop_in_progress : Edge in_progress reject rejected
  drop_escalated : Edge escalated reject rejected

ruleset edges = (
  triage, route, begin, finish, reroute, handle, close, raise_new, raise_acknowledged,
  raise_assigned, raise_in_progress, drop_new, drop_acknowledged, drop_assigned, drop_in_progress,
  drop_escalated,
)

abbrev pub has_command : IncidentCommand → List IncidentCommand → Bool
has_command c [] = false
has_command c (d ∷ ds) = if command_eq d c then true else has_command c ds

-- A transition that is returned follows an edge of the diagram from the given status by the given command, and records the actor, the reason and the time that it was given.
pub transition_sound :
    (from : IncidentStatus) (command : IncidentCommand) (ctx : TransitionContext) (t : Transition)
    → transition from command ctx ≡ ok t
    → Edge from command t.to
      × (t.from ≡ from)
      × (t.command ≡ command)
      × (t.actor ≡ ctx.actor)
      × (t.reason ≡ ctx.reason)
      × (t.occurred_at ≡ ctx.now)
unfolding transition
transition_sound new _ ctx t h = grind (arith, edges)
transition_sound _ _ ctx t h = grind (arith, edges)

-- Every edge of the diagram is taken.
pub transition_complete :
    {from to : IncidentStatus} {command : IncidentCommand} (ctx : TransitionContext)
    → Edge from command to
    → transition from command ctx
      ≡ ok (record {
        from = from;
        to = to;
        command = command;
        actor = ctx.actor;
        reason = ctx.reason;
        occurred_at = ctx.now;
      })
unfolding transition
transition_complete ctx triage = refl
transition_complete ctx _ = refl

transition-terminal :
    (from : IncidentStatus) (command : IncidentCommand) (ctx : TransitionContext)
    → transition from command ctx ≡ err (terminal_state from command)
    → (from ≡ archived) ⊎ (from ≡ rejected)
unfolding transition
transition-terminal new _ ctx h = ground arith
transition-terminal _ _ ctx h = ground arith

terminal-transition :
    (from : IncidentStatus) (command : IncidentCommand) (ctx : TransitionContext)
    → (from ≡ archived) ⊎ (from ≡ rejected)
    → transition from command ctx ≡ err (terminal_state from command)
unfolding transition
terminal-transition new _ ctx h = ground arith
terminal-transition _ _ ctx h = ground arith

illegal_no-Edge :
    (from : IncidentStatus) (command : IncidentCommand) (ctx : TransitionContext)
    → transition from command ctx ≡ err (illegal_transition from command)
    → (from ≢ archived) × (from ≢ rejected) × ((to : IncidentStatus) → ¬ Edge from command to)
illegal_no-Edge from command ctx h = (
  λ e. cc (terminal-transition from command ctx (inl e)),
  λ e. cc (terminal-transition from command ctx (inr e)),
  λ to e. cc (transition_complete ctx e),
)

no-Edge_illegal :
    (from : IncidentStatus) (command : IncidentCommand) (ctx : TransitionContext)
    → from ≢ archived
    → from ≢ rejected
    → ((to : IncidentStatus) → ¬ Edge from command to)
    → transition from command ctx ≡ err (illegal_transition from command)
unfolding transition
no-Edge_illegal new acknowledge ctx a r n = absurd (n _ triage)
no-Edge_illegal new escalate ctx a r n = absurd (n _ raise_new)
no-Edge_illegal new reject ctx a r n = absurd (n _ drop_new)
no-Edge_illegal acknowledged assign ctx a r n = absurd (n _ route)
no-Edge_illegal acknowledged escalate ctx a r n = absurd (n _ raise_acknowledged)
no-Edge_illegal acknowledged reject ctx a r n = absurd (n _ drop_acknowledged)
no-Edge_illegal assigned start_progress ctx a r n = absurd (n _ begin)
no-Edge_illegal assigned escalate ctx a r n = absurd (n _ raise_assigned)
no-Edge_illegal assigned reject ctx a r n = absurd (n _ drop_assigned)
no-Edge_illegal in_progress resolve ctx a r n = absurd (n _ finish)
no-Edge_illegal in_progress escalate ctx a r n = absurd (n _ raise_in_progress)
no-Edge_illegal in_progress reject ctx a r n = absurd (n _ drop_in_progress)
no-Edge_illegal escalated acknowledge ctx a r n = absurd (n _ reroute)
no-Edge_illegal escalated resolve ctx a r n = absurd (n _ handle)
no-Edge_illegal escalated reject ctx a r n = absurd (n _ drop_escalated)
no-Edge_illegal resolved archive ctx a r n = absurd (n _ close)
no-Edge_illegal archived _ ctx a r n = absurd (a refl)
no-Edge_illegal rejected _ ctx a r n = absurd (r refl)
no-Edge_illegal _ _ ctx a r n = refl

-- A command is refused with `TerminalStateError` exactly in the two statuses that have no way out, and with `IllegalTransitionError` exactly where no edge starts from another status; both name the status and the command.
pub transition-err_iff :
    (from : IncidentStatus) (command : IncidentCommand) (ctx : TransitionContext)
    → ((transition from command ctx ≡ err (terminal_state from command))
        ↔ ((from ≡ archived) ⊎ (from ≡ rejected)))
      × ((transition from command ctx ≡ err (illegal_transition from command)) ↔ (
          (from ≢ archived) × (from ≢ rejected) × ((to : IncidentStatus) → ¬ Edge from command to)))
unfolding transition
transition-err_iff from command ctx = (
  (transition-terminal from command ctx, terminal-transition from command ctx),
  (λ h. illegal_no-Edge from command ctx h, λ (a, r, n). no-Edge_illegal from command ctx a r n),
)

legal_not_err :
    (from : IncidentStatus) (command : IncidentCommand) (ctx : TransitionContext)
    (e : TransitionError)
    → is_legal_command from command ≡ true
    → transition from command ctx ≢ err e
unfolding transition is_legal_command
legal_not_err new acknowledge ctx e h = ground arith
legal_not_err _ _ ctx e h = ground arith

legal_succeeds :
    (from : IncidentStatus) (command : IncidentCommand) (ctx : TransitionContext)
    → is_legal_command from command ≡ true
    → (t : Transition) × (transition from command ctx ≡ ok t)
legal_succeeds from command ctx h = elim (Result-cases (transition from command ctx)) [
  | inl found ↦ found
  | inr (e, failed) ↦ absurd (legal_not_err from command ctx e h failed)
]

succeeds_legal :
    (from : IncidentStatus) (command : IncidentCommand) (ctx : TransitionContext) (t : Transition)
    → transition from command ctx ≡ ok t
    → is_legal_command from command ≡ true
unfolding transition is_legal_command
succeeds_legal new acknowledge ctx t h = refl
succeeds_legal _ _ ctx t h = ground arith

has_command-available_commands :
    (from : IncidentStatus) (command : IncidentCommand)
    → has_command command (available_commands from) ≡ is_legal_command from command
unfolding is_legal_command available_commands
has_command-available_commands new acknowledge = refl
has_command-available_commands _ _ = ground arith

-- The predicates that the interface shows agree with the machine: a command is legal, and is listed as available, exactly when `transition` returns.
pub is_legal_command_iff :
    (from : IncidentStatus) (command : IncidentCommand) (ctx : TransitionContext)
    → ((is_legal_command from command ≡ true)
        ↔ ((t : Transition) × (transition from command ctx ≡ ok t)))
      × (has_command command (available_commands from) ≡ is_legal_command from command)
is_legal_command_iff from command ctx = (
  (legal_succeeds from command ctx, λ (t, h). succeeds_legal from command ctx t h),
  has_command-available_commands from command,
)

transition-err_shape :
    (from : IncidentStatus) (command : IncidentCommand) (ctx : TransitionContext)
    (x : TransitionError)
    → transition from command ctx ≡ err x
    → (x ≡ illegal_transition from command) ⊎ (x ≡ terminal_state from command)
unfolding transition
transition-err_shape new acknowledge ctx x e = ground arith
transition-err_shape _ _ ctx x e = ground arith

-- `transition` in three cases.
pub transition-cases :
    (from : IncidentStatus) (command : IncidentCommand) (ctx : TransitionContext)
    → ((to : IncidentStatus) × Edge from command to
        × (transition from command ctx
            ≡ ok (record {
              from = from;
              to = to;
              command = command;
              actor = ctx.actor;
              reason = ctx.reason;
              occurred_at = ctx.now;
            })))
      ⊎ (((transition from command ctx ≡ err (illegal_transition from command))
            × (from ≢ archived)
            × (from ≢ rejected)
            × ((to : IncidentStatus) → ¬ Edge from command to))
          ⊎ ((transition from command ctx ≡ err (terminal_state from command))
              × ((from ≡ archived) ⊎ (from ≡ rejected))))
transition-cases from command ctx = elim (Result-cases (transition from command ctx)) [
  | inl (t, e) ↦
      let sound = transition_sound from command ctx t e in
      inl (t.to, sound.0, transition_complete ctx sound.0)
  | inr (x, e) ↦ elim (transition-err_shape from command ctx x e) [
    | inl illegal ↦
        let (a, r, n) = illegal_no-Edge from command ctx (e ∙ ap err illegal) in
        inr (inl (e ∙ ap err illegal, a, r, n))
    | inr terminal ↦
        inr (inr (e ∙ ap err terminal, transition-terminal from command ctx (e ∙ ap err terminal)))
  ]
]
