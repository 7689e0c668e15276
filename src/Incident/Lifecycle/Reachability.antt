-- ===== src/Incident/Lifecycle/Reachability.antt =====
-- Sequences of accepted commands: which statuses they can reach, and what they must contain.
use airport_inspection_platf.Incident.Lifecycle.{
  IncidentCommand, IncidentStatus, acknowledge, acknowledged, archive, archived, assign, assigned,
  escalated, in_progress, is_terminal, new, reject, rejected, resolve, resolved, start_progress,
}
use airport_inspection_platf.Incident.Lifecycle.Laws.{
  Edge, begin, close, drop_acknowledged, drop_assigned, drop_escalated, drop_in_progress, drop_new,
  finish, handle, has_command, raise_acknowledged, raise_assigned, raise_in_progress, raise_new,
  reroute, route, triage,
}
use airport_inspection_platf.Prelude.{List, [], arith, false, inl, inr, refl, true, ◌∷◌, ◌≡◌, ◌⊎◌}

-- A sequence of accepted commands from one status to another.
pub data Route : IncidentStatus → List IncidentCommand → IncidentStatus → Type 0 where
  here : {s : IncidentStatus} → Route s [] s
  step :
      {s t u : IncidentStatus} {c : IncidentCommand} {cs : List IncidentCommand}
      → Edge s c t
      → Route t cs u
      → Route s (c ∷ cs) u

pub archived-Route :
    (s : IncidentStatus) → is_terminal s ≡ false → (cs : List IncidentCommand) × Route s cs archived
unfolding is_terminal
archived-Route new h = (
  acknowledge ∷ assign ∷ start_progress ∷ resolve ∷ archive ∷ [],
  step triage (step route (step begin (step finish (step close here)))),
)
archived-Route acknowledged h = (
  assign ∷ start_progress ∷ resolve ∷ archive ∷ [],
  step route (step begin (step finish (step close here))),
)
archived-Route assigned h =
    (start_progress ∷ resolve ∷ archive ∷ [], step begin (step finish (step close here)))
archived-Route in_progress h = (resolve ∷ archive ∷ [], step finish (step close here))
archived-Route escalated h = (resolve ∷ archive ∷ [], step handle (step close here))
archived-Route resolved h = (archive ∷ [], step close here)
archived-Route archived h = cc
archived-Route rejected h = cc

-- Once an incident has been resolved, the only command that can follow is `archive`, and nothing follows that.
pub after_resolved :
    {cs : List IncidentCommand} {u : IncidentStatus}
    → Route resolved cs u
    → ((cs ≡ []) × (u ≡ resolved)) ⊎ ((cs ≡ archive ∷ []) × (u ≡ archived))
after_resolved here = inl (refl, refl)
after_resolved (step close here) = inr (refl, refl)
after_resolved (step close (step e r)) = elim e [ ]

-- The statuses in which work is still open.
abbrev pub IsOpen : IncidentStatus → Type 0
IsOpen resolved = ⊥
IsOpen archived = ⊥
IsOpen rejected = ⊥
IsOpen _ = Unit

Edge-IsOpen :
    {s t : IncidentStatus} {c : IncidentCommand}
    → Edge s c t
    → IsOpen s
    → IsOpen t ⊎ ((c ≡ resolve) ⊎ (c ≡ reject))
Edge-IsOpen triage h = inl tt
Edge-IsOpen route h = inl tt
Edge-IsOpen begin h = inl tt
Edge-IsOpen finish h = inr (inl refl)
Edge-IsOpen reroute h = inl tt
Edge-IsOpen handle h = inr (inl refl)
Edge-IsOpen close h = absurd h
Edge-IsOpen raise_new h = inl tt
Edge-IsOpen raise_acknowledged h = inl tt
Edge-IsOpen raise_assigned h = inl tt
Edge-IsOpen raise_in_progress h = inl tt
Edge-IsOpen drop_new h = inr (inr refl)
Edge-IsOpen drop_acknowledged h = inr (inr refl)
Edge-IsOpen drop_assigned h = inr (inr refl)
Edge-IsOpen drop_in_progress h = inr (inr refl)
Edge-IsOpen drop_escalated h = inr (inr refl)

has_command-cons :
    (c d : IncidentCommand) (cs : List IncidentCommand)
    → has_command c cs ≡ true
    → has_command c (d ∷ cs) ≡ true
has_command-cons c d cs h = ground arith

-- An incident leaves the open statuses only by a `resolve` or a `reject` among its commands.
pub closing_needs_resolve_or_reject :
    {s u : IncidentStatus} {cs : List IncidentCommand}
    → Route s cs u
    → IsOpen s
    → ¬ IsOpen u
    → (has_command resolve cs ≡ true) ⊎ (has_command reject cs ≡ true)
closing_needs_resolve_or_reject here h k = absurd (k h)
closing_needs_resolve_or_reject (step {c} {cs} e r) h k = elim (Edge-IsOpen e h) [
  | inl o ↦ elim (closing_needs_resolve_or_reject r o k) [
    | inl p ↦ inl (has_command-cons resolve c cs p)
    | inr p ↦ inr (has_command-cons reject c cs p)
  ]
  | inr (inl p) ↦ inl (rw p)
  | inr (inr p) ↦ inr (rw p)
]
