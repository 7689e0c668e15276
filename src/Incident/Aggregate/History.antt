-- ===== src/Incident/Aggregate/History.antt =====
-- The history that a snapshot carries is the record of how its status was reached.
use airport_inspection_platf.Incident.Lifecycle.{
  IncidentCommand, IncidentStatus, Transition, archived, is_terminal, new, reject, resolve,
  transition,
}
use airport_inspection_platf.Incident.Lifecycle.Laws.{
  Edge, has_command, transition_complete, transition_sound,
}
use airport_inspection_platf.Incident.Lifecycle.Reachability.{
  IsOpen, Route, archived-Route, closing_needs_resolve_or_reject, here, step,
}
use airport_inspection_platf.Incident.Aggregate.{
  DispatchOptions, DispatchResult, IncidentSnapshot, applied, context, dispatch, dispatch_all,
  next_or,
}
use airport_inspection_platf.Prelude.{
  List, Result-cases, String, [], ap, arith, false, inl, inr, map, none, ok, refl, subst, subst₂,
  sym, true, ◌++◌, ◌∙◌, ◌∷◌, ◌≡◌, ◌⊎◌,
}

-- `Traces s ts u`: the transitions lead from `s` to `u`, each along an edge of the diagram and each starting where the one before it ended.
abbrev pub Traces : IncidentStatus → List Transition → IncidentStatus → Type 0
Traces s [] u = s ≡ u
Traces s (t ∷ ts) u = (t.from ≡ s) × Edge t.from t.command t.to × Traces t.to ts u

pub Traces-snoc :
    (s u : IncidentStatus) (ts : List Transition) (t : Transition)
    → Traces s ts u
    → t.from ≡ u
    → Edge t.from t.command t.to
    → Traces s (ts ++ (t ∷ [])) t.to
Traces-snoc s u [] t h p e = (p ∙ sym h, e, refl)
Traces-snoc s u (x ∷ ts) t (q, f, h) p e = (q, f, Traces-snoc x.to u ts t h p e)

-- A snapshot whose status is the one that its history leads to, from `new`.
abbrev pub IsTraced : IncidentSnapshot → Type 0
IsTraced s = Traces new s.history s.status

dispatch-eq :
    (s : IncidentSnapshot) (opts : DispatchOptions) (r : DispatchResult)
    → dispatch s opts ≡ ok r
    → (t : Transition) × (transition s.status opts.command (context opts) ≡ ok t)
      × (r ≡ applied s opts.correlation_id t)
unfolding dispatch
dispatch-eq s opts r e = elim (Result-cases (transition s.status opts.command (context opts))) [
  | inl (t, found) ↦ (t, found, ground arith)
  | inr (x, failed) ↦ absurd (ground arith)
]

-- What an accepted command does: it appends exactly one transition, of the incident's own status and by the given actor, to the history, moves the status to its target and the update time to the clock's, leaves every other field, and builds an event that names the incident, that transition and the caller's correlation id.
pub record IsDispatched (s : IncidentSnapshot) (opts : DispatchOptions) (r : DispatchResult)
    : Type 0 where
  pub next : r.next ≡ record s {
    status = r.transition.to;
    updated_at = opts.now;
    history = s.history ++ (r.transition ∷ []);
  }
  pub from : r.transition.from ≡ s.status
  pub command : r.transition.command ≡ opts.command
  pub actor : r.transition.actor ≡ opts.actor
  pub incident_id : r.event.incident_id ≡ s.id
  pub transition : r.event.transition ≡ r.transition
  pub correlation_id : r.event.correlation_id ≡ opts.correlation_id
  pub traced : IsTraced r.next

applied-IsDispatched :
    (s : IncidentSnapshot) (opts : DispatchOptions) (t : Transition)
    → IsTraced s
    → Edge s.status opts.command t.to
      × (t.from ≡ s.status)
      × (t.command ≡ opts.command)
      × (t.actor ≡ opts.actor)
      × (t.reason ≡ opts.reason)
      × (t.occurred_at ≡ opts.now)
    → IsDispatched s opts (applied s opts.correlation_id t)
unfolding applied
applied-IsDispatched s opts t h (e, p, q, a, b, c) = record {
  next = ap (λ o. record s { status = t.to; updated_at = o; history = s.history ++ (t ∷ []) }) c;
  from = p;
  command = q;
  actor = a;
  incident_id = refl;
  transition = refl;
  correlation_id = refl;
  traced =
      Traces-snoc new s.status s.history t h p (subst₂ (λ x y. Edge x y t.to) (sym p) (sym q) e);
}

-- A command that `dispatch` accepts does exactly what `IsDispatched` says; among it, the new history still leads to the new status.
pub dispatch_lem :
    (s : IncidentSnapshot) (opts : DispatchOptions) (r : DispatchResult)
    → IsTraced s
    → dispatch s opts ≡ ok r
    → IsDispatched s opts r
dispatch_lem s opts r h e =
    let (t, found, q) = dispatch-eq s opts r e in
    let sound = transition_sound s.status opts.command (context opts) t found in
    rw q (applied-IsDispatched s opts t h sound)

next_or-IsTraced :
    (s : IncidentSnapshot) (opts : DispatchOptions)
    → IsTraced s
    → IsTraced (next_or s (dispatch s opts))
next_or-IsTraced s opts h = elim (Result-cases (dispatch s opts)) [
  | inl (r, done) ↦ rw done (dispatch_lem s opts r h done).traced
  | inr (x, failed) ↦ rw failed h
]

next_or_identity :
    (s : IncidentSnapshot) (opts : DispatchOptions)
    → ((next_or s (dispatch s opts)).id ≡ s.id)
      × ((next_or s (dispatch s opts)).airport_id ≡ s.airport_id)
      × ((next_or s (dispatch s opts)).created_at ≡ s.created_at)
unfolding dispatch
next_or_identity s opts = ground arith

-- Whatever commands are given, accepted or refused, a snapshot whose history leads to its status keeps that property, and keeps its identity: id, airport and creation time.
pub dispatch_all-IsTraced :
    (s : IncidentSnapshot) (all_opts : List DispatchOptions)
    → IsTraced s
    → IsTraced (dispatch_all s all_opts)
      × ((dispatch_all s all_opts).id ≡ s.id)
      × ((dispatch_all s all_opts).airport_id ≡ s.airport_id)
      × ((dispatch_all s all_opts).created_at ≡ s.created_at)
unfolding dispatch_all
dispatch_all-IsTraced s [] h = (h, refl, refl, refl)
dispatch_all-IsTraced s (opts ∷ rest) h =
    let (a, b, c, d) =
      dispatch_all-IsTraced (next_or s (dispatch s opts)) rest (next_or-IsTraced s opts h) in
    let (x, y, z) = next_or_identity s opts in (a, b ∙ x, c ∙ y, d ∙ z)

abbrev pub commands : List Transition → List IncidentCommand
commands [] = []
commands (t ∷ ts) = t.command ∷ commands ts

Traces-Route :
    (s u : IncidentStatus) (ts : List Transition) → Traces s ts u → Route s (commands ts) u
Traces-Route s u [] h = subst (λ x. Route s [] x) h here
Traces-Route s u (t ∷ ts) (p, e, h) =
    subst (λ x. Route x (t.command ∷ commands ts) u) p (step e (Traces-Route t.to u ts h))

-- A snapshot that began as a new incident with no history and is later closed has a `resolve` or a `reject` in its recorded history, whatever commands it was given.
pub closed_history :
    (s : IncidentSnapshot) (all_opts : List DispatchOptions)
    → s.status ≡ new
    → s.history ≡ []
    → ¬ IsOpen (dispatch_all s all_opts).status
    → (has_command resolve (commands (dispatch_all s all_opts).history) ≡ true)
      ⊎ (has_command reject (commands (dispatch_all s all_opts).history) ≡ true)
closed_history s all_opts p q k =
    let traced = (dispatch_all-IsTraced s all_opts (rw (p, q) refl)).0 in
    closing_needs_resolve_or_reject (Traces-Route new _ _ traced) tt k

abbrev pub given : String → String → IncidentCommand → DispatchOptions
given actor now c = record {
  command = c;
  actor = actor;
  reason = none;
  now = now;
  correlation_id = none;
}

dispatch-Edge :
    (s : IncidentSnapshot) (actor now : String) {c : IncidentCommand} {t : IncidentStatus}
    → Edge s.status c t
    → (next_or s (dispatch s (given actor now c))).status ≡ t
unfolding dispatch
dispatch-Edge s actor now {c} e = rw (transition_complete (context (given actor now c)) e)

Route-dispatch_all :
    {x u : IncidentStatus} {cs : List IncidentCommand} (s : IncidentSnapshot) (actor now : String)
    → Route x cs u
    → s.status ≡ x
    → (dispatch_all s (map (given actor now) cs)).status ≡ u
unfolding dispatch_all
Route-dispatch_all s actor now here p = p
Route-dispatch_all s actor now (step {t} {c} e r) p =
    Route-dispatch_all (next_or s (dispatch s (given actor now c))) actor now r
      (dispatch-Edge s actor now (subst (λ y. Edge y c t) (sym p) e))

-- No incident is stuck: from every status but the two terminal ones some sequence of commands, whoever gives them and whenever, brings the incident to `archived`.
pub archived_reachable :
    (s : IncidentSnapshot) (actor now : String)
    → is_terminal s.status ≡ false
    → (cs : List IncidentCommand) × ((dispatch_all s (map (given actor now) cs)).status ≡ archived)
archived_reachable s actor now open_status =
    let (cs, r) = archived-Route s.status open_status in (cs, Route-dispatch_all s actor now r refl)
