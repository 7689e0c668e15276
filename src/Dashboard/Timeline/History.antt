-- ===== src/Dashboard/Timeline/History.antt =====
-- apps/web/utils/incident-timeline.ts: what the timeline shows of the history of an incident.
use Prim.Native.String
use Prim.Native.Nat.{Ordering}
use airport_inspection_platf.Prelude.{List, String, [], false, map, none, some, true, ◌∷◌, ◌≡◌}
use airport_inspection_platf.Prelude.Sort.{is_gt}
use airport_inspection_platf.Dashboard.Timeline.Recorded.{Recorded, text_of_command}
use airport_inspection_platf.Dashboard.Timeline.{
  ExtractedTransition, TimelineStep, created, transitioned,
}

-- No row's time comes after that of the next.
abbrev pub IsInOrder : (String → String → Ordering) → List Recorded → Type 0
IsInOrder cmp [] = Unit
IsInOrder cmp (r ∷ []) = Unit
IsInOrder cmp (r ∷ s ∷ rest) =
    (is_gt (cmp r.change.occurred_at s.change.occurred_at) ≡ false) × IsInOrder cmp (s ∷ rest)

-- `localeCompare` as a comparator: of two texts at most one comes after the other.
abbrev pub IsConsistent : (String → String → Ordering) → Type 0
IsConsistent cmp = (s t : String) → is_gt (cmp s t) ≡ true → is_gt (cmp t s) ≡ false

module _ (cmp : String → String → Ordering) where
  abbrev by_time : Recorded → Recorded → Ordering
  by_time r s = cmp r.change.occurred_at s.change.occurred_at

  abbrev by_shown_time : ExtractedTransition → ExtractedTransition → Ordering
  by_shown_time a b = cmp a.occurred_at b.occurred_at

-- The step of a transition, and the step before the first one.
abbrev pub step_of : Recorded → TimelineStep
step_of r = record {
  kind = transitioned;
  id = String.◌++◌ "transition:" r.row.event_id;
  status = r.change.to;
  occurred_at = r.change.occurred_at;
  actor = r.row.actor_user_id;
  rationale = r.row.rationale;
  from = some r.change.from;
  command = some (text_of_command r.change.command);
}

abbrev pub beginning : Recorded → TimelineStep
beginning r = record {
  kind = created;
  id = String.◌++◌ "created:" r.row.event_id;
  status = r.change.from;
  occurred_at = r.change.occurred_at;
  actor = none;
  rationale = none;
  from = none;
  command = none;
}

abbrev pub timeline_of : List Recorded → List TimelineStep
timeline_of [] = []
timeline_of (r ∷ rest) = beginning r ∷ step_of r ∷ map step_of rest
