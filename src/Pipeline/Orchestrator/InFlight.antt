-- ===== src/Pipeline/Orchestrator/InFlight.antt =====
-- Calls of handlers that begin and end in any order.
use airport_inspection_platf.Prelude.Map
use airport_inspection_platf.Prelude.Map.{get-set, set}
use airport_inspection_platf.Pipeline.Orchestrator.{
  ConsumerOrchestrator, DispatchOutcome, admit, dropped, in_flight, release,
}
use airport_inspection_platf.Prelude.{
  Bool, Bool-cases, Option, String, [], ap, arith, if_false, if_true, if◌then◌else◌, inl, inr, leb,
  none, refl, some, str_eq, suc, sym, ℕ, ◌-◌, ◌<◌, ◌∙◌, ◌≡◌, ◌≢◌, ◌≤◌,
}

-- The orchestrator, and how many calls of each handler are running.
pub record Running : Type 0 where
  pub orchestrator : ConsumerOrchestrator
  pub calls : String → ℕ

abbrev pub change : String → ℕ → (String → ℕ) → String → ℕ
change name n calls other = if str_eq name other then n else calls other

pub data Step : Running → Running → Type 0 where
  dispatched :
      (name : String) {s : Running}
      → (admit name s.orchestrator).0 ≡ none
      → Step s (record {
        orchestrator = (admit name s.orchestrator).1;
        calls = change name (suc (s.calls name)) s.calls;
      })
  shed :
      (name : String) {s : Running}
      → (admit name s.orchestrator).0 ≡ some dropped
      → Step s (record s { orchestrator = (admit name s.orchestrator).1 })
  ended :
      (name : String) (threw : Bool) {s : Running}
      → 0 < s.calls name
      → Step s (record {
        orchestrator = (release name threw s.orchestrator).1;
        calls = change name (s.calls name - 1) s.calls;
      })

pub data Reachable (start : Running) : Running → Type 0 where
  here : Reachable start start
  after : {s t : Running} → Reachable start s → Step s t → Reachable start t

-- The count of each handler is the number of its running calls, which is within the bound.
pub record IsBounded (bound : ℕ) (s : Running) : Type 0 where
  pub limit : s.orchestrator.max_concurrency ≡ bound
  pub counted : (name : String) → in_flight name s.orchestrator ≡ s.calls name
  pub bounded : (name : String) → s.calls name ≤ bound

in_flight-set :
    (other name : String) (n : ℕ) (o : ConsumerOrchestrator)
    → in_flight other (record o { in_flight_by_handler = Map.set name n o.in_flight_by_handler })
      ≡ change name n (λ x. in_flight x o) other
unfolding in_flight
in_flight-set other name n o = ground (arith, get-set other name n o.in_flight_by_handler)

change-agree :
    (name other : String) (n m : ℕ) (f g : String → ℕ)
    → n ≡ m
    → f other ≡ g other
    → change name n f other ≡ change name m g other
change-agree name other n m f g e h = ground arith

change-le :
    (bound : ℕ) (name other : String) (n : ℕ) (f : String → ℕ)
    → n ≤ bound
    → f other ≤ bound
    → change name n f other ≤ bound
change-le bound name other n f l h = ground arith

admit-none :
    (name : String) (o : ConsumerOrchestrator)
    → (admit name o).0 ≡ none
    → (in_flight name o < o.max_concurrency)
      × ((admit name o).1 ≡ record o {
        in_flight_by_handler = Map.set name (suc (in_flight name o)) o.in_flight_by_handler;
      })
unfolding admit
admit-none name o h = elim (Bool-cases (leb o.max_concurrency (in_flight name o))) [
  | inl t ↦ absurd (
      dropped_not_none (
        sym (ap (λ (r : Option DispatchOutcome × ConsumerOrchestrator). r.0) (if_true _ _ _ t))
        ∙ h))
  | inr t ↦ (
    ground arith,
    ap (λ (r : Option DispatchOutcome × ConsumerOrchestrator). r.1) (if_false _ _ _ t),
  )
]
  where
    dropped_not_none : ◌≢◌ {A = Option DispatchOutcome} (some dropped) none
    dropped_not_none e = absurd (cc)

admit-dropped :
    (name : String) (o : ConsumerOrchestrator)
    → (admit name o).0 ≡ some dropped
    → (admit name o).1 ≡ o
unfolding admit
admit-dropped name o h = elim (Bool-cases (leb o.max_concurrency (in_flight name o))) [
  | inl t ↦ ap (λ (r : Option DispatchOutcome × ConsumerOrchestrator). r.1) (if_true _ _ _ t)
  | inr t ↦ absurd (
      none_not_dropped (
        sym (ap (λ (r : Option DispatchOutcome × ConsumerOrchestrator). r.0) (if_false _ _ _ t))
        ∙ h))
]
  where
    none_not_dropped : ◌≢◌ {A = Option DispatchOutcome} none (some dropped)
    none_not_dropped e = absurd (cc)

Step-IsBounded : (bound : ℕ) {s t : Running} → Step s t → IsBounded bound s → IsBounded bound t
unfolding release
Step-IsBounded bound (dispatched name {s} h) i =
    let o = s.orchestrator in
    let (room, set) = admit-none name o h in
    record {
      limit = ap (λ (x : ConsumerOrchestrator). x.max_concurrency) set ∙ i.limit;
      counted = λ other.
          ap (in_flight other) set
          ∙ in_flight-set other name (suc (in_flight name o)) o
          ∙ change-agree name other _ _ (λ x. in_flight x o) s.calls (ap suc (i.counted name))
              (i.counted other);
      bounded = λ other.
          let c = i.counted name in
          let l = i.limit in change-le bound name other _ s.calls (omega arith) (i.bounded other);
    }
Step-IsBounded bound (shed name {s} h) i =
    let same = admit-dropped name s.orchestrator h in
    record {
      limit = ap (λ (x : ConsumerOrchestrator). x.max_concurrency) same ∙ i.limit;
      counted = λ other. ap (in_flight other) same ∙ i.counted other;
      bounded = i.bounded;
    }
Step-IsBounded bound (ended name threw {s} h) i =
    let o = s.orchestrator in
    record {
      limit = i.limit;
      counted = λ other.
          in_flight-set other name (in_flight name o - 1) o
          ∙ change-agree name other _ _ (λ x. in_flight x o) s.calls
              (ap (λ n. n - 1) (i.counted name)) (i.counted other);
      bounded = λ other.
          let b = i.bounded name in
          change-le bound name other _ s.calls (omega arith) (i.bounded other);
    }

-- An orchestrator with no call under way.
abbrev pub at_rest : ℕ → Running
at_rest bound = record {
  orchestrator = record { max_concurrency = bound; in_flight_by_handler = [] };
  calls = λ name. 0;
}

-- However calls of handlers begin and end: from an orchestrator with none running, each handler's
-- count is the number of its calls that run, and never above `maxConcurrency`.
pub reachable-IsBounded :
    (bound : ℕ) (s : Running) → Reachable (at_rest bound) s → IsBounded bound s
unfolding in_flight Map.get
reachable-IsBounded bound s here = record {
  limit = refl;
  counted = λ name. refl;
  bounded = λ name. omega arith;
}
reachable-IsBounded bound s (after r step) =
    Step-IsBounded bound step (reachable-IsBounded bound _ r)
