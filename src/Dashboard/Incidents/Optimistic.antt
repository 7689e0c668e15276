-- ===== src/Dashboard/Incidents/Optimistic.antt =====
-- apps/web/stores/incidents.ts: the incidents that the page shows while calls are under way.
use airport_inspection_platf.Prelude.Map
use airport_inspection_platf.Prelude.{
  Bool, List, Option, Result, String, [], ap, err, false, if_false, if_true, none, ok, or_else,
  refl, some, str_dec, str_eq_ne, str_eq_refl, subst, sym, true, ◌∙◌, ◌≡◌, ◌≢◌,
}
use airport_inspection_platf.Incident.Repository.{Incident}
use airport_inspection_platf.Dashboard.IncidentApi.{SendError}
use airport_inspection_platf.Dashboard.Incidents.{
  IncidentsState, TransitionParams, incident_of, is_pending, optimistic, run_begin, run_settle,
  set_incident,
}

-- The store, the calls under way by incident (the incident as it was, and the transition), and the
-- incidents as the server last gave them out.
pub record Page : Type 0 where
  pub store : IncidentsState
  pub calls : List (String × (Incident × TransitionParams))
  pub confirmed : List (String × Incident)

abbrev pub answered :
    String → Result SendError Incident → List (String × Incident) → List (String × Incident)
answered id (ok updated) confirmed = Map.set id updated confirmed
answered id (err e) confirmed = confirmed

-- An action begins on a loaded incident, a call ends, or an incident is fetched. Of the incident `id` no second
-- action begins and no fetch arrives while its call is under way; the others are free to do both.
pub data Step (id : String) : Page → Page → Type 0 where
  begins :
      (p : Page) (j : String) (t : TransitionParams) (original : Incident)
      → Map.get j p.store.by_id ≡ some original
      → (j ≡ id → Map.get j p.calls ≡ none)
      → Step id p
          (record p { store = (run_begin j t p.store).1; calls = Map.set j (original, t) p.calls })
  settles :
      (p : Page) (j : String) (t : TransitionParams) (original : Incident)
      (outcome : Result SendError Incident)
      → (j ≡ id → Map.get j p.calls ≡ some (original, t))
      → Step id p (record {
        store = run_settle j original outcome p.store;
        calls = Map.delete j p.calls;
        confirmed = answered j outcome p.confirmed;
      })
  fetches :
      (p : Page) (incident : Incident)
      → (incident.id ≡ id → Map.get incident.id p.calls ≡ none)
      → Step id p (record p {
        store = set_incident incident p.store;
        confirmed = Map.set incident.id incident p.confirmed;
      })

abbrev pub opened : Page
opened = record {
  store = record { by_id = []; pending = []; errors = [] };
  calls = [];
  confirmed = [];
}

pub data Reachable (id : String) : Page → Type 0 where
  at_first : Reachable id opened
  after : {p q : Page} → Reachable id p → Step id p q → Reachable id q

-- What the page shows of an incident and whether it is pending, by its call under way.
abbrev pub Shows :
    Option (Incident × TransitionParams) → Option Incident → Option Incident → Bool → Type 0
Shows none confirmed shown pending = (shown ≡ confirmed) × (pending ≡ false)
Shows (some (original, t)) confirmed shown pending =
    (confirmed ≡ some original) × (shown ≡ some (optimistic t original)) × (pending ≡ true)

abbrev pub IsShown : Page → String → Type 0
IsShown p id =
    Shows (Map.get id p.calls) (Map.get id p.confirmed) (incident_of p.store id)
      (is_pending p.store id)

module _ {c : Option (Incident × TransitionParams)} {confirmed shown : Option Incident}
    {pending : Bool} where
  of_idle : c ≡ none → Shows c confirmed shown pending → (shown ≡ confirmed) × (pending ≡ false)
  of_idle e h = subst (λ x. Shows x confirmed shown pending) e h

  of_call :
      {original : Incident} {t : TransitionParams}
      → c ≡ some (original, t)
      → Shows c confirmed shown pending
      → (confirmed ≡ some original) × (shown ≡ some (optimistic t original)) × (pending ≡ true)
  of_call e h = subst (λ x. Shows x confirmed shown pending) e h

  idle_Shows : c ≡ none → shown ≡ confirmed → pending ≡ false → Shows c confirmed shown pending
  idle_Shows e a b = subst (λ x. Shows x confirmed shown pending) (sym e) (a, b)

  call_Shows :
      {original : Incident} {t : TransitionParams}
      → c ≡ some (original, t)
      → confirmed ≡ some original
      → shown ≡ some (optimistic t original)
      → pending ≡ true
      → Shows c confirmed shown pending
  call_Shows e a b d = subst (λ x. Shows x confirmed shown pending) (sym e) (a, b, d)

-- An incident that a step leaves alone.
unchanged :
    {c c' : Option (Incident × TransitionParams)}
    {confirmed confirmed' shown shown' : Option Incident} {pending pending' : Bool}
    → c' ≡ c
    → confirmed' ≡ confirmed
    → shown' ≡ shown
    → pending' ≡ pending
    → Shows c confirmed shown pending
    → Shows c' confirmed' shown' pending'
unchanged e₁ e₂ e₃ e₄ h = rw (e₁, e₂, e₃, e₄) h

begun :
    (id : String) (t : TransitionParams) (store : IncidentsState) {original : Incident}
    → Map.get id store.by_id ≡ some original
    → (run_begin id t store).1 ≡ record {
      by_id = Map.set id (optimistic t original) store.by_id;
      pending = Map.set id true store.pending;
      errors = Map.set id none store.errors;
    }
unfolding run_begin
begun id t store e = rw (e, run_begin) refl

get-delete_self :
    {V : Type 0} (k : String) (m : List (String × V)) → Map.get k (Map.delete k m) ≡ none
get-delete_self k m = Map.get-delete k k m ∙ if_true _ _ _ (str_eq_refl k)

get-delete_ne :
    {V : Type 0} (j k : String) (m : List (String × V))
    → k ≢ j
    → Map.get j (Map.delete k m) ≡ Map.get j m
get-delete_ne j k m ne = Map.get-delete j k m ∙ if_false _ _ _ (str_eq_ne k j ne)

begins-IsShown :
    (p : Page) (id : String) (t : TransitionParams) (original : Incident)
    → Map.get id p.store.by_id ≡ some original
    → (j : String) → (id ≡ j → Map.get id p.calls ≡ none)
    → IsShown p j
    → IsShown
        (record p { store = (run_begin id t p.store).1; calls = Map.set id (original, t) p.calls })
        j
unfolding incident_of is_pending
begins-IsShown p id t original loaded j idle h =
    rw (begun id t p.store loaded) (elim (str_dec id j) [
      | yes same ↦ rw⁻¹ same (
          call_Shows (Map.get-set_self id (original, t) p.calls)
            (sym (of_idle (idle same) (subst (IsShown p) (sym same) h)).0 ∙ loaded)
            (Map.get-set_self id _ p.store.by_id)
            (ap (λ x. or_else x false) (Map.get-set_self id true p.store.pending)))
      | no other ↦
          unchanged (Map.get-set_ne j id (original, t) p.calls other) refl
            (Map.get-set_ne j id _ p.store.by_id other)
            (ap (λ x. or_else x false) (Map.get-set_ne j id true p.store.pending other)) h
    ])

settles-IsShown :
    (p : Page) (id : String) (t : TransitionParams) (original : Incident)
    (outcome : Result SendError Incident)
    → (j : String) → (id ≡ j → Map.get id p.calls ≡ some (original, t))
    → IsShown p j
    → IsShown
        (record {
          store = run_settle id original outcome p.store;
          calls = Map.delete id p.calls;
          confirmed = answered id outcome p.confirmed;
        })
        j
unfolding incident_of is_pending run_settle
settles-IsShown p id t original (ok updated) j e h = elim (str_dec id j) [
  | yes same ↦ rw⁻¹ same (
      idle_Shows (get-delete_self id p.calls)
        (Map.get-set_self id updated p.store.by_id ∙ sym (Map.get-set_self id updated p.confirmed))
        (ap (λ x. or_else x false) (Map.get-set_self id false p.store.pending)))
  | no other ↦
      unchanged (get-delete_ne j id p.calls other) (Map.get-set_ne j id updated p.confirmed other)
        (Map.get-set_ne j id updated p.store.by_id other)
        (ap (λ x. or_else x false) (Map.get-set_ne j id false p.store.pending other)) h
]
settles-IsShown p id t original (err failure) j e h = elim (str_dec id j) [
  | yes same ↦ rw⁻¹ same (
      idle_Shows (get-delete_self id p.calls)
        (Map.get-set_self id original p.store.by_id
          ∙ sym (of_call (e same) (subst (IsShown p) (sym same) h)).0)
        (ap (λ x. or_else x false) (Map.get-set_self id false p.store.pending)))
  | no other ↦
      unchanged (get-delete_ne j id p.calls other) refl
        (Map.get-set_ne j id original p.store.by_id other)
        (ap (λ x. or_else x false) (Map.get-set_ne j id false p.store.pending other)) h
]

fetches-IsShown :
    (p : Page) (incident : Incident)
    → (j : String) → (incident.id ≡ j → Map.get incident.id p.calls ≡ none)
    → IsShown p j
    → IsShown
        (record p {
          store = set_incident incident p.store;
          confirmed = Map.set incident.id incident p.confirmed;
        })
        j
unfolding incident_of is_pending set_incident
fetches-IsShown p incident j idle h = elim (str_dec incident.id j) [
  | yes same ↦ rw⁻¹ same (
      idle_Shows (idle same)
        (Map.get-set_self incident.id incident p.store.by_id
          ∙ sym (Map.get-set_self incident.id incident p.confirmed))
        (of_idle (idle same) (subst (IsShown p) (sym same) h)).1)
  | no other ↦
      unchanged refl (Map.get-set_ne j incident.id incident p.confirmed other)
        (Map.get-set_ne j incident.id incident p.store.by_id other) refl h
]

Step-IsShown : {id : String} {p q : Page} → Step id p q → IsShown p id → IsShown q id
Step-IsShown {id} (begins p j t original loaded idle) h =
    begins-IsShown p j t original loaded id idle h
Step-IsShown {id} (settles p j t original outcome e) h =
    settles-IsShown p j t original outcome id e h
Step-IsShown {id} (fetches p incident idle) h = fetches-IsShown p incident id idle h

-- Take an incident of which no second action begins and no fetch arrives while its call is under way; the actions and fetches of the other incidents may overlap in any way, among themselves and with it. Then at every moment: without a call under way it is shown as the server last gave it out, a refused or failed transition leaving no trace, and it is not pending; with a call under way it is shown with the change asked for on top of that, and is pending.
pub reachable-IsShown : (id : String) {p : Page} → Reachable id p → IsShown p id
unfolding incident_of is_pending Map.get
reachable-IsShown id at_first = (refl, refl)
reachable-IsShown id (after r s) = Step-IsShown s (reachable-IsShown id r)
