-- ===== src/Incident/Repository/Stored.antt =====
-- What the repository stores: the index of idempotency keys points at stored incidents, so `create` never reports a conflict, and a repeated key gives the incident that it gave before.
use airport_inspection_platf.Prelude.Map
use airport_inspection_platf.Incident.Repository.{
  IdempotencyKeyConflictError, InMemoryIncidentRepository, Incident, NewIncidentInput, create,
  create_new, existing_for, find_by_id, index_key, save,
}
use airport_inspection_platf.Prelude.{
  All, Bool-cases, List, Option, Option-cases, Result, String, [], arith, inl, inr, none, ok, refl,
  some, str_eq, str_eq_ne, subst, sym, truthy, ◌≡◌, ◌≢◌, ◌⊎◌,
}

pub record IsWellFormed (repo : InMemoryIncidentRepository) : Type 0 where
  pub indexed :
      (key id : String)
      → Map.get key repo.idempotency_index ≡ some id
      → (incident : Incident) × (Map.get id repo.items ≡ some incident)
  pub keyed : All (λ e. e.1.id ≡ e.0) repo.items
  pub nodup : Map.IsNodup repo.items

abbrev pub empty : InMemoryIncidentRepository
empty = record { items = []; idempotency_index = [] }

pub empty-IsWellFormed : IsWellFormed empty
unfolding Map.get
empty-IsWellFormed = record { indexed = λ key id e. cc; keyed = tt; nodup = tt }

-- A stored incident stays under its id when another is set.
stored_after_set :
    (id : String) (incident : Incident) (items : List (String × Incident)) (j : String)
    → (old : Incident) × (Map.get j items ≡ some old)
    → (now : Incident) × (Map.get j (Map.set id incident items) ≡ some now)
stored_after_set id incident items j (old, e) = elim (Bool-cases (str_eq id j)) [
  | inl same ↦ (incident, rw (Map.get-set j id incident items) (rw same))
  | inr other ↦ (old, rw (Map.get-set j id incident items) (rw other e))
]

-- `save` keeps the repository well formed, and then the incident is found under its id and every other id finds what it found before.
pub save_lem :
    (incident : Incident) (repo : InMemoryIncidentRepository)
    → IsWellFormed repo
    → let repo' = (save incident repo).1 in
      IsWellFormed repo'
      × (find_by_id incident.id repo' ≡ some incident)
      × ((id : String) → incident.id ≢ id → find_by_id id repo' ≡ find_by_id id repo)
unfolding save find_by_id
save_lem incident repo h = (
  record {
    indexed = λ key id e. stored_after_set incident.id incident repo.items id (h.indexed key id e);
    keyed = Map.All-set (λ e. e.1.id ≡ e.0) incident.id incident repo.items refl h.keyed;
    nodup = Map.set-IsNodup incident.id incident repo.items h.nodup;
  },
  Map.get-set_self incident.id incident repo.items,
  λ id ne. Map.get-set_ne id incident.id incident repo.items ne,
)

index_key-indexed :
    (k : Option String) (incident : Incident) (repo : InMemoryIncidentRepository)
    → IsWellFormed repo
    → (key id : String) → Map.get key (index_key k incident.id repo.idempotency_index) ≡ some id
    → (now : Incident) × (Map.get id (Map.set incident.id incident repo.items) ≡ some now)
index_key-indexed none incident repo h key id e =
    stored_after_set incident.id incident repo.items id (h.indexed key id e)
index_key-indexed (some k) incident repo h key id e = elim (Bool-cases (str_eq k key)) [
  | inl same ↦
      let here : incident.id ≡ id =
        ground (arith, Map.get-set key k incident.id repo.idempotency_index) in
      subst
        (λ j. (now : Incident) × (Map.get j (Map.set incident.id incident repo.items) ≡ some now))
        here (incident, Map.get-set_self incident.id incident repo.items)
  | inr other ↦
      stored_after_set incident.id incident repo.items id
        (h.indexed key id (ground (arith, Map.get-set key k incident.id repo.idempotency_index)))
]

pub create_new-IsWellFormed :
    (input : NewIncidentInput) (random_uuid : String) (repo : InMemoryIncidentRepository)
    → IsWellFormed repo
    → IsWellFormed (create_new input random_uuid repo).1
unfolding create_new
create_new-IsWellFormed input random_uuid repo h =
    let incident = (create_new input random_uuid repo).0 in
    record {
      indexed = index_key-indexed (truthy incident.idempotency_key) incident repo h;
      keyed = Map.All-set (λ e. e.1.id ≡ e.0) incident.id incident repo.items refl h.keyed;
      nodup = Map.set-IsNodup incident.id incident repo.items h.nodup;
    }

truthy-some : (o : Option String) (s : String) → truthy o ≡ some s → o ≡ some s
truthy-some none s e = cc
truthy-some (some t) s e = ground arith

pub create_new_found :
    (input : NewIncidentInput) (random_uuid : String) (repo : InMemoryIncidentRepository)
    → let (incident, repo') = create_new input random_uuid repo in
      find_by_id incident.id repo' ≡ some incident
unfolding create_new find_by_id
create_new_found input random_uuid repo =
    Map.get-set_self (create_new input random_uuid repo).0.id (create_new input random_uuid repo).0
      repo.items

pub create_new_others :
    (input : NewIncidentInput) (random_uuid : String) (repo : InMemoryIncidentRepository)
    (id : String)
    → (create_new input random_uuid repo).0.id ≢ id
    → find_by_id id (create_new input random_uuid repo).1 ≡ find_by_id id repo
unfolding create_new find_by_id
create_new_others input random_uuid repo id ne =
    Map.get-set_ne id (create_new input random_uuid repo).0.id (create_new input random_uuid repo).0
      repo.items ne

pub existing_for-cases :
    (k : Option String) (repo : InMemoryIncidentRepository)
    → IsWellFormed repo
    → (existing_for k repo ≡ none)
      ⊎ ((item : Incident) × (existing_for k repo ≡ some (ok item))
          × (find_by_id item.id repo ≡ some item))
unfolding existing_for find_by_id
existing_for-cases none repo h = inl refl
existing_for-cases (some key) repo h =
    elim (Option-cases (truthy (Map.get key repo.idempotency_index))) [
      | inl absent ↦ inl (rw (absent, existing_for))
      | inr (id, found) ↦
          let (item, stored) = h.indexed key id (truthy-some _ id found) in
          let same : item.id ≡ id =
            Map.get-All (λ e. e.1.id ≡ e.0) id item repo.items h.keyed stored in
          inr (
            item,
            rw (found, stored, existing_for),
            subst (λ j. Map.get j repo.items ≡ some item) (sym same) stored,
          )
    ]

pub create-existing :
    (input : NewIncidentInput) (uuid : String) (repo : InMemoryIncidentRepository)
    (r : Result IdempotencyKeyConflictError Incident)
    → existing_for (truthy input.idempotency_key) repo ≡ some r
    → create input uuid repo ≡ (r, repo)
unfolding create
create-existing input uuid repo r e = rw (e, create)

pub create-absent :
    (input : NewIncidentInput) (uuid : String) (repo : InMemoryIncidentRepository)
    → existing_for (truthy input.idempotency_key) repo ≡ none
    → create input uuid repo ≡ (ok (create_new input uuid repo).0, (create_new input uuid repo).1)
unfolding create
create-absent input uuid repo e = rw (e, create)

-- In a well-formed repository `create` always returns an incident, never a key conflict; the repository stays well formed, the incident is found under its id, and every other id finds what it found before.
pub create_lem :
    (input : NewIncidentInput) (random_uuid : String) (repo : InMemoryIncidentRepository)
    → IsWellFormed repo
    → let repo' = (create input random_uuid repo).1 in
      (incident : Incident) × ((create input random_uuid repo).0 ≡ ok incident)
      × IsWellFormed repo'
      × (find_by_id incident.id repo' ≡ some incident)
      × ((id : String) → incident.id ≢ id → find_by_id id repo' ≡ find_by_id id repo)
create_lem input random_uuid repo h =
    elim (existing_for-cases (truthy input.idempotency_key) repo h) [
      | inr (item, found, stored) ↦
          rw (create-existing input random_uuid repo (ok item) found)
            (item, refl, h, stored, λ id ne. refl)
      | inl absent ↦ rw (create-absent input random_uuid repo absent) (
        (create_new input random_uuid repo).0,
        refl,
        create_new-IsWellFormed input random_uuid repo h,
        create_new_found input random_uuid repo,
        create_new_others input random_uuid repo,
      )
    ]

found_same :
    (key : String) (repo : InMemoryIncidentRepository) (item incident : Incident)
    → existing_for (some key) repo ≡ some (ok item)
    → ◌≡◌ {A = Result IdempotencyKeyConflictError Incident} (ok item) (ok incident)
    → existing_for (some key) repo ≡ some (ok incident)
found_same key repo item incident found e = cc

existing_after_create_new :
    (input : NewIncidentInput) (uuid key : String) (repo : InMemoryIncidentRepository)
    (incident : Incident)
    → truthy input.idempotency_key ≡ some key
    → ◌≡◌ {A = Result IdempotencyKeyConflictError Incident}
        (ok (create_new input uuid repo).0)
        (ok incident)
    → incident.id ≢ ""
    → existing_for (some key) (create_new input uuid repo).1 ≡ some (ok incident)
unfolding create_new existing_for
existing_after_create_new input uuid key repo incident k e ne =
    let made : Incident = (create_new input uuid repo).0 in
    let same : made ≡ incident = cc in
    subst (λ x. existing_for (some key) (create_new input uuid repo).1 ≡ some (ok x)) same
      (rw (
        k,
        Map.get-set_self key made.id repo.idempotency_index,
        str_eq_ne made.id "" (subst (λ x. x.id ≢ "") (sym same) ne),
        Map.get-set_self made.id made repo.items,
        existing_for,
      ))

existing_after_create :
    (input : NewIncidentInput) (uuid key : String) (repo : InMemoryIncidentRepository)
    (incident : Incident)
    → IsWellFormed repo
    → truthy input.idempotency_key ≡ some key
    → (create input uuid repo).0 ≡ ok incident
    → incident.id ≢ ""
    → existing_for (some key) (create input uuid repo).1 ≡ some (ok incident)
existing_after_create input uuid key repo incident h k e ne =
    elim (existing_for-cases (truthy input.idempotency_key) repo h) [
      | inr (item, found, stored) ↦
          let made = create-existing input uuid repo (ok item) found in
          rw made (found_same key repo item incident (rw k at found) (rw made at e))
      | inl absent ↦
          let made = create-absent input uuid repo absent in
          rw made (existing_after_create_new input uuid key repo incident k (rw made at e) ne)
    ]

-- Creating again with a key that was just used, whatever else the second request says, returns the same incident and changes nothing, provided that the key and the incident's id are not empty.
create_idempotent :
    (first second : NewIncidentInput) (uuid uuid' key : String) (repo : InMemoryIncidentRepository)
    (incident : Incident)
    → IsWellFormed repo
    → truthy first.idempotency_key ≡ some key
    → truthy second.idempotency_key ≡ some key
    → (create first uuid repo).0 ≡ ok incident
    → incident.id ≢ ""
    → let repo' = (create first uuid repo).1 in create second uuid' repo' ≡ (ok incident, repo')
create_idempotent first second uuid uuid' key repo incident h k k' e ne =
    create-existing second uuid' (create first uuid repo).1 (ok incident)
      (rw k' (existing_after_create first uuid key repo incident h k e ne))
