-- ===== src/Incident/Tests.antt =====
-- Runs of the incident service at concrete inputs, and the theorems at inputs that meet their hypotheses.
use mathlib.Core.Option
use airport_inspection_platf.Prelude.Map
use airport_inspection_platf.Prelude.Marked.{mark, mark-ne-empty, unmark, unmark-mark}
use mathlib.Core.List.{Perm}
use airport_inspection_platf.Auth.{Auth, operator}
use airport_inspection_platf.Incident.Lifecycle.{
  IncidentCommand, IncidentStatus, Transition, TransitionContext, acknowledge, acknowledged,
  archive, archived, assign, illegal_transition, is_terminal, new, reject, rejected, terminal_state,
  transition,
}
use airport_inspection_platf.Incident.Lifecycle.Laws.{Edge, transition-err_iff}
use airport_inspection_platf.Incident.Aggregate.{
  DispatchOptions, DispatchResult, IncidentSnapshot, dispatch, dispatch_all, high,
}
use airport_inspection_platf.Incident.Aggregate.History.{archived_reachable, given}
use airport_inspection_platf.Incident.Repository.{
  CursorCodec, InMemoryIncidentRepository, Incident, ListIncidentsQuery, NewIncidentInput,
  compare_descending, create, cursor_json, find_by_id, matches,
}
use airport_inspection_platf.Incident.Repository.Stored.{
  IsWellFormed, create_lem, empty, empty-IsWellFormed,
}
use airport_inspection_platf.Incident.Routes.Log.{
  IsLogged, Request, advance, creation, serve, serve_all, serve_all-IsLogged,
}
use airport_inspection_platf.Prelude.{
  Bool, List, Option, String, [], ap, arith, err, filter, length, map, none, ok, refl, some, subst,
  suc, true, ◌↔◌, ◌∷◌, ◌≡◌, ◌≢◌, ◌⊎◌,
}
use airport_inspection_platf.Prelude.Json.{Json, end, field, member, obj, str, string_of}
use airport_inspection_platf.Prelude.Sort.{IsSorted}
use airport_inspection_platf.Incident.Repository.Pages.{IsCodec, matched, walk, walk_all}
use airport_inspection_platf.Incident.Routes.{
  Service, TransitionRequest, create_route, transition_route,
}

abbrev id_a : String
id_a = "00000000-0000-4000-8000-00000000000a"

abbrev id_b : String
id_b = "00000000-0000-4000-8000-00000000000b"

abbrev any_uuid : String → Bool
any_uuid s = true

abbrev pat : Auth
pat = record { user_id = "pat"; role = operator }

abbrev input_a : NewIncidentInput
input_a = record {
  id = none;
  airport_id = id_b;
  runway_id = none;
  severity = high;
  status = none;
  title = "FOD";
  details = none;
  idempotency_key = some "k1";
  now = "2026-01-01T00:00:00.000Z";
}

abbrev ctx : TransitionContext
ctx = record { actor = "pat"; reason = none; now = "2026-01-01T00:00:01.000Z" }

abbrev acknowledged_by_pat : Transition
acknowledged_by_pat = record {
  from = new;
  to = acknowledged;
  command = acknowledge;
  actor = "pat";
  reason = none;
  occurred_at = "2026-01-01T00:00:01.000Z";
}

transition-err_iff_example :
    ((transition archived assign ctx ≡ err (terminal_state archived assign))
      ↔ ((archived ≡ archived) ⊎ (archived ≡ rejected)))
    × ((transition archived assign ctx ≡ err (illegal_transition archived assign)) ↔ (
        (archived ≢ archived)
        × (archived ≢ rejected)
        × ((to : IncidentStatus) → ¬ Edge archived assign to)))
transition-err_iff_example = transition-err_iff archived assign ctx

abbrev snapshot : IncidentSnapshot
snapshot = record {
  id = id_a;
  airport_id = id_b;
  sensor_id = none;
  severity = high;
  title = "FOD";
  detail = none;
  status = new;
  assignee = none;
  created_at = "2026-01-01T00:00:00.000Z";
  updated_at = "2026-01-01T00:00:00.000Z";
  history = [];
}

archived_reachable_example :
    (cs : List IncidentCommand) × ((dispatch_all snapshot
        (map (given "pat" "2026-01-01T00:00:01.000Z") cs)).status
      ≡ archived)
unfolding is_terminal
archived_reachable_example = archived_reachable snapshot "pat" "2026-01-01T00:00:01.000Z" refl

abbrev options_of : IncidentCommand → DispatchOptions
options_of c = record {
  command = c;
  actor = "pat";
  reason = none;
  now = "2026-01-01T00:00:01.000Z";
  correlation_id = none;
}

abbrev rejection : List DispatchOptions
rejection = options_of assign ∷ options_of reject ∷ options_of archive ∷ []

create_lem_example :
    let repo' = (create input_a id_a empty).1 in
    (item : Incident) × ((create input_a id_a empty).0 ≡ ok item)
    × IsWellFormed repo'
    × (find_by_id item.id repo' ≡ some item)
    × ((id : String) → item.id ≢ id → find_by_id id repo' ≡ find_by_id id empty)
create_lem_example = create_lem input_a id_a empty empty-IsWellFormed

abbrev item_a : Incident
item_a = record {
  id = id_a;
  airport_id = id_b;
  runway_id = none;
  severity = high;
  status = new;
  title = "FOD";
  details = none;
  acknowledged_by = none;
  acknowledged_at = none;
  assigned_to = none;
  resolved_at = none;
  idempotency_key = some "k1";
  created_at = "2026-01-01T00:00:00.000Z";
  updated_at = "2026-01-01T00:00:00.000Z";
}

abbrev stored_a : InMemoryIncidentRepository
stored_a = record { items = (id_a, item_a) ∷ []; idempotency_index = ("k1", id_a) ∷ [] }

create_run : create input_a id_a empty ≡ (ok item_a, stored_a)
unfolding create Map.get Map.set
create_run = refl

dispatch_run : (r : DispatchResult) × (dispatch snapshot (options_of acknowledge) ≡ ok r)
unfolding dispatch transition
dispatch_run = (_, refl)

-- A codec that meets the laws.
abbrev text_or : Option String → String
text_or none = ""
text_or (some s) = s

abbrev stringify_marked : Json → String
unfolding member
stringify_marked (obj fs) =
    mark (text_or (string_of (member "created_at" fs))) (text_or (string_of (member "id" fs)))
stringify_marked _ = ""

abbrev json_of : Option (String × String) → Option Json
json_of none = none
json_of (some (created_at, id)) = some (cursor_json created_at id)

abbrev marked : CursorCodec
marked = record {
  stringify = stringify_marked;
  parse = λ s. json_of (unmark s);
  to_base64url = λ s. s;
  from_base64url = λ s. s;
}

marked-IsCodec : IsCodec marked
unfolding member
marked-IsCodec = record {
  parse-stringify = λ created_at id. ap json_of (unmark-mark created_at id);
  from-to_base64url = λ s. refl;
  not_empty = mark-ne-empty;
}

stored_a-IsWellFormed : IsWellFormed stored_a
stored_a-IsWellFormed =
    subst IsWellFormed (ap (λ r. r.1) create_run)
      (create_lem input_a id_a empty empty-IsWellFormed).2

abbrev any_incident : ListIncidentsQuery
any_incident = record {
  status = none;
  severity = some high;
  airport_id = none;
  runway_id = none;
  created_after = none;
  created_before = none;
}

walk_all_example :
    let walked =
      walk marked any_incident 1 stored_a (suc (length (matched any_incident stored_a))) none in
    IsSorted compare_descending walked
    × Perm walked (filter (λ item. matches item any_incident) (map (λ e. e.1) stored_a.items))
walk_all_example =
    walk_all marked marked-IsCodec any_incident 1 stored_a stored_a-IsWellFormed (omega arith)

abbrev start : Service
start = record {
  repository = empty;
  events = some (record { sent = []; published = []; failures = [] });
}

start-IsLogged : IsLogged start
unfolding find_by_id Map.get
start-IsLogged = record {
  publisher = record { sent = []; published = []; failures = [] };
  has_events = refl;
  well_formed = empty-IsWellFormed;
  stored = λ id item e. cc;
  unlogged = λ id e. refl;
}

abbrev acknowledgement : TransitionRequest
acknowledgement = record {
  command = acknowledge;
  auth = some pat;
  id = id_a;
  body = obj (field "operator_id" (str id_b) end);
  now = "2026-01-01T00:00:01.000Z";
  up = true;
}

abbrev creation_body : Json
creation_body = obj (
    field "airport_id" (str id_b) (
      field "severity" (str "high")
        (field "title" (str "FOD") (field "idempotency_key" (str "k1") end))))

abbrev day : List Request
day =
    creation (some pat) creation_body "2026-01-01T00:00:00.000Z" id_a ∷ advance acknowledgement ∷ []

serve_all-IsLogged_example : IsLogged (serve_all any_uuid day start)
unfolding find_by_id Map.get
serve_all-IsLogged_example = serve_all-IsLogged any_uuid day start start-IsLogged (refl, (refl, tt))

-- The day's requests leave one acknowledged incident.
day_run :
    Option.map (λ item. item.status) (find_by_id id_a (serve_all any_uuid day start).repository)
    ≡ some acknowledged
unfolding serve_all serve create_route transition_route find_by_id Map.get Map.set member transition
day_run = refl
