-- ===== src/Dashboard/Tests.antt =====
-- Runs of the dashboard at concrete inputs, and the theorems at inputs that meet their hypotheses.
use airport_inspection_platf.Prelude.Map
use airport_inspection_platf.Prelude.{
  List, Option, Result, String, [], err, false, if◌then◌else◌, none, ok, refl, some, ℕ, ◌+◌, ◌==◌,
  ◌∷◌, ◌≡◌,
}
use airport_inspection_platf.Prelude.Json.{Fields, Json, end, field, obj, str}
use airport_inspection_platf.Incident.Lifecycle.{
  Transition, acknowledge, acknowledged, is_terminal, legal_transitions, new, reject, transition,
}
use airport_inspection_platf.Incident.Repository.{Incident}
use airport_inspection_platf.Incident.Aggregate.{high}
use airport_inspection_platf.Dashboard.AuthStore.{
  RefreshResponse, Session, initial_state, is_authenticated, login_begin, login_settle, read_stored,
  refresh_settle, session_object, window,
}
use airport_inspection_platf.Dashboard.AuthStore.Mirror.{
  Action, begins_login, logs_in, perform, perform_all, refreshes, reload, session_of,
  session_of-reload,
}
use airport_inspection_platf.Dashboard.IncidentApi.{
  IncidentApiOptions, Reply, Request, exception, finish, get, request_of, response, send,
}
use airport_inspection_platf.Dashboard.IncidentApi.Retry.{
  Sent, call, call_signed_out, recorded, send-Sent,
}
use airport_inspection_platf.Dashboard.Incidents.{
  IncidentsState, TransitionParams, incident_of, optimistic, run_begin, run_settle, set_incident,
}
use airport_inspection_platf.Dashboard.Incidents.Optimistic.{
  IsShown, Page, Reachable, after, at_first, begins, fetches, opened, reachable-IsShown,
}
use airport_inspection_platf.Dashboard.Incidents.Agreement.{optimistic-transition}

abbrev operator_olga : Fields
operator_olga = field "id" (str "u1") (field "role" (str "operator") end)

abbrev actions : List Action
actions =
    begins_login
    ∷ logs_in (ok (record { access_token = "a1"; refresh_token = "r1"; user = operator_olga }))
    ∷ refreshes (ok (record { access_token = "a2" }))
    ∷ []

abbrev signed_in_session : Session Json
signed_in_session =
    perform_all (λ j. j) some (λ j. false) actions
      (record { auth = initial_state; storage = window none })

after_refresh : session_of signed_in_session.auth ≡ some ("a2", some "r1", obj operator_olga)
unfolding session_of perform_all perform login_begin login_settle refresh_settle initial_state
after_refresh = refl

session_of-reload_example :
    session_of (reload {T = Json} (λ j. j) some (λ j. false) signed_in_session).auth
    ≡ session_of signed_in_session.auth
session_of-reload_example =
    session_of-reload {T = Json} (λ j. j) some (λ j. false) (λ j. refl) (λ j. refl) actions

-- A network on which the only good token is the second one.
abbrev network : Request → ℕ → Reply × ℕ
network req calls =
    if calls == 0
    then (
      response 401 (ok (obj (field "error" (obj (field "code" (str "unauthorized") end)) end))),
      1,
    )
    else (response 200 (ok (obj end)), calls + 1)

abbrev refusing : String → ℕ → Result String RefreshResponse × ℕ
refusing token calls = (err "refresh failed (401)", calls)

abbrev expired_session : Session Json
expired_session = record {
  auth = record {
    access_token = some "a1";
    refresh_token = some "r1";
    user = some (obj operator_olga);
    loading = false;
    error = none;
  };
  storage = window (some (session_object "a1" (some "r1") (obj operator_olga)));
}

abbrev in_words : ℕ → String
in_words n = "some status"

abbrev plain_options : IncidentApiOptions ℕ
plain_options = record {
  fetch_fn = network;
  base_url = "/api/v1/incidents";
  token_provider = λ calls. some "a1";
  on_unauthorized = some (λ calls. (some "a2", calls));
}

send-Sent_example :
    Sent "" in_words plain_options "/i1" get none 0
      (send "" in_words (recorded plain_options) "/i1" get none (0, [])).1.1
send-Sent_example = send-Sent "" in_words plain_options "/i1" get none 0

call_signed_out_example :
    let (outcome, w) =
      call {T = Json} "" in_words
        (λ j. j)
        some
        (λ j. false)
        network
        refusing
        "/incidents"
        "/i1"
        get
        none
        (record { session = expired_session; servers = 0 }) in
    (outcome ≡ finish "" in_words (network (request_of "/incidents" "/i1" get none none) 0).0)
    × (w.servers ≡ 1)
    × (is_authenticated w.session.auth ≡ false)
    × (read_stored some (λ j. false) w.session.storage ≡ none)
call_signed_out_example =
    call_signed_out {T = Json} "" in_words (λ j. j) some (λ j. false) network refusing "/incidents"
      "/i1" get none expired_session refl refl refl

abbrev crack : Incident
crack = record {
  id = "i1";
  airport_id = "DEN";
  runway_id = none;
  severity = high;
  status = new;
  title = "Crack";
  details = none;
  acknowledged_by = none;
  acknowledged_at = none;
  assigned_to = none;
  resolved_at = none;
  idempotency_key = none;
  created_at = "2026-01-01T00:00:00.000Z";
  updated_at = "2026-01-01T00:00:00.000Z";
}

abbrev acknowledging : TransitionParams
acknowledging = record { command = acknowledge; operator_id = "u1"; assignee_id = "" }

abbrev rejecting : TransitionParams
rejecting = record { command = reject; operator_id = "u1"; assignee_id = "" }

abbrev loaded : Page
loaded = record {
  store = set_incident crack opened.store;
  calls = [];
  confirmed = Map.set "i1" crack [];
}

abbrev waiting : Page
waiting = record {
  store = (run_begin "i1" acknowledging loaded.store).1;
  calls = Map.set "i1" (crack, acknowledging) [];
  confirmed = Map.set "i1" crack [];
}

waiting_reachable : Reachable "i1" waiting
unfolding Map.get Map.set set_incident
waiting_reachable =
    after (after at_first (fetches opened crack (λ e. refl)))
      (begins loaded "i1" acknowledging crack refl (λ e. refl))

reachable-IsShown_example : IsShown waiting "i1"
reachable-IsShown_example = reachable-IsShown "i1" waiting_reachable

abbrev taken : Transition
taken = record {
  from = new;
  to = acknowledged;
  command = acknowledge;
  actor = "u1";
  reason = none;
  occurred_at = "2026-01-01T00:01:00.000Z";
}

optimistic-transition_example : (optimistic acknowledging crack).status ≡ acknowledged
unfolding transition legal_transitions is_terminal
optimistic-transition_example =
    optimistic-transition acknowledging crack
      (record { actor = "u1"; reason = none; now = "2026-01-01T00:01:00.000Z" }) taken refl
      (λ h. cc (h.0))

-- Two transitions of one incident under way at once, both refused: the second puts back what the
-- first had shown in advance, and the page goes on showing it.
abbrev both_begun : Option Incident × IncidentsState
both_begun = run_begin "i1" rejecting waiting.store

abbrev both_refused : IncidentsState
both_refused =
    run_settle "i1" (optimistic acknowledging crack) (err (exception ""))
      (run_settle "i1" crack (err (exception "")) both_begun.1)

refused_but_shown : incident_of both_refused "i1" ≡ some (optimistic acknowledging crack)
unfolding incident_of run_begin run_settle set_incident optimistic Map.get Map.set
refused_but_shown = refl
