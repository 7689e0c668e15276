-- ===== src/Broadcaster/Tests.antt =====
-- Runs of the broadcaster at concrete inputs, and the theorems at inputs that meet their hypotheses.
use Prim.Native.String
use text.Mathlib.TextLemmas.{cons-ne-nil}
use airport_inspection_platf.Prelude.Json.{Json, end, field, member, obj, str}
use airport_inspection_platf.Incident.Requests.{is_uuid}
use airport_inspection_platf.Broadcaster.Registry.{
  BroadcastClient, ChannelRegistry, has_client, members, operator_role,
}
use airport_inspection_platf.Broadcaster.Registry.Connections.{
  Change, apply_all, has_client-apply_all, joined, left,
}
use airport_inspection_platf.Broadcaster.Hydrator.{
  FrameHydrator, SensorEventRow, compare_rows, find_row, hydrate_since, new_hydrator, resumed,
  rows_after, rows_of,
}
use airport_inspection_platf.Prelude.{
  List, Option, String, [], ap, arith, eq_iff, err, false, if◌then◌else◌, last?, none, ok, refl,
  some, str_eq, take, true, ◌++◌, ◌∷◌, ◌≡◌, ◌≢◌,
}
use airport_inspection_platf.Prelude.Text.{text_lt}
use airport_inspection_platf.Prelude.Map.{get}
use airport_inspection_platf.Prelude.Slices.{after_prefix, split_comma, trim}
use airport_inspection_platf.Prelude.Sort.{insert, sort}
use airport_inspection_platf.Pipeline.Persistence.{channel_name}
use airport_inspection_platf.Auth.{admin}
use airport_inspection_platf.Auth.Jwt.{
  Jose, access_claims, is_kind, other_error, verify, verify_access,
}
use airport_inspection_platf.Broadcaster.Hydrator.Resume.{IsKeyed, frames-rows_after}
use airport_inspection_platf.Broadcaster.Bridge.{
  count_received, handle_message, new_bridge, peek_event_type, to_ws_envelope,
}
use airport_inspection_platf.Broadcaster.Bridge.Route.{handle_message-channel_name}
use airport_inspection_platf.Broadcaster.Connect.{
  Moment, RouteOptions, UpgradeRequest, airport_events, attach, bearer_token, extract_token,
}
use airport_inspection_platf.Broadcaster.Connect.Access.{
  IsAuthenticated, attached-IsAuthenticated, is_attached,
}

abbrev client_on : String → BroadcastClient
client_on id = record { role = operator_role; connection_id = id; connected_at = "t0" }

abbrev no_clients : ChannelRegistry
no_clients = record { clients = []; filter_of = λ role event_type. true }

abbrev two_joins : List Change
two_joins =
    joined "den" (client_on "c1") ∷ joined "sea" (client_on "c1") ∷ left "den" (client_on "c1") ∷ []

has_client-apply_all_example :
    has_client "c1" (members "sea" (apply_all two_joins no_clients)) ≡ true
unfolding members
has_client-apply_all_example = has_client-apply_all "sea" "c1" two_joins no_clients

abbrev row_at : String → String → SensorEventRow
row_at id at = record { event_id = id; airport_id = "den"; received_at = at; payload = obj end }

abbrev id_of : String → String
id_of digit = String.◌++◌ "00000000-0000-4000-8000-00000000000" digit

abbrev three_rows : List SensorEventRow
three_rows = row_at (id_of "3") "t3" ∷ row_at (id_of "1") "t1" ∷ row_at (id_of "2") "t2" ∷ []

abbrev hydrator : FrameHydrator
hydrator = new_hydrator none none

page_of_one :
    (hydrate_since hydrator "den" (id_of "1") (some 1) three_rows).frames
    ≡ row_at (id_of "2") "t2" ∷ []
unfolding hydrate_since rows_after rows_of sort insert find_row compare_rows is_uuid resumed text_lt
page_of_one = refl

first_is_uuid : is_uuid (id_of "1") ≡ true
unfolding is_uuid
first_is_uuid = refl

two_left :
    rows_after "den" (id_of "1") three_rows ≡ row_at (id_of "2") "t2" ∷ row_at (id_of "3") "t3" ∷ []
unfolding rows_after rows_of sort insert find_row compare_rows text_lt
two_left = refl

cons-ne : {A : Type 0} (x : A) (xs ys : List A) → ys ≡ x ∷ xs → ys ≢ []
cons-ne x xs ys e h = absurd (cc)

rows_left : rows_after "den" (id_of "1") three_rows ≢ []
rows_left = cons-ne _ _ _ two_left

second_is_uuid : is_uuid (id_of "2") ≡ true
unfolding is_uuid
second_is_uuid = refl

third_left : rows_after "den" (id_of "2") three_rows ≡ row_at (id_of "3") "t3" ∷ []
unfolding rows_after rows_of sort insert find_row compare_rows text_lt
third_left = refl

one_left : rows_after "den" (id_of "2") three_rows ≢ []
one_left = cons-ne _ _ _ third_left

differ : (s t : String) → str_eq s t ≡ false → s ≢ t
differ s t h = ground (arith, eq_iff s t)

three_rows-IsKeyed : IsKeyed three_rows
three_rows-IsKeyed = (
  (differ (id_of "1") (id_of "3") refl, (differ (id_of "2") (id_of "3") refl, tt)),
  ((differ (id_of "2") (id_of "1") refl, tt), (tt, tt)),
)

frames-rows_after_example :
    ((hydrate_since hydrator "den" (id_of "1") (some 1) three_rows).frames
        ++ rows_after "den" (id_of "2") three_rows
      ≡ rows_after "den" (id_of "1") three_rows)
    × ((hydrate_since hydrator "den" (id_of "1") (some 1) three_rows).frames
          ++ (hydrate_since hydrator "den" (id_of "2") (some 7) three_rows).frames
        ≡ take 8 (rows_after "den" (id_of "1") three_rows))
frames-rows_after_example =
    frames-rows_after hydrator "den" (id_of "1") (some 1) (some 7) three_rows
      (row_at (id_of "2") "t2") three_rows-IsKeyed first_is_uuid rows_left (ap last? page_of_one)
      second_is_uuid one_left

abbrev toy_parse : String → Option Json
toy_parse raw =
    if str_eq raw "frame"
    then some (obj (field "event_type" (str "sensor.frame.captured") end))
    else none

abbrev toy_stringify : Json → String
toy_stringify v = "{}"

frame_type : peek_event_type toy_parse toy_stringify "frame" ≡ some "sensor.frame.captured"
unfolding peek_event_type member
frame_type = refl

abbrev one_client : ChannelRegistry
one_client = record no_clients { clients = ("den", client_on "c1" ∷ []) ∷ [] }

handle_message-channel_name_example :
    handle_message toy_parse toy_stringify
      (λ id. true)
      "t1"
      (channel_name "events.broadcast" (some "den"))
      "frame"
      one_client
      (new_bridge none none)
    ≡ (count_received toy_parse toy_stringify "den" (new_bridge none none), ("c1", "{}") ∷ [])
unfolding to_ws_envelope members get
handle_message-channel_name_example =
    handle_message-channel_name toy_parse toy_stringify (λ id. true) "t1" "den" "frame"
      "sensor.frame.captured" one_client (new_bridge none none) (λ e. cons-ne-nil _ _ e) frame_type

-- A library whose only token is "t", for an administrator.
abbrev one_token : Jose
one_token = record {
  sign = λ secret payload. "t";
  verify = λ secret issuer now token.
      if str_eq token "t"
      then ok (record {
        claims = access_claims (record { user_id = "pat"; role = admin });
        iss = none;
        iat = none;
        exp = none;
      })
      else err (other_error "signature");
}

abbrev options : RouteOptions
options = record {
  jose = one_token;
  signer = record { secret = "s"; issuer = "aip"; access_ttl = 900; refresh_ttl = 604800 };
  hydrator = hydrator;
  stringify = toy_stringify;
  number_text = λ n. "1";
}

abbrev upgrade : UpgradeRequest
upgrade = record {
  airport_id = id_of "1";
  protocol = some "chat, bearer.t";
  access_token = none;
  hydrate = none;
  last_event_id = none;
}

abbrev moment : Moment
moment = record {
  now_ms = 1000;
  now = "t1";
  connection_id = "c2";
  sends = λ id. true;
  table = some three_rows;
}

upgrade_attached : is_attached (airport_events options upgrade moment no_clients).0 ≡ true
unfolding airport_events is_uuid extract_token bearer_token split_comma trim after_prefix
    verify_access verify is_kind member attach
upgrade_attached = refl

attached-IsAuthenticated_example :
    IsAuthenticated options upgrade moment no_clients
      (airport_events options upgrade moment no_clients).1
attached-IsAuthenticated_example =
    attached-IsAuthenticated options upgrade moment no_clients upgrade_attached
