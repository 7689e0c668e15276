-- ===== src/Incident/Requests.antt =====
-- The request bodies of packages/shared-contracts/src/domain/incident.ts, and the id check of services/incident-service/src/routes/incidents.ts.
use Prim.Native.Char.{code}
use airport_inspection_platf.Prelude.Json.{Fields, Json, member, obj, str}
use airport_inspection_platf.Incident.Aggregate.{Severity, critical, high, info, low, medium}
use airport_inspection_platf.Incident.Repository.{NewIncidentInput}
use airport_inspection_platf.Incident.Lifecycle.{IncidentCommand, assign, escalate, reject, resolve}
use airport_inspection_platf.Prelude.{
  Bool, List, Option, String, [], arith, false, if◌then◌else◌, leb, ltb, none, or_else, some,
  str_eq, true, ℕ, ◌&&◌, ◌+◌, ◌==◌, ◌||◌, ◌∷◌, ◌≡◌,
}

abbrev pub codes : String → List ℕ
codes String.[] = []
codes (String.◌∷◌ c s) = code c ∷ codes s

-- `[0-9a-f]` under the flag `i`
unfoldable pub is_hex : ℕ → Bool
is_hex c = (leb b'0' c && leb c b'9') || (leb b'a' c && leb c b'f') || (leb b'A' c && leb c b'F')

-- A place of the pattern: a hexadecimal digit or a dash.
pub data Place : Type 0 where
  hex dash : Place

fits : List Place → List ℕ → Bool
fits [] [] = true
fits [] (c ∷ cs) = false
fits (p ∷ ps) [] = false
fits (hex ∷ ps) (c ∷ cs) = is_hex c && fits ps cs
fits (dash ∷ ps) (c ∷ cs) = (c == b'-') && fits ps cs

abbrev hex_4 : List Place → List Place
hex_4 rest = hex ∷ hex ∷ hex ∷ hex ∷ rest

abbrev uuid_re : List Place
uuid_re =
    hex_4 (hex_4 (dash ∷ hex_4 (dash ∷ hex_4 (dash ∷ hex_4 (dash ∷ hex_4 (hex_4 (hex_4 [])))))))

-- `UUID_RE.test(id)`
unfoldable pub is_uuid : String → Bool
unfolding fits is_hex
is_uuid id = fits uuid_re (codes id)

-- `s.length`: a character above U+FFFF counts twice.
abbrev pub utf16_length : List ℕ → ℕ
utf16_length [] = 0
utf16_length (c ∷ cs) = (if ltb c 0x10000 then 1 else 2) + utf16_length cs

-- `Severity` as an enumeration of texts
severity_of : String → Option Severity
severity_of s =
    if str_eq s "critical"
    then some critical
    else if str_eq s "high"
    then some high
    else if str_eq s "medium"
    then some medium
    else if str_eq s "low"
    then some low
    else if str_eq s "info"
    then some info
    else none

-- What the seven request bodies hold: the acting operator, for `assign` the assignee, and the note, summary or reason.
pub record TransitionBody : Type 0 where
  pub operator_id : String
  pub assignee_id : Option String
  pub reason : Option String

infixl 5 ◌>>=◌
abbrev pub ◌>>=◌ : {A B : Type 0} → Option A → (A → Option B) → Option B
none >>= k = none
some a >>= k = k a

-- `z.string().min(1).max(most)` at a field that may be left out
optional_text : ℕ → Option Json → Option (Option String)
optional_text most none = some none
optional_text most (some (str s)) =
    let n = utf16_length (codes s) in if leb 1 n && leb n most then some (some s) else none
optional_text most (some _) = none

-- the same at a required field
required_text : ℕ → Option Json → Option (Option String)
required_text most none = none
required_text most (some v) = optional_text most (some v)

-- `zod_uuid` is zod's own test behind `z.string().uuid()`.
module _ (zod_uuid : String → Bool) where
  uuid_text : Option Json → Option String
  uuid_text (some (str s)) = if zod_uuid s then some s else none
  uuid_text _ = none

  -- The text field of each command's body.
  reason_field : IncidentCommand → Fields → Option (Option String)
  reason_field resolve fs = required_text 2000 (member "resolution_summary" fs)
  reason_field escalate fs = required_text 500 (member "reason" fs)
  reason_field reject fs = required_text 500 (member "reason" fs)
  reason_field _ fs = optional_text 500 (member "note" fs)

  assignee_field : IncidentCommand → Fields → Option (Option String)
  assignee_field assign fs = do id ← uuid_text (member "assignee_id" fs); some (some id)
  assignee_field _ fs = some none

  body_of_fields : IncidentCommand → Fields → Option TransitionBody
  body_of_fields command fs = do
    operator_id ← uuid_text (member "operator_id" fs)
    assignee_id ← assignee_field command fs
    reason ← reason_field command fs
    some (record { operator_id = operator_id; assignee_id = assignee_id; reason = reason })

  -- `schema.safeParse(body)`; none where it does not succeed
  unfoldable pub parse_body : IncidentCommand → Json → Option TransitionBody
  unfolding body_of_fields reason_field assignee_field uuid_text required_text optional_text member
  parse_body command (obj fs) = body_of_fields command fs
  parse_body command _ = none

  optional_uuid : Option Json → Option (Option String)
  optional_uuid none = some none
  optional_uuid (some v) = do id ← uuid_text (some v); some (some id)

  severity_text : Option Json → Option Severity
  severity_text (some (str s)) = severity_of s
  severity_text _ = none

  -- `z.record(z.unknown()).optional()`
  optional_record : Option Json → Option (Option Json)
  optional_record none = some none
  optional_record (some (obj fs)) = some (some (obj fs))
  optional_record (some _) = none

  create_of_fields : String → Fields → Option NewIncidentInput
  create_of_fields now fs = do
    airport_id ← uuid_text (member "airport_id" fs)
    runway_id ← optional_uuid (member "runway_id" fs)
    severity ← severity_text (member "severity" fs)
    title ← required_text 300 (member "title" fs)
    details ← optional_record (member "details" fs)
    idempotency_key ← optional_text 200 (member "idempotency_key" fs)
    some (record {
      id = none;
      airport_id = airport_id;
      runway_id = runway_id;
      severity = severity;
      status = none;
      title = or_else title "";
      details = details;
      idempotency_key = idempotency_key;
      now = now;
    })

  -- `CreateIncidentRequest.safeParse(body)`, as the input of `create` at the clock's text `now`
  unfoldable pub parse_create : String → Json → Option NewIncidentInput
  unfolding create_of_fields severity_text severity_of optional_uuid optional_record uuid_text
      required_text optional_text member
  parse_create now (obj fs) = create_of_fields now fs
  parse_create now _ = none

abbrev pub IsNewInput : NewIncidentInput → Type 0
IsNewInput input = (input.id ≡ none) × (input.status ≡ none)

create_of_fields-IsNewInput :
    (zod_uuid : String → Bool) (now : String) (fs : Fields) (input : NewIncidentInput)
    → create_of_fields zod_uuid now fs ≡ some input
    → IsNewInput input
unfolding create_of_fields
create_of_fields-IsNewInput zod_uuid now fs input e = ground arith

-- A request body leaves the id and the status to the service.
pub parse_create-IsNewInput :
    (zod_uuid : String → Bool) (now : String) (body : Json) (input : NewIncidentInput)
    → parse_create zod_uuid now body ≡ some input
    → IsNewInput input
unfolding parse_create
parse_create-IsNewInput zod_uuid now (obj fs) input e =
    create_of_fields-IsNewInput zod_uuid now fs input e
parse_create-IsNewInput _ _ _ input e = absurd (ground arith)
