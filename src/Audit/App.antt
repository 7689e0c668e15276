-- ===== src/Audit/App.antt =====
-- services/audit-service/src/app.ts: the routes that read and verify the audit log.
pub mod Verify
use Prim.Native.Nat.{Ordering, compare}
use airport_inspection_platf.Prelude.{
  Bool, List, Option, Result, String, [], err, false, filter, if◌then◌else◌, last?, leb, length,
  ltb, map, min, none, not, ok, or_else, some, str_eq, take, true, truthy, ℕ, ◌&&◌, ◌+◌, ◌==◌, ◌∷◌,
}
use airport_inspection_platf.Prelude.Sort.{sort}
use airport_inspection_platf.Prelude.Json.{Json, end, field, member, obj, str, string_of}
use airport_inspection_platf.Auth.{
  Auth, Permission, forbidden, pass, require_role, roles_for, unauthorized,
}
use airport_inspection_platf.Audit.Chain.{ChainBreak, ChainEntry, genesis_prev_hash, verify_chain}
use airport_inspection_platf.Incident.Requests.{is_uuid}
use airport_inspection_platf.Incident.Repository.{CursorCodec}

-- A row of `audit_events`: its sequence number and the entry.
pub record AuditRow : Type 0 where
  pub seq : ℕ
  pub entry : ChainEntry

pub data ErrorCode : Type 0 where
  invalid_cursor invalid_id audit_event_not_found : ErrorCode
  verify_range_too_large : ℕ → ErrorCode

-- What the routes answer: 401, 403, 500, an error with its status, or a body.
pub data Response : Type 0 where
  gate_401 gate_403 server_error : Response
  error_envelope : ℕ → ErrorCode → Response
  event_list : List AuditRow → Option String → Response
  event : AuditRow → Response
  lineage : String → List AuditRow → ℕ → Response
  verification : ℕ → Option ChainBreak → Response

-- `ORDER BY seq ASC` and `ORDER BY seq DESC`
abbrev pub oldest_first : AuditRow → AuditRow → Ordering
oldest_first a b = compare a.seq b.seq

abbrev pub newest_first : AuditRow → AuditRow → Ordering
newest_first a b = compare b.seq a.seq

-- The preHandler of a route before its handler.
unfoldable pub guarded : Permission → Option Auth → Response → Response
unfolding require_role roles_for
guarded permission auth handled = elim (require_role (roles_for permission) auth) [
  | unauthorized ↦ gate_401
  | forbidden ↦ gate_403
  | pass ↦ handled
]

-- `positive_floor raw` is `Math.floor(Number(raw))` where `Number(raw)` is finite and above 0.
unfoldable pub clamp_limit : (String → Option ℕ) → Option String → ℕ → ℕ
clamp_limit positive_floor none default_limit = default_limit
clamp_limit positive_floor (some raw) default_limit = elim (positive_floor raw) [
  | none ↦ default_limit
  | some n ↦ min n default_limit
]

abbrev pub seq_json : String → Json
seq_json seq = obj (field "seq" (str seq) end)

abbrev seq_field : Option Json → Option String
seq_field (some (obj fields)) = string_of (member "seq" fields)
seq_field _ = none

-- How PostgreSQL prints a sequence number and reads one; `read` is none where it refuses the text.
pub record SeqText : Type 0 where
  pub print : ℕ → String
  pub read : String → Option ℕ

-- A bound of a range: none is no bound, and an error is a text that PostgreSQL refuses.
unfoldable pub bound : SeqText → Option String → Result (Unit {0}) (Option ℕ)
bound texts none = ok none
bound texts (some raw) = elim (texts.read raw) [ none ↦ err tt | some n ↦ ok (some n) ]

abbrev pub at_least : Option ℕ → AuditRow → Bool
at_least none row = true
at_least (some n) row = leb n row.seq

abbrev pub at_most : Option ℕ → AuditRow → Bool
at_most none row = true
at_most (some n) row = leb row.seq n

module _ (codec : CursorCodec) (texts : SeqText) where
  unfoldable pub encode_seq : String → String
  encode_seq seq = codec.to_base64url (codec.stringify (seq_json seq))

  unfoldable pub decode_seq : String → Option String
  unfolding member
  decode_seq raw = seq_field (codec.parse (codec.from_base64url raw))

  -- The page of what a query finds, which asks for one row more than the limit. A page that has more
  -- but no last item throws.
  unfoldable pub page_of : ℕ → List AuditRow → Response
  unfolding encode_seq
  page_of limit found =
      let rows = take (limit + 1) found in
      let items = take limit rows in
      if ltb limit (length rows)
      then elim (last? items) [
        | none ↦ server_error
        | some row ↦ event_list items (some (encode_seq (texts.print row.seq)))
      ]
      else event_list rows none

  -- the rows that `WHERE seq < $1` leaves, newest first, or the answer in their place
  unfoldable pub found_from : Option String → List AuditRow → Result Response (List AuditRow)
  unfolding decode_seq sort
  found_from none table = ok (sort newest_first table)
  found_from (some raw) table = elim (decode_seq raw) [
    | none ↦ err (error_envelope 400 invalid_cursor)
    | some seq ↦ elim (texts.read seq) [
      | none ↦ err server_error
      | some n ↦ ok (sort newest_first (filter (λ row. ltb row.seq n) table))
    ]
  ]

  -- `GET /audit/events`
  unfoldable pub list_events :
      (String → Option ℕ) → ℕ → Option String → Option String → List AuditRow → Response
  unfolding found_from page_of clamp_limit
  list_events positive_floor list_limit raw_limit cursor table =
      elim (found_from (truthy cursor) table) [
        | err answer ↦ answer
        | ok found ↦ page_of (clamp_limit positive_floor raw_limit list_limit) found
      ]

-- `GET /audit/events/:event_id`; `same_uuid` is PostgreSQL's equality of texts read as uuids
unfoldable pub get_event : (String → String → Bool) → String → List AuditRow → Response
unfolding is_uuid
get_event same_uuid event_id table =
    if not (is_uuid event_id)
    then error_envelope 400 invalid_id
    else elim (filter (λ row. same_uuid row.entry.row.event_id event_id) table) [
      | [] ↦ error_envelope 404 audit_event_not_found
      | row ∷ _ ↦ event row
    ]

-- `subject_id = $1`, which no null meets
abbrev has_subject : String → Option String → Bool
has_subject subject_id none = false
has_subject subject_id (some s) = str_eq s subject_id

-- `GET /audit/lineage/:subject_id`
unfoldable pub get_lineage : String → List AuditRow → Response
unfolding sort
get_lineage subject_id table =
    let rows =
      sort oldest_first (filter (λ row. has_subject subject_id row.entry.row.subject_id) table) in
    lineage subject_id rows (length rows)

-- `chainTipBefore`
unfoldable pub chain_tip_before : ℕ → List AuditRow → String
unfolding sort
chain_tip_before from_seq table =
    elim (sort newest_first (filter (λ row. ltb row.seq from_seq) table)) [
      | [] ↦ genesis_prev_hash
      | row ∷ _ ↦ row.entry.entry_hash
    ]

abbrev pub seed_of : Option ℕ → List AuditRow → String
seed_of none table = genesis_prev_hash
seed_of (some from_seq) table = chain_tip_before from_seq table

-- the entry that a row becomes for `verifyChain`
abbrev pub seeded : String → AuditRow → ChainEntry
seeded seed_prev row = record row.entry { prev_hash = some (or_else row.entry.prev_hash seed_prev) }

-- The rows of a range, oldest first.
unfoldable pub range_of : Option ℕ → Option ℕ → List AuditRow → List AuditRow
unfolding sort
range_of from to table =
    sort oldest_first (filter (λ row. at_least from row && at_most to row) table)

module _ (sha256 : String → String) (stringify : Json → String) where
  -- The answer for the rows of the range, of which the query fetches at most `verify_max`.
  unfoldable pub verify_found : ℕ → String → List AuditRow → Response
  unfolding verify_chain
  verify_found verify_max seed_prev found =
      let rows = take verify_max found in
      if length rows == verify_max
      then error_envelope 400 (verify_range_too_large (length rows))
      else verification (length rows) (verify_chain sha256 stringify (map (seeded seed_prev) rows))

  -- `POST /audit/verify`, once PostgreSQL has read the bounds
  unfoldable pub verify_range : ℕ → Option ℕ → Option ℕ → List AuditRow → Response
  unfolding verify_found range_of chain_tip_before
  verify_range verify_max from to table =
      verify_found verify_max (seed_of from table) (range_of from to table)

  unfoldable pub verify_route :
      SeqText → ℕ → Option String → Option String → List AuditRow → Response
  unfolding verify_range bound
  verify_route texts verify_max from_seq to_seq table = elim (bound texts (truthy from_seq)) [
    | err _ ↦ server_error
    | ok from ↦ elim (bound texts (truthy to_seq)) [
      | err _ ↦ server_error
      | ok to ↦ verify_range verify_max from to table
    ]
  ]
