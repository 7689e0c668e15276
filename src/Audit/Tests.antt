-- ===== src/Audit/Tests.antt =====
-- Runs of the audit chain at concrete inputs, and the theorems at inputs that meet their hypotheses.
use airport_inspection_platf.Prelude.Json.{Json, end, field, member, obj, str, string_of}
use airport_inspection_platf.Audit.App.{
  AuditRow, SeqText, clamp_limit, found_from, list_events, page_of, range_of, server_error,
  verification, verify_range,
}
use airport_inspection_platf.Audit.App.Verify.{verify_range_from_later}
use airport_inspection_platf.Prelude.Sort.{insert, sort}
use airport_inspection_platf.Incident.Repository.{CursorCodec}
use airport_inspection_platf.Audit.Chain.{
  ChainBreak, ChainEntry, compute_entry_hash, genesis_prev_hash, verify_chain, verify_from,
}
use airport_inspection_platf.Audit.Chain.Tamper.{Collides, SameRows, tamper_evident}
use airport_inspection_platf.Audit.Chain.Links.{IsChain, verify_from-IsChain}
use airport_inspection_platf.Audit.Writer.{
  Appended, AuditAppendInput, append, append_lem, chained, hashable_of,
}
use airport_inspection_platf.Audit.Writer.Concurrent.{
  Reachable, Sessions, after, begin, here, idle, lock, reachable-IsChain,
}
use airport_inspection_platf.Prelude.{
  List, String, [], arith, length, none, or_else, refl, some, ◌∷◌, ◌≡◌, ◌⊎◌,
}
use airport_inspection_platf.Audit.Canonical.{canonicalize}

-- A digest of 64 characters.
abbrev constant_digest : String → String
constant_digest s = "0123456789abcdef0123456789abcdef0123456789abcdef0123456789abcdef"

-- A digest that keeps its input.
abbrev marked_digest : String → String
marked_digest s = String.◌∷◌ "#" s

abbrev stringify_id : Json → String
unfolding member
stringify_id (obj fs) = or_else (string_of (member "event_id" fs)) ""
stringify_id _ = ""

abbrev raised : AuditAppendInput
raised = record {
  source = "incident-service";
  event_type = "incident.created";
  payload = obj (field "severity" (str "high") end);
  occurred_at = some "2026-01-01T00:00:00.000Z";
  actor_user_id = none;
  subject_id = none;
  correlation_id = none;
  rationale = none;
  event_id = some "e1";
}

abbrev closed : AuditAppendInput
closed = record raised { event_id = some "e2"; event_type = "incident.closed" }

abbrev first_row : ChainEntry
first_row = chained marked_digest stringify_id "" (hashable_of raised "r" "t")

abbrev second_row : ChainEntry
second_row = chained marked_digest stringify_id first_row.entry_hash (hashable_of closed "r" "t")

abbrev two_rows : List ChainEntry
two_rows = first_row ∷ second_row ∷ []

append_run :
    (append marked_digest stringify_id (λ e. e.entry_hash) none closed "r" "t" (first_row ∷ [])).1
    ≡ two_rows
unfolding append
append_run = refl

two_rows_verify : verify_chain marked_digest stringify_id two_rows ≡ none
unfolding verify_chain verify_from compute_entry_hash canonicalize stringify_id
two_rows_verify = refl

two_rows-IsChain : IsChain marked_digest stringify_id genesis_prev_hash two_rows
unfolding verify_chain
two_rows-IsChain =
    verify_from-IsChain marked_digest stringify_id genesis_prev_hash two_rows two_rows_verify

-- The second row alone is no chain: it names a hash before it.
cut_rows_break :
    (b : ChainBreak) × (verify_chain marked_digest stringify_id (second_row ∷ []) ≡ some b)
unfolding verify_chain verify_from compute_entry_hash canonicalize stringify_id
cut_rows_break = (_, refl)

append_lem_example :
    let r = append marked_digest stringify_id (λ e. e.entry_hash) none raised "r" "t" two_rows in
    IsChain marked_digest stringify_id genesis_prev_hash r.1
    × Appended marked_digest stringify_id
        (λ e. e.entry_hash)
        none
        (hashable_of raised "r" "t")
        two_rows
        r
append_lem_example =
    append_lem marked_digest stringify_id (λ e. e.entry_hash) none raised "r" "t" two_rows
      two_rows-IsChain

constant_verifies :
    verify_chain constant_digest stringify_id
      (chained constant_digest stringify_id "" (hashable_of raised "r" "t") ∷ [])
    ≡ none
unfolding verify_chain verify_from compute_entry_hash canonicalize stringify_id
constant_verifies = refl

tamper_evident_example :
    let es = chained constant_digest stringify_id "" (hashable_of raised "r" "t") ∷ [] in
    SameRows constant_digest stringify_id es es
    ⊎ Collides constant_digest stringify_id genesis_prev_hash es genesis_prev_hash es
unfolding compute_entry_hash
tamper_evident_example =
    let es = chained constant_digest stringify_id "" (hashable_of raised "r" "t") ∷ [] in
    tamper_evident constant_digest stringify_id (λ s. refl) es es constant_verifies
      constant_verifies refl refl

abbrev quiet : Sessions
quiet = record { rows = two_rows; owner = none; phase = λ w. idle }

-- Two writers begin, and the second takes the lock.
abbrev contended : (s : Sessions) × Reachable marked_digest stringify_id quiet s
contended =
    let e = hashable_of raised "r" "t" in
    (_, after (after (after here (begin 0 e refl)) (begin 1 e refl)) (lock 1 e refl refl))

reachable-IsChain_example : IsChain marked_digest stringify_id genesis_prev_hash contended.0.rows
reachable-IsChain_example =
    reachable-IsChain marked_digest stringify_id quiet contended.0 two_rows-IsChain refl (λ w. refl)
      contended.1

abbrev numbered : List AuditRow
numbered = record { seq = 1; entry = first_row } ∷ record { seq = 2; entry = second_row } ∷ []

verify_range_from_later_example :
    (b : ChainBreak) × (verify_range marked_digest stringify_id 1000 (some 2) none numbered
      ≡ verification (length (range_of (some 2) none numbered)) (some b))
    × (b.broken_at_event_id ≡ "e2")
unfolding range_of sort insert
verify_range_from_later_example =
    verify_range_from_later marked_digest stringify_id (λ s e. cc e) 1000 2 numbered
      ((refl, tt), (tt, tt)) two_rows_verify refl refl (omega arith)

-- A limit below one is rounded down to a page of no rows, which has no last item to go on from.
half_a_row :
    (codec : CursorCodec) (texts : SeqText)
    → list_events codec texts (λ raw. some 0) 100 (some "0.5") none numbered ≡ server_error
unfolding list_events page_of found_from clamp_limit sort insert
half_a_row codec texts = refl
