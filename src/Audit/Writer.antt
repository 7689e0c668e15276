-- ===== src/Audit/Writer.antt =====
-- services/audit-service/src/chain/writer.ts: the append of one entry to the chain. The rows are the values
-- that were inserted; of what PostgreSQL gives back an append reads entry_hash only, which is text.
pub mod Concurrent
use airport_inspection_platf.Prelude.Json.{Json}
use airport_inspection_platf.Audit.Chain.{
  ChainEntry, HashableAuditEntry, compute_entry_hash, genesis_prev_hash,
}
use airport_inspection_platf.Prelude.{
  List, Option, Result, String, [], arith, eq_iff, err, if◌then◌else◌, last?, none, ok, or_else,
  refl, some, str_eq, subst, ◌++◌, ◌∷◌, ◌≡◌,
}
use airport_inspection_platf.Audit.Chain.Links.{
  IsChain, IsChain-append, IsLinked, entry_hash_of, last?-tip, tip,
}

pub record AuditAppendInput : Type 0 where
  pub source : String
  pub event_type : String
  pub payload : Json
  pub occurred_at : Option String
  pub actor_user_id : Option String
  pub subject_id : Option String
  pub correlation_id : Option String
  pub rationale : Option String
  pub event_id : Option String

-- the object `hashable`, with the id that `randomUUID` and the time that the clock would give
abbrev pub hashable_of : AuditAppendInput → String → String → HashableAuditEntry
hashable_of input random_id now = record {
  event_id = or_else input.event_id random_id;
  occurred_at = or_else input.occurred_at now;
  source = input.source;
  event_type = input.event_type;
  actor_user_id = input.actor_user_id;
  subject_id = input.subject_id;
  payload = input.payload;
  correlation_id = input.correlation_id;
  rationale = input.rationale;
}

-- `SELECT entry_hash FROM audit_events ORDER BY seq DESC LIMIT 1`, or the genesis hash
abbrev pub prev_hash_of : List ChainEntry → String
prev_hash_of rows = or_else (entry_hash_of (last? rows)) genesis_prev_hash

-- the statements of one append, each of which PostgreSQL may refuse
pub data Statement : Type 0 where
  begin_tx lock_tip select_tip insert_row commit_tx : Statement

pub data DatabaseError : Type 0 where
  refused : Statement → DatabaseError

module _ (sha256 : String → String) (stringify : Json → String) where
  -- the row that is inserted
  abbrev pub chained : String → HashableAuditEntry → ChainEntry
  chained prev hashable = record {
    prev_hash = if str_eq prev genesis_prev_hash then none else some prev;
    entry_hash = compute_entry_hash sha256 stringify prev hashable;
    row = hashable;
  }

  -- `append` on the rows of the table in the order of `seq`. The transaction that a refused
  -- statement ends is rolled back, so that the table is as it was. `given_back` is what RETURNING gives
  -- of the row.
  unfoldable pub append :
      {Row : Type 0}
      → (ChainEntry → Row)
      → Option Statement
      → AuditAppendInput
      → String
      → String
      → List ChainEntry
      → Result DatabaseError Row × List ChainEntry
  append given_back none input random_id now rows =
      let inserted = chained (prev_hash_of rows) (hashable_of input random_id now) in
      (ok (given_back inserted), rows ++ inserted ∷ [])
  append given_back (some statement) input random_id now rows = (err (refused statement), rows)

  pub chained-IsLinked :
      (prev : String) (hashable : HashableAuditEntry)
      → IsLinked sha256 stringify prev (chained prev hashable)
  chained-IsLinked prev hashable = record {
    names_prev = ground (arith, eq_iff prev genesis_prev_hash);
    hashed = refl;
  }

  pub prev_hash_of-tip : (rows : List ChainEntry) → prev_hash_of rows ≡ tip genesis_prev_hash rows
  prev_hash_of-tip rows = last?-tip genesis_prev_hash rows

  -- What an append answers and leaves, by the statement that is refused, if any.
  abbrev pub Appended :
      {Row : Type 0}
      → (ChainEntry → Row)
      → Option Statement
      → HashableAuditEntry
      → List ChainEntry
      → Result DatabaseError Row × List ChainEntry
      → Type 0
  Appended given_back none entry rows r =
      (e : ChainEntry) × (r.0 ≡ ok (given_back e)) × (r.1 ≡ rows ++ e ∷ []) × (e.row ≡ entry)
  Appended given_back (some s) entry rows r = (r.0 ≡ err (refused s)) × (r.1 ≡ rows)

  -- Where the inserted rows form a chain, each naming the hash of the row before it and carrying the
  -- hash of that and of its own inserted values, they form one after an append. When no statement is
  -- refused, the appended row has the given data and stands last, and the answer is what RETURNING gives
  -- of it; when one is, the table is as it was.
  pub append_lem :
      {Row : Type 0} (given_back : ChainEntry → Row) (fault : Option Statement)
      (input : AuditAppendInput) (random_id now : String) (rows : List ChainEntry)
      → IsChain sha256 stringify genesis_prev_hash rows
      → let r = append given_back fault input random_id now rows in
        IsChain sha256 stringify genesis_prev_hash r.1
        × Appended given_back fault (hashable_of input random_id now) rows r
  unfolding append
  append_lem given_back (some s) input random_id now rows h = (h, (refl, refl))
  append_lem given_back none input random_id now rows h =
      let entry = hashable_of input random_id now in
      let linked = chained-IsLinked (prev_hash_of rows) entry in
      (
        IsChain-append sha256 stringify genesis_prev_hash rows _ h (
            (subst (λ p. IsLinked sha256 stringify p (chained (prev_hash_of rows) entry))
              (prev_hash_of-tip rows) linked)),
        (_, refl, refl, refl),
      )
