-- ===== src/Audit/Chain.antt =====
-- services/audit-service/src/chain/hash.ts: the hash of an entry, and the walk that verifies the chain.
pub mod Links
pub mod Tamper
use Prim.Native.String
use airport_inspection_platf.Prelude.Json.{Json, end, field, null, obj, str}
use airport_inspection_platf.Audit.Canonical.{canonicalize}
use airport_inspection_platf.Prelude.{
  List, Option, String, [], if◌then◌else◌, none, not, or_else, some, str_eq, ◌∷◌,
}

pub record HashableAuditEntry : Type 0 where
  pub event_id : String
  pub occurred_at : String
  pub source : String
  pub event_type : String
  pub actor_user_id : Option String
  pub subject_id : Option String
  pub payload : Json
  pub correlation_id : Option String
  pub rationale : Option String

-- A stored row of the chain.
pub record ChainEntry : Type 0 where
  pub prev_hash : Option String
  pub entry_hash : String
  pub row : HashableAuditEntry

pub record ChainBreak : Type 0 where
  pub broken_at_event_id : String
  pub expected : String
  pub actual : String

abbrev pub genesis_prev_hash : String
genesis_prev_hash = ""

abbrev pub nullable : Option String → Json
nullable none = null
nullable (some s) = str s

-- the object that `toHashable` builds
abbrev pub to_hashable : HashableAuditEntry → Json
to_hashable e = obj (
    field "event_id" (str e.event_id) (
      field "occurred_at" (str e.occurred_at) (
        field "source" (str e.source) (
          field "event_type" (str e.event_type) (
            field "actor_user_id" (nullable e.actor_user_id) (
              field "subject_id" (nullable e.subject_id) (
                field "payload" e.payload (
                  field "correlation_id" (nullable e.correlation_id)
                    (field "rationale" (nullable e.rationale) end)))))))))

-- `sha256` is the hexadecimal digest of a text, and `stringify` is `JSON.stringify`.
module _ (sha256 : String → String) (stringify : Json → String) where
  abbrev pub canonical : HashableAuditEntry → String
  canonical e = canonicalize stringify (to_hashable e)

  -- `prevHash` followed by the canonical text
  abbrev pub hashed_text : String → HashableAuditEntry → String
  hashed_text prev_hash entry = String.◌++◌ prev_hash (canonical entry)

  -- the digest of `prevHash` followed by the canonical text
  unfoldable pub compute_entry_hash : String → HashableAuditEntry → String
  compute_entry_hash prev_hash entry = sha256 (hashed_text prev_hash entry)

  -- the loop of `verifyChain`
  unfoldable pub verify_from : String → List ChainEntry → Option ChainBreak
  unfolding compute_entry_hash
  verify_from expected_prev [] = none
  verify_from expected_prev (e ∷ es) =
      let seen_prev = or_else e.prev_hash genesis_prev_hash in
      let recomputed = compute_entry_hash seen_prev e.row in
      if not (str_eq seen_prev expected_prev)
      then some (record {
        broken_at_event_id = e.row.event_id;
        expected = expected_prev;
        actual = seen_prev;
      })
      else if not (str_eq recomputed e.entry_hash)
      then some (record {
        broken_at_event_id = e.row.event_id;
        expected = recomputed;
        actual = e.entry_hash;
      })
      else verify_from e.entry_hash es

  unfoldable pub verify_chain : List ChainEntry → Option ChainBreak
  unfolding verify_from
  verify_chain entries = verify_from genesis_prev_hash entries
