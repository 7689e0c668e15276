-- ===== src/Validation/Emission.antt =====
-- services/validation-engine/src/layers/09-audit with src/audit/sink.ts: the record of a run.
use airport_inspection_platf.Prelude.Json.{Json, end, member, record_of, string_of}
use airport_inspection_platf.Validation.Layers.{
  HitlDecision, RiskReport, ValidationContext, ValidationLayerResult, audit, audit_details,
}
use airport_inspection_platf.Validation.Review.{read_hitl_decision, read_risk_report}
use airport_inspection_platf.Prelude.{
  List, Option, String, [], length, none, or_else, some, true, ◌++◌, ◌∷◌,
}

pub record EnvelopeSummary : Type 0 where
  pub event_id : Option String
  pub event_type : Option String
  pub timestamp : Option String

pub record ValidationAuditRecord : Type 0 where
  pub submission_id : String
  pub envelope : EnvelopeSummary
  pub layers : List ValidationLayerResult
  pub risk : Option RiskReport
  pub hitl : Option HitlDecision
  pub emitted_at : String

-- the sink that captures what it is given, oldest first
pub record RecordingAuditSink : Type 0 where
  pub records : List ValidationAuditRecord

unfoldable pub emit : ValidationAuditRecord → RecordingAuditSink → RecordingAuditSink
emit r sink = record { records = sink.records ++ r ∷ [] }

-- A value that is no object has no fields.
unfoldable pub extract_envelope_summary : Json → EnvelopeSummary
unfolding member
extract_envelope_summary value =
    let env = or_else (record_of value) end in
    record {
      event_id = string_of (member "event_id" env);
      event_type = string_of (member "event_type" env);
      timestamp = string_of (member "timestamp" env);
    }

unfoldable pub audit_record : String → ValidationContext → ValidationAuditRecord
unfolding extract_envelope_summary read_risk_report read_hitl_decision
audit_record now ctx = record {
  submission_id = ctx.submission_id;
  envelope = extract_envelope_summary ctx.payload;
  layers = ctx.previous_results;
  risk = read_risk_report ctx.previous_results;
  hitl = read_hitl_decision ctx.previous_results;
  emitted_at = now;
}

abbrev emitted_to : ValidationAuditRecord → Option RecordingAuditSink → Option RecordingAuditSink
unfolding emit
emitted_to r none = none
emitted_to r (some sink) = some (emit r sink)

-- `run` of layer 9, with the sink after it
unfoldable pub audit_run :
    Option RecordingAuditSink
    → String
    → ValidationContext
    → ValidationLayerResult × Option RecordingAuditSink
unfolding audit_record emitted_to
audit_run sink now ctx = (
  record {
    layer = audit;
    passed = true;
    error_code = none;
    error_message = none;
    details = audit_details now (length ctx.previous_results);
  },
  emitted_to (audit_record now ctx) sink,
)
