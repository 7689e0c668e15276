-- ===== src/Validation/Layers.antt =====
-- services/validation-engine/src/layers/types.ts and packages/shared-contracts/src/validation: what a layer
-- is given and what it answers.
pub mod Collected
use airport_inspection_platf.Prelude.Json.{Json}
use airport_inspection_platf.Prelude.{
  Bool, List, Option, String, [], false, if◌then◌else◌, none, some, true, ℕ, ◌∷◌,
}

pub data ValidationLayerId : Type 0 where
  input schema business_rules source_of_truth cross_system : ValidationLayerId
  ai_output risk human_review audit certification : ValidationLayerId

-- The score of layer 7 as `toFixed(3)` prints it, and its routing decision.
pub record RiskReport : Type 0 where
  pub score : String
  pub routes_to_hitl : Bool

pub data Priority : Type 0 where
  high_priority normal_priority : Priority

pub record HitlDecision : Type 0 where
  pub routed_to_hitl : Bool
  pub priority : Priority
  pub reasons : List String

pub record CertificationEnvelope : Type 0 where
  pub event_id : Option String
  pub event_type : Option String
  pub certified_at : String

-- An entry of `details.failures`.
pub record LayerFailure : Type 0 where
  pub code : String
  pub message : String
  pub field : Option String
  pub value : Option Json
  pub expected : Option Json
  pub actual : Option Json

-- The entries of `details` that layers read or that the last layer writes.
pub data Details : Type 0 where
  no_details other_details : Details
  risk_details : RiskReport → Details
  hitl_details : HitlDecision → Details
  failed_layers : List ValidationLayerId → Details
  certified_details : CertificationEnvelope → Details
  failure_details : List LayerFailure → Details
  audit_details : String → ℕ → Details

-- A layer's result. No layer here gives `evidence`.
pub record ValidationLayerResult : Type 0 where
  pub layer : ValidationLayerId
  pub passed : Bool
  pub error_code : Option String
  pub error_message : Option String
  pub details : Details

pub record ValidationContext : Type 0 where
  pub submission_id : String
  pub payload : Json
  pub previous_results : List ValidationLayerResult

pub record ValidationLayer : Type 0 where
  pub id : ValidationLayerId
  pub run : ValidationContext → ValidationLayerResult

-- The result by the failures that were collected: the first of them is the error.
unfoldable pub result_of : ValidationLayerId → List LayerFailure → ValidationLayerResult
result_of layer [] = record {
  layer = layer;
  passed = true;
  error_code = none;
  error_message = none;
  details = no_details;
}
result_of layer (primary ∷ rest) = record {
  layer = layer;
  passed = false;
  error_code = some primary.code;
  error_message = some primary.message;
  details = failure_details (primary ∷ rest);
}

-- `out.push({...})` under a test
abbrev pub push_if : Bool → LayerFailure → List LayerFailure
push_if b failure = if b then failure ∷ [] else []
