-- ===== src/Validation/Orchestrator.antt =====
-- services/validation-engine/src/orchestrator: the run of the layers over one payload.
pub mod Runs
use airport_inspection_platf.Prelude.Json.{Json}
use airport_inspection_platf.Validation.Layers.{
  ValidationContext, ValidationLayer, ValidationLayerResult,
}
use airport_inspection_platf.Prelude.{
  Bool, List, String, [], all, if◌then◌else◌, not, ◌&&◌, ◌++◌, ◌∷◌,
}

-- the loop over the layers, with the results so far
unfoldable pub run_layers :
    Bool
    → String
    → Json
    → List ValidationLayer
    → List ValidationLayerResult
    → List ValidationLayerResult
run_layers short_circuit submission_id payload [] results = results
run_layers short_circuit submission_id payload (layer ∷ layers) results =
    let ctx : ValidationContext = record {
      submission_id = submission_id;
      payload = payload;
      previous_results = results;
    } in
    let result = layer.run ctx in
    let so_far = results ++ result ∷ [] in
    let rest = run_layers short_circuit submission_id payload layers so_far in
    if short_circuit && not result.passed then so_far else rest

pub record ValidationRun : Type 0 where
  pub run_id : String
  pub submission_id : String
  pub started_at : String
  pub finished_at : String
  pub layers : List ValidationLayerResult
  pub certified : Bool

-- the caller's part of `opts`, with the ids and the times that are drawn
pub record RunOptions : Type 0 where
  pub layers : List ValidationLayer
  pub short_circuit : Bool
  pub submission_id : String
  pub run_id : String
  pub started_at : String
  pub finished_at : String

abbrev pub passes : ValidationLayerResult → Bool
passes r = r.passed

unfoldable pub run_validation : Json → RunOptions → ValidationRun
unfolding run_layers
run_validation payload opts =
    let results = run_layers opts.short_circuit opts.submission_id payload opts.layers [] in
    record {
      run_id = opts.run_id;
      submission_id = opts.submission_id;
      started_at = opts.started_at;
      finished_at = opts.finished_at;
      layers = results;
      certified = all passes results;
    }
