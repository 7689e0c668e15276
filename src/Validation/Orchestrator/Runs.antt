-- ===== src/Validation/Orchestrator/Runs.antt =====
-- Runs that stop at the first failing layer against runs of every layer.
use airport_inspection_platf.Prelude.Json.{Json}
use airport_inspection_platf.Validation.Layers.{ValidationLayer, ValidationLayerResult}
use airport_inspection_platf.Validation.Orchestrator.{
  RunOptions, passes, run_layers, run_validation,
}
use airport_inspection_platf.Prelude.{
  Bool-cases, List, String, [], all, ap, append-nil, append_assoc, arith, false, if_false, if_true,
  if◌then◌else◌, inl, inr, not, refl, sym, true, ◌&&◌, ◌++◌, ◌∙◌, ◌∷◌, ◌≡◌,
}

-- The results up to the first that failed, that one included.
abbrev pub up_to_failure : List ValidationLayerResult → List ValidationLayerResult
up_to_failure [] = []
up_to_failure (r ∷ rs) = if r.passed then r ∷ up_to_failure rs else r ∷ []

up_to_failure-append :
    (rs ss : List ValidationLayerResult)
    → all passes rs ≡ true
    → up_to_failure (rs ++ ss) ≡ rs ++ up_to_failure ss
up_to_failure-append [] ss h = refl
up_to_failure-append (r ∷ rs) ss h =
    let first : r.passed ≡ true = ground arith in
    let others : all passes rs ≡ true = ground arith in
    if_true r.passed _ _ first ∙ ap (λ x. r ∷ x) (up_to_failure-append rs ss others)

all-append :
    (rs ss : List ValidationLayerResult) → all passes (rs ++ ss) ≡ (all passes rs && all passes ss)
all-append [] ss = refl
all-append (r ∷ rs) ss = ground (arith, all-append rs ss)

-- The result that a layer gives after the results so far.
abbrev result_of :
    String → Json → ValidationLayer → List ValidationLayerResult → ValidationLayerResult
result_of id payload layer results =
    layer.run (record { submission_id = id; payload = payload; previous_results = results })

-- A run of every layer adds to the results so far.
pub run_layers-append :
    (id : String) (payload : Json) (layers : List ValidationLayer)
    (results : List ValidationLayerResult)
    → (added : List ValidationLayerResult) × (run_layers false id payload layers results
        ≡ results ++ added)
unfolding run_layers
run_layers-append id payload [] results = ([], sym (append-nil results))
run_layers-append id payload (layer ∷ layers) results =
    let r = result_of id payload layer results in
    let ih = run_layers-append id payload layers (results ++ r ∷ []) in
    (r ∷ ih.0, ih.1 ∙ append_assoc results (r ∷ []) ih.0)

run_layers-short :
    (id : String) (payload : Json) (layers : List ValidationLayer)
    (results : List ValidationLayerResult)
    → all passes results ≡ true
    → run_layers true id payload layers results
      ≡ up_to_failure (run_layers false id payload layers results)
unfolding run_layers
run_layers-short id payload [] results h = sym (
    ap up_to_failure (sym (append-nil results))
    ∙ up_to_failure-append results [] h
    ∙ append-nil results)
run_layers-short id payload (layer ∷ layers) results h =
    let r = result_of id payload layer results in
    let so_far = results ++ r ∷ [] in
    elim (Bool-cases r.passed) [
      | inl t ↦
          if_false (not r.passed) _ _ (ap not t)
          ∙ run_layers-short id payload layers so_far (all-append results (r ∷ []) ∙ ground arith)
      | inr t ↦
          let after = run_layers-append id payload layers so_far in
          if_true (not r.passed) _ _ (ap not t)
          ∙ sym (
              ap up_to_failure (after.1 ∙ append_assoc results (r ∷ []) after.0)
              ∙ up_to_failure-append results (r ∷ after.0) h
              ∙ ap (λ x. results ++ x) (if_false r.passed _ _ t))
    ]

all-up_to_failure :
    (rs : List ValidationLayerResult) → all passes (up_to_failure rs) ≡ all passes rs
all-up_to_failure [] = refl
all-up_to_failure (r ∷ rs) = ground (arith, all-up_to_failure rs)

-- A run that stops at the first failing layer gives the results of the run of every layer up to the
-- first failure, that one included, and certifies exactly the same payloads.
pub short_circuit_lem :
    (payload : Json) (opts : RunOptions)
    → let short = run_validation payload (record opts { short_circuit = true }) in
      let whole = run_validation payload (record opts { short_circuit = false }) in
      (short.layers ≡ up_to_failure whole.layers) × (short.certified ≡ whole.certified)
unfolding run_validation
short_circuit_lem payload opts =
    let e = run_layers-short opts.submission_id payload opts.layers [] refl in
    (
      e,
      ap (all passes) e
          ∙ all-up_to_failure (run_layers false opts.submission_id payload opts.layers []),
    )
