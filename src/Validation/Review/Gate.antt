-- ===== src/Validation/Review/Gate.antt =====
-- When the last layer certifies, and what human review holds back.
use airport_inspection_platf.Validation.Layers.{
  HitlDecision, RiskReport, ValidationContext, ValidationLayerId, ValidationLayerResult,
  hitl_details, human_review,
}
use airport_inspection_platf.Validation.Review.{
  ExtractedEnvelope, certification_run, certify, extract_envelope, hitl_decision, human_review_run,
  is_ai_detection, passed_with, read_hitl_decision, read_risk_report,
}
use airport_inspection_platf.Prelude.{
  All, Bool, Bool-cases, List, Option, Option-cases, String, [], ap, arith, false, filter, if_false,
  if_true, inl, inr, lt→ltb, none, not, refl, some, sym, true, ◌&&◌, ◌++◌, ◌↔◌, ◌∙◌, ◌∷◌, ◌≡◌, ◌≢◌,
}

-- No decision of layer 8 asks for a reviewer.
abbrev pub Unrouted : List ValidationLayerResult → Type 0
Unrouted results =
    (decision : HitlDecision)
    → read_hitl_decision results ≡ some decision
    → decision.routed_to_hitl ≡ false

-- A required layer has passed if it has run.
abbrev pub RequiredPassed : (ValidationLayerId → Bool) → List ValidationLayerResult → Type 0
RequiredPassed required results = All (λ r. required r.layer ≡ true → r.passed ≡ true) results

failed_required-none :
    (required : ValidationLayerId → Bool) (results : List ValidationLayerResult)
    → (filter (λ r. not r.passed && required r.layer) results ≡ [])
      ↔ RequiredPassed required results
failed_required-none required [] = (λ e. tt, λ u. refl)
failed_required-none required (r ∷ rs) =
    let ih = failed_required-none required rs in
    elim (Bool-cases (not r.passed && required r.layer)) [
      | inl t ↦
          (λ e. absurd (cons_not_nil _ _ (sym (if_true _ _ _ t) ∙ e)), λ h. absurd (ground arith))
      | inr t ↦
          (λ e. (ground arith, ih.0 (sym (if_false _ _ _ t) ∙ e)), λ h. if_false _ _ _ t ∙ ih.1 h.1)
    ]
  where
    cons_not_nil : (x : ValidationLayerResult) (xs : List ValidationLayerResult) → (x ∷ xs) ≢ []
    cons_not_nil x xs e = absurd (cc)

certify-passed_iff :
    (required : ValidationLayerId → Bool) (now : String) (ctx : ValidationContext)
    → ((certify required now ctx).passed ≡ true)
      ↔ (filter (λ r. not r.passed && required r.layer) ctx.previous_results ≡ [])
unfolding certify
certify-passed_iff required now ctx = ground arith

-- Layer 10 passes exactly when layer 8 has not routed the run to a reviewer and every required
-- layer that ran has passed.
pub certification_run_iff :
    (required : ValidationLayerId → Bool) (now : String) (ctx : ValidationContext)
    → ((certification_run required now ctx).passed ≡ true)
      ↔ (Unrouted ctx.previous_results × RequiredPassed required ctx.previous_results)
unfolding certification_run
certification_run_iff required now ctx =
    let gate = certify-passed_iff required now ctx in
    let none_failed = failed_required-none required ctx.previous_results in
    elim (Option-cases (read_hitl_decision ctx.previous_results)) [
      | inl e ↦
          rw (e, certification_run)
            (λ h. (λ d k. absurd (cc), none_failed.0 (gate.0 h)), λ h. gate.1 (none_failed.1 h.1))
      | inr (d, e) ↦ elim (Bool-cases d.routed_to_hitl) [
        | inl t ↦
            let held : (certification_run required now ctx).passed ≡ false =
              rw (e, certification_run) (rw t refl) in
            (λ h. absurd (cc), λ h. let free = h.0 d e in absurd (cc))
        | inr t ↦
            let same : certification_run required now ctx ≡ certify required now ctx =
              rw (e, certification_run) (if_false d.routed_to_hitl _ _ t) in
            let same_passed = ap (λ r. r.passed) same in
            (
              λ h. (
                λ d' k.
                    let same_decision : d ≡ d' = cc in
                    ap (λ x. x.routed_to_hitl) (sym same_decision) ∙ t,
                none_failed.0 (gate.0 (sym same_passed ∙ h)),
              ),
              λ h. same_passed ∙ gate.1 (none_failed.1 h.1),
            )
      ]
    ]

routed_risk :
    (hint : Option String) (results : List ValidationLayerResult) (report : RiskReport)
    → read_risk_report results ≡ some report
    → report.routes_to_hitl ≡ true
    → (hitl_decision hint results).routed_to_hitl ≡ true
unfolding hitl_decision
routed_risk hint results report e h = rw e (rw h (lt→ltb 0 _ (omega arith)))

read_hitl_decision-append :
    (rs ss : List ValidationLayerResult)
    → read_hitl_decision rs ≡ none
    → read_hitl_decision (rs ++ ss) ≡ read_hitl_decision ss
unfolding read_hitl_decision
read_hitl_decision-append [] ss h = refl
read_hitl_decision-append (r ∷ rs) ss h = ground (arith, read_hitl_decision-append rs ss)

-- An AI detection whose risk report asks for human review is not certified: layer 10 refuses it
-- after layer 8 has run, whatever results come between, if no earlier result holds a decision of
-- layer 8.
pub risky_held :
    (required : ValidationLayerId → Bool) (now : String) (ctx : ValidationContext)
    (env : ExtractedEnvelope) (report : RiskReport) (between : List ValidationLayerResult)
    → extract_envelope ctx.payload ≡ some env
    → is_ai_detection env.event_type ≡ true
    → read_hitl_decision ctx.previous_results ≡ none
    → read_risk_report ctx.previous_results ≡ some report
    → report.routes_to_hitl ≡ true
    → let later = record ctx {
      previous_results = ctx.previous_results ++ human_review_run ctx ∷ between;
    } in
      (certification_run required now later).passed ≡ false
unfolding human_review_run certification_run read_hitl_decision
risky_held required now ctx env report between a b c d e =
    let decision = hitl_decision env.severity_hint ctx.previous_results in
    let later = record ctx {
      previous_results = ctx.previous_results ++ human_review_run ctx ∷ between;
    } in
    let ran : human_review_run ctx ≡ passed_with human_review (hitl_details decision) =
      rw (a, human_review_run) (if_true (is_ai_detection env.event_type) _ _ b) in
    let found : read_hitl_decision later.previous_results ≡ some decision =
      read_hitl_decision-append ctx.previous_results _ c
      ∙ ap (λ r. read_hitl_decision (r ∷ between)) ran in
    let routed = routed_risk env.severity_hint ctx.previous_results report d e in
    elim (Bool-cases (certification_run required now later).passed) [
      | inr t ↦ t
      | inl t ↦
          let free = ((certification_run_iff required now later).0 t).0 decision found in
          absurd (cc)
    ]
