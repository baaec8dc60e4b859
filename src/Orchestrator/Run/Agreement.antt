-- ===== src/Orchestrator/Run/Agreement.antt =====
-- The pipeline with the sidecar builder and the confidence calculator of domain/pipeline, as
-- services/__init__.py wires it.
use dev_zu_smart_ingest.Prelude.{
  String, ℕ, Option, none, some, List, false, ◌≡◌, refl, sym, ap, subst, ◌∙◌, arith, if◌then◌else◌,
}
use dev_zu_smart_ingest.Prelude.Outcome.{Exception, Outcome, returned}
use dev_zu_smart_ingest.Text.{Text, is_empty}
use dev_zu_smart_ingest.Float.{FloatOps, FloatLaws}
use dev_zu_smart_ingest.Dict
use dev_zu_smart_ingest.Domain.Entities.{
  Job, ExtractionResult, CompanionResult, ValidationResult, SidecarDocument, Attribute, number,
}
use dev_zu_smart_ingest.Pipeline.Confidence.{penalised, calculate}
use dev_zu_smart_ingest.Pipeline.Confidence
use dev_zu_smart_ingest.Pipeline.Confidence.Tiers.{IsNonneg}
use dev_zu_smart_ingest.Pipeline.Sidecar.{Schema, Accepts, build, derive_confidence}
use dev_zu_smart_ingest.Pipeline.Sidecar.Contents.{IsScored, build-HasContents}
use dev_zu_smart_ingest.Orchestrator.Extraction.{stage1, merge_extraction_results}
use dev_zu_smart_ingest.Orchestrator.Trace.{Run}
use dev_zu_smart_ingest.Orchestrator.Stages.{stage3, confidence}
use dev_zu_smart_ingest.Orchestrator.Run.{
  Collaborators, Request, loaded, extracted, described, checked, assembled, scored, run_pipeline,
}

module _ {F : Type 0} (fl : FloatOps F) where
  -- The pipeline builds sidecars and calculates confidences by the services of domain/pipeline.
  pub record IsWired (schema_error : Schema → List (String × Attribute F) → Option Text)
      (cs : Collaborators F) : Type 0 where
    pub builds :
        (e : ExtractionResult F) (companion : Option (CompanionResult F)) (job : Job F)
        → cs.build e companion job ≡ build fl schema_error e companion job
    pub calculates :
        (e : ExtractionResult F) (v : Option (ValidationResult F))
        → cs.calculate e v ≡ returned (calculate fl e v)

  stage1-confidence_score :
      (n : ℕ) (fault : Option (ℕ × Exception)) (a b c : Outcome (ExtractionResult F)) (run : Run F)
      → (stage1 fl n fault a b c run).0.confidence_score ≡ none
  unfolding stage1 merge_extraction_results
  stage1-confidence_score n none a b c run = refl
  stage1-confidence_score n (some fault) a b c run = refl

  extracted-confidence_score :
      (cs : Collaborators F) (request : Request F)
      → (extracted fl cs request).0.confidence_score ≡ none
  extracted-confidence_score cs request =
      stage1-confidence_score (cs.elapsed "stage1") _ _ _ _ (loaded fl cs request).1

  derive_confidence-calculate :
      (e : ExtractionResult F)
      → e.confidence_score ≡ none
      → derive_confidence fl e ≡ (calculate fl e none).overall_confidence
  unfolding derive_confidence calculate Confidence.weighted_sum
  derive_confidence-calculate e h = ground (arith, h)

  calculate-not_penalised :
      (e : ExtractionResult F) (v : Option (ValidationResult F))
      → penalised fl v ≡ false
      → (calculate fl e v).overall_confidence ≡ (calculate fl e none).overall_confidence
  unfolding calculate
  calculate-not_penalised e v h = ground (arith, h)

  scored-calculate :
      (schema_error : Schema → List (String × Attribute F) → Option Text) (cs : Collaborators F)
      (request : Request F)
      → IsWired schema_error cs
      → (scored fl cs request).0
        ≡ calculate fl (extracted fl cs request).0 (checked fl cs request).0
  unfolding confidence
  scored-calculate schema_error cs request wired =
      ap (λ o. (confidence fl (cs.elapsed "confidence") o (assembled fl cs request).1).0)
        (wired.calculates (extracted fl cs request).0 (checked fl cs request).0)

  unpenalised_eq :
      (schema_error : Schema → List (String × Attribute F) → Option Text) (cs : Collaborators F)
      (request : Request F)
      → IsWired schema_error cs
      → let unpenalised = (calculate fl (extracted fl cs request).0 none).overall_confidence in
        unpenalised ≡ (
          if penalised fl (checked fl cs request).0
          then unpenalised
          else (scored fl cs request).0.overall_confidence)
  unpenalised_eq schema_error cs request wired =
      let merged = (extracted fl cs request).0 in
      let v = (checked fl cs request).0 in
      ground
        (arith, scored-calculate schema_error cs request wired, calculate-not_penalised merged v)

  assembled-build :
      (schema_error : Schema → List (String × Attribute F) → Option Text) (cs : Collaborators F)
      (request : Request F) (document : SidecarDocument F)
      → IsWired schema_error cs
      → build fl schema_error (extracted fl cs request).0 (described fl cs request).0 request.job
        ≡ returned document
      → (assembled fl cs request).0 ≡ document
  unfolding stage3
  assembled-build schema_error cs request document wired h =
      ap (λ o. (stage3 fl (cs.elapsed "stage3") request.job o (checked fl cs request).1).0)
        (wired.builds (extracted fl cs request).0 (described fl cs request).0 request.job ∙ h)

module _ {F : Type 0} (fl : FloatOps F) (laws : FloatLaws fl) where
  -- For a job with a filename whose extracted fields have no negative confidence, the sidecar that
  -- the pipeline returns shows the overall confidence that the pipeline reports, except where the
  -- companion failed its validation: there it shows the confidence before the penalty.
  pub run_pipeline-agrees :
      (schema_error : Schema → List (String × Attribute F) → Option Text) (cs : Collaborators F)
      (request : Request F)
      → Accepts fl schema_error
      → IsWired fl schema_error cs
      → is_empty request.job.filename ≡ false
      → IsNonneg fl laws (extracted fl cs request).0
      → let result = run_pipeline fl cs request in
        let unpenalised = (calculate fl (extracted fl cs request).0 none).overall_confidence in
        Dict.get "extraction_confidence" result.sidecar.metadata_attributes
        ≡ some (
            number (
              if penalised fl (checked fl cs request).0
              then unpenalised
              else result.confidence_assessment.overall_confidence))
  unfolding run_pipeline
  run_pipeline-agrees schema_error cs request accepting wired h nonneg =
      let merged = (extracted fl cs request).0 in
      let found =
        build-HasContents fl laws schema_error accepting merged (described fl cs request).0
          request.job h
          (subst (λ score. IsScored fl laws score merged)
            (sym (extracted-confidence_score fl cs request)) nonneg) in
      ap (λ d. Dict.get "extraction_confidence" d.metadata_attributes)
        (assembled-build fl schema_error cs request found.0 wired found.1)
      ∙ found.2.2
      ∙ ap (λ x. some (number x))
          (derive_confidence-calculate fl merged (extracted-confidence_score fl cs request)
            ∙ unpenalised_eq fl schema_error cs request wired)
