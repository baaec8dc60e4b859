-- ===== src/Orchestrator/Run.antt =====
-- services/orchestrator.py: `run_pipeline`, stage by stage. The collaborators that the constructor is
-- given are the record `Collaborators`: each method gives the outcome of its call, and `gather` the
-- three outcomes of Stage 1 and the context that the extractors, which share it, leave.
-- `stage1_raises` is an exception of Stage 1 that is none of its extractors' (see `stage1`).
pub mod Routing
pub mod Errors
pub mod Tracing
pub mod Agreement
use dev_zu_smart_ingest.Prelude.{
  String, ℕ, Option, none, some, List, [], ◌∷◌, Bool, true, false, not, ◌&&◌, str_eq, if◌then◌else◌,
}
use dev_zu_smart_ingest.Prelude.Int.{ℤ, pos}
use dev_zu_smart_ingest.Prelude.Outcome.{Exception, Outcome, returned, raised}
use dev_zu_smart_ingest.Text.{Text, codes, describe, is_empty}
use dev_zu_smart_ingest.Float.{FloatOps}
use dev_zu_smart_ingest.Domain.Enums.{ConfidenceTier, confidence_tier_value, tier_eq}
use dev_zu_smart_ingest.Domain.Json.{Json, bool, str, int, float, Fields, end, field}
use dev_zu_smart_ingest.Domain.Entities.{
  Job, ExtractionResult, CompanionResult, ValidationResult, ConfidenceAssessment, SidecarDocument,
  Attribute, text, number, PipelineError,
}
use dev_zu_smart_ingest.Domain.Pages.{PdfData, PipelineContext}
use dev_zu_smart_ingest.Orchestrator.Trace.{
  Call, write_metadata, index_companion, notify_completion, Run, no_run, log_stage, log_error,
  report, call, duration_ms, failed_entry, fail, has_unrecoverable_error,
}
use dev_zu_smart_ingest.Orchestrator.Stages.{
  pdf_load, new_context, stage2, companion_validation, stage3, confidence,
}
use dev_zu_smart_ingest.Orchestrator.Delivery.{metadata_write, search_index, callback}
use dev_zu_smart_ingest.Orchestrator.Extraction.{empty_extraction_result, stage1}

-- The optional collaborators are `none` where the constructor is given `None`. `elapsed stage` is
-- what `_elapsed_ms` gives for a stage.
pub record Collaborators (F : Type 0) : Type 0 where
  pub load : List ℕ → Outcome (PdfData F)
  pub gather :
      PipelineContext F
      → (Outcome (ExtractionResult F) × Outcome (ExtractionResult F) × Outcome (ExtractionResult F))
        × PipelineContext F
  pub stage1_raises : PipelineContext F → Option (ℕ × Exception)
  pub generate : PipelineContext F → ExtractionResult F → Outcome (CompanionResult F)
  pub validate : Option (Text → ExtractionResult F → Outcome (ValidationResult F))
  pub build : ExtractionResult F → Option (CompanionResult F) → Job F → Outcome (SidecarDocument F)
  pub calculate :
      ExtractionResult F → Option (ValidationResult F) → Outcome (ConfidenceAssessment F)
  pub writer : Call F → Outcome Bool
  pub indexer : Option (Call F → Outcome Bool)
  pub callback : Option (Call F → Outcome Bool)
  pub elapsed : String → ℕ

pub record Request (F : Type 0) : Type 0 where
  pub job : Job F
  pub pdf_bytes : List ℕ
  pub deployment_id : Option ℤ
  pub node_id : Option ℤ
  pub callback_url : Option String
  pub api_key : String

-- `PipelineResult`, its `pipeline_trace` and `errors` in `run`, without the trace id of the span, and
-- the label that `record_extraction_status` counts.
pub record PipelineResult (F : Type 0) : Type 0 where
  pub extraction_result : ExtractionResult F
  pub companion_result : Option (CompanionResult F)
  pub sidecar : SidecarDocument F
  pub confidence_assessment : ConfidenceAssessment F
  pub run : Run F
  pub status : String

-- `record_extraction_status`: the label whose counter goes up once.
unfoldable pub record_extraction_status : ConfidenceTier → List PipelineError → String
record_extraction_status tier errors =
    if has_unrecoverable_error errors
    then "failed"
    else if tier_eq tier ConfidenceTier.review
    then "review"
    else "completed"

module _ {F : Type 0} (fl : FloatOps F) (with_ : Collaborators F) where
  abbrev pub loaded : Request F → Option (PdfData F) × Run F
  loaded request = pdf_load fl (with_.elapsed "pdf_load") (with_.load request.pdf_bytes) no_run

  abbrev pub started : Request F → PipelineContext F
  started request = new_context fl request.job request.pdf_bytes (loaded request).0

  -- What raises in Stage 1 outside its extractors.
  abbrev pub stage1_fault : Request F → Option (ℕ × Exception)
  stage1_fault request = with_.stage1_raises (started request)

  abbrev pub gathered :
      Request F
      → (Outcome (ExtractionResult F) × Outcome (ExtractionResult F) × Outcome (ExtractionResult F))
        × PipelineContext F
  gathered request = with_.gather (started request)

  abbrev pub extracted : Request F → ExtractionResult F × Run F
  extracted request =
      let (drawing, title, document_type) = (gathered request).0 in
      stage1 fl (with_.elapsed "stage1") (stage1_fault request) drawing title document_type
        (loaded request).1

  abbrev pub described : Request F → Option (CompanionResult F) × Run F
  described request =
      let (merged, run) = extracted request in
      stage2 fl (with_.elapsed "stage2") (with_.generate (gathered request).1 merged) run

  abbrev pub checked : Request F → Option (ValidationResult F) × Run F
  checked request =
      let (companion, run) = described request in
      companion_validation fl with_.validate companion (extracted request).0 run

  abbrev pub assembled : Request F → SidecarDocument F × Run F
  assembled request =
      let outcome = with_.build (extracted request).0 (described request).0 request.job in
      stage3 fl (with_.elapsed "stage3") request.job outcome (checked request).1

  abbrev pub scored : Request F → ConfidenceAssessment F × Run F
  scored request =
      let outcome = with_.calculate (extracted request).0 (checked request).0 in
      confidence fl (with_.elapsed "confidence") outcome (assembled request).1

  -- `replace(extraction_result, confidence_score=…, confidence_tier=…)`
  abbrev pub scored_result : ExtractionResult F → ConfidenceAssessment F → ExtractionResult F
  scored_result e a = record e {
    confidence_score = some a.overall_confidence;
    confidence_tier = some a.tier;
  }

  abbrev pub final_result : Request F → ExtractionResult F
  final_result request = scored_result (extracted request).0 (scored request).0

  abbrev pub written : Request F → Run F
  written request =
      let (assessment, run) = scored request in
      metadata_write (with_.elapsed "metadata_write") with_.writer assessment.tier
        (write_metadata request.job.file_hash (assembled request).0 request.deployment_id
          request.node_id)
        run

  abbrev pub indexed : Request F → Run F
  indexed request =
      search_index (with_.elapsed "search_index") with_.indexer (described request).0
        (λ c. index_companion request.job.file_hash (final_result request) c request.deployment_id)
        (written request)

  abbrev pub notified : Request F → Run F
  notified request =
      callback (with_.elapsed "callback") with_.callback request.callback_url
        (λ url. notify_completion url request.job request.api_key) (indexed request)

  unfoldable pub run_pipeline : Request F → PipelineResult F
  unfolding pdf_load stage1 stage2 companion_validation stage3 confidence metadata_write
      search_index callback record_extraction_status
  run_pipeline request =
      let assessment = (scored request).0 in
      let run = notified request in
      record {
        extraction_result = final_result request;
        companion_result = (described request).0;
        sidecar = (assembled request).0;
        confidence_assessment = assessment;
        run = run;
        status = record_extraction_status assessment.tier run.errors;
      }
