-- ===== src/Orchestrator/Stages.antt =====
-- services/orchestrator.py: the stages that load, describe, assemble and score a document: what each
-- makes of the outcome of its call, and what it leaves in the trace.
use dev_zu_smart_ingest.Prelude.{ℕ, Option, none, some, List, [], ◌∷◌, true, false, if◌then◌else◌}
use dev_zu_smart_ingest.Prelude.Int.{pos}
use dev_zu_smart_ingest.Prelude.Outcome.{Outcome, returned, raised}
use dev_zu_smart_ingest.Text.{Text, codes, describe, is_empty}
use dev_zu_smart_ingest.Float.{FloatOps}
use dev_zu_smart_ingest.Domain.Enums.{ConfidenceTier, confidence_tier_value}
use dev_zu_smart_ingest.Domain.Json.{bool, str, int, float, Fields, end, field}
use dev_zu_smart_ingest.Domain.Entities.{
  Job, ExtractionResult, CompanionResult, ValidationResult, ConfidenceAssessment, SidecarDocument,
  text, number,
}
use dev_zu_smart_ingest.Domain.Pages.{PdfData, PipelineContext}
use dev_zu_smart_ingest.Orchestrator.Trace.{Run, log_stage, log_error, duration_ms, fail}

module _ {F : Type 0} (fl : FloatOps F) where
  -- `_empty_sidecar`
  abbrev pub empty_sidecar : Job F → SidecarDocument F
  empty_sidecar job = record {
    metadata_attributes =
        ("source_filename", text job.filename)
        ∷ ("document_type", text (codes "unknown"))
        ∷ ("extraction_confidence", number (fl.pct 0))
        ∷ [];
    companion_text = none;
    source_filename = job.filename;
    file_hash = job.file_hash;
  }

  abbrev pub empty_assessment : ConfidenceAssessment F
  empty_assessment = record {
    overall_confidence = fl.pct 0;
    tier = ConfidenceTier.review;
    breakdown = none;
    validation_adjustment = fl.pct 0;
  }

  abbrev pub done_entry : ℕ → Fields F → Fields F
  done_entry elapsed rest = duration_ms elapsed (field "ok" (bool true) rest)

  unfoldable pub pdf_load : ℕ → Outcome (PdfData F) → Run F → Option (PdfData F) × Run F
  pdf_load elapsed (returned data_of) run =
      (some data_of, log_stage "pdf_load" (done_entry elapsed end) run)
  pdf_load elapsed (raised e) run = (none, fail "pdf_load" elapsed e false run)

  abbrev pub new_context : Job F → List ℕ → Option (PdfData F) → PipelineContext F
  new_context job pdf_bytes pdf_data = record {
    job = job;
    pdf_bytes = pdf_bytes;
    pdf_data = pdf_data;
    extracted_text = none;
    rendered_pages = [];
    filename_hints = none;
    errors = [];
  }

  unfoldable pub stage2 :
      ℕ → Outcome (CompanionResult F) → Run F → Option (CompanionResult F) × Run F
  stage2 elapsed (returned c) run = (
    some c,
    log_stage "stage2"
        (done_entry elapsed (
          field "companion_generated" (bool c.companion_generated)
            (field "pages_described" (int (pos c.pages_described)) end)))
        run,
  )
  stage2 elapsed (raised e) run = (none, fail "stage2" elapsed e true run)

  -- The companion validation: not run without a validator or a companion text.
  abbrev pub validated : Outcome (ValidationResult F) → Run F → Option (ValidationResult F) × Run F
  validated (returned v) run = (
    some v,
    log_stage "companion_validation" (field "ok" (bool true) (field "passed" (bool v.passed) end))
        run,
  )
  validated (raised e) run = (
    none,
    log_error "companion_validation" (describe e) (
        log_stage "companion_validation"
          (field "ok" (bool false) (field "error" (str (describe e)) end)) run),
  )

  unfoldable pub companion_validation :
      Option (Text → ExtractionResult F → Outcome (ValidationResult F))
      → Option (CompanionResult F)
      → ExtractionResult F
      → Run F
      → Option (ValidationResult F) × Run F
  companion_validation none companion e run = (none, run)
  companion_validation (some validate) none e run = (none, run)
  companion_validation (some validate) (some c) e run =
      if is_empty c.companion_text then (none, run) else validated (validate c.companion_text e) run

  unfoldable pub stage3 :
      ℕ → Job F → Outcome (SidecarDocument F) → Run F → SidecarDocument F × Run F
  stage3 elapsed job (returned sidecar) run =
      (sidecar, log_stage "stage3" (done_entry elapsed end) run)
  stage3 elapsed job (raised e) run = (empty_sidecar job, fail "stage3" elapsed e false run)

  unfoldable pub confidence :
      ℕ → Outcome (ConfidenceAssessment F) → Run F → ConfidenceAssessment F × Run F
  confidence elapsed (returned a) run = (
    a,
    log_stage "confidence"
        (done_entry elapsed (
          field "score" (float a.overall_confidence)
            (field "tier" (str (codes (confidence_tier_value a.tier))) end)))
        run,
  )
  confidence elapsed (raised e) run = (empty_assessment, fail "confidence" elapsed e false run)
