-- ===== src/Orchestrator/Run/Errors.antt =====
-- What a run records of the failures of its stages.
use dev_zu_smart_ingest.Prelude.{
  String, ℕ, zero, suc, Option, none, some, List, [], ◌∷◌, ◌++◌, Bool, true, false, not, ◌||◌, ◌≡◌,
  refl, ap, ◌∙◌, arith, any, if◌then◌else◌,
}
use dev_zu_smart_ingest.Prelude.Outcome.{Exception, Outcome, returned, raised}
use dev_zu_smart_ingest.Text.{Text, describe}
use dev_zu_smart_ingest.Float.{FloatOps}
use dev_zu_smart_ingest.Domain.Enums.{ConfidenceTier, tier_eq}
use dev_zu_smart_ingest.Domain.Entities.{
  Job, ExtractionResult, CompanionResult, ValidationResult, ConfidenceAssessment, SidecarDocument,
  PipelineError,
}
use dev_zu_smart_ingest.Domain.Pages.{PdfData}
use dev_zu_smart_ingest.Orchestrator.Trace.{
  Call, Run, no_run, report, of_exception, call, has_unrecoverable_error, log_error, log_stage,
  failed_entry,
}
use dev_zu_smart_ingest.Orchestrator.Extraction.{stage1, log_extractor, log_results, labelled}
use dev_zu_smart_ingest.Orchestrator.Stages.{
  pdf_load, stage2, companion_validation, stage3, confidence,
}
use dev_zu_smart_ingest.Orchestrator.Delivery.{
  metadata_write, search_index, callback, wrote, delivered, write_failed,
}
use dev_zu_smart_ingest.Orchestrator.Run.{
  Collaborators, Request, stage1_fault, loaded, extracted, described, checked, assembled, scored,
  written, indexed, notified, run_pipeline, record_extraction_status,
}

any-append {ℓ} :
    {A : Type ℓ} (p : A → Bool) (xs ys : List A) → any p (xs ++ ys) ≡ (any p xs || any p ys)
any-append p [] ys = refl
any-append p (x ∷ xs) ys = ground (arith, any-append p xs ys)

abbrev pub crashed {ℓ} : {A : Type ℓ} → Outcome A → Bool
crashed (returned a) = false
crashed (raised e) = true

abbrev pub is_some {ℓ} : {A : Type ℓ} → Option A → Bool
is_some none = false
is_some (some a) = true

module _ {F : Type 0} where
  abbrev pub fatal : Run F → Bool
  fatal run = has_unrecoverable_error run.errors

  fatal-report :
      (error : PipelineError) (run : Run F)
      → fatal (report error run) ≡ (fatal run || not error.recoverable)
  fatal-report error run =
      ground (arith, any-append (λ (e : PipelineError). not e.recoverable) run.errors (error ∷ []))

module _ {F : Type 0} (fl : FloatOps F) where
  fatal-pdf_load :
      (n : ℕ) (o : Outcome (PdfData F)) (run : Run F)
      → fatal (pdf_load fl n o run).1 ≡ (fatal run || crashed o)
  unfolding pdf_load
  fatal-pdf_load n (returned a) run = ground arith
  fatal-pdf_load n (raised e) run = fatal-report (of_exception "pdf_load" e false) run

  fatal-log_extractor :
      (stage : String) (o : Outcome (ExtractionResult F)) (run : Run F)
      → fatal (log_extractor fl stage o run) ≡ fatal run
  fatal-log_extractor stage (returned a) run = refl
  fatal-log_extractor stage (raised e) run =
      ground (arith, fatal-report (of_exception stage e true) run)

  fatal-log_results :
      (handled : ℕ) (results : List (String × Outcome (ExtractionResult F))) (run : Run F)
      → fatal (log_results fl handled results run) ≡ fatal run
  unfolding log_results
  fatal-log_results zero results run = refl
  fatal-log_results (suc handled) [] run = refl
  fatal-log_results (suc handled) ((stage, o) ∷ results) run =
      fatal-log_results handled results (log_extractor fl stage o run)
      ∙ fatal-log_extractor stage o run

  fatal-stage1 :
      (n : ℕ) (fault : Option (ℕ × Exception)) (a b c : Outcome (ExtractionResult F)) (run : Run F)
      → fatal (stage1 fl n fault a b c run).1 ≡ (fatal run || is_some fault)
  unfolding stage1
  fatal-stage1 n none a b c run = ground (arith, fatal-log_results 3 (labelled fl a b c) run)
  fatal-stage1 n (some (handled, e)) a b c run =
      let logged = log_results fl handled (labelled fl a b c) run in
      fatal-report (of_exception "stage1" e false)
        (log_error "stage1" (describe e) (log_stage "stage1" (failed_entry n e) logged))
      ∙ ap (λ b. b || true) (fatal-log_results handled (labelled fl a b c) run)

  fatal-stage2 :
      (n : ℕ) (o : Outcome (CompanionResult F)) (run : Run F)
      → fatal (stage2 fl n o run).1 ≡ fatal run
  unfolding stage2
  fatal-stage2 n (returned a) run = refl
  fatal-stage2 n (raised e) run = ground (arith, fatal-report (of_exception "stage2" e true) run)

  errors-companion_validation :
      (v : Option (Text → ExtractionResult F → Outcome (ValidationResult F)))
      (c : Option (CompanionResult F)) (e : ExtractionResult F) (run : Run F)
      → (companion_validation fl v c e run).1.errors ≡ run.errors
  unfolding companion_validation
  errors-companion_validation v c e run = ground arith

  fatal-stage3 :
      (n : ℕ) (job : Job F) (o : Outcome (SidecarDocument F)) (run : Run F)
      → fatal (stage3 fl n job o run).1 ≡ (fatal run || crashed o)
  unfolding stage3
  fatal-stage3 n job (returned a) run = ground arith
  fatal-stage3 n job (raised e) run = fatal-report (of_exception "stage3" e false) run

  fatal-confidence :
      (n : ℕ) (o : Outcome (ConfidenceAssessment F)) (run : Run F)
      → fatal (confidence fl n o run).1 ≡ (fatal run || crashed o)
  unfolding confidence
  fatal-confidence n (returned a) run = ground arith
  fatal-confidence n (raised e) run = fatal-report (of_exception "confidence" e false) run

  fatal-wrote : (n : ℕ) (o : Outcome Bool) (run : Run F) → fatal (wrote n o run) ≡ fatal run
  unfolding wrote
  fatal-wrote n (returned true) run = refl
  fatal-wrote n (returned false) run = ground (arith, fatal-report write_failed run)
  fatal-wrote n (raised e) run =
      ground (arith, fatal-report (of_exception "metadata_write" e true) run)

  fatal-metadata_write :
      (n : ℕ) (writer : Call F → Outcome Bool) (tier : ConfidenceTier) (document : Call F)
      (run : Run F)
      → fatal (metadata_write n writer tier document run) ≡ fatal run
  unfolding metadata_write
  fatal-metadata_write n writer ConfidenceTier.auto document run =
      fatal-wrote n (writer document) (call document run)
  fatal-metadata_write n writer ConfidenceTier.spot document run =
      fatal-wrote n (writer document) (call document run)
  fatal-metadata_write n writer ConfidenceTier.review document run = refl

  errors-search_index :
      (n : ℕ) (indexer : Option (Call F → Outcome Bool)) (companion : Option (CompanionResult F))
      (document : CompanionResult F → Call F) (run : Run F)
      → (search_index n indexer companion document run).errors ≡ run.errors
  unfolding search_index delivered
  errors-search_index n indexer companion document run = ground arith

  errors-callback :
      (n : ℕ) (client : Option (Call F → Outcome Bool)) (url : Option String)
      (message : String → Call F) (run : Run F)
      → (callback n client url message run).errors ≡ run.errors
  unfolding callback delivered
  errors-callback n client url message run = ground arith

  abbrev pub sum_up : Bool → ConfidenceTier → String
  sum_up failed tier =
      if failed
      then "failed"
      else if tier_eq tier ConfidenceTier.review
      then "review"
      else "completed"

  fatal-scored :
      (cs : Collaborators F) (request : Request F)
      → fatal (scored fl cs request).1 ≡ (
          ((crashed (cs.load request.pdf_bytes) || is_some (stage1_fault fl cs request))
            || crashed
                (cs.build (extracted fl cs request).0 (described fl cs request).0 request.job))
          || crashed (cs.calculate (extracted fl cs request).0 (checked fl cs request).0))
  fatal-scored cs request =
      let n = cs.elapsed in
      let load = cs.load request.pdf_bytes in
      let build = cs.build (extracted fl cs request).0 (described fl cs request).0 request.job in
      let calculate = cs.calculate (extracted fl cs request).0 (checked fl cs request).0 in
      let before : fatal (checked fl cs request).1
          ≡ (crashed load || is_some (stage1_fault fl cs request)) =
        ap has_unrecoverable_error
          (errors-companion_validation cs.validate _ _ (described fl cs request).1)
        ∙ fatal-stage2 (n "stage2") _ (extracted fl cs request).1
        ∙ fatal-stage1 (n "stage1") (stage1_fault fl cs request) _ _ _ (loaded fl cs request).1
        ∙ ap (λ b. b || is_some (stage1_fault fl cs request))
            (fatal-pdf_load (n "pdf_load") load no_run) in
      fatal-confidence (n "confidence") calculate (assembled fl cs request).1
      ∙ ap (λ b. b || crashed calculate)
          (fatal-stage3 (n "stage3") request.job build (checked fl cs request).1
            ∙ ap (λ b. b || crashed build) before)

  fatal-notified :
      (cs : Collaborators F) (request : Request F)
      → fatal (notified fl cs request) ≡ fatal (scored fl cs request).1
  fatal-notified cs request =
      let n = cs.elapsed in
      ap has_unrecoverable_error (
        errors-callback (n "callback") cs.callback request.callback_url _ (indexed fl cs request)
        ∙ errors-search_index (n "search_index") cs.indexer (described fl cs request).0 _
            (written fl cs request))
      ∙ fatal-metadata_write (n "metadata_write") cs.writer _ _ (scored fl cs request).1

  -- A run counts as `failed` if and only if the PDF could not be loaded, Stage 1 as a whole raised, the
  -- sidecar could not be built or the confidence could not be calculated. Otherwise it counts as `review` or `completed`,
  -- by the tier: a failure of an extractor, of the companion, of its validation, of the metadata
  -- writer, of the index or of the callback does not count.
  pub run_pipeline-status :
      (cs : Collaborators F) (request : Request F)
      → let result = run_pipeline fl cs request in
        let merged = (extracted fl cs request).0 in
        result.status
        ≡ sum_up
            (((crashed (cs.load request.pdf_bytes) || is_some (stage1_fault fl cs request))
                || crashed (cs.build merged result.companion_result request.job))
              || crashed (cs.calculate merged (checked fl cs request).0))
            result.confidence_assessment.tier
  unfolding run_pipeline record_extraction_status
  run_pipeline-status cs request =
      ap (λ b. sum_up b (scored fl cs request).0.tier)
        (fatal-notified cs request ∙ fatal-scored cs request)
