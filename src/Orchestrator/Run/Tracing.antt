-- ===== src/Orchestrator/Run/Tracing.antt =====
-- Every error that a run reports stands in its trace.
use dev_zu_smart_ingest.Prelude.{
  String, ℕ, zero, suc, Option, none, some, List, [], ◌∷◌, ◌++◌, Bool, true, false, ◌||◌, ◌≡◌,
  arith, any, str_eq, eq_refl, All, if◌then◌else◌,
}
use dev_zu_smart_ingest.Prelude.Outcome.{Exception, Outcome, returned, raised}
use dev_zu_smart_ingest.Text.{Text, describe, is_empty}
use dev_zu_smart_ingest.Float.{FloatOps}
use dev_zu_smart_ingest.Domain.Enums.{ConfidenceTier}
use dev_zu_smart_ingest.Domain.Entities.{
  Job, ExtractionResult, CompanionResult, ValidationResult, ConfidenceAssessment, SidecarDocument,
  PipelineError,
}
use dev_zu_smart_ingest.Domain.Pages.{PdfData}
use dev_zu_smart_ingest.Orchestrator.Trace.{
  Call, Run, no_run, log_error, report, of_exception, call, log_stage, failed_entry,
}
use dev_zu_smart_ingest.Orchestrator.Extraction.{stage1, log_extractor, log_results, labelled}
use dev_zu_smart_ingest.Orchestrator.Stages.{
  pdf_load, stage2, companion_validation, validated, stage3, confidence,
}
use dev_zu_smart_ingest.Orchestrator.Delivery.{
  metadata_write, search_index, callback, wrote, delivered, write_failed, skipped_entry,
  index_refusal, callback_refusal,
}
use dev_zu_smart_ingest.Orchestrator.Run.{
  Collaborators, Request, loaded, extracted, described, checked, assembled, scored, written,
  indexed, run_pipeline,
}

-- The trace has an error of the stage.
abbrev pub is_traced : List (String × Text) → PipelineError → Bool
is_traced trace_errors error = any (λ (stage, message). str_eq error.stage stage) trace_errors

is_traced-append :
    (trace_errors : List (String × Text)) (entry : String × Text) (error : PipelineError)
    → is_traced (trace_errors ++ entry ∷ []) error
      ≡ (is_traced trace_errors error || str_eq error.stage entry.0)
is_traced-append [] entry error = ground arith
is_traced-append (t ∷ ts) entry error = ground (arith, is_traced-append ts entry error)

-- Every error of a list stands in the trace.
abbrev pub AllTraced : List (String × Text) → List PipelineError → Type 0
AllTraced trace_errors errors = All (λ error. is_traced trace_errors error ≡ true) errors

AllTraced-append :
    (trace_errors : List (String × Text)) (entry : String × Text) (errors : List PipelineError)
    → AllTraced trace_errors errors
    → AllTraced (trace_errors ++ entry ∷ []) errors
AllTraced-append ts entry [] h = tt
AllTraced-append ts entry (e ∷ es) (h, hs) =
    (ground (arith, is_traced-append ts entry e, h), AllTraced-append ts entry es hs)

AllTraced-report :
    (trace_errors : List (String × Text)) (errors : List PipelineError) (error : PipelineError)
    → AllTraced trace_errors errors
    → is_traced trace_errors error ≡ true
    → AllTraced trace_errors (errors ++ error ∷ [])
AllTraced-report ts [] error h k = (k, tt)
AllTraced-report ts (e ∷ es) error (h, hs) k = (h, AllTraced-report ts es error hs k)

module _ {F : Type 0} where
  abbrev pub Traced : Run F → Type 0
  Traced run = AllTraced run.trace_errors run.errors

  Traced-log_error :
      (stage : String) (message : Text) (run : Run F)
      → Traced run
      → Traced (log_error stage message run)
  Traced-log_error stage message run h =
      AllTraced-append run.trace_errors (stage, message) run.errors h

  Traced-report :
      (error : PipelineError) (message : Text) (run : Run F)
      → Traced run
      → Traced (report error (log_error error.stage message run))
  Traced-report error message run h =
      AllTraced-report (run.trace_errors ++ (error.stage, message) ∷ []) run.errors error
        (Traced-log_error error.stage message run h)
        (ground (
          arith,
          is_traced-append run.trace_errors (error.stage, message) error,
          eq_refl error.stage,
        ))

  Traced-exception :
      (stage : String) (e : Exception) (recoverable : Bool) (run : Run F)
      → Traced run
      → Traced (report (of_exception stage e recoverable) (log_error stage (describe e) run))
  Traced-exception stage e recoverable run h =
      Traced-report (of_exception stage e recoverable) (describe e) run h

  Traced-wrote : (n : ℕ) (o : Outcome Bool) (run : Run F) → Traced run → Traced (wrote n o run)
  unfolding wrote
  Traced-wrote n (returned true) run h = h
  Traced-wrote n (returned false) run h = Traced-report write_failed _ run h
  Traced-wrote n (raised e) run h = Traced-exception "metadata_write" e true run h

  Traced-metadata_write :
      (n : ℕ) (writer : Call F → Outcome Bool) (tier : ConfidenceTier) (document : Call F)
      (run : Run F)
      → Traced run
      → Traced (metadata_write n writer tier document run)
  unfolding metadata_write
  Traced-metadata_write n writer ConfidenceTier.auto document run h =
      Traced-wrote n (writer document) (call document run) h
  Traced-metadata_write n writer ConfidenceTier.spot document run h =
      Traced-wrote n (writer document) (call document run) h
  Traced-metadata_write n writer ConfidenceTier.review document run h = h

  Traced-delivered :
      (stage : String) (refusal : Text) (n : ℕ) (o : Outcome Bool) (run : Run F)
      → Traced run
      → Traced (delivered stage refusal n o run)
  unfolding delivered
  Traced-delivered stage refusal n (returned true) run h = h
  Traced-delivered stage refusal n (returned false) run h = Traced-log_error stage refusal run h
  Traced-delivered stage refusal n (raised e) run h = Traced-log_error stage (describe e) run h

  Traced-search_index :
      (n : ℕ) (indexer : Option (Call F → Outcome Bool)) (companion : Option (CompanionResult F))
      (document : CompanionResult F → Call F) (run : Run F)
      → Traced run
      → Traced (search_index n indexer companion document run)
  unfolding search_index
  Traced-search_index n none companion document run h = h
  Traced-search_index n (some indexer) none document run h = h
  Traced-search_index n (some indexer) (some c) document run h =
      let tried =
        Traced-delivered "search_index" index_refusal n (indexer (document c))
          (call (document c) run) h in
      elim c.companion_generated
        as (λ b. Traced (
          if b
          then delivered "search_index" index_refusal n (indexer (document c))
              (call (document c) run)
          else log_stage "search_index" (skipped_entry "no_search_indexer_or_no_companion_text")
              run)) [ true ↦ tried | false ↦ h ]

  Traced-callback :
      (n : ℕ) (client : Option (Call F → Outcome Bool)) (url : Option String)
      (message : String → Call F) (run : Run F)
      → Traced run
      → Traced (callback n client url message run)
  unfolding callback
  Traced-callback n none url message run h = h
  Traced-callback n (some client) none message run h = h
  Traced-callback n (some client) (some u) message run h =
      let tried =
        Traced-delivered "callback" callback_refusal n (client (message u)) (call (message u) run)
          h in
      elim (str_eq u "")
        as (λ b. Traced (
          if b
          then log_stage "callback" (skipped_entry "no_callback_url") run
          else delivered "callback" callback_refusal n (client (message u))
              (call (message u) run))) [ true ↦ h | false ↦ tried ]

module _ {F : Type 0} (fl : FloatOps F) where
  Traced-pdf_load :
      (n : ℕ) (o : Outcome (PdfData F)) (run : Run F) → Traced run → Traced (pdf_load fl n o run).1
  unfolding pdf_load
  Traced-pdf_load n (returned a) run h = h
  Traced-pdf_load n (raised e) run h = Traced-exception "pdf_load" e false run h

  Traced-log_extractor :
      (stage : String) (o : Outcome (ExtractionResult F)) (run : Run F)
      → Traced run
      → Traced (log_extractor fl stage o run)
  Traced-log_extractor stage (returned a) run h = h
  Traced-log_extractor stage (raised e) run h = Traced-exception stage e true run h

  Traced-log_results :
      (handled : ℕ) (results : List (String × Outcome (ExtractionResult F))) (run : Run F)
      → Traced run
      → Traced (log_results fl handled results run)
  unfolding log_results
  Traced-log_results zero results run h = h
  Traced-log_results (suc handled) [] run h = h
  Traced-log_results (suc handled) ((stage, o) ∷ results) run h =
      Traced-log_results handled results (log_extractor fl stage o run)
        (Traced-log_extractor stage o run h)

  Traced-stage1 :
      (n : ℕ) (fault : Option (ℕ × Exception)) (a b c : Outcome (ExtractionResult F)) (run : Run F)
      → Traced run
      → Traced (stage1 fl n fault a b c run).1
  unfolding stage1
  Traced-stage1 n none a b c run h = Traced-log_results 3 (labelled fl a b c) run h
  Traced-stage1 n (some (handled, e)) a b c run h =
      let logged = log_results fl handled (labelled fl a b c) run in
      Traced-exception "stage1" e false (log_stage "stage1" (failed_entry n e) logged)
        (Traced-log_results handled (labelled fl a b c) run h)

  Traced-stage2 :
      (n : ℕ) (o : Outcome (CompanionResult F)) (run : Run F)
      → Traced run
      → Traced (stage2 fl n o run).1
  unfolding stage2
  Traced-stage2 n (returned a) run h = h
  Traced-stage2 n (raised e) run h = Traced-exception "stage2" e true run h

  Traced-validated :
      (o : Outcome (ValidationResult F)) (run : Run F) → Traced run → Traced (validated fl o run).1
  Traced-validated (returned a) run h = h
  Traced-validated (raised e) run h = Traced-log_error "companion_validation" (describe e) run h

  Traced-companion_validation :
      (v : Option (Text → ExtractionResult F → Outcome (ValidationResult F)))
      (c : Option (CompanionResult F)) (e : ExtractionResult F) (run : Run F)
      → Traced run
      → Traced (companion_validation fl v c e run).1
  unfolding companion_validation
  Traced-companion_validation none c e run h = h
  Traced-companion_validation (some v) none e run h = h
  Traced-companion_validation (some v) (some c) e run h =
      elim (is_empty c.companion_text)
        as (λ b. Traced (if b then (none, run) else validated fl (v c.companion_text e) run).1) [
          | true ↦ h
          | false ↦ Traced-validated (v c.companion_text e) run h
        ]

  Traced-stage3 :
      (n : ℕ) (job : Job F) (o : Outcome (SidecarDocument F)) (run : Run F)
      → Traced run
      → Traced (stage3 fl n job o run).1
  unfolding stage3
  Traced-stage3 n job (returned a) run h = h
  Traced-stage3 n job (raised e) run h = Traced-exception "stage3" e false run h

  Traced-confidence :
      (n : ℕ) (o : Outcome (ConfidenceAssessment F)) (run : Run F)
      → Traced run
      → Traced (confidence fl n o run).1
  unfolding confidence
  Traced-confidence n (returned a) run h = h
  Traced-confidence n (raised e) run h = Traced-exception "confidence" e false run h

  -- Every error that a run of the pipeline reports has an entry of its stage among the errors of the
  -- trace, whichever stages fail, Stage 1 as a whole among them.
  pub run_pipeline-Traced :
      (cs : Collaborators F) (request : Request F) → Traced (run_pipeline fl cs request).run
  unfolding run_pipeline
  run_pipeline-Traced cs request =
      let n = cs.elapsed in
      Traced-callback (n "callback") cs.callback request.callback_url _ (indexed fl cs request) (
        Traced-search_index (n "search_index") cs.indexer _ _ (written fl cs request) (
          Traced-metadata_write (n "metadata_write") cs.writer _ _ (scored fl cs request).1 (
            Traced-confidence (n "confidence") _ (assembled fl cs request).1 (
              Traced-stage3 (n "stage3") request.job _ (checked fl cs request).1 (
                Traced-companion_validation cs.validate _ _ (described fl cs request).1 (
                  Traced-stage2 (n "stage2") _ (extracted fl cs request).1 (
                    Traced-stage1 (n "stage1") _ _ _ _ (loaded fl cs request).1
                      (Traced-pdf_load (n "pdf_load") _ no_run tt))))))))
