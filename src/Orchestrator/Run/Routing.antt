-- ===== src/Orchestrator/Run/Routing.antt =====
-- Which documents the pipeline hands to the metadata writer.
use dev_zu_smart_ingest.Prelude.{
  String, ℕ, zero, suc, Option, none, some, List, [], ◌∷◌, ◌++◌, Bool, true, false, ◌≡◌, refl, ap,
  ◌∙◌, arith, select, str_eq, if◌then◌else◌,
}
use dev_zu_smart_ingest.Prelude.Outcome.{Exception, Outcome, returned, raised}
use dev_zu_smart_ingest.Text.{Text}
use dev_zu_smart_ingest.Float.{FloatOps}
use dev_zu_smart_ingest.Domain.Enums.{ConfidenceTier, tier_eq}
use dev_zu_smart_ingest.Domain.Entities.{
  Job, ExtractionResult, CompanionResult, ValidationResult, ConfidenceAssessment, SidecarDocument,
}
use dev_zu_smart_ingest.Domain.Pages.{PdfData}
use dev_zu_smart_ingest.Orchestrator.Trace.{
  Call, write_metadata, index_companion, notify_completion, Run, no_run, call, log_stage,
}
use dev_zu_smart_ingest.Orchestrator.Extraction.{stage1, log_extractor, log_results, labelled}
use dev_zu_smart_ingest.Orchestrator.Stages.{
  pdf_load, stage2, companion_validation, stage3, confidence,
}
use dev_zu_smart_ingest.Orchestrator.Delivery.{
  metadata_write, search_index, callback, wrote, delivered, skipped_entry, index_refusal,
  callback_refusal,
}
use dev_zu_smart_ingest.Orchestrator.Run.{
  Collaborators, Request, loaded, extracted, described, checked, assembled, scored, written,
  indexed, run_pipeline,
}

module _ {F : Type 0} where
  abbrev pub is_write : Call F → Bool
  is_write (write_metadata document_id sidecar deployment_id node_id) = true
  is_write (index_companion document_id e c deployment_id) = false
  is_write (notify_completion url job key) = false

  -- The documents that were handed to the metadata writer.
  abbrev pub writes : Run F → List (Call F)
  writes run = select is_write run.calls

  select-append :
      (p : Call F → Bool) (xs ys : List (Call F)) → select p (xs ++ ys) ≡ select p xs ++ select p ys
  select-append p [] ys = refl
  select-append p (x ∷ xs) ys = ground (arith, select-append p xs ys)

  select-append_no :
      (p : Call F → Bool) (xs : List (Call F)) (y : Call F)
      → p y ≡ false
      → select p (xs ++ y ∷ []) ≡ select p xs
  select-append_no p [] y h = ground (arith, h)
  select-append_no p (x ∷ xs) y h = ground (arith, select-append_no p xs y h)

module _ {F : Type 0} (fl : FloatOps F) where
  calls-pdf_load :
      (n : ℕ) (o : Outcome (PdfData F)) (run : Run F) → (pdf_load fl n o run).1.calls ≡ run.calls
  unfolding pdf_load
  calls-pdf_load n (returned a) run = refl
  calls-pdf_load n (raised e) run = refl

  calls-log_extractor :
      (stage : String) (o : Outcome (ExtractionResult F)) (run : Run F)
      → (log_extractor fl stage o run).calls ≡ run.calls
  calls-log_extractor stage (returned a) run = refl
  calls-log_extractor stage (raised e) run = refl

  calls-log_results :
      (handled : ℕ) (results : List (String × Outcome (ExtractionResult F))) (run : Run F)
      → (log_results fl handled results run).calls ≡ run.calls
  unfolding log_results
  calls-log_results zero results run = refl
  calls-log_results (suc handled) [] run = refl
  calls-log_results (suc handled) ((stage, o) ∷ results) run =
      calls-log_results handled results (log_extractor fl stage o run)
      ∙ calls-log_extractor stage o run

  calls-stage1 :
      (n : ℕ) (fault : Option (ℕ × Exception)) (a b c : Outcome (ExtractionResult F)) (run : Run F)
      → (stage1 fl n fault a b c run).1.calls ≡ run.calls
  unfolding stage1
  calls-stage1 n none a b c run = calls-log_results 3 (labelled fl a b c) run
  calls-stage1 n (some (handled, e)) a b c run = calls-log_results handled (labelled fl a b c) run

  calls-stage2 :
      (n : ℕ) (o : Outcome (CompanionResult F)) (run : Run F)
      → (stage2 fl n o run).1.calls ≡ run.calls
  unfolding stage2
  calls-stage2 n (returned a) run = refl
  calls-stage2 n (raised e) run = refl

  calls-companion_validation :
      (v : Option (Text → ExtractionResult F → Outcome (ValidationResult F)))
      (c : Option (CompanionResult F)) (e : ExtractionResult F) (run : Run F)
      → (companion_validation fl v c e run).1.calls ≡ run.calls
  unfolding companion_validation
  calls-companion_validation v c e run = ground arith

  calls-stage3 :
      (n : ℕ) (job : Job F) (o : Outcome (SidecarDocument F)) (run : Run F)
      → (stage3 fl n job o run).1.calls ≡ run.calls
  unfolding stage3
  calls-stage3 n job (returned a) run = refl
  calls-stage3 n job (raised e) run = refl

  calls-confidence :
      (n : ℕ) (o : Outcome (ConfidenceAssessment F)) (run : Run F)
      → (confidence fl n o run).1.calls ≡ run.calls
  unfolding confidence
  calls-confidence n (returned a) run = refl
  calls-confidence n (raised e) run = refl

  calls-scored : (cs : Collaborators F) (request : Request F) → (scored fl cs request).1.calls ≡ []
  calls-scored cs request =
      let n = cs.elapsed in
      calls-confidence (n "confidence") _ (assembled fl cs request).1
      ∙ calls-stage3 (n "stage3") request.job _ (checked fl cs request).1
      ∙ calls-companion_validation cs.validate _ _ (described fl cs request).1
      ∙ calls-stage2 (n "stage2") _ (extracted fl cs request).1
      ∙ calls-stage1 (n "stage1") _ _ _ _ (loaded fl cs request).1
      ∙ calls-pdf_load (n "pdf_load") _ no_run

  writes-metadata_write :
      (n : ℕ) (writer : Call F → Outcome Bool) (tier : ConfidenceTier) (document : Call F)
      (run : Run F)
      → is_write document ≡ true
      → writes (metadata_write n writer tier document run)
        ≡ (if tier_eq tier ConfidenceTier.review then writes run else writes run ++ document ∷ [])
  unfolding metadata_write wrote
  writes-metadata_write n writer tier document run h =
      ground (arith, h, select-append is_write run.calls (document ∷ []))

  writes-call : (c : Call F) (run : Run F) → is_write c ≡ false → writes (call c run) ≡ writes run
  writes-call c run h = select-append_no is_write run.calls c h

  writes-delivered :
      (stage : String) (refusal : Text) (n : ℕ) (o : Outcome Bool) (c : Call F) (run : Run F)
      → is_write c ≡ false
      → writes (delivered stage refusal n o (call c run)) ≡ writes run
  unfolding delivered
  writes-delivered stage refusal n (returned true) c run h = writes-call c run h
  writes-delivered stage refusal n (returned false) c run h = writes-call c run h
  writes-delivered stage refusal n (raised e) c run h = writes-call c run h

  writes-search_index :
      (n : ℕ) (indexer : Option (Call F → Outcome Bool)) (companion : Option (CompanionResult F))
      (document : CompanionResult F → Call F) (run : Run F)
      → ((c : CompanionResult F) → is_write (document c) ≡ false)
      → writes (search_index n indexer companion document run) ≡ writes run
  unfolding search_index
  writes-search_index n none companion document run h = refl
  writes-search_index n (some indexer) none document run h = refl
  writes-search_index n (some indexer) (some c) document run h =
      let done =
        writes-delivered "search_index" index_refusal n (indexer (document c)) (document c) run
          (h c) in
      elim c.companion_generated
        as (λ b.
          writes (
            if b
            then delivered "search_index" index_refusal n (indexer (document c))
                (call (document c) run)
            else log_stage "search_index" (skipped_entry "no_search_indexer_or_no_companion_text")
                run)
          ≡ writes run) [ true ↦ done | false ↦ refl ]

  writes-callback :
      (n : ℕ) (client : Option (Call F → Outcome Bool)) (url : Option String)
      (message : String → Call F) (run : Run F)
      → ((u : String) → is_write (message u) ≡ false)
      → writes (callback n client url message run) ≡ writes run
  unfolding callback
  writes-callback n none url message run h = refl
  writes-callback n (some client) none message run h = refl
  writes-callback n (some client) (some u) message run h =
      let done =
        writes-delivered "callback" callback_refusal n (client (message u)) (message u) run (h u) in
      elim (str_eq u "")
        as (λ b.
          writes (
            if b
            then log_stage "callback" (skipped_entry "no_callback_url") run
            else delivered "callback" callback_refusal n (client (message u))
                (call (message u) run))
          ≡ writes run) [ true ↦ refl | false ↦ done ]

  -- A document of the REVIEW tier is not handed to the metadata writer. A document of another tier
  -- is handed to it exactly once, under the hash of its file and with the sidecar that the pipeline
  -- returns.
  pub run_pipeline-writes :
      (cs : Collaborators F) (request : Request F)
      → let result = run_pipeline fl cs request in
        writes result.run ≡ (
          if tier_eq result.confidence_assessment.tier ConfidenceTier.review
          then []
          else write_metadata request.job.file_hash result.sidecar request.deployment_id
              request.node_id
            ∷ [])
  unfolding run_pipeline
  run_pipeline-writes cs request =
      let (assessment, run) = scored fl cs request in
      let document =
        write_metadata request.job.file_hash (assembled fl cs request).0 request.deployment_id
          request.node_id in
      writes-callback (cs.elapsed "callback") cs.callback request.callback_url _
        (indexed fl cs request) (λ u. refl)
      ∙ writes-search_index (cs.elapsed "search_index") cs.indexer (described fl cs request).0 _
          (written fl cs request) (λ c. refl)
      ∙ writes-metadata_write (cs.elapsed "metadata_write") cs.writer assessment.tier document run
          refl
      ∙ ap
          (λ calls.
            if tier_eq assessment.tier ConfidenceTier.review
            then select is_write calls
            else select is_write calls ++ document ∷ [])
          (calls-scored cs request)
