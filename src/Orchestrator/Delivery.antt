-- ===== src/Orchestrator/Delivery.antt =====
-- services/orchestrator.py: the stages that hand a finished document on: the metadata writer, the
-- search index and the callback.
use dev_zu_smart_ingest.Prelude.{
  String, ℕ, Option, none, some, Bool, true, false, str_eq, if◌then◌else◌,
}
use dev_zu_smart_ingest.Prelude.Outcome.{Exception, Outcome, returned, raised}
use dev_zu_smart_ingest.Text.{Text, codes, describe}
use dev_zu_smart_ingest.Domain.Enums.{ConfidenceTier, tier_eq}
use dev_zu_smart_ingest.Domain.Json.{bool, str, Fields, end, field}
use dev_zu_smart_ingest.Domain.Entities.{CompanionResult, PipelineError}
use dev_zu_smart_ingest.Orchestrator.Trace.{
  Call, Run, log_stage, log_error, of_exception, report, call, duration_ms,
}

abbrev pub write_failed : PipelineError
write_failed = record {
  stage = "metadata_write";
  error_type = "MetadataWriteFailed";
  message = codes "metadata_writer.write_metadata returned False";
  recoverable = true;
}

abbrev pub index_refusal : Text
index_refusal = codes "search_indexer.index_companion returned False"

abbrev pub callback_refusal : Text
callback_refusal = codes "callback_client.notify_completion returned False"

module _ {F : Type 0} where
  abbrev pub skipped_entry : String → Fields F
  skipped_entry reason = duration_ms 0 (
      field "ok" (bool true)
        (field "skipped" (bool true) (field "reason" (str (codes reason)) end)))

  abbrev pub tried_entry : ℕ → Bool → Fields F → Fields F
  tried_entry elapsed ok rest =
      duration_ms elapsed (field "ok" (bool ok) (field "skipped" (bool false) rest))

  abbrev pub raised_entry : ℕ → Exception → Fields F
  raised_entry elapsed e = tried_entry elapsed false (field "error" (str (describe e)) end)

  unfoldable pub wrote : ℕ → Outcome Bool → Run F → Run F
  wrote elapsed (returned true) run = log_stage "metadata_write" (tried_entry elapsed true end) run
  wrote elapsed (returned false) run = report write_failed (
      log_error "metadata_write" (codes "metadata_writer.write_metadata returned False")
        (log_stage "metadata_write" (tried_entry elapsed false end) run))
  wrote elapsed (raised e) run = report (of_exception "metadata_write" e true) (
      log_error "metadata_write" (describe e)
        (log_stage "metadata_write" (raised_entry elapsed e) run))

  -- REVIEW is not written; the other tiers are.
  unfoldable pub metadata_write :
      ℕ → (Call F → Outcome Bool) → ConfidenceTier → (document : Call F) → Run F → Run F
  unfolding wrote
  metadata_write elapsed writer tier document run =
      if tier_eq tier ConfidenceTier.review
      then log_stage "metadata_write" (skipped_entry "review_tier_routes_to_review_queue") run
      else wrote elapsed (writer document) (call document run)

  -- What the index and the callback share: a failure is traced, and is no `PipelineError`.
  unfoldable pub delivered : String → Text → ℕ → Outcome Bool → Run F → Run F
  delivered stage refusal elapsed (returned true) run =
      log_stage stage (tried_entry elapsed true end) run
  delivered stage refusal elapsed (returned false) run =
      log_error stage refusal (log_stage stage (tried_entry elapsed false end) run)
  delivered stage refusal elapsed (raised e) run =
      log_error stage (describe e) (log_stage stage (raised_entry elapsed e) run)

  unfoldable pub search_index :
      ℕ
      → Option (Call F → Outcome Bool)
      → Option (CompanionResult F)
      → (document : CompanionResult F → Call F) → Run F
      → Run F
  unfolding delivered
  search_index elapsed none companion document run =
      log_stage "search_index" (skipped_entry "no_search_indexer_or_no_companion_text") run
  search_index elapsed (some indexer) none document run =
      log_stage "search_index" (skipped_entry "no_search_indexer_or_no_companion_text") run
  search_index elapsed (some indexer) (some c) document run =
      if c.companion_generated
      then delivered "search_index" index_refusal elapsed (indexer (document c))
          (call (document c) run)
      else log_stage "search_index" (skipped_entry "no_search_indexer_or_no_companion_text") run

  unfoldable pub callback :
      ℕ
      → Option (Call F → Outcome Bool)
      → Option String
      → (message : String → Call F) → Run F
      → Run F
  unfolding delivered
  callback elapsed none url message run =
      log_stage "callback" (skipped_entry "no_callback_client") run
  callback elapsed (some client) none message run =
      log_stage "callback" (skipped_entry "no_callback_url") run
  callback elapsed (some client) (some url) message run =
      if str_eq url ""
      then log_stage "callback" (skipped_entry "no_callback_url") run
      else delivered "callback" callback_refusal elapsed (client (message url))
          (call (message url) run)
