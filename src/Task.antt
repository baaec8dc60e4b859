-- ===== src/Task.antt =====
-- services/celery_app.py: the task that runs the pipeline for one job and stores what it finds, and
-- its retries.
pub mod Settling
use dev_zu_smart_ingest.Prelude.{
  String, ℕ, zero, suc, Option, none, some, List, [], ◌∷◌, ◌++◌, Bool, true, false, if◌then◌else◌,
}
use dev_zu_smart_ingest.Prelude.Outcome.{Exception, Outcome, returned, raised, ◌>>=◌, ◌>>◌}
use dev_zu_smart_ingest.Text.{Text, codes, describe}
use dev_zu_smart_ingest.Text.Number.{uuid_text}
use dev_zu_smart_ingest.Float.{FloatOps}
use dev_zu_smart_ingest.Domain.Enums.{
  JobStatus, job_status_value, ConfidenceTier, confidence_tier_value, tier_eq, DocumentType,
  document_type_value,
}
use dev_zu_smart_ingest.Domain.Json.{
  Json, null, str, float, arr, obj, Items, nil, cons, Fields, end, field,
}
use dev_zu_smart_ingest.Domain.Entities.{Uuid, Instant, Batch, Job, Attribute, text, number}
use dev_zu_smart_ingest.Repository.Queries.{
  Database, Engine, get_job, get_batch, update_job_status, update_job_result,
}
use dev_zu_smart_ingest.Orchestrator.Trace.{Run}
use dev_zu_smart_ingest.Orchestrator.Run.{Collaborators, Request, PipelineResult, run_pipeline}

-- What the environment of one attempt decides: the file of the job, the orchestrator that is built,
-- the clock, and for each statement that the attempt sends to the database the exception that it
-- raises, if it raises one. A statement that raises changes nothing; `refresh_fault` is for the
-- reading back of the result, which `update_job_result` does once it is committed.
pub record Attempt (F : Type 0) : Type 0 where
  pub read_bytes : Job F → Outcome (List ℕ)
  pub build_orchestrator : Outcome (Collaborators F)
  pub api_key : String
  pub processing_time_ms : ℕ
  pub otel_trace_id : Option String
  pub started_at : Instant
  pub finished_at : Instant
  pub read_fault : Option Exception
  pub processing_fault : Option Exception
  pub result_fault : Option Exception
  pub refresh_fault : Option Exception
  pub review_fault : Option Exception
  pub cleanup_fault : Option Exception

pub record TaskResult (F : Type 0) : Type 0 where
  pub job_id : Uuid
  pub status : JobStatus
  pub confidence_score : F
  pub confidence_tier : ConfidenceTier

abbrev pub not_found : Uuid → Exception
not_found id = record {
  type_name = "LookupError";
  message = codes "job " ++ (uuid_text id ++ codes " not found in repository");
}

abbrev pub statement : Option Exception → Outcome (Unit {0})
statement none = returned tt
statement (some e) = raised e

abbrev pub status_of_tier : ConfidenceTier → JobStatus
status_of_tier tier =
    if tier_eq tier ConfidenceTier.review then JobStatus.review else JobStatus.completed

module _ {F : Type 0} where
  abbrev optional_text : Option Text → Json F
  optional_text none = null
  optional_text (some s) = str s

  abbrev document_type_json : Option DocumentType → Json F
  document_type_json none = null
  document_type_json (some t) = str (codes (document_type_value t))

  abbrev attribute_json : List (String × Attribute F) → Fields F
  attribute_json [] = end
  attribute_json ((key, text s) ∷ rest) = field key (str s) (attribute_json rest)
  attribute_json ((key, number x) ∷ rest) = field key (float x) (attribute_json rest)

  abbrev stages_json : List (String × Fields F) → Fields F
  stages_json [] = end
  stages_json ((stage, entry) ∷ rest) = field stage (obj entry) (stages_json rest)

  abbrev errors_json : List (String × Text) → Items F
  errors_json [] = nil
  errors_json ((stage, message) ∷ rest) =
      cons (obj (field "stage" (str (codes stage)) (field "error" (str message) end)))
        (errors_json rest)

  abbrev pub trace_json : Run F → Fields F
  trace_json run =
      field "stages" (obj (stages_json run.stages))
        (field "errors" (arr (errors_json run.trace_errors)) end)

  unfoldable pub result_payload : PipelineResult F → Fields F
  result_payload result =
      let assessment = result.confidence_assessment in
      field "drawing_number" (optional_text result.extraction_result.drawing_number) (
        field "title" (optional_text result.extraction_result.title) (
          field "document_type" (document_type_json result.extraction_result.document_type) (
            field "confidence_score" (float assessment.overall_confidence) (
              field "confidence_tier" (str (codes (confidence_tier_value assessment.tier))) (
                field "sidecar" (obj (attribute_json result.sidecar.metadata_attributes))
                  (field "pipeline_trace" (obj (trace_json result.run)) end))))))

  abbrev pub required_job : Uuid → Option (Job F) → Outcome (Job F)
  required_job id none = raised (not_found id)
  required_job id (some job) = returned job

  -- The batch gives the request its ids and its callback; one that cannot be read is tolerated.
  abbrev pub request_of : String → Job F → List ℕ → Outcome (Option Batch) → Request F
  request_of api_key job pdf_bytes (returned (some batch)) = record {
    job = job;
    pdf_bytes = pdf_bytes;
    deployment_id = batch.deployment_id;
    node_id = batch.node_id;
    callback_url = batch.callback_url;
    api_key = api_key;
  }
  request_of api_key job pdf_bytes _ = record {
    job = job;
    pdf_bytes = pdf_bytes;
    deployment_id = none;
    node_id = none;
    callback_url = none;
    api_key = api_key;
  }

module _ {F : Type 0} (fl : FloatOps F) (engine : Engine F) where
  -- What is read before the first write.
  unfoldable pub prepare :
      Attempt F → Uuid → Database F → Outcome (Job F × Request F × Collaborators F)
  unfolding get_job get_batch
  prepare a id db = do
    statement a.read_fault
    found ← get_job id db
    job ← required_job id found
    pdf_bytes ← a.read_bytes job
    cs ← a.build_orchestrator
    returned (job, request_of a.api_key job pdf_bytes (get_batch job.batch_id db), cs)

  -- A statement that changes the database, and what follows it.
  abbrev pub unless_raised :
      {A : Type 0}
      → Option Exception
      → (Database F → Outcome A × Database F)
      → Database F
      → Outcome A × Database F
  unless_raised (some e) next db = (raised e, db)
  unless_raised none next db = next db

  abbrev pub after :
      {A B : Type 0}
      → Outcome A × Database F
      → (Database F → Outcome B × Database F)
      → Outcome B × Database F
  after (raised e, db) next = (raised e, db)
  after (returned x, db) next = next db

  -- The row is read back after the commit: what is stored stays stored if that raises.
  abbrev pub refreshed :
      {A : Type 0} → Option Exception → Outcome A × Database F → Outcome A × Database F
  refreshed none committed = committed
  refreshed (some e) committed = (raised e, committed.1)

  abbrev pub task_result : Uuid → F → ConfidenceTier → TaskResult F
  task_result id score tier = record {
    job_id = id;
    status = status_of_tier tier;
    confidence_score = score;
    confidence_tier = tier;
  }

  -- The last write, for the REVIEW tier only.
  unfoldable pub mark_review :
      (fault : Option Exception)
      → (now : Instant) → Uuid
      → F
      → ConfidenceTier
      → Database F
      → Outcome (TaskResult F) × Database F
  unfolding update_job_status
  mark_review fault now id score tier db =
      let result = returned (task_result id score tier) in
      if tier_eq tier ConfidenceTier.review
      then unless_raised fault
          (λ d. (result, update_job_status id JobStatus.review none none now d)) db
      else (result, db)

  unfoldable pub store_result :
      Attempt F → Job F → PipelineResult F → Database F → Outcome (TaskResult F) × Database F
  unfolding update_job_result result_payload mark_review
  store_result a job result db =
      let score = result.confidence_assessment.overall_confidence in
      let tier = result.confidence_assessment.tier in
      unless_raised a.result_fault
        (λ d.
          after
            (refreshed a.refresh_fault (
              update_job_result engine job.job_id (result_payload result) tier score
                a.processing_time_ms a.otel_trace_id (some (trace_json result.run)) a.finished_at
                d))
            (mark_review a.review_fault a.finished_at job.job_id score tier))
        db

  unfoldable pub process :
      Attempt F
      → Job F
      → Request F
      → Collaborators F
      → Database F
      → Outcome (TaskResult F) × Database F
  unfolding update_job_status run_pipeline store_result
  process a job request cs db =
      unless_raised a.processing_fault
        (λ d.
          store_result a job (run_pipeline fl cs request)
            (update_job_status job.job_id JobStatus.processing none none a.started_at d))
        db

  -- `_run_extract_document_task`
  unfoldable pub run_extract_document_task :
      Attempt F → Uuid → Database F → Outcome (TaskResult F) × Database F
  unfolding prepare process
  run_extract_document_task a id db = elim (prepare a id db) [
    | raised e ↦ (raised e, db)
    | returned prepared ↦ process a prepared.0 prepared.1 prepared.2 db
  ]

  -- `_mark_job_failed`; an exception of its own is swallowed.
  unfoldable pub mark_job_failed :
      (fault : Option Exception) → Instant → Uuid → Exception → Database F → Database F
  unfolding update_job_status
  mark_job_failed (some e) now id exc db = db
  mark_job_failed none now id exc db =
      update_job_status id JobStatus.failed none (some (describe exc)) now db

  -- One run of `extract_document_task`: the cleanup is for the attempt that is the last.
  abbrev pub cleaned :
      (is_last : Bool)
      → Attempt F
      → Uuid
      → Outcome (TaskResult F) × Database F
      → Outcome (TaskResult F) × Database F
  cleaned is_last a id (returned t, db) = (returned t, db)
  cleaned true a id (raised e, db) =
      (raised e, mark_job_failed a.cleanup_fault a.finished_at id e db)
  cleaned false a id (raised e, db) = (raised e, db)

  abbrev pub retried :
      Outcome (TaskResult F) × Database F
      → (Database F → Outcome (TaskResult F) × Database F)
      → Outcome (TaskResult F) × Database F
  retried (returned t, db) retry = (returned t, db)
  retried (raised e, db) retry = retry db

  -- `extract_document_task` with `retries_left` retries to go, as `autoretry_for=(Exception,)` runs
  -- it: an attempt that raises is followed by the next. `attempts` counts from the end.
  unfoldable pub extract_document_task :
      (attempts : ℕ → Attempt F)
      → (retries_left : ℕ) → Uuid
      → Database F
      → Outcome (TaskResult F) × Database F
  unfolding run_extract_document_task mark_job_failed
  extract_document_task attempts zero id db =
      cleaned true (attempts zero) id (run_extract_document_task (attempts zero) id db)
  extract_document_task attempts (suc left) id db =
      let a = attempts (suc left) in
      retried (cleaned false a id (run_extract_document_task a id db))
        (extract_document_task attempts left id)
