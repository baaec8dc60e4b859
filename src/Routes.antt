-- ===== src/Routes.antt =====
-- api/routes/jobs.py and batches.py: the answers to GET /jobs/{job_id} and GET /batches/{batch_id}.
-- `isoformat` is that of a datetime, `repr` Python's; `parsed` is the id that the path names.
pub mod Answers
pub mod Health
pub mod Extract
use dev_zu_smart_ingest.Prelude.{
  String, ℕ, Option, none, some, List, [], ◌∷◌, ◌++◌, str_eq, if◌then◌else◌,
}
use dev_zu_smart_ingest.Prelude.Int.{ℤ, pos}
use dev_zu_smart_ingest.Prelude.Outcome.{Exception, Outcome, returned, raised}
use dev_zu_smart_ingest.Text.{Text, codes, is_empty}
use dev_zu_smart_ingest.Text.Number.{uuid_text}
use dev_zu_smart_ingest.Domain.Enums.{job_status_value}
use dev_zu_smart_ingest.Domain.Json.{
  Json, null, int, str, arr, obj, Items, nil, cons, Fields, end, field, nullable, native, natural,
}
use dev_zu_smart_ingest.Domain.Entities.{Uuid, Instant, JobSummary, BatchWithJobs, BatchProgress}
use dev_zu_smart_ingest.Repository.Queries.{Database, Engine}
use dev_zu_smart_ingest.JobService.Reading.{JobDetail, get_batch, get_job}

-- What a route answers: a JSON body under the success status that the route declares, an HTTP error,
-- or an exception that the framework turns into 500.
pub data Answer (F : Type 0) : Type 0 where
  content : Fields F → Answer F
  http_error : (status_code : ℕ) (detail : Text) → Answer F
  server_error : Exception → Answer F

module _ {F : Type 0} where
  unfoldable pub serialize_progress : BatchProgress → Fields F
  serialize_progress progress = field "completed" (natural progress.completed) (
      field "queued" (natural progress.queued) (
        field "failed" (natural progress.failed) (
          field "in_progress" (natural progress.in_progress)
            (field "total" (natural progress.total) end))))

  unfoldable pub serialize_summary : JobSummary F → Fields F
  serialize_summary j = field "job_id" (str (uuid_text j.job_id)) (
      field "filename" (str j.filename) (
        field "status" (native (job_status_value j.status))
          (field "file_hash" (native j.file_hash) (field "result" (nullable obj j.result) end))))

  unfoldable pub serialize_summaries : List (JobSummary F) → Items F
  unfolding serialize_summary
  serialize_summaries [] = nil
  serialize_summaries (j ∷ jobs) = cons (obj (serialize_summary j)) (serialize_summaries jobs)

module _ {F : Type 0} (isoformat : Instant → Text) where
  -- `_serialize_job`
  unfoldable pub serialize_job : JobDetail F → Fields F
  serialize_job job = field "job_id" (str (uuid_text job.job_id)) (
      field "batch_id" (str (uuid_text job.batch_id)) (
        field "filename" (str job.filename) (
          field "file_hash" (native job.file_hash) (
            field "status" (native (job_status_value job.status)) (
              field "result" (nullable obj job.result) (
                field "error_message" (nullable str job.error_message) (
                  field "pipeline_trace" (nullable obj job.pipeline_trace) (
                    field "otel_trace_id" (nullable native job.otel_trace_id) (
                      field "processing_time_ms" (nullable natural job.processing_time_ms) (
                        field "created_at" (str (isoformat job.created_at))
                          (field "updated_at" (str (isoformat job.updated_at)) end)))))))))))

  -- `_serialize_batch`
  unfoldable pub serialize_batch : BatchWithJobs F → Fields F
  unfolding serialize_progress serialize_summaries
  serialize_batch batch = field "batch_id" (str (uuid_text batch.batch_id)) (
      field "status" (native (job_status_value batch.status)) (
        field "progress" (obj (serialize_progress batch.progress)) (
          field "callback_url" (nullable native batch.callback_url) (
            field "deployment_id" (nullable int batch.deployment_id) (
              field "node_id" (nullable int batch.node_id) (
                field "created_at" (str (isoformat batch.created_at)) (
                  field "updated_at" (str (isoformat batch.updated_at))
                    (field "jobs" (arr (serialize_summaries batch.jobs)) end))))))))

  -- `except NotFoundError`; any other exception of the service goes through.
  abbrev pub answer_of : {A : Type 0} → (missing : Text) → (A → Fields F) → Outcome A → Answer F
  answer_of missing serialize (returned a) = content (serialize a)
  answer_of missing serialize (raised e) =
      if str_eq e.type_name "NotFoundError"
      then http_error 404 (if is_empty e.message then missing else e.message)
      else server_error e

  unfoldable pub get_job_endpoint :
      (repr : Text → Text) → (job_id : Text) → (parsed : Option Uuid) → Database F → Answer F
  unfolding get_job serialize_job
  get_job_endpoint repr job_id none db = http_error 400 (codes "Invalid job_id: " ++ repr job_id)
  get_job_endpoint repr job_id (some id) db =
      answer_of (codes "Job " ++ (job_id ++ codes " not found")) serialize_job (get_job id db)

  unfoldable pub get_batch_endpoint :
      (repr : Text → Text)
      → Engine F
      → (batch_id : Text) → (parsed : Option Uuid) → Database F
      → Answer F
  unfolding get_batch serialize_batch
  get_batch_endpoint repr engine batch_id none db =
      http_error 400 (codes "Invalid batch_id: " ++ repr batch_id)
  get_batch_endpoint repr engine batch_id (some id) db =
      answer_of (codes "Batch " ++ (batch_id ++ codes " not found")) serialize_batch
        (get_batch engine id db)
