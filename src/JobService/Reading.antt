-- ===== src/JobService/Reading.antt =====
-- services/job_service.py: what a client reads of a batch and of a job.
use dev_zu_smart_ingest.Prelude.{String, ℕ, Option, none, some, ◌++◌, map}
use dev_zu_smart_ingest.Prelude.Outcome.{Exception, Outcome, returned, raised, ◌>>=◌}
use dev_zu_smart_ingest.Text.{Text, codes}
use dev_zu_smart_ingest.Text.Number.{uuid_text}
use dev_zu_smart_ingest.Domain.Enums.{JobStatus}
use dev_zu_smart_ingest.Domain.Json.{Fields}
use dev_zu_smart_ingest.Domain.Entities.{Uuid, Instant, FileHash, Job, BatchWithJobs}
use dev_zu_smart_ingest.Repository.Queries.{Database, Engine}
use dev_zu_smart_ingest.Repository.Queries
use dev_zu_smart_ingest.JobService.Status.{compute_progress, aggregate_batch_status}

pub record JobDetail (F : Type 0) : Type 0 where
  pub job_id : Uuid
  pub batch_id : Uuid
  pub filename : Text
  pub file_hash : FileHash
  pub status : JobStatus
  pub result : Option (Fields F)
  pub error_message : Option Text
  pub pipeline_trace : Option (Fields F)
  pub otel_trace_id : Option String
  pub processing_time_ms : Option ℕ
  pub created_at : Instant
  pub updated_at : Instant

abbrev pub not_found : Text → Uuid → Exception
not_found kind id = record {
  type_name = "NotFoundError";
  message = kind ++ (codes " " ++ (uuid_text id ++ codes " not found"));
}

abbrev pub found_or_raise : {A : Type 0} → Exception → Option A → Outcome A
found_or_raise e none = raised e
found_or_raise e (some a) = returned a

module _ {F : Type 0} where
  -- The batch with its counters and its status computed from its jobs.
  unfoldable pub refreshed : BatchWithJobs F → BatchWithJobs F
  unfolding compute_progress aggregate_batch_status
  refreshed existing =
      let job_statuses = map (λ j. j.status) existing.jobs in
      record existing {
        status = aggregate_batch_status job_statuses;
        progress = compute_progress job_statuses;
      }

  unfoldable pub get_batch : Engine F → Uuid → Database F → Outcome (BatchWithJobs F)
  unfolding refreshed Queries.get_batch_with_jobs
  get_batch engine batch_id db = do
    result ← Queries.get_batch_with_jobs engine batch_id db
    existing ← found_or_raise (not_found (codes "Batch") batch_id) result
    returned (refreshed existing)

  unfoldable pub job_detail : Job F → JobDetail F
  job_detail job = record {
    job_id = job.job_id;
    batch_id = job.batch_id;
    filename = job.filename;
    file_hash = job.file_hash;
    status = job.status;
    result = job.result;
    error_message = job.error_message;
    pipeline_trace = job.pipeline_trace;
    otel_trace_id = job.otel_trace_id;
    processing_time_ms = job.processing_time_ms;
    created_at = job.created_at;
    updated_at = job.updated_at;
  }

  unfoldable pub get_job : Uuid → Database F → Outcome (JobDetail F)
  unfolding job_detail Queries.get_job
  get_job job_id db = do
    found ← Queries.get_job job_id db
    job ← found_or_raise (not_found (codes "Job") job_id) found
    returned (job_detail job)
