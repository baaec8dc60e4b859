-- ===== src/Repository/Queries.antt =====
-- repository.py: the methods of `JobRepository` that read and update single rows.
use dev_zu_smart_ingest.Prelude.{
  String, Option, none, some, List, [], ◌∷◌, map, ℕ, ◌+◌, ◌-◌, ◌*◌, ◌/◌, Bool, false, not, ◌&&◌,
  max, str_eq, ◌==◌, if◌then◌else◌, find?, select, count, length, take, drop,
}
use dev_zu_smart_ingest.Prelude.Outcome.{Outcome, returned, ◌>>=◌, map_outcome, optional}
use dev_zu_smart_ingest.Text.{Text}
use dev_zu_smart_ingest.Domain.Enums.{
  JobStatus, ConfidenceTier, job_status_value, job_status_of_value, confidence_tier_value,
  status_eq,
}
use dev_zu_smart_ingest.Domain.Json.{Fields}
use dev_zu_smart_ingest.Domain.Entities.{
  Uuid, Instant, FileHash, Batch, Job, BatchProgress, BatchWithJobs, PaginatedResult,
}
use dev_zu_smart_ingest.Repository.Rows.{
  BatchRow, JobRow, to_batch, to_job, job_to_summary, int_or_none, member,
}

pub record Database (F : Type 0) : Type 0 where
  pub batches : List BatchRow
  pub jobs : List (JobRow F)

-- What PostgreSQL decides: the order of an unordered SELECT and of `ORDER BY key DESC`, and the
-- value that NUMERIC(4, 3) keeps of a float.
pub record Engine (F : Type 0) : Type 0 where
  pub unordered : List (JobRow F) → List (JobRow F)
  pub descending : (JobRow F → ℕ) → List (JobRow F) → List (JobRow F)
  pub numeric : F → F

-- A column is overwritten only by a value that is not `None`.
abbrev pub or_kept : {A : Type 0} → Option A → Option A → Option A
or_kept none old = old
or_kept (some new) old = some new

module _ {F : Type 0} where
  -- `scalar_one_or_none()` on a primary key.
  abbrev pub job_row : Uuid → Database F → Option (JobRow F)
  job_row id db = find? (λ r. r.id == id) db.jobs

  abbrev pub batch_row : Uuid → Database F → Option BatchRow
  batch_row id db = find? (λ r. r.id == id) db.batches

  unfoldable pub get_batch : Uuid → Database F → Outcome (Option Batch)
  unfolding optional
  get_batch id db = optional to_batch (batch_row id db)

  unfoldable pub get_job : Uuid → Database F → Outcome (Option (Job F))
  unfolding optional
  get_job id db = optional to_job (job_row id db)

  unfoldable pub build_progress : List (Job F) → BatchProgress
  build_progress jobs = record {
    completed = count (λ j. status_eq j.status JobStatus.completed) jobs;
    queued = count (λ j. status_eq j.status JobStatus.queued) jobs;
    failed = count (λ j. status_eq j.status JobStatus.failed) jobs;
    total = length jobs;
    in_progress = 0;
  }

  -- Writes the row of that id; without one nothing changes.
  unfoldable pub write_job : Uuid → (JobRow F → JobRow F) → List (JobRow F) → List (JobRow F)
  write_job id f [] = []
  write_job id f (r ∷ rows) =
      let rest = write_job id f rows in if r.id == id then f r ∷ rows else r ∷ rest

  unfoldable pub update_job_status :
      Uuid
      → JobStatus
      → (result : Option (Fields F)) → (error_message : Option Text) → (now : Instant) → Database F
      → Database F
  unfolding write_job
  update_job_status id status result error_message now db = record db {
    jobs =
        write_job id
          (λ row. record row {
            status = job_status_value status;
            updated_at = now;
            error_message = or_kept error_message row.error_message;
            result = or_kept result row.result;
          })
          db.jobs;
  }

module _ {F : Type 0} where
  abbrev pub page_result : (page per_page total : ℕ) → List (Job F) → PaginatedResult (Job F)
  page_result page per_page total items = record {
    items = items;
    total = total;
    page = page;
    per_page = per_page;
    total_pages = (total + per_page - 1) / per_page;
  }

  -- The rows of the review queue: of tier "review", and not rejected.
  unfoldable pub is_pending : JobRow F → Bool
  is_pending row =
      elim row.confidence_tier [
        | none ↦ false
        | some tier ↦ str_eq tier (confidence_tier_value ConfidenceTier.review)
      ]
      && not (str_eq row.status (job_status_value JobStatus.rejected))

module _ {F : Type 0} (engine : Engine F) where
  -- The columns that a result writes, besides the status COMPLETED.
  unfoldable pub result_row :
      (result : Fields F)
      → ConfidenceTier
      → (confidence_score : F) → (processing_time_ms : ℕ) → (otel_trace_id : Option String)
      → (pipeline_trace : Option (Fields F)) → (now : Instant) → JobRow F
      → JobRow F
  result_row result tier score ms otel trace now row = record row {
    result = some result;
    confidence_tier = some (confidence_tier_value tier);
    confidence_score = some (engine.numeric score);
    processing_time_ms = some ms;
    otel_trace_id = otel;
    pipeline_trace = trace;
    status = job_status_value JobStatus.completed;
    updated_at = now;
  }

  -- The commit, and the row as it is read back; that the reading raises is a fault of the caller's
  -- (`refreshed` in Task).
  unfoldable pub update_job_result :
      Uuid
      → (result : Fields F) → ConfidenceTier
      → (confidence_score : F) → (processing_time_ms : ℕ) → (otel_trace_id : Option String)
      → (pipeline_trace : Option (Fields F)) → (now : Instant) → Database F
      → Outcome (Option (Job F)) × Database F
  unfolding write_job result_row optional
  update_job_result id result tier score ms otel trace now db =
      let after = record db {
        jobs = write_job id (result_row result tier score ms otel trace now) db.jobs;
      } in
      (optional to_job (job_row id after), after)

  unfoldable pub get_batch_with_jobs : Uuid → Database F → Outcome (Option (BatchWithJobs F))
  unfolding map_outcome build_progress member
  get_batch_with_jobs id db = elim (batch_row id db) [
    | none ↦ returned none
    | some row ↦ do
      jobs ← map_outcome to_job (engine.unordered (select (λ r. r.batch_id == row.id) db.jobs))
      status ← member (job_status_of_value row.status)
      returned (
          some (record {
            batch_id = row.id;
            status = status;
            progress = build_progress jobs;
            jobs = map job_to_summary jobs;
            callback_url = row.callback_url;
            deployment_id = int_or_none row.deployment_id;
            node_id = int_or_none row.node_id;
            created_at = row.created_at;
            updated_at = row.updated_at;
          }))
  ]

  unfoldable pub pending_rows : Database F → List (JobRow F)
  unfolding is_pending
  pending_rows db = engine.descending (λ r. r.created_at) (select is_pending db.jobs)

  unfoldable pub get_pending_reviews :
      (page : ℕ) (per_page : ℕ) → Database F → Outcome (PaginatedResult (Job F))
  unfolding pending_rows map_outcome
  get_pending_reviews page per_page db =
      let page = max 1 page in
      let per_page = max 1 per_page in
      let offset = (page - 1) * per_page in
      let total = count is_pending db.jobs in
      do
        items ← map_outcome to_job (take per_page (drop offset (pending_rows db)))
        returned (page_result page per_page total items)

  -- The rows that deduplication looks at, newest update first.
  unfoldable pub done_rows : FileHash → Database F → List (JobRow F)
  done_rows file_hash db =
      engine.descending (λ r. r.updated_at)
        (select
          (λ r.
            str_eq r.file_hash file_hash && str_eq r.status (job_status_value JobStatus.completed))
          db.jobs)

  unfoldable pub get_job_by_file_hash : FileHash → Database F → Outcome (Option (Job F))
  unfolding done_rows optional
  get_job_by_file_hash file_hash db = elim (done_rows file_hash db) [
    | [] ↦ returned none
    | row ∷ _ ↦ optional to_job (some row)
  ]
