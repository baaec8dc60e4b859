-- ===== src/Repository/Updates.antt =====
-- What an update of one job row leaves to be read, for that job and for every other one.
use mathlib.Core.Option
use dev_zu_smart_ingest.Prelude.{
  ℕ, String, Option, some, ◌≡◌, ◌≢◌, refl, arith, ◌==◌, List, [], ◌∷◌, find?, if◌then◌else◌,
}
use dev_zu_smart_ingest.Prelude.Outcome.{returned, optional, optional-eq-returned}
use dev_zu_smart_ingest.Text.{Text}
use dev_zu_smart_ingest.Domain.Enums.{JobStatus, job_status_value, ConfidenceTier}
use dev_zu_smart_ingest.Domain.Enums.Values.{job_status_of_value-value}
use dev_zu_smart_ingest.Domain.Json.{Fields}
use dev_zu_smart_ingest.Domain.Entities.{Uuid, Instant, Job}
use dev_zu_smart_ingest.Repository.Mapping.{tier_of_column-tier_column}
use dev_zu_smart_ingest.Repository.Rows.{JobRow, member, to_job}
use dev_zu_smart_ingest.Repository.Queries.{
  Database, Engine, job_row, get_job, write_job, or_kept, update_job_status, result_row,
  update_job_result,
}

module _ {F : Type 0} where
  -- The row of an id after a write, for an id that the write keeps.
  pub find?-write_job :
      (id j : Uuid) (f : JobRow F → JobRow F) (rows : List (JobRow F))
      → ((r : JobRow F) → (f r).id ≡ r.id)
      → find? (λ r. r.id == j) (write_job id f rows) ≡ (
          if id == j
          then Option.map f (find? (λ r. r.id == j) rows)
          else find? (λ r. r.id == j) rows)
  unfolding write_job
  find?-write_job id j f [] keeps = ground arith
  find?-write_job id j f (r ∷ rows) keeps =
      ground (arith, keeps r, find?-write_job id j f rows keeps)

  pub find?-id :
      (id : Uuid) (rows : List (JobRow F)) (r : JobRow F)
      → find? (λ q. q.id == id) rows ≡ some r
      → r.id ≡ id
  find?-id id [] r h = cc
  find?-id id (q ∷ rows) r h = ground (arith, find?-id id rows r)

  -- The row as an update of its status leaves it.
  abbrev pub status_row :
      JobStatus → Option (Fields F) → Option Text → Instant → JobRow F → JobRow F
  status_row status result error now row = record row {
    status = job_status_value status;
    updated_at = now;
    error_message = or_kept error row.error_message;
    result = or_kept result row.result;
  }

  pub job_row-update_job_status :
      (id j : Uuid) (status : JobStatus) (result : Option (Fields F)) (error : Option Text)
      (now : Instant) (db : Database F)
      → job_row j (update_job_status id status result error now db) ≡ (
          if id == j
          then Option.map (status_row status result error now) (job_row j db)
          else job_row j db)
  unfolding update_job_status
  job_row-update_job_status id j status result error now db =
      find?-write_job id j (status_row status result error now) db.jobs (λ r. refl)

  to_job-status_row :
      (status : JobStatus) (result : Option (Fields F)) (error : Option Text) (now : Instant)
      (row : JobRow F) (job : Job F)
      → to_job row ≡ returned job
      → to_job (status_row status result error now row)
        ≡ returned (record job {
          status = status;
          updated_at = now;
          error_message = or_kept error job.error_message;
          result = or_kept result job.result;
        })
  unfolding to_job member
  to_job-status_row status result error now row job h =
      ground (arith, job_status_of_value-value status)

  -- After a status update the job is read with the new status and time; its result and its error
  -- message are overwritten if and only if new ones are given. Everything else is as it was.
  pub get_job-update_job_status_self :
      (id : Uuid) (status : JobStatus) (result : Option (Fields F)) (error : Option Text)
      (now : Instant) (db : Database F) (job : Job F)
      → get_job id db ≡ returned (some job)
      → get_job id (update_job_status id status result error now db)
        ≡ returned (
            some (record job {
              status = status;
              updated_at = now;
              error_message = or_kept error job.error_message;
              result = or_kept result job.result;
            }))
  unfolding get_job optional
  get_job-update_job_status_self id status result error now db job h =
      let (row, e, read) = optional-eq-returned to_job (job_row id db) h in
      ground (
        arith,
        e,
        job_row-update_job_status id id status result error now db,
        to_job-status_row status result error now row job read,
      )

  -- An update of one job leaves every other job to be read as before.
  pub get_job-update_job_status_ne :
      (id j : Uuid) (status : JobStatus) (result : Option (Fields F)) (error : Option Text)
      (now : Instant) (db : Database F)
      → id ≢ j
      → get_job j (update_job_status id status result error now db) ≡ get_job j db
  unfolding get_job
  get_job-update_job_status_ne id j status result error now db ne =
      ground (arith, job_row-update_job_status id j status result error now db)

module _ {F : Type 0} (engine : Engine F) where
  pub job_row-update_job_result :
      (id j : Uuid) (result : Fields F) (tier : ConfidenceTier) (score : F) (ms : ℕ)
      (otel : Option String) (trace : Option (Fields F)) (now : Instant) (db : Database F)
      → job_row j (update_job_result engine id result tier score ms otel trace now db).1 ≡ (
          if id == j
          then Option.map (result_row engine result tier score ms otel trace now) (job_row j db)
          else job_row j db)
  unfolding update_job_result
  job_row-update_job_result id j result tier score ms otel trace now db =
      find?-write_job id j (result_row engine result tier score ms otel trace now) db.jobs
        (λ r. unfold result_row in refl)

  -- The job as `update_job_result` leaves it.
  abbrev pub with_result :
      (result : Fields F)
      → ConfidenceTier
      → (score : F) → (ms : ℕ) → Option String
      → Option (Fields F)
      → Instant
      → Job F
      → Job F
  with_result result tier score ms otel trace now job = record job {
    result = some result;
    confidence_tier = some tier;
    overall_confidence = some (engine.numeric score);
    processing_time_ms = some ms;
    otel_trace_id = otel;
    pipeline_trace = trace;
    status = JobStatus.completed;
    updated_at = now;
  }

  to_job-result_row :
      (result : Fields F) (tier : ConfidenceTier) (score : F) (ms : ℕ) (otel : Option String)
      (trace : Option (Fields F)) (now : Instant) (row : JobRow F) (job : Job F)
      → to_job row ≡ returned job
      → to_job (result_row engine result tier score ms otel trace now row)
        ≡ returned (with_result result tier score ms otel trace now job)
  unfolding to_job member result_row
  to_job-result_row result tier score ms otel trace now row job h =
      ground (
        arith,
        job_status_of_value-value JobStatus.completed,
        tier_of_column-tier_column (some tier),
      )

  get_job-update_job_result :
      (id : Uuid) (result : Fields F) (tier : ConfidenceTier) (score : F) (ms : ℕ)
      (otel : Option String) (trace : Option (Fields F)) (now : Instant) (db : Database F)
      (job : Job F)
      → get_job id db ≡ returned (some job)
      → get_job id (update_job_result engine id result tier score ms otel trace now db).1
        ≡ returned (some (with_result result tier score ms otel trace now job))
  unfolding get_job optional
  get_job-update_job_result id result tier score ms otel trace now db job h =
      let (row, e, read) = optional-eq-returned to_job (job_row id db) h in
      ground (
        arith,
        e,
        job_row-update_job_result id id result tier score ms otel trace now db,
        to_job-result_row result tier score ms otel trace now row job read,
      )

  -- A stored result is returned and read back with the tier, the score as NUMERIC(4, 3) keeps it,
  -- the trace and the status COMPLETED; the error message is left as it was.
  pub get_job-update_job_result_self :
      (id : Uuid) (result : Fields F) (tier : ConfidenceTier) (score : F) (ms : ℕ)
      (otel : Option String) (trace : Option (Fields F)) (now : Instant) (db : Database F)
      (job : Job F)
      → get_job id db ≡ returned (some job)
      → (get_job id (update_job_result engine id result tier score ms otel trace now db).1
          ≡ returned (some (with_result result tier score ms otel trace now job)))
        × ((update_job_result engine id result tier score ms otel trace now db).0
            ≡ returned (some (with_result result tier score ms otel trace now job)))
  get_job-update_job_result_self id result tier score ms otel trace now db job h =
      let found = get_job-update_job_result id result tier score ms otel trace now db job h in
      (found, unfold update_job_result get_job in found)

  pub get_job-update_job_result_ne :
      (id j : Uuid) (result : Fields F) (tier : ConfidenceTier) (score : F) (ms : ℕ)
      (otel : Option String) (trace : Option (Fields F)) (now : Instant) (db : Database F)
      → id ≢ j
      → get_job j (update_job_result engine id result tier score ms otel trace now db).1
        ≡ get_job j db
  unfolding get_job
  get_job-update_job_result_ne id j result tier score ms otel trace now db ne =
      ground (arith, job_row-update_job_result id j result tier score ms otel trace now db)
