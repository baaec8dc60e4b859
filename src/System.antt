-- ===== src/System.antt =====
-- The service as a whole: the database under the steps that submissions, extraction tasks and
-- reviewers take, in any order and with any faults.
mod Soundness
mod Steps
mod Reviews
mod Submissions
pub mod Reading
use dev_zu_smart_ingest.Prelude.{ℕ, String, Option, none, some, List, [], ◌∷◌, ◌≡◌, All}
use dev_zu_smart_ingest.Text.{Text}
use dev_zu_smart_ingest.Float.{FloatOps}
use dev_zu_smart_ingest.Domain.Enums.{JobStatus, ConfidenceTier, job_status_value}
use dev_zu_smart_ingest.Domain.Json.{Fields}
use dev_zu_smart_ingest.Domain.Entities.{
  Uuid, Instant, Job, UploadedFile, SubmissionParams, AuthContext,
}
use dev_zu_smart_ingest.Repository.Rows.{JobRow, tier_column}
use dev_zu_smart_ingest.Repository.Queries.{Database, Engine}
use dev_zu_smart_ingest.Repository.Session.{Faults, Session, create_batch}
use dev_zu_smart_ingest.JobService.Submission.{World, Environment, submit_batch}
use dev_zu_smart_ingest.Task.{Attempt, extract_document_task}
use dev_zu_smart_ingest.Review.{ApproveRequest, RejectRequest, approve_review, reject_review}

module _ {F : Type 0} where
  abbrev pub empty_database : Database F
  empty_database = record { batches = []; jobs = [] }

  -- A job as `submit_batch` makes it.
  abbrev pub IsNew : Job F → Type 0
  IsNew job = (job.status ≡ JobStatus.queued) × (job.confidence_tier ≡ none)

  -- What a status promises of a job: one that is done has a result and a tier.
  abbrev pub IsSettled : JobStatus → Option (Fields F) → Option ConfidenceTier → Type 0
  IsSettled JobStatus.completed result tier =
      ((fields : Fields F) × (result ≡ some fields)) × ((t : ConfidenceTier) × (tier ≡ some t))
  IsSettled JobStatus.review result tier =
      ((fields : Fields F) × (result ≡ some fields)) × ((t : ConfidenceTier) × (tier ≡ some t))
  IsSettled _ result tier = Unit

  -- A row whose columns hold a status and a tier, and what the status promises.
  abbrev pub IsSound : JobRow F → Type 0
  IsSound row =
      (status : JobStatus) × (tier : Option ConfidenceTier) × (row.status ≡ job_status_value status)
      × (row.confidence_tier ≡ tier_column tier)
      × IsSettled status row.result tier

-- The steps of the service, whatever faults they meet: a client submits files, a task runs with all
-- of its retries, or a reviewer decides.
pub data Step {F : Type 0} (fl : FloatOps F) (engine : Engine F) (repr : Text → Text)
    : Database F → Database F → Type 0 where
  submit :
      (env : Environment F) (files : List UploadedFile) (params : SubmissionParams)
      (auth : AuthContext) (w : World F)
      → Step fl engine repr w.database (submit_batch fl env files params auth w).1.database
  extract :
      (attempts : ℕ → Attempt F) (retries : ℕ) (id : Uuid) (db : Database F)
      → Step fl engine repr db (extract_document_task fl engine attempts retries id db).1
  approve :
      (job_id : Text) (parsed : Option Uuid) (body : ApproveRequest) (reviewed_at : Text)
      (now : Instant) (db : Database F)
      → Step fl engine repr db (approve_review repr job_id parsed body reviewed_at now db).1
  reject :
      (job_id : Text) (parsed : Option Uuid) (body : RejectRequest) (now : Instant)
      (db : Database F)
      → Step fl engine repr db (reject_review repr job_id parsed body now db).1

pub data Reach {F : Type 0} (fl : FloatOps F) (engine : Engine F) (repr : Text → Text)
    (start : Database F) : Database F → Type 0 where
  here : Reach fl engine repr start start
  next :
      {db after : Database F}
      → Reach fl engine repr start db
      → Step fl engine repr db after
      → Reach fl engine repr start after
