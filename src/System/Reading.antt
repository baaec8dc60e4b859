-- ===== src/System/Reading.antt =====
-- What can be read in every state that the service reaches.
use dev_zu_smart_ingest.Prelude.{
  Option, none, some, List, [], ◌∷◌, ◌≡◌, refl, subst, arith, All, find?, ◌==◌, Bool-cases, inl,
  inr, Option-cases,
}
use dev_zu_smart_ingest.Prelude.Outcome.{returned, optional}
use dev_zu_smart_ingest.Text.{Text}
use dev_zu_smart_ingest.Float.{FloatOps}
use dev_zu_smart_ingest.Domain.Enums.Values.{job_status_of_value-value}
use dev_zu_smart_ingest.Domain.Enums.{JobStatus, ConfidenceTier}
use dev_zu_smart_ingest.Domain.Entities.{Uuid, Job}
use dev_zu_smart_ingest.Repository.Rows.{JobRow, to_job, member, text_or_empty}
use dev_zu_smart_ingest.Repository.Mapping.{tier_of_column-tier_column}
use dev_zu_smart_ingest.Repository.Queries.{Database, Engine, job_row, get_job}
use dev_zu_smart_ingest.System.{
  IsSettled, IsSound, Step, submit, extract, approve, reject, Reach, here, next, empty_database,
}
use dev_zu_smart_ingest.System.Soundness.{AllSound}
use dev_zu_smart_ingest.System.Steps.{extract-AllSound}
use dev_zu_smart_ingest.System.Submissions.{submit-AllSound}
use dev_zu_smart_ingest.System.Reviews.{approve-AllSound, reject-AllSound}

module _ {F : Type 0} (fl : FloatOps F) (engine : Engine F) (repr : Text → Text) where
  Step-AllSound :
      {db after : Database F} → Step fl engine repr db after → AllSound db → AllSound after
  Step-AllSound (submit env files params auth w) h = submit-AllSound fl env files params auth w h
  Step-AllSound (extract attempts retries id db) h =
      extract-AllSound fl engine attempts retries id db h
  Step-AllSound (approve job_id parsed body reviewed_at now db) h =
      approve-AllSound repr job_id parsed body reviewed_at now db h
  Step-AllSound (reject job_id parsed body now db) h =
      reject-AllSound repr job_id parsed body now db h

  Reach-AllSound :
      {start db : Database F} → AllSound start → Reach fl engine repr start db → AllSound db
  Reach-AllSound h here = h
  Reach-AllSound h (next before step) = Step-AllSound step (Reach-AllSound h before)

module _ {F : Type 0} where
  -- The job of a row with this status and tier.
  abbrev job_of : JobRow F → JobStatus → Option ConfidenceTier → Job F
  job_of row status tier = record {
    job_id = row.id;
    batch_id = row.batch_id;
    filename = row.filename;
    file_hash = row.file_hash;
    file_path = text_or_empty row.file_path;
    status = status;
    result = row.result;
    error_message = row.error_message;
    pipeline_trace = row.pipeline_trace;
    otel_trace_id = row.otel_trace_id;
    processing_time_ms = row.processing_time_ms;
    created_at = row.created_at;
    updated_at = row.updated_at;
    confidence_tier = tier;
    overall_confidence = row.confidence_score;
  }

  -- A sound row is read as a job, whose status promises what it has.
  to_job-IsSound :
      (row : JobRow F)
      → IsSound row
      → (job : Job F) × (to_job row ≡ returned job)
        × IsSettled job.status job.result job.confidence_tier
  unfolding to_job member
  to_job-IsSound row (status, tier, es, et, settled) = (
    job_of row status tier,
    rw (es, et, job_status_of_value-value status, tier_of_column-tier_column tier) refl,
    settled,
  )

  some-injective : {a b : JobRow F} → some a ≡ some b → a ≡ b
  some-injective h = ground arith

  find?-All {κ} :
      (P : JobRow F → Type κ) (id : Uuid) (rows : List (JobRow F)) (row : JobRow F)
      → All P rows
      → find? (λ r. r.id == id) rows ≡ some row
      → P row
  find?-All P id [] row h k = cc
  find?-All P id (r ∷ rows) row (p, h) k = elim (Bool-cases (r.id == id)) [
    | inl same ↦ subst P (some-injective (rw same at k)) p
    | inr other ↦ find?-All P id rows row h (rw other at k)
  ]

  -- What a job that is found is promised.
  abbrev pub IsReadable : Option (Job F) → Type 0
  IsReadable none = Unit
  IsReadable (some job) = IsSettled job.status job.result job.confidence_tier

  get_job-AllSound :
      (id : Uuid) (db : Database F)
      → AllSound db
      → (found : Option (Job F)) × (get_job id db ≡ returned found) × IsReadable found
  unfolding get_job optional
  get_job-AllSound id db h = elim (Option-cases (job_row id db)) [
    | inl missing ↦ (none, rw missing, tt)
    | inr (row, k) ↦
        let (job, read, settled) = to_job-IsSound row (find?-All IsSound id db.jobs row h k) in
        (some job, rw (k, read), settled)
  ]

module _ {F : Type 0} (fl : FloatOps F) (engine : Engine F) (repr : Text → Text) where
  -- In every state that the service reaches from an empty database by submissions, tasks with their retries
  -- and reviewers' decisions, in any order and whatever faults they meet, reading a job does
  -- not raise; and a job that is read as COMPLETED or REVIEW has a result and a tier.
  pub Reach-IsReadable :
      {db : Database F}
      → Reach fl engine repr empty_database db
      → (id : Uuid) → (found : Option (Job F)) × (get_job id db ≡ returned found) × IsReadable found
  Reach-IsReadable {db} r id = get_job-AllSound id db (Reach-AllSound fl engine repr tt r)
