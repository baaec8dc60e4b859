-- ===== src/System/Soundness.antt =====
-- Every step of the service keeps every row sound.
use dev_zu_smart_ingest.Prelude.{
  ℕ, String, Option, none, some, List, [], ◌∷◌, ◌≡◌, refl, arith, All, ◌==◌, find?, Bool, true,
  false, Bool-cases, Option-cases, inl, inr,
}
use dev_zu_smart_ingest.Text.{Text}
use dev_zu_smart_ingest.Domain.Enums.{JobStatus, ConfidenceTier}
use dev_zu_smart_ingest.Domain.Json.{Fields}
use dev_zu_smart_ingest.Domain.Entities.{Uuid, Instant}
use dev_zu_smart_ingest.Repository.Rows.{JobRow, tier_column}
use dev_zu_smart_ingest.Repository.Queries.{
  Database, Engine, job_row, write_job, or_kept, update_job_status, update_job_result, result_row,
}
use dev_zu_smart_ingest.Repository.Updates.{status_row, job_row-update_job_result}
use dev_zu_smart_ingest.System.{IsSettled, IsSound}

-- The statuses that promise nothing.
abbrev is_open : JobStatus → Bool
is_open JobStatus.completed = false
is_open JobStatus.review = false
is_open _ = true

module _ {F : Type 0} where
  abbrev pub AllSound : Database F → Type 0
  AllSound db = All IsSound db.jobs

  -- A write to the row of an id keeps the rows sound if it keeps that row so.
  pub write_job-All :
      (id : Uuid) (f : JobRow F → JobRow F) (rows : List (JobRow F))
      → ((r : JobRow F) → find? (λ q. q.id == id) rows ≡ some r → IsSound r → IsSound (f r))
      → All IsSound rows
      → All IsSound (write_job id f rows)
  unfolding write_job
  write_job-All id f [] keeps h = tt
  write_job-All id f (r ∷ rows) keeps (sound, rest) = elim (Bool-cases (r.id == id)) [
    | inl same ↦ rw same (keeps r (rw same) sound, rest)
    | inr other ↦
        rw other (sound, write_job-All id f rows (λ q found. keeps q (rw other found)) rest)
  ]

  IsSettled-open :
      (status : JobStatus) (result : Option (Fields F)) (tier : Option ConfidenceTier)
      → is_open status ≡ true
      → IsSettled status result tier
  IsSettled-open JobStatus.completed result tier h = absurd (ground arith)
  IsSettled-open JobStatus.review result tier h = absurd (ground arith)
  IsSettled-open JobStatus.queued result tier h = tt
  IsSettled-open JobStatus.processing result tier h = tt
  IsSettled-open JobStatus.in_progress result tier h = tt
  IsSettled-open JobStatus.failed result tier h = tt
  IsSettled-open JobStatus.rejected result tier h = tt
  IsSettled-open JobStatus.cached result tier h = tt

  pub update_job_status-open :
      (id : Uuid) (status : JobStatus) (result : Option (Fields F)) (error : Option Text)
      (now : Instant) (db : Database F)
      → is_open status ≡ true
      → AllSound db
      → AllSound (update_job_status id status result error now db)
  unfolding update_job_status
  update_job_status-open id status result error now db o h =
      write_job-All id (status_row status result error now) db.jobs
        (λ r found (s, t, es, et, settled).
          (status, t, refl, et, IsSettled-open status (or_kept result r.result) t o))
        h

  -- The same for a status that promises something, if the row already has what it promises.
  pub update_job_status-done :
      (id : Uuid) (status : JobStatus) (result : Option (Fields F)) (error : Option Text)
      (now : Instant) (db : Database F)
      → ((row : JobRow F)
          → job_row id db ≡ some row
          → IsSound (status_row status result error now row))
      → AllSound db
      → AllSound (update_job_status id status result error now db)
  unfolding update_job_status
  update_job_status-done id status result error now db keeps h =
      write_job-All id (status_row status result error now) db.jobs (λ r found sound. keeps r found)
        h

  -- A row that is read with a tier keeps it, and may be written as COMPLETED with a result.
  pub approved-IsSound :
      (fields : Fields F) (error : Option Text) (now : Instant) (row : JobRow F)
      → ((t : ConfidenceTier) × (row.confidence_tier ≡ tier_column (some t)))
      → IsSound (status_row JobStatus.completed (some fields) error now row)
  approved-IsSound fields error now row (t, e) =
      (JobStatus.completed, some t, refl, e, ((fields, refl), (t, refl)))

module _ {F : Type 0} (engine : Engine F) where
  pub result_row-IsSound :
      (result : Fields F) (tier : ConfidenceTier) (score : F) (ms : ℕ) (otel : Option String)
      (trace : Option (Fields F)) (now : Instant) (row : JobRow F)
      → IsSound (result_row engine result tier score ms otel trace now row)
  unfolding result_row
  result_row-IsSound result tier score ms otel trace now row =
      (JobStatus.completed, some tier, refl, refl, ((result, refl), (tier, refl)))

  pub update_job_result-AllSound :
      (id : Uuid) (result : Fields F) (tier : ConfidenceTier) (score : F) (ms : ℕ)
      (otel : Option String) (trace : Option (Fields F)) (now : Instant) (db : Database F)
      → AllSound db
      → AllSound (update_job_result engine id result tier score ms otel trace now db).1
  unfolding update_job_result
  update_job_result-AllSound id result tier score ms otel trace now db h =
      write_job-All id (result_row engine result tier score ms otel trace now) db.jobs
        (λ r found sound. result_row-IsSound result tier score ms otel trace now r) h

  -- The row that a result was written to may be marked for review.
  pub result_row-marked :
      (id : Uuid) (result : Fields F) (tier : ConfidenceTier) (score : F) (ms : ℕ)
      (otel : Option String) (trace : Option (Fields F)) (now later : Instant) (db : Database F)
      (row : JobRow F)
      → job_row id (update_job_result engine id result tier score ms otel trace now db).1 ≡ some row
      → IsSound (status_row JobStatus.review none none later row)
  unfolding result_row
  result_row-marked id result tier score ms otel trace now later db row h =
      let written : (row.result ≡ some result) × (row.confidence_tier ≡ tier_column (some tier)) =
        elim (Option-cases (job_row id db)) [
          | inl missing ↦ absurd (
              ground (
                arith,
                missing,
                h,
                job_row-update_job_result engine id id result tier score ms otel trace now db,
              ))
          | inr (old, found) ↦ ground (
            arith,
            found,
            h,
            job_row-update_job_result engine id id result tier score ms otel trace now db,
          )
        ] in
      (JobStatus.review, some tier, refl, written.1, ((result, written.0), (tier, refl)))
