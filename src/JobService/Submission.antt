-- ===== src/JobService/Submission.antt =====
-- `JobService.submit_batch`. What it writes stays written when a later call raises, so a step gives
-- its outcome and the world after it. The clock, `uuid4`, SHA-256, `str.lower`, and which calls of
-- the file system, the database and the queue raise, come from the environment.
pub mod Validation
pub mod Summaries
pub mod Effects
pub mod Totality
use dev_zu_smart_ingest.Prelude.{
  String, ℕ, suc, ◌+◌, Option, none, some, List, [], ◌∷◌, ◌++◌, map, Bool, not, ◌&&◌, ltb, length,
  if◌then◌else◌,
}
use dev_zu_smart_ingest.Prelude.Int.{pos}
use dev_zu_smart_ingest.Prelude.Outcome.{Exception, Outcome, returned, raised}
use dev_zu_smart_ingest.Text.{Text, codes, starts_with, ends_with}
use dev_zu_smart_ingest.Text.Number.{int_text, uuid_text}
use dev_zu_smart_ingest.Float.{FloatOps}
use dev_zu_smart_ingest.Domain.Enums.{JobStatus, ExtractionMode, status_eq}
use dev_zu_smart_ingest.Domain.Entities.{
  Uuid, Instant, FileHash, Batch, Job, JobSummary, UploadedFile, SubmissionParams, AuthContext,
  BatchSubmissionResult,
}
use dev_zu_smart_ingest.Repository.Queries.{Database, Engine, get_job_by_file_hash}
use dev_zu_smart_ingest.Repository.Session.{Faults, create_batch}

pub record World (F : Type 0) : Type 0 where
  pub database : Database F
  pub disk : List (Text × List ℕ)
  pub queue : List Uuid
  pub drawn : ℕ

pub record Environment (F : Type 0) : Type 0 where
  pub engine : Engine F
  pub now : Instant
  pub uuid4 : ℕ → Uuid
  pub sha256 : List ℕ → FileHash
  pub lower : Text → Text
  pub max_pdf_bytes : ℕ
  pub temp_storage_root : Text
  pub mkdir_raises : Option Exception
  pub write_raises : ℕ → Option Exception
  pub lookup_raises : FileHash → Option Exception
  pub faults : Faults
  pub enqueue_raises : Uuid → Option Exception

abbrev pub Action : Type 0 → Type 0 → Type 0
Action F A = World F → Outcome A × World F

module _ {F A B : Type 0} where
  abbrev pub and_then : Outcome A → (A → Action F B) → Action F B
  and_then (returned a) f w = f a w
  and_then (raised e) f w = (raised e, w)

  infixl 5 ◌>>=◌ ◌>>◌
  abbrev pub ◌>>=◌ : Action F A → (A → Action F B) → Action F B
  ◌>>=◌ m f w = let (o, w') = m w in and_then o f w'

  abbrev pub ◌>>◌ : Action F A → Action F B → Action F B
  m >> k = m >>= λ _. k

module _ {F A : Type 0} where
  abbrev pub pure : A → Action F A
  pure a w = (returned a, w)

  abbrev pub throw : Exception → Action F A
  throw e w = (raised e, w)

module _ {F : Type 0} where
  -- A call that raises before it does anything, or does it.
  abbrev pub attempt : Option Exception → (World F → World F) → Action F Unit
  attempt none f w = (returned tt, f w)
  attempt (some e) f w = (raised e, w)

abbrev pub invalid_pdf : Text → Exception
invalid_pdf message = record { type_name = "InvalidPDFError"; message = message }

abbrev pub oversize_file : Text → Exception
oversize_file message = record { type_name = "OversizeFileError"; message = message }

module _ {F : Type 0} (fl : FloatOps F) (env : Environment F) where
  -- `_is_valid_pdf`
  unfoldable pub is_valid_pdf : UploadedFile → Bool
  is_valid_pdf file =
      if not (ends_with (env.lower file.filename) (codes ".pdf"))
      then Bool.false
      else if not (starts_with file.content (codes "%PDF"))
      then Bool.false
      else Bool.true

  -- The validation pass over the files: the exception of the first that is refused.
  unfoldable pub check_files : List UploadedFile → Option Exception
  unfolding is_valid_pdf
  check_files [] = none
  check_files (f ∷ files) =
      let rest = check_files files in
      if ltb env.max_pdf_bytes (length f.content)
      then some (
          oversize_file (
            f.filename
            ++ (codes " exceeds max size of "
                ++ (int_text (pos env.max_pdf_bytes) ++ codes " bytes"))))
      else if not (is_valid_pdf f)
      then some (invalid_pdf (f.filename ++ codes " is not a valid PDF"))
      else rest

  abbrev pub draw : Action F Uuid
  draw w = (returned (env.uuid4 w.drawn), record w { drawn = suc w.drawn })

  abbrev pub file_path : Uuid → Uuid → Text
  file_path batch_id job_id =
      env.temp_storage_root
      ++ (b'/' ∷ (uuid_text batch_id ++ (b'/' ∷ (uuid_text job_id ++ codes ".pdf"))))

  abbrev pub write_bytes : Text → List ℕ → Action F Unit
  write_bytes path content w =
      attempt (env.write_raises w.drawn) (λ v. record v { disk = v.disk ++ (path, content) ∷ [] }) w

  abbrev pub lookup_hash : FileHash → Action F (Option (Job F))
  lookup_hash file_hash w = elim (env.lookup_raises file_hash) [
    | some e ↦ (raised e, w)
    | none ↦ (get_job_by_file_hash env.engine file_hash w.database, w)
  ]

  -- The earlier job that answers a file, if it is COMPLETED.
  abbrev pub cache_hit : Option (Job F) → Option (Job F)
  cache_hit none = none
  cache_hit (some job) = if status_eq job.status JobStatus.completed then some job else none

  unfoldable pub cached_summary : UploadedFile → FileHash → Job F → JobSummary F
  cached_summary f file_hash existing = record {
    job_id = existing.job_id;
    filename = f.filename;
    status = JobStatus.cached;
    file_hash = file_hash;
    result = existing.result;
  }

  unfoldable pub queued_summary : UploadedFile → FileHash → Uuid → JobSummary F
  queued_summary f file_hash id = record {
    job_id = id;
    filename = f.filename;
    status = JobStatus.queued;
    file_hash = file_hash;
    result = none;
  }

  unfoldable pub new_job : Uuid → UploadedFile → FileHash → Uuid → Job F
  new_job batch_id f file_hash id = record {
    job_id = id;
    batch_id = batch_id;
    filename = f.filename;
    file_hash = file_hash;
    file_path = file_path batch_id id;
    status = JobStatus.queued;
    result = none;
    error_message = none;
    pipeline_trace = none;
    otel_trace_id = none;
    processing_time_ms = none;
    created_at = env.now;
    updated_at = env.now;
    confidence_tier = none;
    overall_confidence = none;
  }

  -- A file with an earlier result is answered by it; another one gets a job, and is written to disk.
  abbrev pub answer :
      Uuid → UploadedFile → FileHash → Option (Job F) → Action F (JobSummary F × Option (Job F))
  answer batch_id f file_hash (some job) = pure (cached_summary f file_hash job, none)
  answer batch_id f file_hash none = do
    id ← draw
    write_bytes (file_path batch_id id) f.content
    pure (queued_summary f file_hash id, some (new_job batch_id f file_hash id))

  -- The body of the loop over the files: the summary, and the job if the file needs one.
  unfoldable pub admit_file : Uuid → UploadedFile → Action F (JobSummary F × Option (Job F))
  unfolding cached_summary queued_summary new_job
  admit_file batch_id f =
      let file_hash = env.sha256 f.content in
      do existing ← lookup_hash file_hash; answer batch_id f file_hash (cache_hit existing)

  abbrev pub with_job : Option (Job F) → List (Job F) → List (Job F)
  with_job none jobs = jobs
  with_job (some job) jobs = job ∷ jobs

  unfoldable pub admit_files :
      Uuid → List UploadedFile → Action F (List (JobSummary F) × List (Job F))
  unfolding admit_file
  admit_files batch_id [] = pure ([], [])
  admit_files batch_id (f ∷ files) = do
    (summary, job) ← admit_file batch_id f
    (summaries, jobs) ← admit_files batch_id files
    pure (summary ∷ summaries, with_job job jobs)

  unfoldable pub new_batch : Uuid → List (Job F) → SubmissionParams → AuthContext → Batch
  new_batch batch_id new_jobs params auth = record {
    batch_id = batch_id;
    status = JobStatus.queued;
    total_jobs = length new_jobs;
    callback_url = params.callback_url;
    deployment_id = params.deployment_id;
    node_id = params.node_id;
    created_by = auth.user_id;
    created_at = env.now;
    updated_at = env.now;
    mode = params.mode;
  }

  abbrev pub save_batch : Batch → List (Job F) → Action F Batch
  save_batch batch jobs w =
      let (o, s) =
        create_batch fl env.engine env.faults batch jobs
          (record { stored = w.database; working = w.database }) in
      (o, record w { database = s.stored })

  unfoldable pub enqueue_jobs : List (Job F) → Action F Unit
  enqueue_jobs [] = pure tt
  enqueue_jobs (job ∷ jobs) = do
    attempt (env.enqueue_raises job.job_id) (λ w. record w { queue = w.queue ++ job.job_id ∷ [] })
    enqueue_jobs jobs

  abbrev pub submission_result : Uuid → List (JobSummary F) → BatchSubmissionResult F
  submission_result batch_id summaries = record {
    batch_id = batch_id;
    jobs = summaries;
    total = length summaries;
    poll_url = codes "/batches/" ++ uuid_text batch_id;
  }

  -- Steps 3 to 5: persist, enqueue, respond.
  unfoldable pub finish_batch :
      Uuid
      → List (JobSummary F)
      → List (Job F)
      → SubmissionParams
      → AuthContext
      → Action F (BatchSubmissionResult F)
  unfolding new_batch enqueue_jobs
  finish_batch batch_id summaries jobs params auth = do
    save_batch (new_batch batch_id jobs params auth) jobs
    enqueue_jobs jobs
    pure (submission_result batch_id summaries)

  -- The steps behind the validation pass.
  unfoldable pub admit_batch :
      List UploadedFile → SubmissionParams → AuthContext → Action F (BatchSubmissionResult F)
  unfolding admit_files finish_batch
  admit_batch files params auth = do
    batch_id ← draw
    attempt env.mkdir_raises (λ w. w)
    (summaries, jobs) ← admit_files batch_id files
    finish_batch batch_id summaries jobs params auth

  unfoldable pub submit_batch :
      List UploadedFile → SubmissionParams → AuthContext → Action F (BatchSubmissionResult F)
  unfolding check_files admit_batch
  submit_batch [] params auth = throw (invalid_pdf (codes "No files provided"))
  submit_batch (f ∷ files) params auth = elim (check_files (f ∷ files)) [
    | some e ↦ throw e
    | none ↦ admit_batch (f ∷ files) params auth
  ]
