-- ===== src/JobService/Submission/Effects.antt =====
-- What a submission that returns has changed.
use dev_zu_smart_ingest.Prelude.{List, ◌++◌, map, ◌≡◌, length}
use dev_zu_smart_ingest.Float.{FloatOps}
use dev_zu_smart_ingest.Domain.Entities.{
  Uuid, Job, UploadedFile, SubmissionParams, AuthContext, BatchSubmissionResult,
}
use dev_zu_smart_ingest.Repository.Session.Atomic.{with_batch}
use dev_zu_smart_ingest.JobService.Submission.{World, Environment, new_batch}
use dev_zu_smart_ingest.JobService.Submission.Summaries.{AdmitsAll}

module _ {F : Type 0} (fl : FloatOps F) (env : Environment F) where
  abbrev pub ids : List (Job F) → List Uuid
  ids jobs = map (λ j. j.job_id) jobs

  -- What a submission with this result has done.
  abbrev pub Accepted :
      List UploadedFile
      → SubmissionParams
      → AuthContext
      → World F
      → BatchSubmissionResult F
      → World F
      → Type 0
  Accepted files params auth w r w' =
      (jobs : List (Job F)) × AdmitsAll fl env r.batch_id w.database files r.jobs jobs
      × (r.total ≡ length files)
      × (w'.queue ≡ w.queue ++ ids jobs)
      × (w'.database
          ≡ with_batch fl env.engine (new_batch fl env r.batch_id jobs params auth) jobs w.database)
