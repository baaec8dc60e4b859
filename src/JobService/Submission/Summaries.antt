-- ===== src/JobService/Submission/Summaries.antt =====
-- What one accepted file contributes to a submission, and what the loop over the files leaves alone.
use mathlib.Core.Path.{subst, sym}
use dev_zu_smart_ingest.Prelude.{Option, none, some, List, [], ◌∷◌, ◌≡◌, refl, arith}
use dev_zu_smart_ingest.Prelude.Outcome.{Outcome, returned, raised}
use dev_zu_smart_ingest.Float.{FloatOps}
use dev_zu_smart_ingest.Domain.Enums.{JobStatus}
use dev_zu_smart_ingest.Domain.Entities.{Uuid, Job, JobSummary, UploadedFile, FileHash}
use dev_zu_smart_ingest.Repository.Queries.{Database, get_job_by_file_hash}
use dev_zu_smart_ingest.JobService.Submission.{
  World, Environment, Action, ◌>>=◌, and_then, pure, cache_hit, cached_summary, queued_summary,
  new_job, admit_file, with_job, admit_files,
}

module _ {F A B : Type 0} where
  -- Inversion of a sequence of two actions that gave a value.
  pub action-eq-returned :
      (m : Action F A) (f : A → Action F B) (w : World F) {b : B} {w' : World F}
      → (m >>= f) w ≡ (returned b, w')
      → (a : A) × (v : World F) × (m w ≡ (returned a, v)) × (f a v ≡ (returned b, w'))
  action-eq-returned m f w {b} {w'} h = go (m w) refl h
    where
      go :
          (r : Outcome A × World F)
          → m w ≡ r
          → and_then r.0 f r.1 ≡ (returned b, w')
          → (a : A) × (v : World F) × (m w ≡ (returned a, v)) × (f a v ≡ (returned b, w'))
      go (returned a, v) e k = (a, v, e, k)
      go (raised x, v) e k = cc

module _ {F : Type 0} (fl : FloatOps F) (env : Environment F) where
  -- The earlier job whose result answers a hash.
  abbrev pub earlier : FileHash → Database F → Option (Job F)
  earlier file_hash db = elim (get_job_by_file_hash env.engine file_hash db) [
    | returned job ↦ cache_hit fl env job
    | raised e ↦ none
  ]

  -- A file is answered CACHED with the earlier job's id and result, or it is QUEUED with a new job.
  abbrev pub Answers : Uuid → Option (Job F) → UploadedFile → JobSummary F → Option (Job F) → Type 0
  Answers batch_id (some job) f s new =
      (s.status ≡ JobStatus.cached)
      × (s.job_id ≡ job.job_id)
      × (s.result ≡ job.result)
      × (new ≡ none)
  Answers batch_id none f s new =
      (s.status ≡ JobStatus.queued)
      × (s.result ≡ none)
      × (new ≡ some (new_job fl env batch_id f (env.sha256 f.content) s.job_id))

  abbrev pub Admits : Uuid → Database F → UploadedFile → JobSummary F → Option (Job F) → Type 0
  Admits batch_id db f s new =
      (s.filename ≡ f.filename)
      × (s.file_hash ≡ env.sha256 f.content)
      × Answers batch_id (earlier (env.sha256 f.content) db) f s new

  -- One summary for each file, in order, and the new jobs in the order of their files.
  abbrev pub AdmitsAll :
      Uuid → Database F → List UploadedFile → List (JobSummary F) → List (Job F) → Type 0
  AdmitsAll batch_id db [] [] jobs = jobs ≡ []
  AdmitsAll batch_id db [] (s ∷ ss) jobs = ⊥
  AdmitsAll batch_id db (f ∷ fs) [] jobs = ⊥
  AdmitsAll batch_id db (f ∷ fs) (s ∷ ss) jobs =
      (new : Option (Job F)) × (rest : List (Job F)) × (jobs ≡ with_job fl env new rest)
      × Admits batch_id db f s new
      × AdmitsAll batch_id db fs ss rest

  pub admit_file-Admits :
      (batch_id : Uuid) (f : UploadedFile) (w : World F) (s : JobSummary F) (new : Option (Job F))
      (w' : World F)
      → admit_file fl env batch_id f w ≡ (returned (s, new), w')
      → Admits batch_id w.database f s new × (w'.database ≡ w.database) × (w'.queue ≡ w.queue)
  unfolding admit_file cached_summary queued_summary
  admit_file-Admits batch_id f w s new w' h = ground arith

  pub admit_files-AdmitsAll :
      (batch_id : Uuid) (files : List UploadedFile) (w : World F) (ss : List (JobSummary F))
      (jobs : List (Job F)) (w' : World F)
      → admit_files fl env batch_id files w ≡ (returned (ss, jobs), w')
      → AdmitsAll batch_id w.database files ss jobs
        × (w'.database ≡ w.database)
        × (w'.queue ≡ w.queue)
  unfolding admit_files
  admit_files-AdmitsAll batch_id [] w [] jobs w' h = ground arith
  admit_files-AdmitsAll batch_id [] w (s ∷ ss) jobs w' h = ground arith
  admit_files-AdmitsAll batch_id (f ∷ files) w ss jobs w' h =
      let (p, v, first, more) =
        action-eq-returned (admit_file fl env batch_id f)
          (λ (q : JobSummary F × Option (Job F)).
            admit_files fl env batch_id files >>= λ (r : List (JobSummary F) × List (Job F)).
            pure (q.0 ∷ r.0, with_job fl env q.1 r.1))
          w h in
      let (q, u, second, done) =
        action-eq-returned (admit_files fl env batch_id files)
          (λ (r : List (JobSummary F) × List (Job F)). pure (p.0 ∷ r.0, with_job fl env p.1 r.1)) v
          more in
      let (head, same, still) = admit_file-Admits batch_id f w p.0 p.1 v first in
      let (tail, same', still') = admit_files-AdmitsAll batch_id files v q.0 q.1 u second in
      let tail' = subst (λ db. AdmitsAll batch_id db files q.0 q.1) same tail in
      let summaries : p.0 ∷ q.0 ≡ ss = ground (arith, done) in
      let made : with_job fl env p.1 q.1 ≡ jobs = ground (arith, done) in
      (
        subst (λ l. AdmitsAll batch_id w.database (f ∷ files) l jobs) summaries
            (p.1, q.1, sym made, head, tail'),
        ground (arith, same, same', done),
        ground (arith, still, still', done),
      )
