-- ===== src/JobService/Submission/Totality.antt =====
-- A submission of acceptable files returns when nothing outside fails.
use dev_zu_smart_ingest.Prelude.{
  ℕ, suc, Option, none, some, List, [], ◌∷◌, ◌++◌, ◌≡◌, ◌≢◌, refl, sym, ap, ◌∙◌, subst, arith, All,
}
use dev_zu_smart_ingest.Prelude.Outcome.{Exception, returned}
use dev_zu_smart_ingest.Float.{FloatOps}
use dev_zu_smart_ingest.Domain.Entities.{
  Uuid, FileHash, Batch, Job, JobSummary, UploadedFile, SubmissionParams, AuthContext,
}
use dev_zu_smart_ingest.Repository.Queries.{Database, get_job_by_file_hash}
use dev_zu_smart_ingest.Repository.Session.Atomic.{create_batch-cases}
use dev_zu_smart_ingest.JobService.Submission.{
  World, Environment, Action, ◌>>=◌, and_then, pure, attempt, lookup_hash, cache_hit, answer,
  file_path, queued_summary, new_job, admit_file, with_job, admit_files, new_batch, save_batch,
  enqueue_jobs, submission_result, finish_batch, admit_batch, submit_batch,
}
use dev_zu_smart_ingest.JobService.Submission.Validation.{IsAcceptable, check_files-none_iff}
use dev_zu_smart_ingest.JobService.Submission.Summaries.{admit_file-Admits, admit_files-AdmitsAll}

-- No call of the file system, the database or the queue raises, and every COMPLETED row that the
-- deduplication may meet can be read.
pub record IsHealthy {F : Type 0} (env : Environment F) (db : Database F) : Type 0 where
  pub makes : env.mkdir_raises ≡ none
  pub writes : (n : ℕ) → env.write_raises n ≡ none
  pub looks_up : (h : FileHash) → env.lookup_raises h ≡ none
  pub flushes : env.faults.flush ≡ none
  pub commits : env.faults.commit ≡ none
  pub refreshes : env.faults.refresh ≡ none
  pub enqueues : (id : Uuid) → env.enqueue_raises id ≡ none
  pub reads :
      (h : FileHash) → (o : Option (Job F)) × (get_job_by_file_hash env.engine h db ≡ returned o)

module _ {F A : Type 0} where
  -- The action gives a value.
  abbrev pub Returns : Action F A → World F → Type 0
  Returns m w = (a : A) × (v : World F) × (m w ≡ (returned a, v))

module _ {F A B : Type 0} where
  Returns->>= :
      (m : Action F A) (f : A → Action F B) (w : World F)
      → (first : Returns m w) → Returns (f first.0) first.1
      → Returns (m >>= f) w
  Returns->>= m f w (a, v, e) (b, u, k) = (b, u, ap (λ r. and_then r.0 f r.1) e ∙ k)

module _ {F : Type 0} (fl : FloatOps F) (env : Environment F) where
  attempt-Returns :
      (fault : Option Exception) (f : World F → World F) (w : World F)
      → fault ≡ none
      → Returns (attempt fault f) w
  attempt-Returns none f w h = (tt, f w, refl)
  attempt-Returns (some e) f w h = absurd (ground (arith, h))

  attempt-database :
      (fault : Option Exception) (w : World F)
      → (attempt fault (λ (x : World F). x) w).1.database ≡ w.database
  attempt-database none w = refl
  attempt-database (some e) w = refl

  attempt-pure :
      {A : Type 0} (fault : Option Exception) (f : World F → World F) (x : A) (w : World F)
      → fault ≡ none
      → Returns (attempt fault f >>= λ (_ : Unit). pure x) w
  attempt-pure none f x w h = (x, f w, refl)
  attempt-pure (some e) f x w h = absurd (ground (arith, h))

  answer-Returns :
      (batch_id : Uuid) (f : UploadedFile) (hash : FileHash) (earlier : Option (Job F))
      (w : World F)
      → IsHealthy env w.database
      → Returns (answer fl env batch_id f hash earlier) w
  answer-Returns batch_id f hash (some job) w healthy = (_, w, refl)
  answer-Returns batch_id f hash none w healthy =
      let id = env.uuid4 w.drawn in
      attempt-pure (env.write_raises (suc w.drawn))
        (λ (v : World F). record v {
          disk = v.disk ++ (file_path fl env batch_id id, f.content) ∷ [];
        })
        (queued_summary fl env f hash id, some (new_job fl env batch_id f hash id))
        (record w { drawn = suc w.drawn }) (healthy.writes (suc w.drawn))

  admit_file-Returns :
      (batch_id : Uuid) (f : UploadedFile) (w : World F)
      → IsHealthy env w.database
      → Returns (admit_file fl env batch_id f) w
  unfolding admit_file
  admit_file-Returns batch_id f w healthy =
      let hash = env.sha256 f.content in
      let (o, read) = healthy.reads hash in
      let looked : lookup_hash fl env hash w ≡ (returned o, w) =
        ground (arith, healthy.looks_up hash, read) in
      Returns->>= (lookup_hash fl env hash)
        (λ e. answer fl env batch_id f hash (cache_hit fl env e)) w (o, w, looked)
        (answer-Returns batch_id f hash (cache_hit fl env o) w healthy)

  admit_files-Returns :
      (batch_id : Uuid) (files : List UploadedFile) (w : World F)
      → IsHealthy env w.database
      → Returns (admit_files fl env batch_id files) w
  unfolding admit_files
  admit_files-Returns batch_id [] w healthy = (_, w, refl)
  admit_files-Returns batch_id (f ∷ files) w healthy =
      let first = admit_file-Returns batch_id f w healthy in
      let ((s, new), v, e) = first in
      let (_, same, _) = admit_file-Admits fl env batch_id f w s new v e in
      let rest = admit_files-Returns batch_id files v (subst (IsHealthy env) (sym same) healthy) in
      Returns->>= (admit_file fl env batch_id f)
        (λ (q : JobSummary F × Option (Job F)).
          admit_files fl env batch_id files >>= λ (r : List (JobSummary F) × List (Job F)).
          pure (q.0 ∷ r.0, with_job fl env q.1 r.1))
        w first
        (Returns->>= (admit_files fl env batch_id files)
          (λ (r : List (JobSummary F) × List (Job F)). pure (s ∷ r.0, with_job fl env new r.1)) v
          rest (_, _, refl))

  enqueue_jobs-Returns :
      (jobs : List (Job F)) (w : World F)
      → ((id : Uuid) → env.enqueue_raises id ≡ none)
      → Returns (enqueue_jobs fl env jobs) w
  unfolding enqueue_jobs
  enqueue_jobs-Returns [] w h = (tt, w, refl)
  enqueue_jobs-Returns (job ∷ jobs) w h =
      Returns->>=
        (attempt (env.enqueue_raises job.job_id)
          (λ (x : World F). record x { queue = x.queue ++ job.job_id ∷ [] }))
        (λ (_ : Unit). enqueue_jobs fl env jobs) w
        (attempt-Returns (env.enqueue_raises job.job_id) _ w (h job.job_id))
        (enqueue_jobs-Returns jobs _ h)

  save_batch-Returns :
      (batch : Batch) (jobs : List (Job F)) (w : World F)
      → IsHealthy env w.database
      → Returns (save_batch fl env batch jobs) w
  save_batch-Returns batch jobs w healthy =
      let done =
        create_batch-cases fl env.engine env.faults batch jobs
          (record { stored = w.database; working = w.database }) in
      (
        batch,
        (save_batch fl env batch jobs w).1,
        ground (arith, done, healthy.flushes, healthy.commits, healthy.refreshes),
      )

  finish_batch-Returns :
      (batch_id : Uuid) (ss : List (JobSummary F)) (jobs : List (Job F)) (params : SubmissionParams)
      (auth : AuthContext) (w : World F)
      → IsHealthy env w.database
      → Returns (finish_batch fl env batch_id ss jobs params auth) w
  unfolding finish_batch
  finish_batch-Returns batch_id ss jobs params auth w healthy =
      let batch = new_batch fl env batch_id jobs params auth in
      let saved = save_batch-Returns batch jobs w healthy in
      let queued = enqueue_jobs-Returns jobs saved.1 healthy.enqueues in
      Returns->>= (save_batch fl env batch jobs)
        (λ (_ : Batch).
          enqueue_jobs fl env jobs >>= λ (_ : Unit). pure (submission_result fl env batch_id ss))
        w saved
        (Returns->>= (enqueue_jobs fl env jobs)
          (λ (_ : Unit). pure (submission_result fl env batch_id ss)) saved.1 queued (_, _, refl))

  admit_batch-Returns :
      (files : List UploadedFile) (params : SubmissionParams) (auth : AuthContext) (w : World F)
      → IsHealthy env w.database
      → Returns (admit_batch fl env files params auth) w
  unfolding admit_batch
  admit_batch-Returns files params auth w healthy =
      let id = env.uuid4 w.drawn in
      let v : World F = record w { drawn = suc w.drawn } in
      let made = attempt-Returns env.mkdir_raises (λ (x : World F). x) v healthy.makes in
      let unmoved : made.1.database ≡ w.database =
        ap (λ r. r.1.database) (sym made.2) ∙ attempt-database env.mkdir_raises v in
      let healthy' = subst (IsHealthy env) (sym unmoved) healthy in
      let admitted = admit_files-Returns id files made.1 healthy' in
      let (_, same, _) =
        admit_files-AdmitsAll fl env id files made.1 admitted.0.0 admitted.0.1 admitted.1
          admitted.2 in
      Returns->>= (attempt env.mkdir_raises (λ (x : World F). x))
        (λ (_ : Unit). admit_files fl env id files >>= λ (p : List (JobSummary F) × List (Job F)).
          finish_batch fl env id p.0 p.1 params auth)
        v made
        (Returns->>= (admit_files fl env id files)
          (λ (p : List (JobSummary F) × List (Job F)). finish_batch fl env id p.0 p.1 params auth)
          made.1 admitted
          (finish_batch-Returns id admitted.0.0 admitted.0.1 params auth admitted.1
            (subst (IsHealthy env) (sym same) healthy')))

  -- A submission of at least one file, all of them acceptable, returns a result when nothing outside
  -- it fails: no call of the file system, the database or the queue raises, and every row that the
  -- deduplication may meet can be read.
  pub submit_batch-Returns :
      (files : List UploadedFile) (params : SubmissionParams) (auth : AuthContext) (w : World F)
      → files ≢ []
      → All (IsAcceptable fl env) files
      → IsHealthy env w.database
      → Returns (submit_batch fl env files params auth) w
  unfolding submit_batch
  submit_batch-Returns [] params auth w some_file acceptable healthy = absurd (some_file refl)
  submit_batch-Returns (f ∷ files) params auth w some_file acceptable healthy =
      let checked = (check_files-none_iff fl env (f ∷ files)).1 acceptable in
      rw (checked, submit_batch) (admit_batch-Returns (f ∷ files) params auth w healthy)
