-- ===== src/System/Submissions.antt =====
-- A submission keeps every row sound, whether it returns or raises.
use dev_zu_smart_ingest.Prelude.{
  ℕ, suc, ◌++◌, Option, none, some, List, [], ◌∷◌, ◌≡◌, refl, All, Option-cases, inl, inr,
}
use dev_zu_smart_ingest.Prelude.Outcome.{Exception, Outcome, returned, raised}
use dev_zu_smart_ingest.Float.{FloatOps}
use dev_zu_smart_ingest.Domain.Entities.{
  Uuid, FileHash, Batch, Job, JobSummary, UploadedFile, SubmissionParams, AuthContext,
}
use dev_zu_smart_ingest.Repository.Queries.{get_job_by_file_hash}
use dev_zu_smart_ingest.Repository.Session.{create_batch}
use dev_zu_smart_ingest.Text.{Text}
use dev_zu_smart_ingest.JobService.Submission.{
  World, Environment, Action, ◌>>=◌, and_then, attempt, write_bytes, lookup_hash, cache_hit, answer,
  new_job, admit_file, with_job, admit_files, new_batch, save_batch, enqueue_jobs, finish_batch,
  admit_batch, check_files, submit_batch, file_path,
}
use dev_zu_smart_ingest.System.{IsNew}
use dev_zu_smart_ingest.System.Soundness.{AllSound}
use dev_zu_smart_ingest.System.Steps.{save-AllSound}

abbrev Gives {ℓ κ} : {A : Type ℓ} → (A → Type κ) → Outcome A → Type κ
Gives Q (returned a) = Q a
Gives Q (raised e) = Unit

abbrev Always {ℓ} : {A : Type ℓ} → A → Type 0
Always a = Unit

Gives-Always {ℓ} : {A : Type ℓ} (o : Outcome A) → Gives Always o
Gives-Always (returned a) = tt
Gives-Always (raised e) = tt

module _ {F A : Type 0} where
  abbrev Kept : (A → Type 0) → Outcome A × World F → Type 0
  Kept Q (outcome, w) = AllSound w.database × Gives Q outcome

  -- From sound rows an action leaves sound rows, and what it gives has a property.
  abbrev Keeps : (A → Type 0) → Action F A → Type 0
  Keeps Q m = (w : World F) → AllSound w.database → Kept Q (m w)

module _ {F A B : Type 0} where
  and_then-Kept :
      (Q : A → Type 0) (R : B → Type 0) (f : A → Action F B) (reached : Outcome A × World F)
      → ((a : A) → Q a → Keeps R (f a))
      → Kept Q reached
      → Kept R (and_then reached.0 f reached.1)
  and_then-Kept Q R f (returned a, w) keeps (sound, q) = keeps a q w sound
  and_then-Kept Q R f (raised e, w) keeps (sound, q) = (sound, tt)

  >>=-Keeps :
      (Q : A → Type 0) (R : B → Type 0) (m : Action F A) (f : A → Action F B)
      → Keeps Q m
      → ((a : A) → Q a → Keeps R (f a))
      → Keeps R (m >>= f)
  >>=-Keeps Q R m f first then w sound = and_then-Kept Q R f (m w) then (first w sound)

module _ {F : Type 0} where
  attempt-Keeps :
      (fault : Option Exception) (f : World F → World F)
      → ((w : World F) → (f w).database ≡ w.database)
      → Keeps Always (attempt fault f)
  attempt-Keeps none f same w sound = (rw (same w) sound, tt)
  attempt-Keeps (some e) f same w sound = (sound, tt)

module _ {F : Type 0} (fl : FloatOps F) (env : Environment F) where
  -- What a file adds to the new jobs is a new job.
  abbrev NewIfAny : JobSummary F × Option (Job F) → Type 0
  NewIfAny (summary, none) = Unit
  NewIfAny (summary, some job) = IsNew job

  write_bytes-Keeps :
      (path : Text) (content : List ℕ) → Keeps Always (write_bytes fl env path content)
  write_bytes-Keeps path content w sound =
      attempt-Keeps (env.write_raises w.drawn) _ (λ v. refl) w sound

  answer-Keeps :
      (batch_id : Uuid) (f : UploadedFile) (hash : FileHash) (earlier : Option (Job F))
      → Keeps NewIfAny (answer fl env batch_id f hash earlier)
  unfolding new_job
  answer-Keeps batch_id f hash (some job) w sound = (sound, tt)
  answer-Keeps batch_id f hash none w sound =
      let written : Kept Always (
          write_bytes fl env (file_path fl env batch_id (env.uuid4 w.drawn)) f.content
            (record w { drawn = suc w.drawn })) =
        write_bytes-Keeps _ f.content (record w { drawn = suc w.drawn }) sound in
      and_then-Kept Always NewIfAny _ _ (λ u ok v kept. (kept, (refl, refl))) written

  lookup_hash-Keeps : (hash : FileHash) → Keeps Always (lookup_hash fl env hash)
  lookup_hash-Keeps hash w sound = elim (Option-cases (env.lookup_raises hash)) [
    | inl quiet ↦
        rw (quiet, lookup_hash)
          (sound, Gives-Always (get_job_by_file_hash env.engine hash w.database))
    | inr (e, loud) ↦ rw (loud, lookup_hash) (sound, tt)
  ]

  admit_file-Keeps :
      (batch_id : Uuid) (f : UploadedFile) → Keeps NewIfAny (admit_file fl env batch_id f)
  unfolding admit_file
  admit_file-Keeps batch_id f =
      let hash = env.sha256 f.content in
      >>=-Keeps Always NewIfAny (lookup_hash fl env hash)
        (λ (existing : Option (Job F)). answer fl env batch_id f hash (cache_hit fl env existing))
        (lookup_hash-Keeps hash)
        (λ existing ok. answer-Keeps batch_id f hash (cache_hit fl env existing))

  abbrev AllNew : List (JobSummary F) × List (Job F) → Type 0
  AllNew (summaries, jobs) = All IsNew jobs

  with_job-AllNew :
      (p : JobSummary F × Option (Job F)) (q : List (JobSummary F) × List (Job F))
      → NewIfAny p
      → AllNew q
      → All IsNew (with_job fl env p.1 q.1)
  with_job-AllNew (summary, none) q new all = all
  with_job-AllNew (summary, some job) q new all = (new, all)

  admit_files-Keeps :
      (batch_id : Uuid) (files : List UploadedFile)
      → Keeps AllNew (admit_files fl env batch_id files)
  unfolding admit_files
  admit_files-Keeps batch_id [] = λ w sound. (sound, tt)
  admit_files-Keeps batch_id (f ∷ files) =
      >>=-Keeps NewIfAny AllNew (admit_file fl env batch_id f) _ (admit_file-Keeps batch_id f)
        (λ p new.
          >>=-Keeps AllNew AllNew (admit_files fl env batch_id files) _
            (admit_files-Keeps batch_id files)
            (λ q all w sound. (sound, with_job-AllNew p q new all)))

  enqueue_jobs-Keeps : (jobs : List (Job F)) → Keeps Always (enqueue_jobs fl env jobs)
  unfolding enqueue_jobs
  enqueue_jobs-Keeps [] = λ w sound. (sound, tt)
  enqueue_jobs-Keeps (job ∷ jobs) =
      >>=-Keeps Always Always
        (attempt (env.enqueue_raises job.job_id)
          (λ (w : World F). record w { queue = w.queue ++ job.job_id ∷ [] }))
        (λ (_ : Unit). enqueue_jobs fl env jobs)
        (attempt-Keeps (env.enqueue_raises job.job_id) _ (λ w. refl))
        (λ u ok. enqueue_jobs-Keeps jobs)

  save_batch-Keeps :
      (batch : Batch) (jobs : List (Job F))
      → All IsNew jobs
      → Keeps Always (save_batch fl env batch jobs)
  save_batch-Keeps batch jobs new w sound = (
    save-AllSound fl env.engine env.faults batch jobs w.database new sound,
    Gives-Always
        (create_batch fl env.engine env.faults batch jobs
          (record { stored = w.database; working = w.database })).0,
  )

  finish_batch-Keeps :
      (batch_id : Uuid) (summaries : List (JobSummary F)) (jobs : List (Job F))
      (params : SubmissionParams) (auth : AuthContext)
      → All IsNew jobs
      → Keeps Always (finish_batch fl env batch_id summaries jobs params auth)
  unfolding finish_batch
  finish_batch-Keeps batch_id summaries jobs params auth new =
      >>=-Keeps Always Always (save_batch fl env (new_batch fl env batch_id jobs params auth) jobs)
        _ (save_batch-Keeps (new_batch fl env batch_id jobs params auth) jobs new)
        (λ b ok.
          >>=-Keeps Always Always (enqueue_jobs fl env jobs) _ (enqueue_jobs-Keeps jobs)
            (λ u ok' w sound. (sound, tt)))

  admit_batch-Keeps :
      (files : List UploadedFile) (params : SubmissionParams) (auth : AuthContext)
      → Keeps Always (admit_batch fl env files params auth)
  unfolding admit_batch
  admit_batch-Keeps files params auth w sound =
      let id = env.uuid4 w.drawn in
      >>=-Keeps Always Always (attempt env.mkdir_raises (λ (x : World F). x))
        (λ (_ : Unit). admit_files fl env id files >>= λ (p : List (JobSummary F) × List (Job F)).
          finish_batch fl env id p.0 p.1 params auth)
        (attempt-Keeps env.mkdir_raises _ (λ v. refl))
        (λ u ok.
          >>=-Keeps AllNew Always (admit_files fl env id files) _ (admit_files-Keeps id files)
            (λ p new. finish_batch-Keeps id p.0 p.1 params auth new))
        (record w { drawn = suc w.drawn }) sound

  pub submit-AllSound :
      (files : List UploadedFile) (params : SubmissionParams) (auth : AuthContext) (w : World F)
      → AllSound w.database
      → AllSound (submit_batch fl env files params auth w).1.database
  unfolding submit_batch
  submit-AllSound [] params auth w sound = sound
  submit-AllSound (f ∷ files) params auth w sound =
      elim (Option-cases (check_files fl env (f ∷ files))) [
        | inl ok ↦ rw (ok, submit_batch) (admit_batch-Keeps (f ∷ files) params auth w sound).0
        | inr (e, refused) ↦ rw (refused, submit_batch) sound
      ]
