-- ===== src/Task/Settling.antt =====
-- How the task leaves its job.
use dev_zu_smart_ingest.Prelude.{
  ℕ, zero, suc, Option, none, some, true, false, ◌≡◌, refl, sym, ap, ◌∙◌, subst, inl, inr, arith,
  Option-cases,
}
use dev_zu_smart_ingest.Prelude.Outcome.{
  Exception, Outcome-cases, Outcome, returned, raised, >>=-eq-returned, optional-eq-returned,
  returned-injective,
}
use dev_zu_smart_ingest.Text.{describe}
use dev_zu_smart_ingest.Float.{FloatOps}
use dev_zu_smart_ingest.Domain.Enums.{JobStatus, ConfidenceTier}
use dev_zu_smart_ingest.Domain.Entities.{Uuid, Instant, Job}
use dev_zu_smart_ingest.Repository.Rows.{JobRow, to_job, member}
use dev_zu_smart_ingest.Repository.Queries.{Database, Engine, job_row, get_job}
use dev_zu_smart_ingest.Repository.Updates.{
  find?-id, get_job-update_job_status_self, get_job-update_job_result_self,
}
use dev_zu_smart_ingest.Orchestrator.Run.{Collaborators, Request, PipelineResult, run_pipeline}
use dev_zu_smart_ingest.Task.{
  Attempt, TaskResult, result_payload, trace_json, statement, status_of_tier, prepare,
  unless_raised, after, mark_review, store_result, process, run_extract_document_task,
  mark_job_failed, cleaned, retried, extract_document_task,
}

module _ {F : Type 0} where
  to_job-job_id : (row : JobRow F) (job : Job F) → to_job row ≡ returned job → job.job_id ≡ row.id
  unfolding to_job member
  to_job-job_id row job h = ground (arith, h)

  get_job-job_id :
      (id : Uuid) (db : Database F) (job : Job F)
      → get_job id db ≡ returned (some job)
      → job.job_id ≡ id
  unfolding get_job
  get_job-job_id id db job h =
      let (row, found, read) = optional-eq-returned to_job (job_row id db) h in
      to_job-job_id row job read ∙ find?-id id db.jobs row found

  -- What an attempt says of the job as it is read afterwards.
  abbrev pub Reported : Outcome (TaskResult F) → Job F → Type 0
  Reported (returned t) job =
      (job.status ≡ t.status)
      × (job.status ≡ status_of_tier t.confidence_tier)
      × (job.confidence_tier ≡ some t.confidence_tier)
  Reported (raised e) job = Unit

  abbrev pub Leaves : Uuid → Outcome (TaskResult F) × Database F → Type 0
  Leaves id (outcome, db) =
      (job : Job F) × (get_job id db ≡ returned (some job)) × Reported outcome job

module _ {F : Type 0} (fl : FloatOps F) (engine : Engine F) where
  unless_raised-Leaves :
      (fault : Option Exception) (next : Database F → Outcome (TaskResult F) × Database F)
      (id : Uuid) (db : Database F) (job : Job F)
      → get_job id db ≡ returned (some job)
      → Leaves id (next db)
      → Leaves id (unless_raised fl engine fault next db)
  unless_raised-Leaves (some e) next id db job h k = (job, h, tt)
  unless_raised-Leaves none next id db job h k = k

  mark_review-Leaves :
      (fault : Option Exception) (now : Instant) (id : Uuid) (score : F) (tier : ConfidenceTier)
      (db : Database F) (job : Job F)
      → get_job id db ≡ returned (some job)
      → job.status ≡ JobStatus.completed
      → job.confidence_tier ≡ some tier
      → Leaves id (mark_review fl engine fault now id score tier db)
  unfolding mark_review
  mark_review-Leaves fault now id score ConfidenceTier.auto db job h s t = (job, h, (s, s, t))
  mark_review-Leaves fault now id score ConfidenceTier.spot db job h s t = (job, h, (s, s, t))
  mark_review-Leaves fault now id score ConfidenceTier.review db job h s t =
      let updated = get_job-update_job_status_self id JobStatus.review none none now db job h in
      unless_raised-Leaves fault _ id db job h (_, updated, (refl, refl, t))

  store_result-Leaves :
      (a : Attempt F) (job stored : Job F) (result : PipelineResult F) (db : Database F)
      → get_job job.job_id db ≡ returned (some stored)
      → Leaves job.job_id (store_result fl engine a job result db)
  unfolding store_result
  store_result-Leaves a job stored result db h =
      let score = result.confidence_assessment.overall_confidence in
      let tier = result.confidence_assessment.tier in
      let stored_eq =
        get_job-update_job_result_self engine job.job_id (result_payload result) tier score
          a.processing_time_ms a.otel_trace_id (some (trace_json result.run)) a.finished_at db
          stored h in
      unless_raised-Leaves a.result_fault _ job.job_id db stored h
        (elim (Option-cases a.refresh_fault) [
          | inl read ↦
              rw (read, stored_eq.1)
                (mark_review-Leaves a.review_fault a.finished_at job.job_id score tier _ _
                  stored_eq.0 refl refl)
          | inr (e, lost) ↦ rw lost (_, stored_eq.0, tt)
        ])

  process-Leaves :
      (a : Attempt F) (job stored : Job F) (request : Request F) (cs : Collaborators F)
      (db : Database F)
      → get_job job.job_id db ≡ returned (some stored)
      → Leaves job.job_id (process fl engine a job request cs db)
  unfolding process
  process-Leaves a job stored request cs db h =
      let marked =
        get_job-update_job_status_self job.job_id JobStatus.processing none none a.started_at db
          stored h in
      unless_raised-Leaves a.processing_fault _ job.job_id db stored h
        (store_result-Leaves a job _ (run_pipeline fl cs request) _ marked)

  prepare-job :
      (a : Attempt F) (id : Uuid) (db : Database F) (stored : Job F)
      (prepared : Job F × Request F × Collaborators F)
      → get_job id db ≡ returned (some stored)
      → prepare fl engine a id db ≡ returned prepared
      → prepared.0 ≡ stored
  unfolding prepare
  prepare-job a id db stored prepared h k =
      let (u, s, rest) = >>=-eq-returned (statement a.read_fault) _ k in
      let (found, f, rest') = >>=-eq-returned (get_job id db) _ rest in
      let same : found ≡ some stored = returned-injective (sym f ∙ h) in ground (arith, same, rest')

  run-Leaves :
      (a : Attempt F) (id : Uuid) (db : Database F) (stored : Job F)
      → get_job id db ≡ returned (some stored)
      → Leaves id (run_extract_document_task fl engine a id db)
  unfolding run_extract_document_task
  run-Leaves a id db stored h = elim (Outcome-cases (prepare fl engine a id db)) [
    | inr (e, k) ↦ rw (k, run_extract_document_task) (stored, h, tt)
    | inl (prepared, k) ↦
        let same = prepare-job a id db stored prepared h k in
        let named : prepared.0.job_id ≡ id =
          ap (λ j. j.job_id) same ∙ get_job-job_id id db stored h in
        rw (k, run_extract_document_task)
          (subst
            (λ i.
              get_job i db ≡ returned (some stored)
              → Leaves i (process fl engine a prepared.0 prepared.1 prepared.2 db))
            named (process-Leaves a prepared.0 stored prepared.1 prepared.2 db) h)
  ]

  -- What a task leaves once its retries are used up.
  abbrev pub Outcomes : Outcome (TaskResult F) → Job F → Type 0
  Outcomes (returned t) job = Reported (returned t) job
  Outcomes (raised e) job =
      (job.status ≡ JobStatus.failed) × (job.error_message ≡ some (describe e))

  cleaned-true :
      (a : Attempt F) (id : Uuid) (reached : Outcome (TaskResult F) × Database F)
      → a.cleanup_fault ≡ none
      → Leaves id reached
      → let (outcome, db) = cleaned fl engine true a id reached in
        (job : Job F) × (get_job id db ≡ returned (some job)) × Outcomes outcome job
  unfolding mark_job_failed
  cleaned-true a id (returned t, db) none_raised (job, h, r) = (job, h, r)
  cleaned-true a id (raised e, db) none_raised (job, h, r) =
      let updated =
        get_job-update_job_status_self id JobStatus.failed none (some (describe e)) a.finished_at db
          job h in
      rw (none_raised, mark_job_failed) (_, updated, (refl, refl))

  retried-Outcomes :
      (a : Attempt F) (id : Uuid) (reached : Outcome (TaskResult F) × Database F)
      (retry : Database F → Outcome (TaskResult F) × Database F)
      → Leaves id reached
      → ((db : Database F) (job : Job F)
          → get_job id db ≡ returned (some job)
          → (after : Job F) × (get_job id (retry db).1 ≡ returned (some after))
            × Outcomes (retry db).0 after)
      → let (outcome, db) = retried fl engine (cleaned fl engine false a id reached) retry in
        (job : Job F) × (get_job id db ≡ returned (some job)) × Outcomes outcome job
  retried-Outcomes a id (returned t, db) retry (job, h, r) again = (job, h, r)
  retried-Outcomes a id (raised e, db) retry (job, h, r) again = again db job h

  -- Whatever the attempts meet, a task for a stored job ends with the job settled, if the database
  -- takes the cleanup: a task that returns leaves the status that it reports, REVIEW for the tier
  -- REVIEW and COMPLETED for the others, together with that tier; a task that raises leaves the job
  -- FAILED with the last exception as its error message.
  pub extract_document_task-settles :
      (attempts : ℕ → Attempt F) (retries_left : ℕ) (id : Uuid) (db : Database F) (stored : Job F)
      → get_job id db ≡ returned (some stored)
      → (attempts 0).cleanup_fault ≡ none
      → let (outcome, after) = extract_document_task fl engine attempts retries_left id db in
        (job : Job F) × (get_job id after ≡ returned (some job)) × Outcomes outcome job
  unfolding extract_document_task
  extract_document_task-settles attempts zero id db stored h clean =
      cleaned-true (attempts zero) id _ clean (run-Leaves (attempts zero) id db stored h)
  extract_document_task-settles attempts (suc left) id db stored h clean =
      retried-Outcomes (attempts (suc left)) id _ _
        (run-Leaves (attempts (suc left)) id db stored h)
        (λ after job k. extract_document_task-settles attempts left id after job k clean)
