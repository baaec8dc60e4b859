-- ===== src/System/Steps.antt =====
-- Saving a batch, and a task with its retries, keep every row sound.
use dev_zu_smart_ingest.Prelude.{
  ℕ, zero, suc, Option, none, some, List, [], ◌∷◌, map, refl, All, All-append, Bool, true, false,
  Option-cases, inl, inr,
}
use dev_zu_smart_ingest.Prelude.Outcome.{Exception, Outcome, returned, raised}
use dev_zu_smart_ingest.Text.{describe}
use dev_zu_smart_ingest.Float.{FloatOps}
use dev_zu_smart_ingest.Domain.Enums.{JobStatus, ConfidenceTier}
use dev_zu_smart_ingest.Domain.Entities.{Uuid, Instant, Batch, Job}
use dev_zu_smart_ingest.Repository.Rows.{job_to_orm, batch_to_orm}
use dev_zu_smart_ingest.Repository.Queries.{Database, Engine, update_job_status, update_job_result}
use dev_zu_smart_ingest.Repository.Session.{Faults, linked_row, create_batch}
use dev_zu_smart_ingest.Orchestrator.Run.{Collaborators, Request, PipelineResult, run_pipeline}
use dev_zu_smart_ingest.Task.{
  Attempt, TaskResult, result_payload, trace_json, prepare, unless_raised, after, refreshed,
  mark_review, store_result, process, run_extract_document_task, mark_job_failed, cleaned, retried,
  extract_document_task,
}
use dev_zu_smart_ingest.System.{IsNew, IsSound}
use dev_zu_smart_ingest.System.Soundness.{
  AllSound, update_job_status-open, update_job_status-done, update_job_result-AllSound,
  result_row-marked,
}

module _ {F : Type 0} (fl : FloatOps F) (engine : Engine F) where
  linked_row-IsSound : (id : Uuid) (job : Job F) → IsNew job → IsSound (linked_row fl engine id job)
  unfolding linked_row job_to_orm
  linked_row-IsSound id job (s, t) = (JobStatus.queued, none, rw s refl, rw t refl, tt)

  linked_rows-IsSound :
      (id : Uuid) (jobs : List (Job F))
      → All IsNew jobs
      → All IsSound (map (linked_row fl engine id) jobs)
  linked_rows-IsSound id [] h = tt
  linked_rows-IsSound id (job ∷ jobs) (n, h) =
      (linked_row-IsSound id job n, linked_rows-IsSound id jobs h)

  pub save-AllSound :
      (faults : Faults) (batch : Batch) (jobs : List (Job F)) (db : Database F)
      → All IsNew jobs
      → AllSound db
      → AllSound
          (create_batch fl engine faults batch jobs (record { stored = db; working = db })).1.stored
  unfolding create_batch
  save-AllSound faults batch jobs db new h =
      let saved =
        All-append IsSound db.jobs _ h (linked_rows-IsSound (batch_to_orm batch).id jobs new) in
      elim (Option-cases faults.flush) [
        | inr (e, f) ↦ rw f h
        | inl f ↦ elim (Option-cases faults.commit) [
          | inr (e, c) ↦ rw (f, c) h
          | inl c ↦ elim (Option-cases faults.refresh) [
            | inr (e, r) ↦ rw (f, c, r) saved
            | inl r ↦ rw (f, c, r) saved
          ]
        ]
      ]

  abbrev Keeps {ℓ} : {A : Type ℓ} → (A × Database F) → Type 0
  Keeps (a, db) = AllSound db

  unless_raised-Keeps :
      (fault : Option Exception) (next : Database F → Outcome (TaskResult F) × Database F)
      (db : Database F)
      → AllSound db
      → AllSound (next db).1
      → AllSound (unless_raised fl engine fault next db).1
  unless_raised-Keeps (some e) next db h k = h
  unless_raised-Keeps none next db h k = k

  mark_review-AllSound :
      (fault : Option Exception) (now : Instant) (id : Uuid) (score : F) (tier : ConfidenceTier)
      (db : Database F)
      → AllSound db
      → AllSound (update_job_status id JobStatus.review none none now db)
      → AllSound (mark_review fl engine fault now id score tier db).1
  unfolding mark_review
  mark_review-AllSound fault now id score ConfidenceTier.auto db h k = h
  mark_review-AllSound fault now id score ConfidenceTier.spot db h k = h
  mark_review-AllSound fault now id score ConfidenceTier.review db h k =
      unless_raised-Keeps fault _ db h k

  after-Keeps :
      (stored : Outcome (Option (Job F)) × Database F)
      (next : Database F → Outcome (TaskResult F) × Database F)
      → AllSound stored.1
      → AllSound (next stored.1).1
      → AllSound (after fl engine stored next).1
  after-Keeps (raised e, db) next h k = h
  after-Keeps (returned x, db) next h k = k

  stored-Keeps :
      (fault : Option Exception) (committed : Outcome (Option (Job F)) × Database F)
      (next : Database F → Outcome (TaskResult F) × Database F)
      → AllSound committed.1
      → AllSound (next committed.1).1
      → AllSound (after fl engine (refreshed fl engine fault committed) next).1
  stored-Keeps none committed next h k = after-Keeps committed next h k
  stored-Keeps (some e) committed next h k = h

  store_result-AllSound :
      (a : Attempt F) (job : Job F) (result : PipelineResult F) (db : Database F)
      → AllSound db
      → AllSound (store_result fl engine a job result db).1
  unfolding store_result
  store_result-AllSound a job result db h =
      let score = result.confidence_assessment.overall_confidence in
      let tier = result.confidence_assessment.tier in
      let payload = result_payload result in
      let trace = some (trace_json result.run) in
      let stored =
        update_job_result engine job.job_id payload tier score a.processing_time_ms a.otel_trace_id
          trace a.finished_at db in
      let kept =
        update_job_result-AllSound engine job.job_id payload tier score a.processing_time_ms
          a.otel_trace_id trace a.finished_at db h in
      let marked =
        update_job_status-done job.job_id JobStatus.review none none a.finished_at stored.1
          (result_row-marked engine job.job_id payload tier score a.processing_time_ms
            a.otel_trace_id trace a.finished_at a.finished_at db)
          kept in
      unless_raised-Keeps a.result_fault _ db h (
        stored-Keeps a.refresh_fault stored _ kept (
          mark_review-AllSound a.review_fault a.finished_at job.job_id score tier stored.1 kept
            marked))

  process-AllSound :
      (a : Attempt F) (job : Job F) (request : Request F) (cs : Collaborators F) (db : Database F)
      → AllSound db
      → AllSound (process fl engine a job request cs db).1
  unfolding process
  process-AllSound a job request cs db h = unless_raised-Keeps a.processing_fault _ db h (
      store_result-AllSound a job (run_pipeline fl cs request) _
        (update_job_status-open job.job_id JobStatus.processing none none a.started_at db refl h))

  run-AllSound :
      (a : Attempt F) (id : Uuid) (db : Database F)
      → AllSound db
      → AllSound (run_extract_document_task fl engine a id db).1
  unfolding run_extract_document_task
  run-AllSound a id db h =
      elim (prepare fl engine a id db)
        as (λ p.
          let reached : Outcome (TaskResult F) × Database F = elim p [
            | raised e ↦ (raised e, db)
            | returned prepared ↦ process fl engine a prepared.0 prepared.1 prepared.2 db
          ] in
          AllSound reached.1) [
            | raised e ↦ h
            | returned prepared ↦ process-AllSound a prepared.0 prepared.1 prepared.2 db h
          ]

  mark_job_failed-AllSound :
      (fault : Option Exception) (now : Instant) (id : Uuid) (e : Exception) (db : Database F)
      → AllSound db
      → AllSound (mark_job_failed fl engine fault now id e db)
  unfolding mark_job_failed
  mark_job_failed-AllSound (some f) now id e db h = h
  mark_job_failed-AllSound none now id e db h =
      update_job_status-open id JobStatus.failed none (some (describe e)) now db refl h

  cleaned-AllSound :
      (is_last : Bool) (a : Attempt F) (id : Uuid) (reached : Outcome (TaskResult F) × Database F)
      → AllSound reached.1
      → AllSound (cleaned fl engine is_last a id reached).1
  cleaned-AllSound is_last a id (returned t, db) h = h
  cleaned-AllSound true a id (raised e, db) h =
      mark_job_failed-AllSound a.cleanup_fault a.finished_at id e db h
  cleaned-AllSound false a id (raised e, db) h = h

  retried-AllSound :
      (reached : Outcome (TaskResult F) × Database F)
      (retry : Database F → Outcome (TaskResult F) × Database F)
      → AllSound reached.1
      → ((db : Database F) → AllSound db → AllSound (retry db).1)
      → AllSound (retried fl engine reached retry).1
  retried-AllSound (returned t, db) retry h again = h
  retried-AllSound (raised e, db) retry h again = again db h

  pub extract-AllSound :
      (attempts : ℕ → Attempt F) (retries : ℕ) (id : Uuid) (db : Database F)
      → AllSound db
      → AllSound (extract_document_task fl engine attempts retries id db).1
  unfolding extract_document_task
  extract-AllSound attempts zero id db h =
      cleaned-AllSound true (attempts zero) id _ (run-AllSound (attempts zero) id db h)
  extract-AllSound attempts (suc left) id db h =
      let a = attempts (suc left) in
      let reached = run_extract_document_task fl engine a id db in
      retried-AllSound (cleaned fl engine false a id reached)
        (extract_document_task fl engine attempts left id)
        (cleaned-AllSound false a id reached (run-AllSound a id db h))
        (extract-AllSound attempts left id)
