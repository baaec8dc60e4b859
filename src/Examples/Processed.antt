-- ===== src/Examples/Processed.antt =====
-- A task whose last attempt meets a broken file.
use dev_zu_smart_ingest.Prelude.{ℕ, zero, suc, Option, none, some, List, ◌≡◌, refl}
use dev_zu_smart_ingest.Prelude.Outcome.{Exception, Outcome, returned, raised}
use dev_zu_smart_ingest.Text.{codes}
use dev_zu_smart_ingest.Float.Fixed.{Fixed, fixed_ops}
use dev_zu_smart_ingest.Domain.Enums.{job_status_of_value}
use dev_zu_smart_ingest.Domain.Entities.{Job}
use dev_zu_smart_ingest.Repository.Rows.{to_job, job_to_orm}
use dev_zu_smart_ingest.Repository.Queries.{get_job}
use dev_zu_smart_ingest.Task.{Attempt, extract_document_task}
use dev_zu_smart_ingest.Task.Settling.{Outcomes, extract_document_task-settles}
use dev_zu_smart_ingest.Examples.Orchestrated.{collaborators}
use dev_zu_smart_ingest.Examples.Samples.{engine, waiting_job, database}

abbrev missing : Exception
missing = record { type_name = "FileNotFoundError"; message = codes "7.pdf" }

abbrev no_fault : Option Exception
no_fault = none

-- The file is there at the last attempt only, and the statement that stores the result fails then.
abbrev pub attempts : ℕ → Attempt Fixed
attempts n = record {
  read_bytes = λ job. last n;
  build_orchestrator = returned collaborators;
  api_key = "";
  processing_time_ms = 12;
  otel_trace_id = none;
  started_at = 20;
  finished_at = 21;
  read_fault = no_fault;
  processing_fault = no_fault;
  result_fault = some missing;
  refresh_fault = no_fault;
  review_fault = no_fault;
  cleanup_fault = no_fault;
}
  where
    last : ℕ → Outcome (List ℕ)
    last zero = returned (codes "%PDF")
    last (suc n) = raised missing

waiting_job-stored : get_job 7 database ≡ returned (some waiting_job)
unfolding get_job job_to_orm to_job job_status_of_value
waiting_job-stored = refl

extract_document_task-settles_example :
    let (outcome, after) = extract_document_task fixed_ops engine attempts 3 7 database in
    (job : Job Fixed) × (get_job 7 after ≡ returned (some job))
    × Outcomes fixed_ops engine outcome job
extract_document_task-settles_example =
    extract_document_task-settles fixed_ops engine attempts 3 7 database waiting_job
      waiting_job-stored refl
