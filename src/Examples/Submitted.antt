-- ===== src/Examples/Submitted.antt =====
-- A submission, and the status of a batch.
use dev_zu_smart_ingest.Prelude.{
  ◌+◌, ◌<◌, Option, none, List, [], ◌∷◌, true, ◌≡◌, ◌↔◌, ◌⊎◌, inr, refl, arith, All,
}
use dev_zu_smart_ingest.Prelude.Outcome.{Exception, Outcome, returned, raised}
use dev_zu_smart_ingest.Text.{codes, ends_with, starts_with}
use dev_zu_smart_ingest.Float.Fixed.{Fixed, fixed_ops}
use dev_zu_smart_ingest.Domain.Enums.{JobStatus, ExtractionMode}
use dev_zu_smart_ingest.Domain.Entities.{
  UploadedFile, SubmissionParams, AuthContext, BatchSubmissionResult,
}
use dev_zu_smart_ingest.Repository.Queries.{get_job_by_file_hash}
use dev_zu_smart_ingest.JobService.Status.{
  compute_progress, aggregate_batch_status, aggregate_batch_status-counters,
  aggregate_batch_status-failed_queued, aggregate_batch_status-other,
}
use dev_zu_smart_ingest.JobService.Submission.{World, Environment, is_valid_pdf, submit_batch}
use dev_zu_smart_ingest.JobService.Submission.Validation.{IsAcceptable, submit_batch-refuses}
use dev_zu_smart_ingest.JobService.Submission.Totality.{IsHealthy, Returns, submit_batch-Returns}
use dev_zu_smart_ingest.Examples.Samples.{engine}

abbrev mixed : List JobStatus
mixed = JobStatus.failed ∷ JobStatus.queued ∷ JobStatus.completed ∷ JobStatus.review ∷ []

aggregate_batch_status-counters_example :
    ((aggregate_batch_status mixed ≡ JobStatus.completed) ↔ (
      (0 < (compute_progress mixed).total)
      × ((compute_progress mixed).completed ≡ (compute_progress mixed).total)))
    × ((aggregate_batch_status mixed ≡ JobStatus.failed) ↔ (
        (0 < (compute_progress mixed).failed)
        × ((compute_progress mixed).in_progress ≡ 0)
        × ((compute_progress mixed).queued ≡ 0)))
    × ((aggregate_batch_status mixed ≡ JobStatus.queued)
        ↔ ((compute_progress mixed).queued ≡ (compute_progress mixed).total))
    × ((aggregate_batch_status mixed ≡ JobStatus.processing)
        ⊎ ((aggregate_batch_status mixed ≡ JobStatus.completed)
            ⊎ ((aggregate_batch_status mixed ≡ JobStatus.failed)
                ⊎ (aggregate_batch_status mixed ≡ JobStatus.queued))))
aggregate_batch_status-counters_example = aggregate_batch_status-counters mixed

aggregate_batch_status-failed_queued_example : aggregate_batch_status mixed ≡ JobStatus.processing
unfolding compute_progress
aggregate_batch_status-failed_queued_example =
    aggregate_batch_status-failed_queued mixed (omega arith) (omega arith)

abbrev reviewed : List JobStatus
reviewed = JobStatus.completed ∷ JobStatus.review ∷ []

aggregate_batch_status-other_example : aggregate_batch_status reviewed ≡ JobStatus.processing
unfolding compute_progress
aggregate_batch_status-other_example = aggregate_batch_status-other reviewed (omega arith) refl

abbrev no_fault : Option Exception
no_fault = none

abbrev pub environment : Environment Fixed
environment = record {
  engine = engine;
  now = 30;
  uuid4 = λ n. n + 100;
  sha256 = λ content. "hash";
  lower = λ s. s;
  max_pdf_bytes = 100;
  temp_storage_root = codes "/tmp";
  mkdir_raises = no_fault;
  write_raises = λ n. no_fault;
  lookup_raises = λ h. no_fault;
  faults = record { flush = no_fault; commit = no_fault; refresh = no_fault };
  enqueue_raises = λ id. no_fault;
}

abbrev pub empty_world : World Fixed
empty_world = record {
  database = record { batches = []; jobs = [] };
  disk = [];
  queue = [];
  drawn = 0;
}

abbrev pub drawing : UploadedFile
drawing = record {
  filename = codes "A-101.pdf";
  content = codes "%PDF-1.7";
  content_type = "application/pdf";
}

abbrev notes : UploadedFile
notes = record {
  filename = codes "notes.txt";
  content = codes "hello";
  content_type = "text/plain";
}

abbrev pub params : SubmissionParams
params = record {
  mode = ExtractionMode.auto;
  callback_url = none;
  deployment_id = none;
  node_id = none;
}

abbrev pub auth : AuthContext
auth = record { user_id = "u"; auth_method = "api_key"; deployment_id = none; node_id = none }

drawing-valid : is_valid_pdf fixed_ops environment drawing ≡ true
unfolding is_valid_pdf ends_with starts_with
drawing-valid = refl

notes_refused : ¬ All (IsAcceptable fixed_ops environment) (drawing ∷ notes ∷ [])
unfolding is_valid_pdf ends_with starts_with
notes_refused h = ground (arith, h.1.0.1)

submit_batch-refuses_example :
    (e : Exception) × (submit_batch fixed_ops environment
        (drawing ∷ notes ∷ [])
        params
        auth
        empty_world
      ≡ (raised e, empty_world))
submit_batch-refuses_example =
    submit_batch-refuses fixed_ops environment (drawing ∷ notes ∷ []) params auth empty_world
      (inr notes_refused)

healthy : IsHealthy environment empty_world.database
unfolding get_job_by_file_hash
healthy = record {
  makes = refl;
  writes = λ n. refl;
  looks_up = λ h. refl;
  flushes = refl;
  commits = refl;
  refreshes = refl;
  enqueues = λ id. refl;
  reads = λ h. (none, refl);
}

submit_batch-Returns_example :
    Returns (submit_batch fixed_ops environment (drawing ∷ []) params auth) empty_world
submit_batch-Returns_example =
    submit_batch-Returns fixed_ops environment (drawing ∷ []) params auth empty_world
      (λ h. ground (arith, h)) ((omega arith, drawing-valid), tt) healthy

abbrev or_else_world : Outcome (BatchSubmissionResult Fixed) → BatchSubmissionResult Fixed
or_else_world (returned r) = r
or_else_world (raised e) = record { batch_id = 0; jobs = []; total = 0; poll_url = [] }

abbrev submitted : Outcome (BatchSubmissionResult Fixed) × World Fixed
submitted = submit_batch fixed_ops environment (drawing ∷ []) params auth empty_world
