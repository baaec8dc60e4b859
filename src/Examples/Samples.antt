-- ===== src/Examples/Samples.antt =====
-- A small database, its engine, and a document, in decimals of two places.
use dev_zu_smart_ingest.Prelude.{ℕ, none, some, [], ◌∷◌}
use dev_zu_smart_ingest.Prelude.Int.{pos}
use dev_zu_smart_ingest.Text.{codes}
use dev_zu_smart_ingest.Float.Fixed.{Fixed, hundredths, fixed_ops}
use dev_zu_smart_ingest.Domain.Enums.{JobStatus, ConfidenceTier, ExtractionMode, DocumentType}
use dev_zu_smart_ingest.Domain.Json.{Fields, end, field, str}
use dev_zu_smart_ingest.Domain.Entities.{Job, Batch, ExtractionResult}
use dev_zu_smart_ingest.Repository.Rows.{job_to_orm, batch_to_orm}
use dev_zu_smart_ingest.Repository.Queries.{Database, Engine}

abbrev pub engine : Engine Fixed
engine = record { unordered = λ rows. rows; descending = λ key rows. rows; numeric = λ x. x }

abbrev pub percent : ℕ → Fixed
percent k = hundredths (pos k)

abbrev pub waiting_job : Job Fixed
waiting_job = record {
  job_id = 7;
  batch_id = 1;
  filename = codes "A-101.pdf";
  file_hash = "abc";
  file_path = codes "/tmp/7.pdf";
  status = JobStatus.queued;
  result = none;
  error_message = none;
  pipeline_trace = none;
  otel_trace_id = none;
  processing_time_ms = none;
  created_at = 10;
  updated_at = 10;
  confidence_tier = none;
  overall_confidence = none;
}

abbrev pub extracted_fields : Fields Fixed
extracted_fields = field "title" (str (codes "Ground floor")) end

abbrev pub review_job : Job Fixed
review_job = record waiting_job {
  job_id = 8;
  status = JobStatus.review;
  result = some extracted_fields;
  confidence_tier = some ConfidenceTier.review;
  overall_confidence = some (percent 40);
}

abbrev pub sample_batch : Batch
sample_batch = record {
  batch_id = 1;
  status = JobStatus.queued;
  total_jobs = 2;
  callback_url = some "https://client/hook";
  deployment_id = some (pos 3);
  node_id = none;
  created_by = "user";
  created_at = 10;
  updated_at = 10;
  mode = ExtractionMode.auto;
}

abbrev pub database : Database Fixed
database = record {
  batches = batch_to_orm sample_batch ∷ [];
  jobs = job_to_orm fixed_ops waiting_job ∷ job_to_orm fixed_ops review_job ∷ [];
}

abbrev pub floor_plan : ExtractionResult Fixed
floor_plan = record {
  drawing_number = some (codes "A-101");
  drawing_number_confidence = percent 95;
  title = some (codes "Ground floor");
  title_confidence = percent 75;
  document_type = some DocumentType.floor_plan;
  document_type_confidence = percent 80;
  discipline = none;
  revision = some (codes " P01 ");
  building_zone = none;
  project = some (codes "  ");
  sources_used = "vision" ∷ "text" ∷ [];
  raw_vision_response = none;
  raw_text_response = none;
  confidence_score = none;
  confidence_tier = none;
}
