-- ===== src/Repository/Rows.antt =====
-- models.py, and the mapping functions of repository.py between rows and entities.
use dev_zu_smart_ingest.Prelude.{String, Option, none, some, [], ℕ, str_eq, if◌then◌else◌}
use dev_zu_smart_ingest.Prelude.Int.{ℤ}
use dev_zu_smart_ingest.Prelude.Outcome.{Outcome, returned, raised, ◌>>=◌}
use dev_zu_smart_ingest.Text.{Text, codes, or_none}
use dev_zu_smart_ingest.Text.Number.{int_text, parse_int}
use dev_zu_smart_ingest.Float.{FloatOps}
use dev_zu_smart_ingest.Domain.Enums.{
  ConfidenceTier, job_status_value, job_status_of_value, extraction_mode_value,
  extraction_mode_of_value, confidence_tier_value, confidence_tier_of_value,
}
use dev_zu_smart_ingest.Domain.Json.{Fields}
use dev_zu_smart_ingest.Domain.Entities.{Uuid, Instant, FileHash, Batch, Job, JobSummary}

pub record BatchRow : Type 0 where
  pub id : Uuid
  pub deployment_id : Option Text
  pub node_id : Option Text
  pub callback_url : Option String
  pub mode : String
  pub created_by : String
  pub total_jobs : ℕ
  pub status : String
  pub created_at : Instant
  pub updated_at : Instant

pub record JobRow (F : Type 0) : Type 0 where
  pub id : Uuid
  pub batch_id : Uuid
  pub filename : Text
  pub file_hash : FileHash
  pub file_path : Option Text
  pub status : String
  pub result : Option (Fields F)
  pub confidence_tier : Option String
  pub confidence_score : Option F
  pub processing_time_ms : Option ℕ
  pub otel_trace_id : Option String
  pub error_message : Option Text
  pub pipeline_trace : Option (Fields F)
  pub created_at : Instant
  pub updated_at : Instant

-- `_str_or_none`
unfoldable pub str_or_none : Option ℤ → Option Text
str_or_none none = none
str_or_none (some n) = some (int_text n)

-- `_int_or_none`
unfoldable pub int_or_none : Option Text → Option ℤ
int_or_none none = none
int_or_none (some s) = parse_int s

-- The `ValueError` of `Enum(value)`.
unfoldable pub member {ℓ} : {A : Type ℓ} → Option A → Outcome A
member none = raised (record { type_name = "ValueError"; message = codes "not a valid member" })
member (some a) = returned a

unfoldable pub to_batch : BatchRow → Outcome Batch
unfolding member int_or_none
to_batch row = do
  status ← member (job_status_of_value row.status)
  mode ← member (extraction_mode_of_value row.mode)
  returned (record {
    batch_id = row.id;
    status = status;
    total_jobs = row.total_jobs;
    callback_url = row.callback_url;
    deployment_id = int_or_none row.deployment_id;
    node_id = int_or_none row.node_id;
    created_by = row.created_by;
    created_at = row.created_at;
    updated_at = row.updated_at;
    mode = mode;
  })

-- `ConfidenceTier(row.confidence_tier) if row.confidence_tier else None`
unfoldable pub tier_of_column : Option String → Outcome (Option ConfidenceTier)
unfolding member
tier_of_column none = returned none
tier_of_column (some s) =
    if str_eq s ""
    then returned none
    else do tier ← member (confidence_tier_of_value s); returned (some tier)

abbrev pub text_or_empty : Option Text → Text
text_or_empty none = []
text_or_empty (some s) = s

unfoldable pub to_job : {F : Type 0} → JobRow F → Outcome (Job F)
unfolding member tier_of_column
to_job row = do
  status ← member (job_status_of_value row.status)
  tier ← tier_of_column row.confidence_tier
  returned (record {
    job_id = row.id;
    batch_id = row.batch_id;
    filename = row.filename;
    file_hash = row.file_hash;
    file_path = text_or_empty row.file_path;
    status = status;
    result = row.result;
    error_message = row.error_message;
    pipeline_trace = row.pipeline_trace;
    otel_trace_id = row.otel_trace_id;
    processing_time_ms = row.processing_time_ms;
    created_at = row.created_at;
    updated_at = row.updated_at;
    confidence_tier = tier;
    overall_confidence = row.confidence_score;
  })

unfoldable pub batch_to_orm : Batch → BatchRow
unfolding str_or_none
batch_to_orm batch = record {
  id = batch.batch_id;
  deployment_id = str_or_none batch.deployment_id;
  node_id = str_or_none batch.node_id;
  callback_url = batch.callback_url;
  mode = extraction_mode_value batch.mode;
  created_by = batch.created_by;
  total_jobs = batch.total_jobs;
  status = job_status_value batch.status;
  created_at = batch.created_at;
  updated_at = batch.updated_at;
}

abbrev pub tier_column : Option ConfidenceTier → Option String
tier_column none = none
tier_column (some tier) = some (confidence_tier_value tier)

module _ {F : Type 0} (fl : FloatOps F) where
  -- A NaN is stored as NULL.
  unfoldable pub score_column : Option F → Option F
  score_column none = none
  score_column (some x) = if fl.is_nan x then none else some x

  unfoldable pub job_to_orm : Job F → JobRow F
  unfolding score_column
  job_to_orm job = record {
    id = job.job_id;
    batch_id = job.batch_id;
    filename = job.filename;
    file_hash = job.file_hash;
    file_path = or_none job.file_path;
    status = job_status_value job.status;
    result = job.result;
    confidence_tier = tier_column job.confidence_tier;
    confidence_score = score_column job.overall_confidence;
    processing_time_ms = job.processing_time_ms;
    otel_trace_id = job.otel_trace_id;
    error_message = job.error_message;
    pipeline_trace = job.pipeline_trace;
    created_at = job.created_at;
    updated_at = job.updated_at;
  }

unfoldable pub job_to_summary : {F : Type 0} → Job F → JobSummary F
job_to_summary job = record {
  job_id = job.job_id;
  filename = job.filename;
  status = job.status;
  file_hash = job.file_hash;
  result = job.result;
}
