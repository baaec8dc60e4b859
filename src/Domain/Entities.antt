-- ===== src/Domain/Entities.antt =====
-- domain/entities.py and shared/types.py: the records that the layers hand to each other. A UUID is
-- its 128-bit number, a `datetime` the instant that it names, a `FileHash` its hex text.
use dev_zu_smart_ingest.Prelude.{String, Option, List, Bool, ℕ}
use dev_zu_smart_ingest.Prelude.Int.{ℤ}
use dev_zu_smart_ingest.Text.{Text}
use dev_zu_smart_ingest.Domain.Enums.{
  JobStatus, ExtractionMode, ConfidenceTier, DocumentType, Discipline,
}
use dev_zu_smart_ingest.Domain.Json.{Fields}

abbrev pub Uuid : Type 0
Uuid = ℕ

abbrev pub Instant : Type 0
Instant = ℕ

abbrev pub FileHash : Type 0
FileHash = String

pub record Batch : Type 0 where
  pub batch_id : Uuid
  pub status : JobStatus
  pub total_jobs : ℕ
  pub callback_url : Option String
  pub deployment_id : Option ℤ
  pub node_id : Option ℤ
  pub created_by : String
  pub created_at : Instant
  pub updated_at : Instant
  pub mode : ExtractionMode

pub record Job (F : Type 0) : Type 0 where
  pub job_id : Uuid
  pub batch_id : Uuid
  pub filename : Text
  pub file_hash : FileHash
  pub file_path : Text
  pub status : JobStatus
  pub result : Option (Fields F)
  pub error_message : Option Text
  pub pipeline_trace : Option (Fields F)
  pub otel_trace_id : Option String
  pub processing_time_ms : Option ℕ
  pub created_at : Instant
  pub updated_at : Instant
  pub confidence_tier : Option ConfidenceTier
  pub overall_confidence : Option F

pub record ExtractionResult (F : Type 0) : Type 0 where
  pub drawing_number : Option Text
  pub drawing_number_confidence : F
  pub title : Option Text
  pub title_confidence : F
  pub document_type : Option DocumentType
  pub document_type_confidence : F
  pub discipline : Option Discipline
  pub revision : Option Text
  pub building_zone : Option Text
  pub project : Option Text
  pub sources_used : List String
  pub raw_vision_response : Option Text
  pub raw_text_response : Option Text
  pub confidence_score : Option F
  pub confidence_tier : Option ConfidenceTier

pub record CompanionResult (F : Type 0) : Type 0 where
  pub companion_text : Text
  pub pages_described : ℕ
  pub companion_generated : Bool
  pub validation_passed : Bool
  pub quality_score : Option F

pub record ValidationResult (F : Type 0) : Type 0 where
  pub passed : Bool
  pub warnings : List String
  pub confidence_adjustment : F
  pub validation_passed : Bool
  pub quality_score : F
  pub issues : List String

pub record Breakdown (F : Type 0) : Type 0 where
  pub drawing_number : F
  pub title : F
  pub document_type : F
  pub validation_penalty : F

-- `breakdown` is `{}` in the placeholder that stands for a calculation that failed.
pub record ConfidenceAssessment (F : Type 0) : Type 0 where
  pub overall_confidence : F
  pub tier : ConfidenceTier
  pub breakdown : Option (Breakdown F)
  pub validation_adjustment : F

-- The values of a sidecar's `metadata_attributes`.
pub data Attribute (F : Type 0) : Type 0 where
  text : Text → Attribute F
  number : F → Attribute F

pub record SidecarDocument (F : Type 0) : Type 0 where
  pub metadata_attributes : List (String × Attribute F)
  pub companion_text : Option Text
  pub source_filename : Text
  pub file_hash : FileHash

pub record PipelineError : Type 0 where
  pub stage : String
  pub error_type : String
  pub message : Text
  pub recoverable : Bool

pub record JobSummary (F : Type 0) : Type 0 where
  pub job_id : Uuid
  pub filename : Text
  pub status : JobStatus
  pub file_hash : FileHash
  pub result : Option (Fields F)

pub record UploadedFile : Type 0 where
  pub filename : Text
  pub content : List ℕ
  pub content_type : String

pub record SubmissionParams : Type 0 where
  pub mode : ExtractionMode
  pub callback_url : Option String
  pub deployment_id : Option ℤ
  pub node_id : Option ℤ

pub record AuthContext : Type 0 where
  pub user_id : String
  pub auth_method : String
  pub deployment_id : Option ℤ
  pub node_id : Option ℤ

pub record BatchSubmissionResult (F : Type 0) : Type 0 where
  pub batch_id : Uuid
  pub jobs : List (JobSummary F)
  pub total : ℕ
  pub poll_url : Text

pub record BatchProgress : Type 0 where
  pub completed : ℕ
  pub queued : ℕ
  pub failed : ℕ
  pub total : ℕ
  pub in_progress : ℕ

pub record BatchWithJobs (F : Type 0) : Type 0 where
  pub batch_id : Uuid
  pub status : JobStatus
  pub progress : BatchProgress
  pub jobs : List (JobSummary F)
  pub callback_url : Option String
  pub deployment_id : Option ℤ
  pub node_id : Option ℤ
  pub created_at : Instant
  pub updated_at : Instant

pub record PaginatedResult (A : Type 0) : Type 0 where
  pub items : List A
  pub total : ℕ
  pub page : ℕ
  pub per_page : ℕ
  pub total_pages : ℕ
