-- ===== src/Domain/Enums.antt =====
-- domain/enums.py. `value` is the member's `.value`, and `of_value` the call `Enum(value)`, which
-- raises (`none`) for a text outside the vocabulary.
pub mod Values
use dev_zu_smart_ingest.Prelude.{String, Option, List, [], ◌∷◌, Bool, ℕ, ◌==◌, str_eq, find?}

pub data JobStatus : Type 0 where
  queued processing in_progress completed failed review rejected cached : JobStatus

pub data ExtractionMode : Type 0 where
  auto drawing title fast accurate : ExtractionMode

pub data ConfidenceTier : Type 0 where
  auto spot review : ConfidenceTier

pub data DocumentType : Type 0 where
  technical_drawing floor_plan electrical_schematic mechanical_drawing : DocumentType
  plumbing_drawing fire_safety_plan inspection_report maintenance_log : DocumentType
  compliance_certificate equipment_manual specification risk_assessment : DocumentType
  schedule commissioning_report warranty_certificate product_data_sheet : DocumentType
  safety_data_sheet test_certificate method_statement as_built_drawing : DocumentType
  document : DocumentType

pub data Discipline : Type 0 where
  architectural electrical mechanical plumbing fire structural : Discipline

unfoldable pub job_status_value : JobStatus → String
job_status_value JobStatus.queued = "queued"
job_status_value JobStatus.processing = "processing"
job_status_value JobStatus.in_progress = "in_progress"
job_status_value JobStatus.completed = "completed"
job_status_value JobStatus.failed = "failed"
job_status_value JobStatus.review = "review"
job_status_value JobStatus.rejected = "rejected"
job_status_value JobStatus.cached = "cached"

unfoldable pub extraction_mode_value : ExtractionMode → String
extraction_mode_value ExtractionMode.auto = "auto"
extraction_mode_value ExtractionMode.drawing = "drawing"
extraction_mode_value ExtractionMode.title = "title"
extraction_mode_value ExtractionMode.fast = "fast"
extraction_mode_value ExtractionMode.accurate = "accurate"

unfoldable pub confidence_tier_value : ConfidenceTier → String
confidence_tier_value ConfidenceTier.auto = "auto"
confidence_tier_value ConfidenceTier.spot = "spot"
confidence_tier_value ConfidenceTier.review = "review"

unfoldable pub document_type_value : DocumentType → String
document_type_value technical_drawing = "technical_drawing"
document_type_value floor_plan = "floor_plan"
document_type_value electrical_schematic = "electrical_schematic"
document_type_value mechanical_drawing = "mechanical_drawing"
document_type_value plumbing_drawing = "plumbing_drawing"
document_type_value fire_safety_plan = "fire_safety_plan"
document_type_value inspection_report = "inspection_report"
document_type_value maintenance_log = "maintenance_log"
document_type_value compliance_certificate = "compliance_certificate"
document_type_value equipment_manual = "equipment_manual"
document_type_value specification = "specification"
document_type_value risk_assessment = "risk_assessment"
document_type_value schedule = "schedule"
document_type_value commissioning_report = "commissioning_report"
document_type_value warranty_certificate = "warranty_certificate"
document_type_value product_data_sheet = "product_data_sheet"
document_type_value safety_data_sheet = "safety_data_sheet"
document_type_value test_certificate = "test_certificate"
document_type_value method_statement = "method_statement"
document_type_value as_built_drawing = "as_built_drawing"
document_type_value document = "document"

unfoldable pub discipline_value : Discipline → String
discipline_value architectural = "architectural"
discipline_value electrical = "electrical"
discipline_value mechanical = "mechanical"
discipline_value plumbing = "plumbing"
discipline_value fire = "fire"
discipline_value structural = "structural"

abbrev pub job_statuses : List JobStatus
job_statuses =
    JobStatus.queued ∷ JobStatus.processing ∷ JobStatus.in_progress ∷ JobStatus.completed
    ∷ JobStatus.failed ∷ JobStatus.review ∷ JobStatus.rejected ∷ JobStatus.cached ∷ []

abbrev pub extraction_modes : List ExtractionMode
extraction_modes =
    ExtractionMode.auto ∷ ExtractionMode.drawing ∷ ExtractionMode.title ∷ ExtractionMode.fast
    ∷ ExtractionMode.accurate ∷ []

abbrev pub confidence_tiers : List ConfidenceTier
confidence_tiers = ConfidenceTier.auto ∷ ConfidenceTier.spot ∷ ConfidenceTier.review ∷ []

abbrev pub document_types : List DocumentType
document_types =
    technical_drawing ∷ floor_plan ∷ electrical_schematic ∷ mechanical_drawing ∷ plumbing_drawing
    ∷ fire_safety_plan ∷ inspection_report ∷ maintenance_log ∷ compliance_certificate
    ∷ equipment_manual ∷ specification ∷ risk_assessment ∷ schedule ∷ commissioning_report
    ∷ warranty_certificate ∷ product_data_sheet ∷ safety_data_sheet ∷ test_certificate
    ∷ method_statement ∷ as_built_drawing ∷ document ∷ []

unfoldable pub job_status_of_value : String → Option JobStatus
unfolding job_status_value
job_status_of_value s = find? (λ m. str_eq (job_status_value m) s) job_statuses

unfoldable pub extraction_mode_of_value : String → Option ExtractionMode
unfolding extraction_mode_value
extraction_mode_of_value s = find? (λ m. str_eq (extraction_mode_value m) s) extraction_modes

unfoldable pub confidence_tier_of_value : String → Option ConfidenceTier
unfolding confidence_tier_value
confidence_tier_of_value s = find? (λ m. str_eq (confidence_tier_value m) s) confidence_tiers

unfoldable pub document_type_of_value : String → Option DocumentType
unfolding document_type_value
document_type_of_value s = find? (λ m. str_eq (document_type_value m) s) document_types

-- The place of a member in its enumeration; `==` on members holds for a member and itself only.
abbrev pub status_index : JobStatus → ℕ
status_index JobStatus.queued = 0
status_index JobStatus.processing = 1
status_index JobStatus.in_progress = 2
status_index JobStatus.completed = 3
status_index JobStatus.failed = 4
status_index JobStatus.review = 5
status_index JobStatus.rejected = 6
status_index JobStatus.cached = 7

abbrev pub status_eq : JobStatus → JobStatus → Bool
status_eq s t = status_index s == status_index t

abbrev pub tier_index : ConfidenceTier → ℕ
tier_index ConfidenceTier.auto = 0
tier_index ConfidenceTier.spot = 1
tier_index ConfidenceTier.review = 2

abbrev pub tier_eq : ConfidenceTier → ConfidenceTier → Bool
tier_eq s t = tier_index s == tier_index t
