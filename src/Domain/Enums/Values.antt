-- ===== src/Domain/Enums/Values.antt =====
-- Every member is found again by its value.
use dev_zu_smart_ingest.Prelude.{some, str_eq, ◌≡◌, refl, true, arith}
use dev_zu_smart_ingest.Domain.Enums.{
  JobStatus, ExtractionMode, ConfidenceTier, DocumentType, technical_drawing, job_status_value,
  job_status_of_value, extraction_mode_value, extraction_mode_of_value, confidence_tier_value,
  confidence_tier_of_value, document_type_value, document_type_of_value, status_eq, tier_eq,
}

pub job_status_of_value-value : (s : JobStatus) → job_status_of_value (job_status_value s) ≡ some s
unfolding job_status_of_value
job_status_of_value-value JobStatus.queued = refl
job_status_of_value-value _ = refl

pub extraction_mode_of_value-value :
    (m : ExtractionMode) → extraction_mode_of_value (extraction_mode_value m) ≡ some m
unfolding extraction_mode_of_value
extraction_mode_of_value-value ExtractionMode.auto = refl
extraction_mode_of_value-value _ = refl

pub confidence_tier_of_value-value :
    (t : ConfidenceTier) → confidence_tier_of_value (confidence_tier_value t) ≡ some t
unfolding confidence_tier_of_value
confidence_tier_of_value-value ConfidenceTier.auto = refl
confidence_tier_of_value-value _ = refl

pub document_type_of_value-value :
    (t : DocumentType) → document_type_of_value (document_type_value t) ≡ some t
unfolding document_type_of_value
document_type_of_value-value technical_drawing = refl
document_type_of_value-value _ = refl

pub status_eq→≡ : (s t : JobStatus) → status_eq s t ≡ true → s ≡ t
status_eq→≡ s t h = ground arith

pub tier_eq→≡ : (s t : ConfidenceTier) → tier_eq s t ≡ true → s ≡ t
tier_eq→≡ s t h = ground arith

-- The tests that queries make on the string columns are tests on the members that they hold.
pub str_eq-completed :
    (s : JobStatus) → str_eq (job_status_value s) "completed" ≡ status_eq s JobStatus.completed
unfolding job_status_value
str_eq-completed JobStatus.queued = refl
str_eq-completed _ = refl

pub str_eq-rejected :
    (s : JobStatus) → str_eq (job_status_value s) "rejected" ≡ status_eq s JobStatus.rejected
unfolding job_status_value
str_eq-rejected JobStatus.queued = refl
str_eq-rejected _ = refl

pub str_eq-review :
    (t : ConfidenceTier)
    → str_eq (confidence_tier_value t) "review" ≡ tier_eq t ConfidenceTier.review
unfolding confidence_tier_value
str_eq-review ConfidenceTier.auto = refl
str_eq-review _ = refl
