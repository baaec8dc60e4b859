-- ===== src/System/Reviews.antt =====
-- The decisions of a reviewer keep every row sound.
use dev_zu_smart_ingest.Prelude.{
  String, Option, none, some, ◌≡◌, refl, arith, true, Bool-cases, inl, inr,
}
use dev_zu_smart_ingest.Prelude.Outcome.{Outcome-cases, returned}
use dev_zu_smart_ingest.Text.{Text}
use dev_zu_smart_ingest.Domain.Enums.{JobStatus, ConfidenceTier, confidence_tier_value}
use dev_zu_smart_ingest.Domain.Json.{obj}
use dev_zu_smart_ingest.Domain.Json
use dev_zu_smart_ingest.Domain.Entities.{Uuid, Instant, Job}
use dev_zu_smart_ingest.Repository.Rows.{tier_column}
use dev_zu_smart_ingest.Repository.Queries.{Database, get_job}
use dev_zu_smart_ingest.Review.{
  ApproveRequest, RejectRequest, is_review, existing_result, approval, rejection, write_approval,
  write_rejection, decide, approve_review, reject_review,
}
use dev_zu_smart_ingest.Review.Decisions.{review_row}
use dev_zu_smart_ingest.System.Soundness.{
  AllSound, update_job_status-open, update_job_status-done, approved-IsSound,
}

is_review→≡ :
    (tier : Option ConfidenceTier) → is_review tier ≡ true → tier ≡ some ConfidenceTier.review
is_review→≡ none h = absurd (ground arith)
is_review→≡ (some ConfidenceTier.auto) h = absurd (ground arith)
is_review→≡ (some ConfidenceTier.spot) h = absurd (ground arith)
is_review→≡ (some ConfidenceTier.review) h = refl

review_column :
    (column : Option String)
    → column ≡ some "review"
    → column ≡ tier_column (some ConfidenceTier.review)
unfolding confidence_tier_value
review_column column h = h

module _ {F : Type 0} (repr : Text → Text) where
  -- A decision writes only for a job that is read with the tier REVIEW.
  decide-AllSound :
      (job_id : Text) (parsed : Option Uuid) (write : Uuid → Job F → Database F → Database F)
      (db : Database F)
      → ((id : Uuid) (job : Job F)
          → get_job id db ≡ returned (some job)
          → job.confidence_tier ≡ some ConfidenceTier.review
          → AllSound (write id job db))
      → AllSound db
      → AllSound (decide repr job_id parsed write db).1
  unfolding decide
  decide-AllSound job_id none write db keeps h = h
  decide-AllSound job_id (some id) write db keeps h = elim (Outcome-cases (get_job id db)) [
    | inr (e, k) ↦ rw (k, decide) h
    | inl (none, k) ↦ rw (k, decide) h
    | inl (some job, k) ↦ elim (Bool-cases (is_review job.confidence_tier)) [
      | inl yes_review ↦
          rw (k, yes_review, decide) (keeps id job k (is_review→≡ job.confidence_tier yes_review))
      | inr other ↦ rw (k, other, decide) h
    ]
  ]

  pub approve-AllSound :
      (job_id : Text) (parsed : Option Uuid) (body : ApproveRequest) (reviewed_at : Text)
      (now : Instant) (db : Database F)
      → AllSound db
      → AllSound (approve_review repr job_id parsed body reviewed_at now db).1
  unfolding approve_review
  approve-AllSound job_id parsed body reviewed_at now db h =
      decide-AllSound job_id parsed (write_approval body reviewed_at now) db
        (λ id job k t.
          let (row, found, tier) = review_row id db job k t in
          let result =
            Json.put "review" (obj (approval body reviewed_at)) (existing_result job.result) in
          update_job_status-done id JobStatus.completed (some result) none now db
            (λ r same. approved-IsSound result none now r (
              ConfidenceTier.review,
              review_column r.confidence_tier (ground (arith, found, same, tier)),
            ))
            h)
        h

  pub reject-AllSound :
      (job_id : Text) (parsed : Option Uuid) (body : RejectRequest) (now : Instant)
      (db : Database F)
      → AllSound db
      → AllSound (reject_review repr job_id parsed body now db).1
  unfolding reject_review
  reject-AllSound job_id parsed body now db h =
      decide-AllSound job_id parsed (write_rejection body now) db
        (λ id job k t.
          update_job_status-open id JobStatus.failed none (some (rejection body)) now db refl h)
        h
