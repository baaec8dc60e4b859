-- ===== src/Review.antt =====
-- api/routes/review.py: the queue of the jobs that wait for a reviewer, and the reviewer's decisions.
pub mod Decisions
use dev_zu_smart_ingest.Prelude.{
  String, ℕ, ◌+◌, ◌/◌, max, Option, none, some, List, [], ◌∷◌, ◌++◌, Bool, true, false,
}
use dev_zu_smart_ingest.Prelude.Outcome.{Exception, Outcome, returned, raised}
use dev_zu_smart_ingest.Text.{Text, codes}
use dev_zu_smart_ingest.Domain.Enums.{JobStatus, ConfidenceTier, tier_eq, confidence_tier_value}
use dev_zu_smart_ingest.Domain.Json.{Json, null, str, obj, Fields, end, field}
use dev_zu_smart_ingest.Domain.Json
use dev_zu_smart_ingest.Domain.Entities.{Uuid, Instant, Job, PaginatedResult}
use dev_zu_smart_ingest.Repository.Queries.{
  Database, Engine, get_job, update_job_status, get_pending_reviews,
}

pub record ApproveRequest : Type 0 where
  pub reviewer_id : Text
  pub notes : Option Text

pub record RejectRequest : Type 0 where
  pub reviewer_id : Text
  pub reason : Text

-- What a handler answers: the job as it is read back, an HTTP error, or the exception that the
-- repository raised.
pub data Reply (F : Type 0) : Type 0 where
  ok : Job F → Reply F
  http_error : (status_code : ℕ) (detail : Text) → Reply F
  server_error : Exception → Reply F

-- `_ensure_review_tier`, with what it prints of the job's tier.
abbrev pub is_review : Option ConfidenceTier → Bool
is_review none = false
is_review (some tier) = tier_eq tier ConfidenceTier.review

abbrev pub actual_tier : Option ConfidenceTier → String
actual_tier none = "none"
actual_tier (some tier) = confidence_tier_value tier

abbrev pub tier_detail : Text → Option ConfidenceTier → Text
tier_detail job_id tier =
    codes "Job "
    ++ (job_id
        ++ (codes " is not in the review tier (confidence_tier="
            ++ (codes (actual_tier tier)
                ++ codes "); only review-tier jobs may be approved or rejected")))

abbrev pub rejection : RejectRequest → Text
rejection body = codes "Rejected by " ++ (body.reviewer_id ++ (codes ": " ++ body.reason))

module _ {F : Type 0} where
  abbrev pub read_back : Text → Outcome (Option (Job F)) → Reply F
  read_back job_id (returned (some job)) = ok job
  read_back job_id (returned none) =
      http_error 404 (codes "Job " ++ (job_id ++ codes " not found after update"))
  read_back job_id (raised e) = server_error e

  abbrev optional_text : Option Text → Json F
  optional_text none = null
  optional_text (some s) = str s

  abbrev pub existing_result : Option (Fields F) → Fields F
  existing_result none = end
  existing_result (some result) = result

  abbrev pub approval : ApproveRequest → (reviewed_at : Text) → Fields F
  approval body reviewed_at = field "action" (str (codes "approved")) (
      field "reviewer_id" (str body.reviewer_id)
        (field "notes" (optional_text body.notes) (field "reviewed_at" (str reviewed_at) end)))

  abbrev pub write_approval :
      ApproveRequest → (reviewed_at : Text) → Instant → Uuid → Job F → Database F → Database F
  write_approval body reviewed_at now id job db =
      update_job_status id JobStatus.completed
        (some (Json.put "review" (obj (approval body reviewed_at)) (existing_result job.result)))
        none now db

  abbrev pub write_rejection : RejectRequest → Instant → Uuid → Job F → Database F → Database F
  write_rejection body now id job db =
      update_job_status id JobStatus.failed none (some (rejection body)) now db

  -- The page that `limit` and `offset` are turned into.
  unfoldable pub get_review_pending :
      Engine F → (limit : ℕ) (offset : ℕ) → Database F → Outcome (PaginatedResult (Job F))
  unfolding get_pending_reviews
  get_review_pending engine limit offset db =
      let per_page = max 1 limit in get_pending_reviews engine (offset / per_page + 1) per_page db

-- `repr` is Python's, for the text of one message.
module _ {F : Type 0} (repr : Text → Text) where
  -- What both handlers do: read the job, refuse one that is missing or of another tier, write, and
  -- read it back. `parsed` is the id that `job_id` names.
  unfoldable pub decide :
      (job_id : Text)
      → (parsed : Option Uuid) → (write : Uuid → Job F → Database F → Database F) → Database F
      → Reply F × Database F
  unfolding get_job
  decide job_id none write db = (http_error 400 (codes "Invalid job_id: " ++ repr job_id), db)
  decide job_id (some id) write db = elim (get_job id db) [
    | raised e ↦ (server_error e, db)
    | returned none ↦ (http_error 404 (codes "Job " ++ (job_id ++ codes " not found")), db)
    | returned (some job) ↦ elim (is_review job.confidence_tier) [
      | false ↦ (http_error 409 (tier_detail job_id job.confidence_tier), db)
      | true ↦ (read_back job_id (get_job id (write id job db)), write id job db)
    ]
  ]

  unfoldable pub approve_review :
      (job_id : Text) (parsed : Option Uuid) (body : ApproveRequest) (reviewed_at : Text)
      (now : Instant)
      → Database F
      → Reply F × Database F
  unfolding decide update_job_status Json.put
  approve_review job_id parsed body reviewed_at now db =
      decide job_id parsed (write_approval body reviewed_at now) db

  unfoldable pub reject_review :
      (job_id : Text) (parsed : Option Uuid) (body : RejectRequest) (now : Instant)
      → Database F
      → Reply F × Database F
  unfolding decide update_job_status
  reject_review job_id parsed body now db = decide job_id parsed (write_rejection body now) db
