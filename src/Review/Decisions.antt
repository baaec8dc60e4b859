-- ===== src/Review/Decisions.antt =====
-- What a reviewer's decision does to the job and to the queue.
use dev_zu_smart_ingest.Prelude.{
  String, ℕ, Option, none, some, true, ◌≡◌, ◌≢◌, refl, ap, ◌∙◌, arith, str_eq, eq_iff,
  if◌then◌else◌,
}
use dev_zu_smart_ingest.Prelude.Outcome.{
  returned, raised, >>=-eq-returned, returned-injective, optional-eq-returned,
}
use dev_zu_smart_ingest.Text.{Text}
use dev_zu_smart_ingest.Domain.Enums.{
  JobStatus, ConfidenceTier, job_status_value, confidence_tier_value, confidence_tier_of_value,
  job_status_of_value,
}
use dev_zu_smart_ingest.Domain.Json.{Json, obj, Fields}
use dev_zu_smart_ingest.Domain.Json
use dev_zu_smart_ingest.Domain.Entities.{Uuid, Instant, Job}
use dev_zu_smart_ingest.Repository.Rows.{JobRow, to_job, member, tier_of_column}
use dev_zu_smart_ingest.Repository.Queries.{Database, job_row, get_job, is_pending}
use dev_zu_smart_ingest.Repository.Updates.{
  get_job-update_job_status_self, get_job-update_job_status_ne, job_row-update_job_status,
  status_row,
}
use dev_zu_smart_ingest.Review.{
  ApproveRequest, RejectRequest, Reply, ok, http_error, server_error, is_review, existing_result,
  approval, rejection, write_approval, write_rejection, decide, read_back, approve_review,
  reject_review,
}

tier_of_column-review :
    (column : Option String)
    → tier_of_column column ≡ returned (some ConfidenceTier.review)
    → column ≡ some "review"
unfolding tier_of_column member confidence_tier_of_value confidence_tier_value
tier_of_column-review none h = cc
tier_of_column-review (some s) h =
    ground (arith, h, eq_iff "auto" s, eq_iff "spot" s, eq_iff "review" s)

module _ {F : Type 0} where
  to_job-tier :
      (row : JobRow F) (job : Job F)
      → to_job row ≡ returned job
      → job.confidence_tier ≡ some ConfidenceTier.review
      → row.confidence_tier ≡ some "review"
  unfolding to_job
  to_job-tier row job h t =
      let (status, s, rest) = >>=-eq-returned (member (job_status_of_value row.status)) _ h in
      let (tier, read, whole) = >>=-eq-returned (tier_of_column row.confidence_tier) _ rest in
      let same : tier ≡ some ConfidenceTier.review =
        ap (λ j. j.confidence_tier) (returned-injective whole) ∙ t in
      tier_of_column-review row.confidence_tier (read ∙ ap returned same)

  pub review_row :
      (id : Uuid) (db : Database F) (job : Job F)
      → get_job id db ≡ returned (some job)
      → job.confidence_tier ≡ some ConfidenceTier.review
      → (row : JobRow F) × (job_row id db ≡ some row) × (row.confidence_tier ≡ some "review")
  unfolding get_job
  review_row id db job h t =
      let (row, found, read) = optional-eq-returned to_job (job_row id db) h in
      (row, found, to_job-tier row job read t)

  is_pending-failed :
      (result : Option (Fields F)) (error : Option Text) (now : Instant) (row : JobRow F)
      → row.confidence_tier ≡ some "review"
      → is_pending (status_row JobStatus.failed result error now row) ≡ true
  unfolding is_pending job_status_value confidence_tier_value
  is_pending-failed result error now row h = rw (h, is_pending) refl

module _ {F : Type 0} (repr : Text → Text) where
  decide-written :
      (job_id : Text) (id : Uuid) (write : Uuid → Job F → Database F → Database F) (db : Database F)
      (job : Job F)
      → get_job id db ≡ returned (some job)
      → is_review job.confidence_tier ≡ true
      → decide repr job_id (some id) write db
        ≡ (read_back job_id (get_job id (write id job db)), write id job db)
  unfolding decide
  decide-written job_id id write db job h t = rw (h, t, decide) refl

  -- Approving a job of the tier REVIEW answers with the job as it is stored from then on: COMPLETED,
  -- its result with the reviewer's entry under "review", and under every other key what the
  -- extraction left there. Another job is read as before.
  pub approve_review-stores :
      (job_id : Text) (id : Uuid) (body : ApproveRequest) (reviewed_at : Text) (now : Instant)
      (db : Database F) (job : Job F)
      → get_job id db ≡ returned (some job)
      → job.confidence_tier ≡ some ConfidenceTier.review
      → (other : Uuid) → id ≢ other
      → let (reply, after) = approve_review repr job_id (some id) body reviewed_at now db in
        (approved : Job F) × (reply ≡ ok approved)
        × (get_job id after ≡ returned (some approved))
        × (approved.status ≡ JobStatus.completed)
        × ((key : String)
            → Json.get key (existing_result approved.result) ≡ (
                if str_eq "review" key
                then some (obj (approval body reviewed_at))
                else Json.get key (existing_result job.result)))
        × (get_job other after ≡ get_job other db)
  unfolding approve_review
  approve_review-stores job_id id body reviewed_at now db job h t other ne =
      let result =
        Json.put "review" (obj (approval body reviewed_at)) (existing_result job.result) in
      let stored =
        get_job-update_job_status_self id JobStatus.completed (some result) none now db job h in
      let written =
        decide-written job_id id (write_approval body reviewed_at now) db job h (ap is_review t) in
      (
        _,
        ap (λ r. r.0) written ∙ ap (read_back job_id) stored,
        ap (λ r. get_job id r.1) written ∙ stored,
        refl,
        λ key.
            Json.get-put "review" key (obj (approval body reviewed_at))
              (existing_result job.result),
        ap (λ r. get_job other r.1) written
            ∙ get_job-update_job_status_ne id other JobStatus.completed (some result) none now db
                ne,
      )

  -- Rejecting a job of the tier REVIEW answers with the job as it is stored from then on: FAILED, with
  -- the reviewer and the reason in its error message, and its result as it was. Another job is read
  -- as before.
  pub reject_review-stores :
      (job_id : Text) (id : Uuid) (body : RejectRequest) (now : Instant) (db : Database F)
      (job : Job F)
      → get_job id db ≡ returned (some job)
      → job.confidence_tier ≡ some ConfidenceTier.review
      → (other : Uuid) → id ≢ other
      → let (reply, after) = reject_review repr job_id (some id) body now db in
        (rejected : Job F) × (reply ≡ ok rejected)
        × (get_job id after ≡ returned (some rejected))
        × (rejected.status ≡ JobStatus.failed)
        × (rejected.error_message ≡ some (rejection body))
        × (rejected.result ≡ job.result)
        × (get_job other after ≡ get_job other db)
  unfolding reject_review
  reject_review-stores job_id id body now db job h t other ne =
      let stored =
        get_job-update_job_status_self id JobStatus.failed none (some (rejection body)) now db job
          h in
      let written = decide-written job_id id (write_rejection body now) db job h (ap is_review t) in
      (
        _,
        ap (λ r. r.0) written ∙ ap (read_back job_id) stored,
        ap (λ r. get_job id r.1) written ∙ stored,
        refl,
        refl,
        refl,
        ap (λ r. get_job other r.1) written
            ∙ get_job-update_job_status_ne id other JobStatus.failed none (some (rejection body))
                now db ne,
      )

  -- The row of a job that a reviewer has rejected still belongs to the queue of pending reviews.
  pub reject_review-is_pending :
      (job_id : Text) (id : Uuid) (body : RejectRequest) (now : Instant) (db : Database F)
      (job : Job F)
      → get_job id db ≡ returned (some job)
      → job.confidence_tier ≡ some ConfidenceTier.review
      → (row : JobRow F) × (job_row id (reject_review repr job_id (some id) body now db).1
          ≡ some row)
        × (is_pending row ≡ true)
  unfolding reject_review
  reject_review-is_pending job_id id body now db job h t =
      let (row, found, column) = review_row id db job h t in
      let written = decide-written job_id id (write_rejection body now) db job h (ap is_review t) in
      let updated =
        job_row-update_job_status id id JobStatus.failed none (some (rejection body)) now db in
      (
        status_row JobStatus.failed none (some (rejection body)) now row,
        ap (λ r. job_row id r.1) written ∙ ground (arith, updated, found),
        is_pending-failed none (some (rejection body)) now row column,
      )

  -- What refuses a decision, by its HTTP status: an id that is none, a job that is not stored, and a
  -- job of another tier.
  abbrev pub refusal : Option Uuid → Database F → Option ℕ
  refusal none db = some 400
  refusal (some id) db = elim (get_job id db) [
    | raised e ↦ none
    | returned none ↦ some 404
    | returned (some job) ↦ if is_review job.confidence_tier then none else some 409
  ]

  abbrev pub Refuses : ℕ → Database F → Reply F × Database F → Type 0
  Refuses code db (ok job, after) = ⊥
  Refuses code db (http_error status_code detail, after) = (status_code ≡ code) × (after ≡ db)
  Refuses code db (server_error e, after) = ⊥

  decide-Refuses :
      (job_id : Text) (parsed : Option Uuid) (write : Uuid → Job F → Database F → Database F)
      (db : Database F) (code : ℕ)
      → refusal parsed db ≡ some code
      → Refuses code db (decide repr job_id parsed write db)
  unfolding decide
  decide-Refuses job_id none write db code h = ground (arith, h)
  decide-Refuses job_id (some id) write db code h = ground (arith, h)

  -- A decision on an id that is malformed, unknown, or of a job of another tier than REVIEW is
  -- answered with 400, 404 or 409, and changes nothing.
  pub decisions-Refuses :
      (job_id : Text) (parsed : Option Uuid) (approve : ApproveRequest) (reject : RejectRequest)
      (reviewed_at : Text) (now : Instant) (db : Database F) (code : ℕ)
      → refusal parsed db ≡ some code
      → Refuses code db (approve_review repr job_id parsed approve reviewed_at now db)
        × Refuses code db (reject_review repr job_id parsed reject now db)
  unfolding approve_review reject_review
  decisions-Refuses job_id parsed approve reject reviewed_at now db code h = (
    decide-Refuses job_id parsed (write_approval approve reviewed_at now) db code h,
    decide-Refuses job_id parsed (write_rejection reject now) db code h,
  )
