-- ===== src/Examples/Stored.antt =====
-- The repository and the review queue.
use dev_zu_smart_ingest.Prelude.{
  String, none, some, [], ◌∷◌, true, ◌≡◌, refl, arith, if◌then◌else◌, str_eq,
}
use dev_zu_smart_ingest.Prelude.Outcome.{returned}
use dev_zu_smart_ingest.Text.{Text, codes}
use dev_zu_smart_ingest.Float.Fixed.{Fixed, fixed_ops}
use dev_zu_smart_ingest.Domain.Enums.{
  JobStatus, ConfidenceTier, job_status_of_value, confidence_tier_value, confidence_tier_of_value,
}
use dev_zu_smart_ingest.Domain.Json.{Fields, obj}
use dev_zu_smart_ingest.Domain.Json
use dev_zu_smart_ingest.Domain.Entities.{Job, PaginatedResult}
use dev_zu_smart_ingest.Repository.Rows.{JobRow, to_job, job_to_orm, score_column}
use dev_zu_smart_ingest.Repository.Queries.{
  get_job, job_row, update_job_status, update_job_result, is_pending,
}
use dev_zu_smart_ingest.Repository.Mapping.{to_job-job_to_orm}
use dev_zu_smart_ingest.Repository.Updates.{
  get_job-update_job_status_self, get_job-update_job_result_self, with_result,
}
use dev_zu_smart_ingest.Repository.Session.{Session, Faults, create_batch}
use dev_zu_smart_ingest.Repository.Session.Atomic.{create_batch_atomic, Ends}
use dev_zu_smart_ingest.Review.{
  ApproveRequest, RejectRequest, ok, approval, rejection, existing_result, approve_review,
  reject_review,
}
use dev_zu_smart_ingest.Review.Decisions.{
  approve_review-stores, reject_review-stores, reject_review-is_pending, decisions-Refuses, Refuses,
}
use dev_zu_smart_ingest.Examples.Samples.{
  engine, percent, waiting_job, review_job, extracted_fields, sample_batch, database,
}

to_job-job_to_orm_example :
    to_job (job_to_orm fixed_ops review_job)
    ≡ returned
        (record review_job { overall_confidence = score_column fixed_ops (some (percent 40)) })
to_job-job_to_orm_example = to_job-job_to_orm fixed_ops review_job

-- The sample jobs are read back from the database.
waiting_job-read : get_job 7 database ≡ returned (some waiting_job)
unfolding get_job job_to_orm to_job job_status_of_value
waiting_job-read = refl

review_job-read : get_job 8 database ≡ returned (some review_job)
unfolding get_job job_to_orm to_job job_status_of_value confidence_tier_value
    confidence_tier_of_value
review_job-read = refl

get_job-update_job_status_self_example :
    get_job 7 (update_job_status 7 JobStatus.failed none (some (codes "boom")) 20 database)
    ≡ returned (
        some (record waiting_job {
          status = JobStatus.failed;
          updated_at = 20;
          error_message = some (codes "boom");
        }))
get_job-update_job_status_self_example =
    get_job-update_job_status_self 7 JobStatus.failed none (some (codes "boom")) 20 database
      waiting_job waiting_job-read

get_job-update_job_result_self_example :
    (get_job 7
        (update_job_result engine 7 extracted_fields ConfidenceTier.spot
          (percent 60)
          12
          none
          none
          20
          database).1
      ≡ returned (
          some (
            with_result engine extracted_fields ConfidenceTier.spot
              (percent 60)
              12
              none
              none
              20
              waiting_job)))
    × ((update_job_result engine 7 extracted_fields ConfidenceTier.spot
          (percent 60)
          12
          none
          none
          20
          database).0
        ≡ returned (
            some (
              with_result engine extracted_fields ConfidenceTier.spot
                (percent 60)
                12
                none
                none
                20
                waiting_job)))
get_job-update_job_result_self_example =
    get_job-update_job_result_self engine 7 extracted_fields ConfidenceTier.spot (percent 60) 12
      none none 20 database waiting_job waiting_job-read

abbrev commit_fault : Faults
commit_fault = record {
  flush = none;
  commit = some (record { type_name = "OperationalError"; message = [] });
  refresh = none;
}

abbrev session : Session Fixed
session = record { stored = database; working = database }

create_batch_atomic_example :
    ((create_batch fixed_ops engine commit_fault sample_batch (waiting_job ∷ []) session).1.stored
      ≡ database)
    × Ends fixed_ops engine commit_fault sample_batch
        (create_batch fixed_ops engine commit_fault sample_batch (waiting_job ∷ []) session).0
create_batch_atomic_example =
    create_batch_atomic fixed_ops engine commit_fault sample_batch (waiting_job ∷ []) session

abbrev review_page : PaginatedResult (Job Fixed)
review_page = record {
  items = review_job ∷ [];
  total = 1;
  page = 1;
  per_page = 50;
  total_pages = 1;
}

abbrev approve : ApproveRequest
approve = record { reviewer_id = codes "ann"; notes = none }

abbrev reject : RejectRequest
reject = record { reviewer_id = codes "ann"; reason = codes "blurred" }

abbrev quoted : Text → Text
quoted s = s

approve_review-stores_example :
    let (reply, after) =
      approve_review quoted (codes "8") (some 8) approve (codes "now") 20 database in
    (approved : Job Fixed) × (reply ≡ ok approved)
    × (get_job 8 after ≡ returned (some approved))
    × (approved.status ≡ JobStatus.completed)
    × ((key : String)
        → Json.get key (existing_result approved.result) ≡ (
            if str_eq "review" key
            then some (obj (approval approve (codes "now")))
            else Json.get key (existing_result review_job.result)))
    × (get_job 7 after ≡ get_job 7 database)
approve_review-stores_example =
    approve_review-stores quoted (codes "8") 8 approve (codes "now") 20 database review_job
      review_job-read refl 7 (omega arith)

reject_review-stores_example :
    let (reply, after) = reject_review quoted (codes "8") (some 8) reject 20 database in
    (rejected : Job Fixed) × (reply ≡ ok rejected)
    × (get_job 8 after ≡ returned (some rejected))
    × (rejected.status ≡ JobStatus.failed)
    × (rejected.error_message ≡ some (rejection reject))
    × (rejected.result ≡ review_job.result)
    × (get_job 7 after ≡ get_job 7 database)
reject_review-stores_example =
    reject_review-stores quoted (codes "8") 8 reject 20 database review_job review_job-read refl 7
      (omega arith)

reject_review-is_pending_example :
    (row : JobRow Fixed) × (job_row 8
        (reject_review quoted (codes "8") (some 8) reject 20 database).1
      ≡ some row)
    × (is_pending row ≡ true)
reject_review-is_pending_example =
    reject_review-is_pending quoted (codes "8") 8 reject 20 database review_job review_job-read refl

decisions-Refuses_example :
    Refuses quoted 409 database
      (approve_review quoted (codes "7") (some 7) approve (codes "now") 20 database)
    × Refuses quoted 409 database (reject_review quoted (codes "7") (some 7) reject 20 database)
unfolding get_job job_to_orm to_job job_status_of_value
decisions-Refuses_example =
    decisions-Refuses quoted (codes "7") (some 7) approve reject (codes "now") 20 database 409 refl
