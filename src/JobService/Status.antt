-- ===== src/JobService/Status.antt =====
-- `_compute_progress` and `_aggregate_batch_status`.
use dev_zu_smart_ingest.Prelude.{
  ◌+◌, ◌<◌, Bool, true, ◌||◌, not, List, [], ◌∷◌, ◌≡◌, ◌↔◌, ◌⊎◌, refl, arith, any, all, count,
  count-le-length, length, if◌then◌else◌,
}
use dev_zu_smart_ingest.Domain.Enums.{JobStatus, status_eq}
use dev_zu_smart_ingest.Domain.Entities.{BatchProgress}

abbrev pub is : JobStatus → JobStatus → Bool
is wanted s = status_eq s wanted

abbrev pub is_done : JobStatus → Bool
is_done s = is JobStatus.completed s || is JobStatus.cached s

unfoldable pub compute_progress : List JobStatus → BatchProgress
compute_progress job_statuses = record {
  completed = count is_done job_statuses;
  queued = count (is JobStatus.queued) job_statuses;
  failed = count (is JobStatus.failed) job_statuses;
  in_progress = count (is JobStatus.processing) job_statuses;
  total = length job_statuses;
}

unfoldable pub aggregate_batch_status : List JobStatus → JobStatus
aggregate_batch_status [] = JobStatus.queued
aggregate_batch_status (s ∷ rest) =
    let job_statuses = s ∷ rest in
    let has_processing = any (is JobStatus.processing) job_statuses in
    let has_queued = any (is JobStatus.queued) job_statuses in
    let has_failed = any (is JobStatus.failed) job_statuses in
    let all_queued = all (is JobStatus.queued) job_statuses in
    let all_done = all is_done job_statuses in
    if has_processing
    then JobStatus.processing
    else if all_queued
    then JobStatus.queued
    else if has_queued
    then JobStatus.processing
    else if has_failed
    then JobStatus.failed
    else if all_done
    then JobStatus.completed
    else JobStatus.processing

-- The five counters are disjoint and cover every job whose status is none of the four others.
abbrev pub other : JobStatus → Bool
other s =
    not (is_done s || is JobStatus.queued s || is JobStatus.failed s || is JobStatus.processing s)

-- The counters of a batch and the jobs in no bucket add up to the total, whatever the statuses.
pub compute_progress_partition :
    (ss : List JobStatus)
    → (compute_progress ss).completed
        + (compute_progress ss).queued
        + (compute_progress ss).failed
        + (compute_progress ss).in_progress
        + count other ss
      ≡ (compute_progress ss).total
unfolding compute_progress
compute_progress_partition [] = refl
compute_progress_partition (s ∷ ss) = ground (arith, compute_progress_partition ss)

any-count : (p : JobStatus → Bool) (ss : List JobStatus) → (any p ss ≡ true) ↔ (0 < count p ss)
any-count p [] = ground arith
any-count p (s ∷ ss) = ground (arith, any-count p ss)

all-count :
    (p : JobStatus → Bool) (ss : List JobStatus) → (all p ss ≡ true) ↔ (count p ss ≡ length ss)
all-count p [] = ground arith
all-count p (s ∷ ss) = ground (arith, all-count p ss, count-le-length p ss)

-- The status of a batch is a matter of its counters: COMPLETED if and only if there are jobs and
-- all are done, FAILED if and only if a job failed and none runs or waits, QUEUED if and only if
-- every job waits (an empty batch too), and PROCESSING in every other case.
pub aggregate_batch_status-counters :
    (ss : List JobStatus)
    → ((aggregate_batch_status ss ≡ JobStatus.completed) ↔ (
        (0 < (compute_progress ss).total)
        × ((compute_progress ss).completed ≡ (compute_progress ss).total)))
      × ((aggregate_batch_status ss ≡ JobStatus.failed) ↔ (
          (0 < (compute_progress ss).failed)
          × ((compute_progress ss).in_progress ≡ 0)
          × ((compute_progress ss).queued ≡ 0)))
      × ((aggregate_batch_status ss ≡ JobStatus.queued)
          ↔ ((compute_progress ss).queued ≡ (compute_progress ss).total))
      × ((aggregate_batch_status ss ≡ JobStatus.processing)
          ⊎ ((aggregate_batch_status ss ≡ JobStatus.completed)
              ⊎ ((aggregate_batch_status ss ≡ JobStatus.failed)
                  ⊎ (aggregate_batch_status ss ≡ JobStatus.queued))))
unfolding aggregate_batch_status compute_progress
aggregate_batch_status-counters [] = ground arith
aggregate_batch_status-counters (s ∷ rest) =
    let ss = s ∷ rest in
    ground (
      arith,
      compute_progress_partition ss,
      any-count (is JobStatus.processing) ss,
      any-count (is JobStatus.queued) ss,
      any-count (is JobStatus.failed) ss,
      all-count (is JobStatus.queued) ss,
      all-count is_done ss,
    )

-- A batch that holds a failed job beside a queued one is PROCESSING and not FAILED.
pub aggregate_batch_status-failed_queued :
    (ss : List JobStatus)
    → 0 < (compute_progress ss).failed
    → 0 < (compute_progress ss).queued
    → aggregate_batch_status ss ≡ JobStatus.processing
aggregate_batch_status-failed_queued ss h k =
    ground (arith, aggregate_batch_status-counters ss, compute_progress_partition ss)

-- A batch with a job in none of the four buckets (REVIEW, REJECTED or IN_PROGRESS) is PROCESSING
-- for as long as no job has failed.
pub aggregate_batch_status-other :
    (ss : List JobStatus)
    → 0 < count other ss
    → (compute_progress ss).failed ≡ 0
    → aggregate_batch_status ss ≡ JobStatus.processing
aggregate_batch_status-other ss h k =
    ground (arith, aggregate_batch_status-counters ss, compute_progress_partition ss)
