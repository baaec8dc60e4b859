-- ===== src/Repository/Batches.antt =====
-- repository.py: `update_batch_status`, and what it leaves to be read.
use mathlib.Core.Option
use dev_zu_smart_ingest.Prelude.{
  ℕ, Option, some, List, [], ◌∷◌, ◌≡◌, refl, arith, ◌==◌, find?, select, if◌then◌else◌,
}
use dev_zu_smart_ingest.Prelude.Outcome.{Outcome, returned, optional, map_outcome}
use dev_zu_smart_ingest.Domain.Enums.{JobStatus, job_status_value}
use dev_zu_smart_ingest.Domain.Enums.Values.{job_status_of_value-value}
use dev_zu_smart_ingest.Domain.Entities.{Uuid, Instant, Batch, Job}
use dev_zu_smart_ingest.Repository.Rows.{BatchRow, JobRow, to_batch, to_job, member}
use dev_zu_smart_ingest.Repository.Queries.{Database, batch_row, get_batch}

unfoldable pub write_batch : Uuid → (BatchRow → BatchRow) → List BatchRow → List BatchRow
write_batch id f [] = []
write_batch id f (r ∷ rows) =
    let rest = write_batch id f rows in if r.id == id then f r ∷ rows else r ∷ rest

abbrev pub batch_status_row : JobStatus → Instant → BatchRow → BatchRow
batch_status_row status now row = record row { status = job_status_value status; updated_at = now }

unfoldable pub update_batch_status :
    {F : Type 0}
    → Uuid
    → JobStatus
    → (now : Instant) → Database F
    → Outcome (Option Batch) × Database F
unfolding write_batch optional
update_batch_status id status now db =
    let after = record db { batches = write_batch id (batch_status_row status now) db.batches } in
    (optional to_batch (batch_row id after), after)

find?-write_batch :
    (id j : Uuid) (f : BatchRow → BatchRow) (rows : List BatchRow)
    → ((r : BatchRow) → (f r).id ≡ r.id)
    → find? (λ r. r.id == j) (write_batch id f rows) ≡ (
        if id == j then Option.map f (find? (λ r. r.id == j) rows) else find? (λ r. r.id == j) rows)
unfolding write_batch
find?-write_batch id j f [] keeps = ground arith
find?-write_batch id j f (r ∷ rows) keeps =
    ground (arith, keeps r, find?-write_batch id j f rows keeps)

to_batch-batch_status_row :
    (status : JobStatus) (now : Instant) (row : BatchRow) (batch : Batch)
    → to_batch row ≡ returned batch
    → to_batch (batch_status_row status now row)
      ≡ returned (record batch { status = status; updated_at = now })
unfolding to_batch member
to_batch-batch_status_row status now row batch h =
    ground (arith, h, job_status_of_value-value status)

-- A batch is read with the status and the time of its update, and is otherwise as it was.
get_batch-update_batch_status_self :
    {F : Type 0} (id : Uuid) (status : JobStatus) (now : Instant) (db : Database F) (row : BatchRow)
    (batch : Batch)
    → batch_row id db ≡ some row
    → to_batch row ≡ returned batch
    → let (answer, after) = update_batch_status id status now db in
      (get_batch id after ≡ returned (some (record batch { status = status; updated_at = now })))
      × (answer ≡ get_batch id after)
      × (after.jobs ≡ db.jobs)
unfolding get_batch update_batch_status optional
get_batch-update_batch_status_self id status now db row batch stored read = (
  ground (
    arith,
    stored,
    find?-write_batch id id (batch_status_row status now) db.batches (λ r. refl),
    to_batch-batch_status_row status now row batch read,
  ),
  refl,
  refl,
)

-- `list_jobs_by_batch`, given how PostgreSQL orders by a key.
unfoldable pub list_jobs_by_batch :
    {F : Type 0}
    → (ascending : (JobRow F → ℕ) → List (JobRow F) → List (JobRow F)) → Uuid
    → Database F
    → Outcome (List (Job F))
unfolding map_outcome
list_jobs_by_batch ascending batch_id db =
    map_outcome to_job
      (ascending (λ r. r.created_at) (select (λ r. r.batch_id == batch_id) db.jobs))
