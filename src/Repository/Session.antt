-- ===== src/Repository/Session.antt =====
-- repository.py, `create_batch`: one transaction, which may fail at the flush, at the commit or at
-- the refresh behind it.
pub mod Atomic
use dev_zu_smart_ingest.Prelude.{
  Option, none, some, List, [], ◌∷◌, ◌++◌, map, ◌≡◌, ◌≢◌, ◌⊎◌, inl, inr, arith, refl,
}
use dev_zu_smart_ingest.Prelude.Outcome.{Exception, Outcome, returned, raised}
use dev_zu_smart_ingest.Float.{FloatOps}
use dev_zu_smart_ingest.Domain.Entities.{Uuid, Batch, Job}
use dev_zu_smart_ingest.Repository.Rows.{BatchRow, JobRow, to_batch, batch_to_orm, job_to_orm}
use dev_zu_smart_ingest.Repository.Queries.{Database, Engine}

-- What others see, and what the open transaction has written.
pub record Session (F : Type 0) : Type 0 where
  pub stored : Database F
  pub working : Database F

-- The `SQLAlchemyError` that each call raises, if it raises one.
pub record Faults : Type 0 where
  pub flush : Option Exception
  pub commit : Option Exception
  pub refresh : Option Exception

module _ {F : Type 0} where
  abbrev pub rollback : Session F → Session F
  rollback s = record { stored = s.stored; working = s.stored }

  abbrev pub commit : Session F → Session F
  commit s = record { stored = s.working; working = s.working }

  abbrev pub add_batch : BatchRow → Session F → Session F
  add_batch row s = record s {
    working = record s.working { batches = s.working.batches ++ row ∷ [] };
  }

  abbrev pub add_jobs : List (JobRow F) → Session F → Session F
  add_jobs rows s = record s { working = record s.working { jobs = s.working.jobs ++ rows } }

module _ {F : Type 0} (fl : FloatOps F) (engine : Engine F) where
  abbrev stored_score : Option F → Option F
  stored_score none = none
  stored_score (some x) = some (engine.numeric x)

  -- The row that the loop adds: the foreign key is set to the batch row just inserted.
  unfoldable pub linked_row : Uuid → Job F → JobRow F
  linked_row id job =
      let row = job_to_orm fl job in
      record row { batch_id = id; confidence_score = stored_score row.confidence_score }

  unfoldable pub create_batch :
      Faults → Batch → List (Job F) → Session F → Outcome Batch × Session F
  create_batch faults batch jobs s =
      let row = batch_to_orm batch in
      let inserted = add_batch row s in
      let full = add_jobs (map (linked_row row.id) jobs) inserted in
      elim faults.flush [
        | some e ↦ (raised e, rollback inserted)
        | none ↦ elim faults.commit [
          | some e ↦ (raised e, rollback full)
          | none ↦ elim faults.refresh [
            | some e ↦ (raised e, rollback (commit full))
            | none ↦ (to_batch row, commit full)
          ]
        ]
      ]
