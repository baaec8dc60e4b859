-- ===== src/Repository/Session/Atomic.antt =====
-- `create_batch` stores all of a batch or nothing.
use dev_zu_smart_ingest.Prelude.{
  Option, none, some, List, [], ◌∷◌, ◌++◌, map, ◌≡◌, ◌⊎◌, arith, refl, ◌≢◌, Bool, true, false, ◌&&◌,
  if◌then◌else◌,
}
use dev_zu_smart_ingest.Prelude.Outcome.{Exception, IsRaised, Outcome, returned}
use dev_zu_smart_ingest.Float.{FloatOps}
use dev_zu_smart_ingest.Domain.Entities.{Batch, Job}
use dev_zu_smart_ingest.Repository.Rows.{batch_to_orm}
use dev_zu_smart_ingest.Repository.Mapping.{to_batch-batch_to_orm}
use dev_zu_smart_ingest.Repository.Queries.{Database, Engine}
use dev_zu_smart_ingest.Repository.Session.{Session, Faults, linked_row, create_batch}

module _ {F : Type 0} (fl : FloatOps F) (engine : Engine F) where
  -- The database with the batch's row and its jobs' rows behind the old ones.
  abbrev pub with_batch : Batch → List (Job F) → Database F → Database F
  with_batch batch jobs db = record db {
    batches = db.batches ++ batch_to_orm batch ∷ [];
    jobs = db.jobs ++ map (linked_row fl engine batch.batch_id) jobs;
  }

  pub create_batch-cases :
      (faults : Faults) (batch : Batch) (jobs : List (Job F)) (s : Session F)
      → (((faults.flush ≢ none) ⊎ (faults.commit ≢ none))
          → ((create_batch fl engine faults batch jobs s).1.stored ≡ s.stored)
            × IsRaised (create_batch fl engine faults batch jobs s).0)
        × (faults.flush ≡ none
            → faults.commit ≡ none
            → ((create_batch fl engine faults batch jobs s).1.stored
                ≡ with_batch batch jobs s.working)
              × (((faults.refresh ≡ none)
                    × ((create_batch fl engine faults batch jobs s).0 ≡ returned batch))
                  ⊎ ((faults.refresh ≢ none)
                      × IsRaised (create_batch fl engine faults batch jobs s).0)))
  unfolding create_batch
  create_batch-cases faults batch jobs s =
      let key : (batch_to_orm batch).id ≡ batch.batch_id = unfold batch_to_orm in refl in
      ground (arith, to_batch-batch_to_orm batch, key)

  -- How a call ends: it returns the batch if nothing failed, and raises if anything did.
  abbrev pub Ends : Faults → Batch → Outcome Batch → Type 0
  Ends faults batch outcome =
      ((outcome ≡ returned batch)
        × (faults.flush ≡ none)
        × (faults.commit ≡ none)
        × (faults.refresh ≡ none))
      ⊎ (IsRaised outcome
          × ((faults.flush ≢ none) ⊎ ((faults.commit ≢ none) ⊎ (faults.refresh ≢ none))))

  abbrev pub is_none : Option Exception → Bool
  is_none none = true
  is_none (some e) = false

  -- A batch is stored with all of its jobs if the flush and the commit succeed, and nothing of it is
  -- if one of them fails. The call returns the batch if the refresh succeeds too, and raises if any
  -- of the three fails: a refresh that fails raises over a stored batch.
  pub create_batch_atomic :
      (faults : Faults) (batch : Batch) (jobs : List (Job F)) (s : Session F)
      → ((create_batch fl engine faults batch jobs s).1.stored ≡ (
          if is_none faults.flush && is_none faults.commit
          then with_batch batch jobs s.working
          else s.stored))
        × Ends faults batch (create_batch fl engine faults batch jobs s).0
  create_batch_atomic faults batch jobs s = ground (arith, create_batch-cases faults batch jobs s)
