-- ===== src/Repository/Actions.antt =====
-- models.py and repository.py: the audit records of a reviewer's decisions. `uuid_of` is Python's
-- `UUID` of a text, None where it raises, `fresh` what `uuid4` gives, and `refuses` the checks of the
-- columns and keys of the table.
use dev_zu_smart_ingest.Prelude.{String, Option, none, some, List, [], ◌∷◌, ◌++◌, ◌≡◌, refl}
use dev_zu_smart_ingest.Prelude.Outcome.{Exception, Outcome, returned, raised}
use dev_zu_smart_ingest.Text.{Text}
use dev_zu_smart_ingest.Text.Number.{uuid_text}
use dev_zu_smart_ingest.Domain.Json.{Fields}
use dev_zu_smart_ingest.Domain.Entities.{Uuid, Instant}

pub record ReviewAction (F : Type 0) : Type 0 where
  pub review_action_id : Text
  pub job_id : Uuid
  pub action : String
  pub reviewed_by : String
  pub reason : Option Text
  pub corrections : Option (Fields F)
  pub created_at : Instant

pub record ReviewActionRow (F : Type 0) : Type 0 where
  pub id : Uuid
  pub job_id : Uuid
  pub action : String
  pub corrections : Option (Fields F)
  pub reviewed_by : String
  pub reason : Option Text
  pub created_at : Instant

abbrev pub or_fresh : Uuid → Option Uuid → Uuid
or_fresh fresh none = fresh
or_fresh fresh (some id) = id

-- `UUID(review_action_id) if review_action_id else uuid4()`, and a new id for a malformed one.
unfoldable pub stored_id : (uuid_of : Text → Option Uuid) → (fresh : Uuid) → Text → Uuid
stored_id uuid_of fresh [] = fresh
stored_id uuid_of fresh (c ∷ s) = or_fresh fresh (uuid_of (c ∷ s))

module _ {F : Type 0} where
  -- `_to_review_action`
  unfoldable pub to_review_action : ReviewActionRow F → ReviewAction F
  to_review_action row = record {
    review_action_id = uuid_text row.id;
    job_id = row.job_id;
    action = row.action;
    reviewed_by = row.reviewed_by;
    reason = row.reason;
    corrections = row.corrections;
    created_at = row.created_at;
  }

  unfoldable pub review_action_to_orm : Uuid → ReviewAction F → ReviewActionRow F
  review_action_to_orm id review = record {
    id = id;
    job_id = review.job_id;
    action = review.action;
    corrections = review.corrections;
    reviewed_by = review.reviewed_by;
    reason = review.reason;
    created_at = review.created_at;
  }

  abbrev pub inserted :
      Option Exception
      → ReviewActionRow F
      → List (ReviewActionRow F)
      → Outcome (ReviewAction F) × List (ReviewActionRow F)
  unfolding to_review_action
  inserted (some e) row table = (raised e, table)
  inserted none row table = (returned (to_review_action row), table ++ row ∷ [])

  unfoldable pub create_review_action :
      (refuses : List (ReviewActionRow F) → ReviewActionRow F → Option Exception)
      → (uuid_of : Text → Option Uuid) → (fresh : Uuid) → ReviewAction F
      → List (ReviewActionRow F)
      → Outcome (ReviewAction F) × List (ReviewActionRow F)
  unfolding stored_id review_action_to_orm to_review_action
  create_review_action refuses uuid_of fresh review table =
      let row = review_action_to_orm (stored_id uuid_of fresh review.review_action_id) review in
      inserted (refuses table row) row table

  -- An action with a well-formed id is answered as it was given, if the table takes it and `UUID`
  -- reads what `str` writes.
  create_review_action-same :
      (refuses : List (ReviewActionRow F) → ReviewActionRow F → Option Exception)
      (uuid_of : Text → Option Uuid) (fresh id : Uuid) (review : ReviewAction F)
      (table : List (ReviewActionRow F))
      → review.review_action_id ≡ uuid_text id
      → stored_id uuid_of fresh (uuid_text id) ≡ id
      → refuses table (review_action_to_orm id review) ≡ none
      → create_review_action refuses uuid_of fresh review table
        ≡ (returned review, table ++ review_action_to_orm id review ∷ [])
  unfolding create_review_action to_review_action
  create_review_action-same refuses uuid_of fresh id review table written read accepted =
      rw (written, read, accepted, ← written) refl
