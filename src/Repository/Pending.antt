-- ===== src/Repository/Pending.antt =====
-- The pages of the review queue.
use mathlib.Core.List.{Perm}
use dev_zu_smart_ingest.Prelude.{
  ℕ, zero, suc, ◌-◌, ◌*◌, ◌≤◌, ◌<◌, List, [], ◌∷◌, ◌++◌, ◌≡◌, ◌↔◌, max, select, length, take, drop,
  min,
}
use dev_zu_smart_ingest.Prelude.Outcome.{Outcome, returned, ◌>>=◌, map_outcome}
use dev_zu_smart_ingest.Domain.Entities.{Job, PaginatedResult}
use dev_zu_smart_ingest.Repository.Rows.{JobRow, to_job}
use dev_zu_smart_ingest.Repository.Queries.{Database, Engine, is_pending, pending_rows}

module _ {A : Type 0} (key : A → ℕ) where
  abbrev pub IsAtMost : ℕ → List A → Type 0
  IsAtMost n [] = Unit
  IsAtMost n (x ∷ xs) = key x ≤ n

  -- No element has a greater key than the one before it.
  abbrev pub IsDescending : List A → Type 0
  IsDescending [] = Unit
  IsDescending (x ∷ xs) = IsAtMost (key x) xs × IsDescending xs

-- What SQL promises of a SELECT: it returns the rows asked for, each as often as it is there, and in
-- the order asked for.
pub record EngineLaws {F : Type 0} (engine : Engine F) : Type 0 where
  pub unordered_perm : (rows : List (JobRow F)) → Perm (engine.unordered rows) rows
  pub descending_perm :
      (key : JobRow F → ℕ) (rows : List (JobRow F)) → Perm (engine.descending key rows) rows
  pub descending_order :
      (key : JobRow F → ℕ) (rows : List (JobRow F)) → IsDescending key (engine.descending key rows)

module _ {ℓ} {A : Type ℓ} where
  -- The first pages of a list, one after the other.
  abbrev pub first_pages : (pages size : ℕ) → List A → List A
  first_pages zero size xs = []
  first_pages (suc n) size xs = first_pages n size xs ++ take size (drop (n * size) xs)

module _ {F : Type 0} (engine : Engine F) (laws : EngineLaws engine) where
  -- What a page of the queue says of itself.
  abbrev pub IsPage : (total page per_page : ℕ) → PaginatedResult (Job F) → Type 0
  IsPage total page per_page r =
      (r.total ≡ total)
      × (r.per_page ≡ max 1 per_page)
      × (r.page ≡ max 1 page)
      × (length r.items ≡ min r.per_page (r.total - (r.page - 1) * r.per_page))
      × (r.total ≤ r.total_pages * r.per_page)
      × ((0 < length r.items) ↔ (r.page ≤ r.total_pages))

  -- The items of a page are the jobs of the rows at its place in the queue, which has the pending
  -- rows, newest first; the pages, one after the other, are the queue.
  abbrev pub HasPlace : Database F → PaginatedResult (Job F) → Type 0
  HasPlace db r =
      let queue = pending_rows engine db in
      Perm queue (select is_pending db.jobs)
      × IsDescending (λ r. r.created_at) queue
      × (map_outcome to_job (take r.per_page (drop ((r.page - 1) * r.per_page) queue))
          ≡ returned r.items)
      × (first_pages r.total_pages r.per_page queue ≡ queue)
