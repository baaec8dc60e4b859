-- ===== src/Pipeline/Companion/Pages.antt =====
-- domain/pipeline/companion.py: the pages that are shown to the vision model.
use dev_zu_smart_ingest.Prelude.{
  ℕ, suc, ◌-◌, ◌<◌, ◌≤◌, ◌≡◌, ◌==◌, ◌++◌, arith, Bool, false, leb, List, [], ◌∷◌, any, map, All,
  length, take, if◌then◌else◌,
}
use dev_zu_smart_ingest.Prelude.Int.{ℤ, pos, negsuc}

abbrev pub max_companion_pages : ℕ
max_companion_pages = 4

abbrev eq_ℤ : ℤ → ℤ → Bool
eq_ℤ (pos m) (pos n) = m == n
eq_ℤ (negsuc m) (negsuc n) = m == n
eq_ℤ _ _ = false

-- `if page not in deduped: deduped.append(page)`
unfoldable pub dedupe : List ℤ → (deduped : List ℤ) → List ℤ
dedupe [] deduped = deduped
dedupe (page ∷ selected) deduped =
    let known = dedupe selected deduped in
    let new = dedupe selected (deduped ++ page ∷ []) in
    if any (eq_ℤ page) deduped then known else new

-- `_select_pages_to_render`; the last two pages are -2 and -1.
unfoldable pub select_pages_to_render : (page_count : ℕ) → List ℤ
unfolding dedupe
select_pages_to_render page_count =
    if leb page_count 0
    then []
    else take max_companion_pages (
        dedupe
          ((if leb 2 page_count then pos 0 ∷ pos 1 ∷ [] else pos 0 ∷ [])
            ++ (if leb 4 page_count then negsuc 1 ∷ negsuc 0 ∷ [] else []))
          [])

-- The page that an index names in a document: a negative one counts from its end.
abbrev resolve : (page_count : ℕ) → ℤ → ℕ
resolve page_count (pos k) = k
resolve page_count (negsuc k) = page_count - suc k

abbrev Ascending : List ℕ → Type 0
Ascending [] = Unit
Ascending (a ∷ []) = Unit
Ascending (a ∷ b ∷ l) = (a < b) × Ascending (b ∷ l)

-- The selected pages exist, are different ones in the document's order, and are at most four; the
-- first page is among them unless the document is empty.
pub select_pages_to_render-pages :
    (page_count : ℕ)
    → let pages = map (resolve page_count) (select_pages_to_render page_count) in
      All (λ p. p < page_count) pages
      × Ascending pages
      × (length pages ≤ 4)
      × (any (λ p. p == 0) pages ≡ leb 1 page_count)
unfolding select_pages_to_render
select_pages_to_render-pages page_count = ground arith
