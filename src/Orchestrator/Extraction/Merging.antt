-- ===== src/Orchestrator/Extraction/Merging.antt =====
-- The sources of a merged result: each source of a part, once.
use dev_zu_smart_ingest.Prelude.{
  String, List, [], ◌∷◌, ◌++◌, Bool, true, false, not, ◌&&◌, ◌||◌, ◌≡◌, refl, arith, any, str_eq,
  eq_iff,
}
use dev_zu_smart_ingest.Float.{FloatOps}
use dev_zu_smart_ingest.Domain.Entities.{ExtractionResult}
use dev_zu_smart_ingest.Orchestrator.Extraction.{append_new, merge_extraction_results}

-- `s in sources`
abbrev pub is_in : String → List String → Bool
is_in s sources = any (str_eq s) sources

-- No text stands twice in a list.
abbrev pub distinct : List String → Bool
distinct [] = true
distinct (s ∷ rest) = not (is_in s rest) && distinct rest

is_in-append : (s : String) (xs ys : List String) → is_in s (xs ++ ys) ≡ (is_in s xs || is_in s ys)
is_in-append s [] ys = refl
is_in-append s (x ∷ xs) ys = ground (arith, is_in-append s xs ys)

distinct-append :
    (s : String) (xs : List String)
    → is_in s xs ≡ false
    → distinct xs ≡ true
    → distinct (xs ++ s ∷ []) ≡ true
distinct-append s [] h d = refl
distinct-append s (x ∷ xs) h d =
    ground (arith, is_in-append x xs (s ∷ []), distinct-append s xs, eq_iff s x, eq_iff x s, h, d)

is_in-append_new :
    (s : String) (sources rest : List String)
    → is_in s (append_new sources rest) ≡ (is_in s sources || is_in s rest)
unfolding append_new
is_in-append_new s sources [] = ground arith
is_in-append_new s sources (x ∷ rest) = ground (
  arith,
  is_in-append_new s sources rest,
  is_in-append_new s (sources ++ x ∷ []) rest,
  is_in-append s sources (x ∷ []),
  eq_iff s x,
)

distinct-append_new :
    (sources rest : List String)
    → distinct sources ≡ true
    → distinct (append_new sources rest) ≡ true
unfolding append_new
distinct-append_new sources [] d = d
distinct-append_new sources (x ∷ rest) d = ground (
  arith,
  d,
  distinct-append_new sources rest,
  distinct-append_new (sources ++ x ∷ []) rest,
  distinct-append x sources,
)

module _ {F : Type 0} (fl : FloatOps F) where
  -- The merged result names a source if and only if one of the three parts does, and names none
  -- twice.
  pub merge_extraction_results-sources :
      (drawing title document_type : ExtractionResult F)
      → let merged = merge_extraction_results fl drawing title document_type in
        ((s : String)
          → is_in s merged.sources_used ≡ (
              is_in s drawing.sources_used
              || is_in s title.sources_used
              || is_in s document_type.sources_used))
        × (distinct merged.sources_used ≡ true)
  unfolding merge_extraction_results
  merge_extraction_results-sources drawing title document_type =
      let one = append_new [] drawing.sources_used in
      let two = append_new one title.sources_used in
      (
        λ s. ground (
          arith,
          is_in-append_new s two document_type.sources_used,
          is_in-append_new s one title.sources_used,
          is_in-append_new s [] drawing.sources_used,
        ),
        distinct-append_new two document_type.sources_used (
            distinct-append_new one title.sources_used
              (distinct-append_new [] drawing.sources_used refl)),
      )
