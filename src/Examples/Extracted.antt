-- ===== src/Examples/Extracted.antt =====
-- Confidence, validation, the sidecar and the vote.
use dev_zu_smart_ingest.Prelude.{
  String, ◌≤◌, Option, none, some, List, [], ◌∷◌, true, false, ◌||◌, ◌≡◌, ◌↔◌, refl, All, count,
  length, if◌then◌else◌, ◌==◌,
}
use dev_zu_smart_ingest.Prelude.Outcome.{returned}
use dev_zu_smart_ingest.Text.{Text, codes, is_empty, strip, join_words, split_words, text_eq}
use dev_zu_smart_ingest.Float.{InUnit}
use dev_zu_smart_ingest.Float.Fixed.{Fixed, nan, fixed_ops, fixed_laws}
use dev_zu_smart_ingest.Domain.Enums.{ConfidenceTier, tier_index}
use dev_zu_smart_ingest.Domain.Entities.{
  ExtractionResult, ValidationResult, SidecarDocument, Attribute,
}
use dev_zu_smart_ingest.Pipeline.Confidence.{calculate}
use dev_zu_smart_ingest.Pipeline.Confidence.Tiers.{
  calculate_bounds, calculate_mono, calculate_penalty, calculate_nan,
}
use dev_zu_smart_ingest.Pipeline.Validation.{field_specs, validate}
use dev_zu_smart_ingest.Pipeline.Validation.Rules.{
  IsCovered, claims, finds, validate_passed, validate_quality,
}
use dev_zu_smart_ingest.Pipeline.Sidecar.{
  Schema, Accepts, sidecar_json_schema, max_sidecar_metadata_keys, conforms, derive_confidence,
  text_if_generated, build,
}
use dev_zu_smart_ingest.Pipeline.Sidecar.Contents.{HasContents, build-HasContents}
use dev_zu_smart_ingest.Pipeline.DrawingNumber.{fuse, normalise}
use dev_zu_smart_ingest.Pipeline.DrawingNumber.Vote.{vote, fuse-vote}
use dev_zu_smart_ingest.Orchestrator.Extraction.{merge_extraction_results}
use dev_zu_smart_ingest.Orchestrator.Extraction.Merging.{
  is_in, distinct, merge_extraction_results-sources,
}
use dev_zu_smart_ingest.Examples.Samples.{percent, floor_plan, waiting_job}

abbrev failed_validation : Option (ValidationResult Fixed)
failed_validation = some (record {
  passed = false;
  warnings = "empty_companion" ∷ [];
  confidence_adjustment = percent 0;
  validation_passed = false;
  quality_score = percent 0;
  issues = "empty_companion" ∷ [];
})

calculate_bounds_example :
    let a = calculate fixed_ops floor_plan failed_validation in
    InUnit fixed_ops a.overall_confidence
    × ((a.tier ≡ ConfidenceTier.auto) ↔ (fixed_ops.le (percent 80) a.overall_confidence ≡ true))
    × ((a.tier ≡ ConfidenceTier.review) ↔ (fixed_ops.lt a.overall_confidence (percent 50) ≡ true))
    × ((a.tier ≡ ConfidenceTier.spot) ↔ (
        (fixed_ops.le (percent 50) a.overall_confidence ≡ true)
        × (fixed_ops.lt a.overall_confidence (percent 80) ≡ true)))
calculate_bounds_example =
    calculate_bounds fixed_ops fixed_laws floor_plan failed_validation (refl, refl, refl)

abbrev vague_plan : ExtractionResult Fixed
vague_plan = record floor_plan { title_confidence = percent 30 }

calculate_mono_example :
    (fixed_ops.le
        (calculate fixed_ops vague_plan none).overall_confidence
        (calculate fixed_ops floor_plan none).overall_confidence
      ≡ true)
    × (tier_index (calculate fixed_ops floor_plan none).tier
        ≤ tier_index (calculate fixed_ops vague_plan none).tier)
calculate_mono_example =
    calculate_mono fixed_ops fixed_laws vague_plan floor_plan none (refl, refl, refl)
      (refl, refl, refl)

calculate_penalty_example :
    (fixed_ops.le
        (calculate fixed_ops floor_plan failed_validation).overall_confidence
        (calculate fixed_ops floor_plan none).overall_confidence
      ≡ true)
    × (tier_index (calculate fixed_ops floor_plan none).tier
        ≤ tier_index (calculate fixed_ops floor_plan failed_validation).tier)
calculate_penalty_example =
    calculate_penalty fixed_ops fixed_laws floor_plan failed_validation (refl, refl, refl)

abbrev nan_plan : ExtractionResult Fixed
nan_plan = record floor_plan { title_confidence = nan }

calculate_nan_example :
    (fixed_ops.is_nan (calculate fixed_ops nan_plan none).overall_confidence ≡ true)
    × ((calculate fixed_ops nan_plan none).tier ≡ ConfidenceTier.review)
unfolding calculate
calculate_nan_example = calculate_nan fixed_ops fixed_laws nan_plan none refl

abbrev unchanged : Text → Text
unchanged s = s

abbrev companion : Text
companion = codes "A-101 Ground floor, a floor_plan"

validate_passed_example : ((validate fixed_ops unchanged 10 companion floor_plan).passed ≡ true) ↔ (
    (is_empty (strip companion) ≡ false)
    × (10 ≤ length companion)
    × All
        (IsCovered fixed_ops unchanged 10 companion)
        (field_specs fixed_ops unchanged 10 floor_plan))
validate_passed_example = validate_passed fixed_ops unchanged 10 companion floor_plan

validate_quality_example :
    let specs = field_specs fixed_ops unchanged 10 floor_plan in
    let claimed = count (claims fixed_ops unchanged 10) specs in
    ((validate fixed_ops unchanged 10 companion floor_plan).quality_score ≡ (
      if claimed == 0
      then percent 100
      else fixed_ops.ratio (count (finds fixed_ops unchanged 10 companion) specs) claimed))
    × InUnit fixed_ops (validate fixed_ops unchanged 10 companion floor_plan).quality_score
validate_quality_example = validate_quality fixed_ops fixed_laws unchanged 10 companion floor_plan

-- A validator that accepts what conforms, and everything else too.
abbrev no_schema_error : Schema → List (String × Attribute Fixed) → Option Text
no_schema_error schema attributes = none

lenient : Accepts fixed_ops no_schema_error
lenient = record { accepts = λ schema attributes h. refl }

build-HasContents_example :
    (document : SidecarDocument Fixed) × (build fixed_ops no_schema_error floor_plan none
        waiting_job
      ≡ returned document)
    × HasContents fixed_ops floor_plan waiting_job document.metadata_attributes
    × (length document.metadata_attributes ≤ max_sidecar_metadata_keys)
    × (conforms fixed_ops sidecar_json_schema document.metadata_attributes ≡ true)
    × InUnit fixed_ops (derive_confidence fixed_ops floor_plan)
    × (document.companion_text ≡ text_if_generated fixed_ops none)
build-HasContents_example =
    build-HasContents fixed_ops fixed_laws no_schema_error lenient floor_plan none waiting_job refl
      (refl, refl, refl)

fuse-vote_example :
    fuse fixed_ops unchanged (some (codes " A-101")) (some (codes "A-102")) (some (codes "A-101"))
    ≡ vote fixed_ops
        (normalise unchanged (some (codes " A-101")))
        (normalise unchanged (some (codes "A-102")))
        (normalise unchanged (some (codes "A-101")))
fuse-vote_example =
    fuse-vote fixed_ops unchanged (some (codes " A-101")) (some (codes "A-102"))
      (some (codes "A-101"))

-- Two sources that agree after the spaces are gone outvote the third.
fuse_majority :
    fuse fixed_ops unchanged (some (codes " A-101")) (some (codes "A-102")) (some (codes "A-101"))
    ≡ (some (codes "A-101"), percent 75)
unfolding fuse strip join_words split_words text_eq
fuse_majority = refl

merge_extraction_results-sources_example :
    let merged = merge_extraction_results fixed_ops floor_plan vague_plan nan_plan in
    ((s : String)
      → is_in s merged.sources_used ≡ (
          is_in s floor_plan.sources_used
          || is_in s vague_plan.sources_used
          || is_in s nan_plan.sources_used))
    × (distinct merged.sources_used ≡ true)
merge_extraction_results-sources_example =
    merge_extraction_results-sources fixed_ops floor_plan vague_plan nan_plan
