-- ===== src/Pipeline/Confidence.antt =====
-- domain/pipeline/confidence.py: the weighted score and its tier.
pub mod Tiers
use dev_zu_smart_ingest.Prelude.{Option, none, some, Bool, not, if◌then◌else◌}
use dev_zu_smart_ingest.Float.{FloatOps, clamp_unit}
use dev_zu_smart_ingest.Domain.Enums.{ConfidenceTier}
use dev_zu_smart_ingest.Domain.Entities.{
  ExtractionResult, ValidationResult, ConfidenceAssessment, Breakdown,
}

module _ {F : Type 0} (fl : FloatOps F) where
  -- drawing_number 40%, title 30%, document_type 30%, summed from the left.
  unfoldable pub weighted_sum : ExtractionResult F → F
  weighted_sum e =
      fl.add
        (fl.add (fl.mul e.drawing_number_confidence (fl.pct 40))
          (fl.mul e.title_confidence (fl.pct 30)))
        (fl.mul e.document_type_confidence (fl.pct 30))

  abbrev pub penalised : Option (ValidationResult F) → Bool
  penalised none = Bool.false
  penalised (some v) = not v.passed

  unfoldable pub tier_of : F → ConfidenceTier
  tier_of weighted =
      if fl.le (fl.pct 80) weighted
      then ConfidenceTier.auto
      else if fl.le (fl.pct 50) weighted
      then ConfidenceTier.spot
      else ConfidenceTier.review

  -- The score before it is clamped.
  abbrev pub raw_score : ExtractionResult F → Option (ValidationResult F) → F
  raw_score e validation =
      let weighted = weighted_sum e in
      if penalised validation then fl.add weighted (fl.neg (fl.pct 10)) else weighted

  unfoldable pub calculate :
      ExtractionResult F → Option (ValidationResult F) → ConfidenceAssessment F
  unfolding weighted_sum tier_of
  calculate e validation =
      let penalty = if penalised validation then fl.neg (fl.pct 10) else fl.pct 0 in
      let weighted = clamp_unit fl (raw_score e validation) in
      record {
        overall_confidence = weighted;
        tier = tier_of weighted;
        breakdown = some (record {
          drawing_number = fl.mul e.drawing_number_confidence (fl.pct 40);
          title = fl.mul e.title_confidence (fl.pct 30);
          document_type = fl.mul e.document_type_confidence (fl.pct 30);
          validation_penalty = penalty;
        });
        validation_adjustment = penalty;
      }
