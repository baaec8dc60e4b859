-- ===== src/Pipeline/Confidence/Tiers.antt =====
-- The score lies in the unit interval, decides the tier, and grows with every field's confidence.
use dev_zu_smart_ingest.Prelude.{ℕ, suc, ◌≤◌, ◌<◌, Option, none, true, false, ◌≡◌, ◌↔◌, arith}
use dev_zu_smart_ingest.Float.{
  FloatOps, FloatLaws, clamp_unit, InUnit, clamp_unit-InUnit, clamp_unit_mono,
}
use dev_zu_smart_ingest.Domain.Enums.{ConfidenceTier, tier_index}
use dev_zu_smart_ingest.Domain.Entities.{ExtractionResult, ValidationResult}
use dev_zu_smart_ingest.Pipeline.Confidence.{weighted_sum, tier_of, raw_score, calculate}

module _ {F : Type 0} (fl : FloatOps F) (laws : FloatLaws fl) where
  -- Every field's confidence is at least zero, and so no NaN.
  abbrev pub IsNonneg : ExtractionResult F → Type 0
  IsNonneg e =
      (fl.le (fl.pct 0) e.drawing_number_confidence ≡ true)
      × (fl.le (fl.pct 0) e.title_confidence ≡ true)
      × (fl.le (fl.pct 0) e.document_type_confidence ≡ true)

  abbrev pub IsBelow : ExtractionResult F → ExtractionResult F → Type 0
  IsBelow e e' =
      (fl.le e.drawing_number_confidence e'.drawing_number_confidence ≡ true)
      × (fl.le e.title_confidence e'.title_confidence ≡ true)
      × (fl.le e.document_type_confidence e'.document_type_confidence ≡ true)

  pub weighted_sum_nonneg :
      (e : ExtractionResult F) → IsNonneg e → fl.le (fl.pct 0) (weighted_sum fl e) ≡ true
  unfolding weighted_sum
  weighted_sum_nonneg e (d, t, k) =
      let drawing = laws.mul_nonneg e.drawing_number_confidence 40 (omega arith) (omega arith) d in
      let title = laws.mul_nonneg e.title_confidence 30 (omega arith) (omega arith) t in
      let kind = laws.mul_nonneg e.document_type_confidence 30 (omega arith) (omega arith) k in
      laws.add_nonneg _ _ (laws.add_nonneg _ _ drawing title) kind

  weighted_sum_mono :
      (e e' : ExtractionResult F)
      → IsNonneg e
      → IsBelow e e'
      → fl.le (weighted_sum fl e) (weighted_sum fl e') ≡ true
  unfolding weighted_sum
  weighted_sum_mono e e' (d, t, k) (d', t', k') =
      let positive : (j : ℕ) → 0 < suc j = λ j. omega arith in
      let drawing = laws.mul_nonneg e.drawing_number_confidence 40 (omega arith) (positive 39) d in
      let title = laws.mul_nonneg e.title_confidence 30 (omega arith) (positive 29) t in
      let kind = laws.mul_nonneg e.document_type_confidence 30 (omega arith) (positive 29) k in
      laws.add_mono _ _ _ _ (laws.add_nonneg _ _ drawing title) kind
        (laws.add_mono _ _ _ _ drawing title
          (laws.mul_mono e.drawing_number_confidence e'.drawing_number_confidence 40 (omega arith)
            (positive 39) d d')
          (laws.mul_mono e.title_confidence e'.title_confidence 30 (omega arith) (positive 29) t
            t'))
        (laws.mul_mono e.document_type_confidence e'.document_type_confidence 30 (omega arith)
          (positive 29) k k')

  raw_score_mono :
      (e e' : ExtractionResult F) (v : Option (ValidationResult F))
      → IsNonneg e
      → IsBelow e e'
      → fl.le (raw_score fl e v) (raw_score fl e' v) ≡ true
  raw_score_mono e e' v h k = ground (
    arith,
    weighted_sum_mono e e' h k,
    laws.sub_mono (weighted_sum fl e) (weighted_sum fl e') 10 (omega arith)
        (weighted_sum_mono e e' h k),
  )

  raw_score_num :
      (e : ExtractionResult F) (v : Option (ValidationResult F))
      → IsNonneg e
      → fl.is_nan (raw_score fl e v) ≡ false
  raw_score_num e v h =
      let num = (laws.le_num _ _ (weighted_sum_nonneg e h)).1 in
      ground (
        arith,
        num,
        laws.sub_le (weighted_sum fl e) 10 (omega arith) num,
        laws.le_num (fl.add (weighted_sum fl e) (fl.neg (fl.pct 10))) (weighted_sum fl e),
      )

  -- Where no field's confidence is negative or NaN, the overall confidence lies in [0, 1], and its
  -- tier is AUTO if and only if it is at least 0.8, REVIEW if and only if it is less than 0.5, and
  -- SPOT between.
  pub calculate_bounds :
      (e : ExtractionResult F) (v : Option (ValidationResult F))
      → IsNonneg e
      → InUnit fl (calculate fl e v).overall_confidence
        × (((calculate fl e v).tier ≡ ConfidenceTier.auto)
            ↔ (fl.le (fl.pct 80) (calculate fl e v).overall_confidence ≡ true))
        × (((calculate fl e v).tier ≡ ConfidenceTier.review)
            ↔ (fl.lt (calculate fl e v).overall_confidence (fl.pct 50) ≡ true))
        × (((calculate fl e v).tier ≡ ConfidenceTier.spot) ↔ (
            (fl.le (fl.pct 50) (calculate fl e v).overall_confidence ≡ true)
            × (fl.lt (calculate fl e v).overall_confidence (fl.pct 80) ≡ true)))
  unfolding calculate
  calculate_bounds e v h =
      let score = clamp_unit fl (raw_score fl e v) in
      let unit = clamp_unit-InUnit fl laws (raw_score fl e v) (raw_score_num e v h) in
      let num = (laws.le_num _ _ unit.0).1 in
      ground (
        arith,
        unit,
        laws.lt_total score (fl.pct 50) num (laws.pct_num 50),
        laws.lt_total score (fl.pct 80) num (laws.pct_num 80),
        laws.le_trans (fl.pct 50) (fl.pct 80) score,
        laws.pct_le 50 80,
      )

  tier_of_mono :
      (x y : F) → fl.le x y ≡ true → tier_index (tier_of fl y) ≤ tier_index (tier_of fl x)
  unfolding tier_of
  tier_of_mono x y h = ground (
    arith,
    laws.le_trans (fl.pct 80) x y,
    laws.le_trans (fl.pct 50) x y,
    h,
    laws.le_trans (fl.pct 50) (fl.pct 80) y,
    laws.pct_le 50 80,
  )

  -- If no field's confidence falls, from values that are not negative, then neither the overall
  -- confidence falls nor does the tier move towards REVIEW, under the same validation.
  pub calculate_mono :
      (e e' : ExtractionResult F) (v : Option (ValidationResult F))
      → IsNonneg e
      → IsBelow e e'
      → (fl.le (calculate fl e v).overall_confidence (calculate fl e' v).overall_confidence ≡ true)
        × (tier_index (calculate fl e' v).tier ≤ tier_index (calculate fl e v).tier)
  unfolding calculate
  calculate_mono e e' v h k =
      let above =
        clamp_unit_mono fl laws (raw_score fl e v) (raw_score fl e' v)
          (raw_score_mono e e' v h k) in
      (above, tier_of_mono _ _ above)

  -- Where no field's confidence is negative or NaN, a companion that fails its validation lowers the
  -- score or leaves it, and never raises the tier.
  pub calculate_penalty :
      (e : ExtractionResult F) (v : Option (ValidationResult F))
      → IsNonneg e
      → (fl.le (calculate fl e v).overall_confidence (calculate fl e none).overall_confidence
          ≡ true)
        × (tier_index (calculate fl e none).tier ≤ tier_index (calculate fl e v).tier)
  unfolding calculate
  calculate_penalty e v h =
      let num = (laws.le_num _ _ (weighted_sum_nonneg e h)).1 in
      let lower : fl.le (raw_score fl e v) (raw_score fl e none) ≡ true = ground (
        arith,
        laws.sub_le (weighted_sum fl e) 10 (omega arith) num,
        laws.le_refl (weighted_sum fl e) num,
      ) in
      let below = clamp_unit_mono fl laws (raw_score fl e v) (raw_score fl e none) lower in
      (below, tier_of_mono _ _ below)

  -- A NaN in the score goes through the clamp, and its tier is REVIEW.
  pub calculate_nan :
      (e : ExtractionResult F) (v : Option (ValidationResult F))
      → fl.is_nan (raw_score fl e v) ≡ true
      → (fl.is_nan (calculate fl e v).overall_confidence ≡ true)
        × ((calculate fl e v).tier ≡ ConfidenceTier.review)
  unfolding calculate clamp_unit
  calculate_nan e v h =
      let score = raw_score fl e v in
      ground (
        arith,
        h,
        laws.lt_num score (fl.pct 0),
        laws.lt_num (fl.pct 100) score,
        laws.le_num (fl.pct 80) score,
        laws.le_num (fl.pct 50) score,
      )
