-- ===== src/Repository/Mapping.antt =====
-- Rows and entities: what is written by the mapping functions is read back as it was.
use dev_zu_smart_ingest.Prelude.{Option, none, some, ◌≡◌, refl, arith, [], ◌∷◌}
use dev_zu_smart_ingest.Prelude.Outcome.{returned}
use dev_zu_smart_ingest.Prelude.Int.{ℤ}
use dev_zu_smart_ingest.Text.{Text, or_none}
use dev_zu_smart_ingest.Text.Number.{parse_int-int_text}
use dev_zu_smart_ingest.Float.{FloatOps}
use dev_zu_smart_ingest.Domain.Enums.{
  ConfidenceTier, confidence_tier_value, confidence_tier_of_value,
}
use dev_zu_smart_ingest.Domain.Enums.Values.{
  job_status_of_value-value, extraction_mode_of_value-value,
}
use dev_zu_smart_ingest.Domain.Entities.{Batch, Job}
use dev_zu_smart_ingest.Repository.Rows.{
  str_or_none, int_or_none, member, to_batch, tier_of_column, text_or_empty, to_job, batch_to_orm,
  tier_column, score_column, job_to_orm,
}

int_or_none-str_or_none : (n : Option ℤ) → int_or_none (str_or_none n) ≡ n
unfolding int_or_none str_or_none
int_or_none-str_or_none none = refl
int_or_none-str_or_none (some n) = parse_int-int_text n

text_or_empty-or_none : (s : Text) → text_or_empty (or_none s) ≡ s
text_or_empty-or_none [] = refl
text_or_empty-or_none (c ∷ s) = refl

pub tier_of_column-tier_column :
    (t : Option ConfidenceTier) → tier_of_column (tier_column t) ≡ returned t
unfolding tier_of_column confidence_tier_value confidence_tier_of_value
tier_of_column-tier_column none = refl
tier_of_column-tier_column (some ConfidenceTier.auto) = refl
tier_of_column-tier_column (some _) = refl

-- Every batch, with whatever deployment and node numbers, survives its row.
pub to_batch-batch_to_orm : (b : Batch) → to_batch (batch_to_orm b) ≡ returned b
unfolding to_batch batch_to_orm member
to_batch-batch_to_orm b = ground (
  arith,
  job_status_of_value-value b.status,
  extraction_mode_of_value-value b.mode,
  int_or_none-str_or_none b.deployment_id,
  int_or_none-str_or_none b.node_id,
)

-- Every job survives its row, except that a NaN confidence is read back as `None`.
pub to_job-job_to_orm :
    {F : Type 0} (fl : FloatOps F) (j : Job F)
    → to_job (job_to_orm fl j)
      ≡ returned (record j { overall_confidence = score_column fl j.overall_confidence })
unfolding to_job job_to_orm member
to_job-job_to_orm fl j = ground (
  arith,
  job_status_of_value-value j.status,
  tier_of_column-tier_column j.confidence_tier,
  text_or_empty-or_none j.file_path,
)
