-- ===== src/Pipeline/DocumentKind/Vocabulary.antt =====
-- A type that the model invents is not trusted.
use dev_zu_smart_ingest.Prelude.{◌≡◌, arith, some, true, false, Bool-cases, inl, inr}
use dev_zu_smart_ingest.Float.{FloatOps, FloatLaws, InUnit}
use dev_zu_smart_ingest.Domain.Enums.{DocumentType}
use dev_zu_smart_ingest.Pipeline.DocumentKind.{confidence_of}

module _ {F : Type 0} (fl : FloatOps F) (laws : FloatLaws fl) where
  -- The fallback type is never more certain than 0.30, nor than the model was.
  pub confidence_of-fallback :
      (t : DocumentType) (reported : F)
      → InUnit fl reported
      → let c = confidence_of fl (some t, false) reported in
        InUnit fl c × (fl.le c (fl.pct 30) ≡ true) × (fl.le c reported ≡ true)
  unfolding confidence_of
  confidence_of-fallback t reported (low, high) =
      let n = (laws.le_num (fl.pct 0) reported low).1 in
      elim (Bool-cases (fl.lt (fl.pct 30) reported)) [
        | inl more ↦ rw more (
          (ground (arith, laws.pct_le 0 30), ground (arith, laws.pct_le 30 100)),
          laws.le_refl (fl.pct 30) (laws.pct_num 30),
          laws.lt_le (fl.pct 30) reported more,
        )
        | inr less ↦ rw less (
          (low, high),
          ground (arith, laws.lt_total (fl.pct 30) reported (laws.pct_num 30) n, less),
          laws.le_refl reported n,
        )
      ]
