-- ===== src/Pipeline/Validation/Rules.antt =====
-- A companion passes if and only if it meets the three rules; its quality score is a coverage ratio.
use dev_zu_smart_ingest.Prelude.{
  String, ℕ, ◌+◌, ◌≤◌, List, [], ◌∷◌, ◌++◌, Bool, true, false, not, ◌≡◌, ◌⊎◌, ◌↔◌, refl, arith,
  length, All, if◌then◌else◌, count, ◌==◌,
}
use dev_zu_smart_ingest.Text.{Text, is_empty, strip}
use dev_zu_smart_ingest.Float.{FloatOps, FloatLaws, InUnit, clamp_unit-InUnit_eq}
use dev_zu_smart_ingest.Domain.Entities.{ExtractionResult}
use dev_zu_smart_ingest.Pipeline.Validation.{
  FieldSpec, Tally, field_value_str, field_specs, is_referenced, check_field, check_fields,
  text_issues, validate,
}

module _ {F : Type 0} (fl : FloatOps F) (lower : Text → Text) (min_length : ℕ) where
  -- A field that claims no confidence, or whose value occurs in the text, case aside.
  abbrev pub IsCovered : Text → FieldSpec F → Type 0
  IsCovered text spec =
      (fl.le spec.confidence (fl.pct 0) ≡ true)
      ⊎ (is_referenced fl lower min_length (lower text) (field_value_str spec.value) ≡ true)

  abbrev pub claims : FieldSpec F → Bool
  claims spec = not (fl.le spec.confidence (fl.pct 0))

  abbrev pub finds : Text → FieldSpec F → Bool
  finds lowered spec =
      if fl.le spec.confidence (fl.pct 0)
      then false
      else is_referenced fl lower min_length lowered (field_value_str spec.value)

  check_fields-counts :
      (lowered : Text) (specs : List (FieldSpec F)) (t : Tally)
      → ((check_fields fl lower min_length lowered specs t).total ≡ t.total + count claims specs)
        × ((check_fields fl lower min_length lowered specs t).referenced
            ≡ t.referenced + count (finds lowered) specs)
        × (count (finds lowered) specs ≤ count claims specs)
  unfolding check_fields
  check_fields-counts lowered [] t = ground arith
  check_fields-counts lowered (spec ∷ specs) t =
      ground
        (arith, check_fields-counts lowered specs (check_field fl lower min_length lowered spec t))

  append-eq-nil : (xs ys : List String) → xs ++ ys ≡ [] → (xs ≡ []) × (ys ≡ [])
  append-eq-nil [] ys h = (refl, h)
  append-eq-nil (x ∷ xs) ys h = cc

  check_fields-issues :
      (text : Text) (specs : List (FieldSpec F)) (t : Tally)
      → ((check_fields fl lower min_length (lower text) specs t).issues ≡ [])
        ↔ ((t.issues ≡ []) × All (IsCovered text) specs)
  unfolding check_fields
  check_fields-issues text [] t = (λ h. (h, tt), λ h. h.0)
  check_fields-issues text (spec ∷ specs) t = ground (
    arith,
    check_fields-issues text specs (check_field fl lower min_length (lower text) spec t),
    append-eq-nil t.issues (spec.issue ∷ []),
  )

  -- A companion text passes if and only if it is not blank, has the minimal length, and every field
  -- that claims a confidence has a value that occurs in it, case aside.
  pub validate_passed :
      (text : Text) (e : ExtractionResult F)
      → ((validate fl lower min_length text e).passed ≡ true) ↔ (
          (is_empty (strip text) ≡ false)
          × (min_length ≤ length text)
          × All (IsCovered text) (field_specs fl lower min_length e))
  unfolding validate
  validate_passed text e = ground (
    arith,
    check_fields-issues text (field_specs fl lower min_length e)
        (record { issues = text_issues fl lower min_length text; total = 0; referenced = 0 }),
  )

module _ {F : Type 0} (fl : FloatOps F) (laws : FloatLaws fl) (lower : Text → Text)
    (min_length : ℕ) where
  -- The quality score is 1.0 if no field claims a confidence, and otherwise the share of those that
  -- do whose value is found, which the clamp leaves alone; it lies in [0, 1].
  pub validate_quality :
      (text : Text) (e : ExtractionResult F)
      → ((validate fl lower min_length text e).quality_score ≡ (
          if count (claims fl lower min_length) (field_specs fl lower min_length e) == 0
          then fl.pct 100
          else fl.ratio
              (count (finds fl lower min_length (lower text)) (field_specs fl lower min_length e))
              (count (claims fl lower min_length) (field_specs fl lower min_length e))))
        × InUnit fl (validate fl lower min_length text e).quality_score
  unfolding validate
  validate_quality text e =
      let specs = field_specs fl lower min_length e in
      let start : Tally = record {
        issues = text_issues fl lower min_length text;
        total = 0;
        referenced = 0;
      } in
      let (total, referenced, fewer) =
        check_fields-counts fl lower min_length (lower text) specs start in
      let share =
        fl.ratio (count (finds fl lower min_length (lower text)) specs)
          (count (claims fl lower min_length) specs) in
      ground (
        arith,
        total,
        referenced,
        fewer,
        laws.ratio_unit (count (finds fl lower min_length (lower text)) specs)
            (count (claims fl lower min_length) specs),
        clamp_unit-InUnit_eq fl laws share,
        laws.pct_le 0 100,
        laws.pct_le 100 100,
      )
