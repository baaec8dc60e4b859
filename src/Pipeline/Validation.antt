-- ===== src/Pipeline/Validation.antt =====
-- domain/pipeline/validation.py: the rules that a companion text is checked by. Python's
-- `str.lower`, which goes by the Unicode tables, is the parameter `lower`.
pub mod Rules
use dev_zu_smart_ingest.Prelude.{
  String, ℕ, suc, ◌+◌, Option, none, some, List, [], ◌∷◌, ◌++◌, map, Bool, true, false, not, ◌&&◌,
  ltb, ◌==◌, length, if◌then◌else◌,
}
use dev_zu_smart_ingest.Text.{Text, codes, is_empty, strip, contains, or_none}
use dev_zu_smart_ingest.Float.{FloatOps, clamp_unit}
use dev_zu_smart_ingest.Domain.Enums.{DocumentType, document_type_value}
use dev_zu_smart_ingest.Domain.Entities.{ExtractionResult, ValidationResult}

-- `_field_value_str`, on the text of the value: stripped, and `None` if nothing is left.
unfoldable pub field_value_str : Option Text → Option Text
unfolding strip
field_value_str none = none
field_value_str (some value) = or_none (strip value)

abbrev pub document_type_text : Option DocumentType → Option Text
document_type_text none = none
document_type_text (some t) = some (codes (document_type_value t))

-- A row of `field_specs`: the issue that its absence raises, the value and the confidence.
pub record FieldSpec (F : Type 0) : Type 0 where
  pub issue : String
  pub value : Option Text
  pub confidence : F

-- The loop's variables, `issues` without those of the first two rules.
pub record Tally : Type 0 where
  pub issues : List String
  pub total : ℕ
  pub referenced : ℕ

module _ {F : Type 0} (fl : FloatOps F) (lower : Text → Text) (min_length : ℕ) where
  abbrev pub field_specs : ExtractionResult F → List (FieldSpec F)
  field_specs e =
      record {
        issue = "field_not_referenced_drawing_number";
        value = e.drawing_number;
        confidence = e.drawing_number_confidence;
      }
      ∷ record {
        issue = "field_not_referenced_title";
        value = e.title;
        confidence = e.title_confidence;
      }
      ∷ record {
        issue = "field_not_referenced_document_type";
        value = document_type_text e.document_type;
        confidence = e.document_type_confidence;
      }
      ∷ []

  -- `value_str.lower() in lowered_companion`
  abbrev pub is_referenced : Text → Option Text → Bool
  is_referenced lowered none = false
  is_referenced lowered (some value) = contains lowered (lower value)

  -- The body of the loop over `field_specs`.
  unfoldable pub check_field : Text → FieldSpec F → Tally → Tally
  check_field lowered spec tally =
      if fl.le spec.confidence (fl.pct 0)
      then tally
      else if is_referenced lowered (field_value_str spec.value)
      then record tally { total = tally.total + 1; referenced = tally.referenced + 1 }
      else record tally { issues = tally.issues ++ spec.issue ∷ []; total = tally.total + 1 }

  unfoldable pub check_fields : Text → List (FieldSpec F) → Tally → Tally
  unfolding check_field
  check_fields lowered [] tally = tally
  check_fields lowered (spec ∷ specs) tally =
      check_fields lowered specs (check_field lowered spec tally)

  -- Rules 1 and 2.
  abbrev pub text_issues : Text → List String
  text_issues companion_text =
      if is_empty (strip companion_text)
      then "empty_companion" ∷ []
      else if ltb (length companion_text) min_length
      then "companion_too_short" ∷ []
      else []

  abbrev pub no_issue : List String → Bool
  no_issue [] = true
  no_issue (i ∷ is) = false

  unfoldable pub validate : Text → ExtractionResult F → ValidationResult F
  unfolding check_fields
  validate companion_text e =
      let tally =
        check_fields (lower companion_text) (field_specs e)
          (record { issues = text_issues companion_text; total = 0; referenced = 0 }) in
      let quality_score =
        if tally.total == 0
        then fl.pct 100
        else clamp_unit fl (fl.ratio tally.referenced tally.total) in
      let passed = no_issue tally.issues in
      record {
        passed = passed;
        warnings = tally.issues;
        confidence_adjustment = fl.pct 0;
        validation_passed = passed;
        quality_score = quality_score;
        issues = tally.issues;
      }
