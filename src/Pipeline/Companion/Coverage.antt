-- ===== src/Pipeline/Companion/Coverage.antt =====
-- A generated companion names every field that has a value, so that the validator finds it.
use mathlib.Core.List.{append-nil, append_assoc}
use dev_zu_smart_ingest.Prelude.{
  ℕ, ◌≤◌, ◌≡◌, ◌⊎◌, ◌↔◌, inl, inr, refl, subst, ◌∙◌, arith, Option, none, some, List, [], ◌∷◌, ◌++◌,
  Bool, true, false, ◌==◌, ◌||◌, length, All, Bool-cases,
}
use dev_zu_smart_ingest.Prelude.Outcome.{Outcome, returned, raised}
use dev_zu_smart_ingest.Text.{
  Text, codes, is_empty, strip, strip_left, strip_right, is_space, or_none,
}
use dev_zu_smart_ingest.Text.Infix.{
  Infix, contains-Infix, Delimited, Delimited-left, StartsBlank, SplitsAtSpace, lower-Delimited,
}
use dev_zu_smart_ingest.Float.{FloatOps}
use dev_zu_smart_ingest.Domain.Entities.{ExtractionResult, CompanionResult}
use dev_zu_smart_ingest.Domain.Pages.{PdfData, RenderedPage}
use dev_zu_smart_ingest.Pipeline.Validation.{
  FieldSpec, field_value_str, field_specs, is_referenced, validate, document_type_text,
}
use dev_zu_smart_ingest.Pipeline.Validation.Rules.{validate_passed}
use dev_zu_smart_ingest.Pipeline.Companion.{
  Settings, Collaborators, Described, companion_of, describe_document, generate, is_text_only,
}
use dev_zu_smart_ingest.Pipeline.Companion.Pages.{select_pages_to_render}
use dev_zu_smart_ingest.Pipeline.Companion.Markdown.{
  joined_lines, line_break, blank_line, block, metadata_line, metadata_lines, format_metadata_value,
  assemble_companion_markdown,
}

abbrev is_some : Option Text → Bool
is_some none = false
is_some (some v) = true

module _ {F : Type 0} (fl : FloatOps F) (lower : Text → Text) (min_length : ℕ) where
  -- A field that claims no confidence, or has a value that is not blank.
  abbrev pub IsNamed : FieldSpec F → Type 0
  IsNamed spec =
      (fl.le spec.confidence (fl.pct 0) ≡ true) ⊎ (is_some (field_value_str spec.value) ≡ true)

  referenced-or_none :
      (text u : Text)
      → Infix (lower u) (lower text)
      → is_referenced fl lower min_length (lower text) (or_none u) ≡ is_some (or_none u)
  referenced-or_none text [] h = refl
  referenced-or_none text (c ∷ u) h = contains-Infix (lower (c ∷ u)) (lower text) h

  -- A value that stands by itself in a text is found in it, whatever its case, unless it is blank.
  referenced :
      SplitsAtSpace lower
      → (text : Text) (value : Option Text) → Delimited (format_metadata_value value) text
      → is_referenced fl lower min_length (lower text) (field_value_str value)
        ≡ is_some (field_value_str value)
  unfolding field_value_str format_metadata_value
  referenced splits text none h = refl
  referenced splits text (some v) h =
      referenced-or_none text (strip v) (lower-Delimited lower splits v text h)

-- A label and a value on a line.
labelled-Delimited :
    (label value rest : Text)
    → StartsBlank rest
    → Delimited value (((label ++ 32 ∷ []) ++ value) ++ rest)
unfolding is_space
labelled-Delimited label value rest h = (
  label,
  32,
  rest,
  append_assoc (label ++ 32 ∷ []) value rest ∙ append_assoc label (32 ∷ []) (value ++ rest),
  refl,
  h,
)

last-Delimited : (label value : Text) → Delimited value ((label ++ 32 ∷ []) ++ value)
last-Delimited label value =
    subst (Delimited value) (append-nil ((label ++ 32 ∷ []) ++ value))
      (labelled-Delimited label value [] tt)

module _ {F : Type 0} (visual technical : List Text) (e : ExtractionResult F) where
  abbrev footer : Text
  footer = joined_lines line_break (metadata_lines e)

  -- What stands in the footer stands in the companion.
  footer-Delimited :
      (u : Text) → Delimited u footer → Delimited u (assemble_companion_markdown visual technical e)
  unfolding assemble_companion_markdown
  footer-Delimited u h =
      let t9 = line_break ++ footer in
      let t8 = codes "# METADATA" ++ t9 in
      let t7 = blank_line ++ t8 in
      let t6 = block technical ++ t7 in
      let t5 = line_break ++ t6 in
      let t4 = codes "# TECHNICAL DETAILS" ++ t5 in
      let t3 = blank_line ++ t4 in
      let t2 = block visual ++ t3 in
      let t1 = line_break ++ t2 in
      Delimited-left (codes "# VISUAL DESCRIPTION") u t1 (
        Delimited-left line_break u t2 (
          Delimited-left (block visual) u t3 (
            Delimited-left blank_line u t4 (
              Delimited-left (codes "# TECHNICAL DETAILS") u t5 (
                Delimited-left line_break u t6 (
                  Delimited-left (block technical) u t7 (
                    Delimited-left blank_line u t8 (
                      Delimited-left (codes "# METADATA") u t9
                        (Delimited-left line_break u footer h)))))))))

  -- Every field's value stands in the footer.
  footer-values :
      Delimited (format_metadata_value e.drawing_number) footer
      × Delimited (format_metadata_value e.title) footer
      × Delimited (format_metadata_value (document_type_text e.document_type)) footer
  unfolding joined_lines is_space
  footer-values =
      let l1 = metadata_line (codes "Drawing Number: ") e.drawing_number in
      let l2 = metadata_line (codes "Title: ") e.title in
      let l3 = metadata_line (codes "Document Type: ") (document_type_text e.document_type) in
      (
        labelled-Delimited (codes "Drawing Number:") _ (line_break ++ (l2 ++ (line_break ++ l3)))
            refl,
        Delimited-left l1 _ _ (
            Delimited-left line_break _ _
              (labelled-Delimited (codes "Title:") _ (line_break ++ l3) refl)),
        Delimited-left l1 _ _ (
            Delimited-left line_break _ _ (
              Delimited-left l2 _ _
                (Delimited-left line_break _ _ (last-Delimited (codes "Document Type:") _)))),
      )

  assemble_companion_markdown_not_blank :
      is_empty (strip (assemble_companion_markdown visual technical e)) ≡ false
  unfolding assemble_companion_markdown strip strip_left strip_right is_space
  assemble_companion_markdown_not_blank = ground arith

module _ {F : Type 0} (settings : Option Settings) (cs : Collaborators F) where
  -- A text that is the markdown of some descriptions, for a companion that was generated.
  abbrev IsAssembled : ExtractionResult F → CompanionResult F → Type 0
  IsAssembled e c =
      (d : Described) × (c.companion_text ≡ assemble_companion_markdown d.visual d.technical e)

  companion_of-IsAssembled :
      (e : ExtractionResult F) (d : Described)
      → (companion_of settings cs e d).companion_generated ≡ true
      → IsAssembled e (companion_of settings cs e d)
  unfolding companion_of
  companion_of-IsAssembled e d h = elim (Bool-cases (d.successful_pages == 0)) [
    | inl nothing ↦ absurd (ground (arith, nothing, h))
    | inr described ↦ (d, rw described)
  ]

  describe_document-IsAssembled :
      (e : ExtractionResult F) (rendered : Outcome (List RenderedPage))
      → (describe_document settings cs e rendered).companion_generated ≡ true
      → IsAssembled e (describe_document settings cs e rendered)
  unfolding describe_document
  describe_document-IsAssembled e (raised exc) h = absurd (ground arith)
  describe_document-IsAssembled e (returned rendered) h = companion_of-IsAssembled e _ h

  generate-IsAssembled :
      (pdf : Option (PdfData F)) (text : Option Text) (e : ExtractionResult F)
      → (generate settings cs pdf text e).companion_generated ≡ true
      → IsAssembled e (generate settings cs pdf text e)
  unfolding generate
  generate-IsAssembled none text e h = absurd (ground arith)
  generate-IsAssembled (some pdf) text e h =
      elim (Bool-cases (pdf.page_count == 0 || is_text_only text pdf.page_count)) [
        | inl skipped ↦ absurd (ground (arith, skipped, h))
        | inr kept ↦ rw kept (
            describe_document-IsAssembled e
              (cs.render_pages (select_pages_to_render pdf.page_count)) (rw kept at h))
      ]

module _ {F : Type 0} (fl : FloatOps F) (lower : Text → Text) (min_length : ℕ)
    (settings : Option Settings) (cs : Collaborators F) where
  -- For a lower-casing that splits at white space, as that of str does, the companion that is generated for an
  -- extraction result passes its validation if and only if it has the minimal length and no field
  -- claims a confidence without a value: whatever the model has described, the companion is not
  -- blank and names every value.
  pub generate-validates :
      SplitsAtSpace lower
      → (pdf : Option (PdfData F)) (text : Option Text) (e : ExtractionResult F)
      → (generate settings cs pdf text e).companion_generated ≡ true
      → let companion_text = (generate settings cs pdf text e).companion_text in
        ((validate fl lower min_length companion_text e).passed ≡ true) ↔ (
          (min_length ≤ length companion_text)
          × All (IsNamed fl lower min_length) (field_specs fl lower min_length e))
  generate-validates splits pdf text e h =
      let (d, same) = generate-IsAssembled settings cs pdf text e h in
      let body = assemble_companion_markdown d.visual d.technical e in
      let (number, title, kind) = footer-values d.visual d.technical e in
      let inside = footer-Delimited d.visual d.technical e in
      rw same (
        ground (
          arith,
          validate_passed fl lower min_length body e,
          assemble_companion_markdown_not_blank d.visual d.technical e,
          referenced fl lower min_length splits body e.drawing_number (inside _ number),
          referenced fl lower min_length splits body e.title (inside _ title),
          referenced fl lower min_length splits body (document_type_text e.document_type)
              (inside _ kind),
        ))
