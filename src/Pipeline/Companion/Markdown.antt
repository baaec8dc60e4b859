-- ===== src/Pipeline/Companion/Markdown.antt =====
-- domain/pipeline/companion.py: the markdown of a companion document.
use dev_zu_smart_ingest.Prelude.{Option, none, some, List, [], ◌∷◌, ◌++◌, map, not, select}
use dev_zu_smart_ingest.Text.{Text, codes, is_empty, strip}
use dev_zu_smart_ingest.Domain.Entities.{ExtractionResult}
use dev_zu_smart_ingest.Pipeline.Validation.{document_type_text}

-- `separator.join(lines)`
unfoldable pub joined_lines : (separator : Text) → List Text → Text
joined_lines separator [] = []
joined_lines separator (l ∷ []) = l
joined_lines separator (l ∷ m ∷ ls) = l ++ (separator ++ joined_lines separator (m ∷ ls))

abbrev pub line_break : Text
line_break = 10 ∷ []

abbrev pub blank_line : Text
blank_line = 10 ∷ 10 ∷ []

-- `_format_metadata_value`
unfoldable pub format_metadata_value : Option Text → Text
format_metadata_value none = codes "N/A"
format_metadata_value (some value) = value

-- The block of the descriptions that are not blank.
abbrev pub block : List Text → Text
block ds = joined_lines blank_line (map strip (select (λ d. not (is_empty (strip d))) ds))

abbrev pub metadata_line : Text → Option Text → Text
metadata_line label value = label ++ format_metadata_value value

module _ {F : Type 0} where
  abbrev pub metadata_lines : ExtractionResult F → List Text
  metadata_lines e =
      metadata_line (codes "Drawing Number: ") e.drawing_number
      ∷ metadata_line (codes "Title: ") e.title
      ∷ metadata_line (codes "Document Type: ") (document_type_text e.document_type)
      ∷ []

  -- `_assemble_companion_markdown`
  unfoldable pub assemble_companion_markdown :
      (visual_descriptions technical_details : List Text) → ExtractionResult F → Text
  unfolding joined_lines format_metadata_value
  assemble_companion_markdown visual technical e =
      codes "# VISUAL DESCRIPTION"
      ++ (line_break
          ++ (block visual
              ++ (blank_line
                  ++ (codes "# TECHNICAL DETAILS"
                      ++ (line_break
                          ++ (block technical
                              ++ (blank_line
                                  ++ (codes "# METADATA"
                                      ++ (line_break
                                          ++ joined_lines line_break (metadata_lines e))))))))))
