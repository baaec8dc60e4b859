-- ===== src/Pipeline/Sidecar.antt =====
-- domain/pipeline/sidecar.py and sidecar_schema.py: the Bedrock metadata of a document. The package
-- `jsonschema` is the parameter `schema_error`: the message of the `ValidationError` that
-- `jsonschema.validate` raises for a schema and an instance, if it raises one.
pub mod Writes
pub mod Contents
use dev_zu_smart_ingest.Prelude.{
  String, ℕ, ◌+◌, ◌-◌, ◌≤◌, Option, none, some, List, [], ◌∷◌, ◌++◌, map, Bool, true, false, ◌≡◌,
  not, ◌&&◌, ltb, length, all, any, str_eq, if◌then◌else◌,
}
use dev_zu_smart_ingest.Prelude.Outcome.{Exception, Outcome, returned, raised}
use dev_zu_smart_ingest.Prelude.Int.{pos}
use dev_zu_smart_ingest.Text.{Text, codes, is_empty, strip, or_none, comma_joined}
use dev_zu_smart_ingest.Text.Number.{int_text}
use dev_zu_smart_ingest.Float.{FloatOps, clamp_unit}
use dev_zu_smart_ingest.Dict
use dev_zu_smart_ingest.Domain.Enums.{
  Discipline, discipline_value, DocumentType, document_type_value,
}
use dev_zu_smart_ingest.Domain.Entities.{
  ExtractionResult, CompanionResult, Job, SidecarDocument, Attribute, text, number,
}

-- The rules of `SIDECAR_JSON_SCHEMA` for a property's value.
pub data Rule : Type 0 where
  non_empty_string : Rule
  unit_number : Rule

pub record Schema : Type 0 where
  pub required : List String
  pub properties : List (String × Rule)

abbrev pub sidecar_json_schema : Schema
sidecar_json_schema = record {
  required = "source_filename" ∷ "document_type" ∷ "extraction_confidence" ∷ [];
  properties =
      ("source_filename", non_empty_string)
      ∷ ("document_type", non_empty_string)
      ∷ ("extraction_confidence", unit_number)
      ∷ ("drawing_number", non_empty_string)
      ∷ ("title", non_empty_string)
      ∷ ("discipline", non_empty_string)
      ∷ ("revision", non_empty_string)
      ∷ ("building_zone", non_empty_string)
      ∷ ("project", non_empty_string)
      ∷ [];
}

abbrev pub max_sidecar_metadata_keys : ℕ
max_sidecar_metadata_keys = 10

module _ {F : Type 0} (fl : FloatOps F) where
  abbrev pub obeys : Rule → Attribute F → Bool
  obeys non_empty_string (text s) = not (is_empty s)
  obeys non_empty_string (number x) = false
  obeys unit_number (text s) = false
  obeys unit_number (number x) = fl.le (fl.pct 0) x && fl.le x (fl.pct 100)

  abbrev pub obeys_property : List (String × Rule) → String × Attribute F → Bool
  obeys_property properties (key, value) = elim (Dict.get key properties) [
    | none ↦ false
    | some rule ↦ obeys rule value
  ]

  abbrev pub has_key : List (String × Attribute F) → String → Bool
  has_key attributes key = any (λ (k, v). str_eq k key) attributes

  -- What JSON Schema asks of an instance: the required keys, and no property outside the list or
  -- against its rule.
  abbrev pub conforms : Schema → List (String × Attribute F) → Bool
  conforms schema attributes =
      all (has_key attributes) schema.required && all (obeys_property schema.properties) attributes

  -- `jsonschema.validate` raises nothing for an instance that conforms to the schema.
  pub record Accepts (schema_error : Schema → List (String × Attribute F) → Option Text)
      : Type 0 where
    pub accepts :
        (schema : Schema) (attributes : List (String × Attribute F))
        → conforms schema attributes ≡ true
        → schema_error schema attributes ≡ none

  -- `_derive_confidence`
  unfoldable pub derive_confidence : ExtractionResult F → F
  derive_confidence e = elim e.confidence_score [
    | some explicit ↦ clamp_unit fl explicit
    | none ↦ clamp_unit fl (
        fl.add
          (fl.add (fl.mul e.drawing_number_confidence (fl.pct 40))
            (fl.mul e.title_confidence (fl.pct 30)))
          (fl.mul e.document_type_confidence (fl.pct 30)))
  ]

  abbrev pub document_type_or_unknown : Option DocumentType → Text
  document_type_or_unknown none = codes "unknown"
  document_type_or_unknown (some t) = codes (document_type_value t)

  -- `_build_required`
  unfoldable pub build_required : Job F → ExtractionResult F → F → List (String × Attribute F)
  build_required job e confidence_score =
      ("source_filename", text job.filename)
      ∷ ("document_type", text (document_type_or_unknown e.document_type))
      ∷ ("extraction_confidence", number confidence_score)
      ∷ []

  abbrev pub discipline_text : Option Discipline → Option Text
  discipline_text none = none
  discipline_text (some d) = some (codes (discipline_value d))

  abbrev pub raw_values : ExtractionResult F → List (String × Option Text)
  raw_values e =
      ("drawing_number", e.drawing_number)
      ∷ ("title", e.title)
      ∷ ("discipline", discipline_text e.discipline)
      ∷ ("revision", e.revision)
      ∷ ("building_zone", e.building_zone)
      ∷ ("project", e.project)
      ∷ []

  -- The value of an optional field: `None` and what is blank are left out, the rest is stripped.
  unfoldable pub normalized : Option Text → Option Text
  normalized none = none
  normalized (some raw) = or_none (strip raw)

  abbrev pub include :
      String → Option Text → List (String × Attribute F) → List (String × Attribute F)
  include key none included = included
  include key (some value) included = (key, text value) ∷ included

  -- The loop of `_build_optional_candidates`.
  unfoldable pub collect : List (String × Option Text) → List (String × Attribute F)
  unfolding normalized
  collect [] = []
  collect ((key, raw) ∷ values) = include key (normalized raw) (collect values)

  -- The loop of `_merge_with_budget`: the merged dict and the keys that were dropped.
  unfoldable pub merge_loop :
      (budget : ℕ)
      → List (String × Attribute F)
      → List (String × Attribute F)
      → List (String × Attribute F) × List String
  merge_loop budget merged [] = (merged, [])
  merge_loop budget merged ((key, value) ∷ rest) =
      let kept = merge_loop (budget - 1) (Dict.put key value merged) rest in
      let (m, dropped) = merge_loop budget merged rest in
      if ltb 0 budget then kept else (m, key ∷ dropped)

  unfoldable pub merge_with_budget :
      List (String × Attribute F)
      → List (String × Attribute F)
      → List (String × Attribute F) × List String
  unfolding merge_loop
  merge_with_budget required optional =
      merge_loop (max_sidecar_metadata_keys - length required) required optional

  abbrev pub sidecar_error : Text → Exception
  sidecar_error message = record { type_name = "SidecarValidationError"; message = message }

  -- The message for too many keys; `_format_message` adds the fields that were dropped.
  abbrev pub over_budget : (keys : ℕ) → (dropped : List String) → Exception
  over_budget keys dropped = sidecar_error (
      codes "Sidecar metadata exceeds 10 key limit ("
      ++ (int_text (pos keys)
          ++ (codes " > 10) (dropped optional fields: " ++ (comma_joined dropped ++ codes ")"))))

  abbrev pub text_if_generated : Option (CompanionResult F) → Option Text
  text_if_generated none = none
  text_if_generated (some c) = if c.companion_generated then some c.companion_text else none

  module _ (schema_error : Schema → List (String × Attribute F) → Option Text) where
    unfoldable pub build :
        ExtractionResult F → Option (CompanionResult F) → Job F → Outcome (SidecarDocument F)
    unfolding build_required collect merge_with_budget
    build e companion job =
        let required = build_required job e (derive_confidence e) in
        let optional = collect (raw_values e) in
        let (attributes, dropped) = merge_with_budget required optional in
        elim dropped [
          | key ∷ keys ↦ raised (over_budget (length required + length optional) (key ∷ keys))
          | [] ↦ elim (schema_error sidecar_json_schema attributes) [
            | some message ↦ raised (
                sidecar_error (codes "Sidecar metadata failed JSON Schema validation: " ++ message))
            | none ↦ returned (record {
              metadata_attributes = attributes;
              companion_text = text_if_generated companion;
              source_filename = job.filename;
              file_hash = job.file_hash;
            })
          ]
        ]
