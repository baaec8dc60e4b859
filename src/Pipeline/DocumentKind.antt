-- ===== src/Pipeline/DocumentKind.antt =====
-- domain/pipeline/extractors/document_type.py: the type of a document, by the text model. `str.lower`
-- and `str` of a JSON value that is no string are arguments.
mod Vocabulary
use dev_zu_smart_ingest.Prelude.{
  String, Option, none, some, List, [], ◌∷◌, Bool, true, false, find?, if◌then◌else◌,
}
use dev_zu_smart_ingest.Prelude.Outcome.{Outcome, returned, raised, ◌>>=◌}
use dev_zu_smart_ingest.Text.{Text, codes, is_empty, or_none, strip, text_eq}
use dev_zu_smart_ingest.Float.{FloatOps, min_float}
use dev_zu_smart_ingest.Domain.Enums.{DocumentType, document_type_value, document_types}
use dev_zu_smart_ingest.Domain.Json.{Json, null, str, Fields, get}
use dev_zu_smart_ingest.Domain.Entities.{ExtractionResult}
use dev_zu_smart_ingest.Pipeline.Reported.{coerce_confidence}
use dev_zu_smart_ingest.Pipeline.Title.{Context, get_or_extract_text}

-- `DocumentType(candidate)`, with the fallback for its ValueError.
abbrev in_vocabulary : Option DocumentType → Option DocumentType × Bool
in_vocabulary (some t) = (some t, true)
in_vocabulary none = (some DocumentType.document, false)

abbrev candidate_type : Option Text → Option DocumentType × Bool
candidate_type none = (none, false)
candidate_type (some candidate) =
    in_vocabulary (find? (λ t. text_eq (codes (document_type_value t)) candidate) document_types)

module _ {F : Type 0} (lower : Text → Text) (py_str : Json F → Text) where
  type_text : Json F → Text
  type_text (str s) = s
  type_text v = py_str v

  -- `_coerce_document_type`
  unfoldable pub coerce_document_type : Option (Json F) → Option DocumentType × Bool
  unfolding type_text document_type_value
  coerce_document_type none = (none, false)
  coerce_document_type (some null) = (none, false)
  coerce_document_type (some v) = candidate_type (or_none (lower (strip (type_text v))))

module _ {F : Type 0} (fl : FloatOps F) where
  abbrev fallback_confidence : F
  fallback_confidence = fl.pct 30

  -- The confidence of a type, by whether it is one of the vocabulary.
  unfoldable pub confidence_of : Option DocumentType × Bool → (reported : F) → F
  confidence_of (none, in_vocab) reported = fl.pct 0
  confidence_of (some t, true) reported = reported
  confidence_of (some t, false) reported = min_float fl reported fallback_confidence

  abbrev sources_of : Option DocumentType → List String
  sources_of none = []
  sources_of (some t) = "text" ∷ []

  abbrev pub result_of : Option DocumentType → F → Option Text → ExtractionResult F
  result_of kind confidence raw = record {
    drawing_number = none;
    drawing_number_confidence = fl.pct 0;
    title = none;
    title_confidence = fl.pct 0;
    document_type = kind;
    document_type_confidence = confidence;
    discipline = none;
    revision = none;
    building_zone = none;
    project = none;
    sources_used = sources_of kind;
    raw_vision_response = none;
    raw_text_response = raw;
    confidence_score = none;
    confidence_tier = none;
  }

-- What the extractor calls; `parse` is the parser's call with the type schema.
pub record Sources (F : Type 0) : Type 0 where
  pub extract_text : Outcome Text
  pub generate_text : (text : Text) → Outcome Text
  pub parse : Text → Outcome (Fields F)

module _ {F : Type 0} (fl : FloatOps F) (lower : Text → Text) (py_str : Json F → Text)
    (float_text : Text → Option F) (cs : Sources F) where
  -- `extract` after the model's call.
  unfoldable pub classify : Outcome Text → Outcome (ExtractionResult F)
  unfolding coerce_document_type coerce_confidence confidence_of
  classify (raised e) = returned (result_of fl none (fl.pct 0) none)
  classify (returned response_text) = do
    parsed ← cs.parse response_text
    let kind = coerce_document_type lower py_str (get "document_type" parsed)
    reported ← coerce_confidence fl float_text (get "confidence" parsed)
    returned (result_of fl kind.0 (confidence_of fl kind reported) (some response_text))

  unfoldable pub extract : Context → Outcome (ExtractionResult F) × Context
  unfolding get_or_extract_text classify
  extract context =
      let (text, context') = get_or_extract_text cs.extract_text context in
      let classified = classify (cs.generate_text text) in
      (if is_empty text then returned (result_of fl none (fl.pct 0) none) else classified, context')
