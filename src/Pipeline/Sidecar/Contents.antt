-- ===== src/Pipeline/Sidecar/Contents.antt =====
-- What `build` puts into a sidecar, and that the sidecar passes its schema.
use dev_zu_smart_ingest.Prelude.{
  String, ◌≤◌, Option, none, some, List, [], ◌∷◌, true, false, ◌≡◌, refl, ap, arith, length, str_eq,
  if◌then◌else◌,
}
use dev_zu_smart_ingest.Prelude.Outcome.{returned}
use dev_zu_smart_ingest.Text.{Text, is_empty, codes}
use dev_zu_smart_ingest.Float.{FloatOps, FloatLaws, InUnit, clamp_unit-InUnit}
use dev_zu_smart_ingest.Dict
use dev_zu_smart_ingest.Domain.Enums.{DocumentType, document_type_value}
use dev_zu_smart_ingest.Domain.Entities.{
  ExtractionResult, CompanionResult, Job, SidecarDocument, Attribute, text, number,
}
use dev_zu_smart_ingest.Pipeline.Confidence
use dev_zu_smart_ingest.Pipeline.Confidence.Tiers.{IsNonneg, weighted_sum_nonneg}
use dev_zu_smart_ingest.Pipeline.Sidecar.{
  Schema, sidecar_json_schema, max_sidecar_metadata_keys, conforms, Accepts, derive_confidence,
  document_type_or_unknown, build_required, raw_values, discipline_text, normalized, collect,
  merge_with_budget, text_if_generated, build,
}
use dev_zu_smart_ingest.Pipeline.Sidecar.Writes.{
  put_all, merge_loop-put_all, length-collect, get-put_all, AllObey-collect, is_text_key-raw_values,
  conforms-put_all, length-put_all,
}

module _ {F : Type 0} (fl : FloatOps F) where
  abbrev pub as_text : Option Text → Option (Attribute F)
  as_text none = none
  as_text (some t) = some (text t)

  -- What the optional fields leave at a key.
  abbrev pub written : String → List (String × Option Text) → Option (Attribute F)
  written j [] = none
  written j ((key, raw) ∷ values) =
      Dict.or_else (written j values) (if str_eq key j then as_text (normalized fl raw) else none)

  last_of-collect :
      (j : String) (values : List (String × Option Text))
      → Dict.last_of j (collect fl values) ≡ written j values
  unfolding collect
  last_of-collect j [] = refl
  last_of-collect j ((key, raw) ∷ values) = ground (arith, last_of-collect j values)

  -- The attributes of a document are those of an extraction and a job: the three required keys, and
  -- each optional field that is not blank, stripped.
  abbrev pub HasContents : ExtractionResult F → Job F → List (String × Attribute F) → Type 0
  HasContents e job d =
      (Dict.get "source_filename" d ≡ some (text job.filename))
      × (Dict.get "document_type" d ≡ some (text (document_type_or_unknown fl e.document_type)))
      × (Dict.get "extraction_confidence" d ≡ some (number (derive_confidence fl e)))
      × (Dict.get "drawing_number" d ≡ as_text (normalized fl e.drawing_number))
      × (Dict.get "title" d ≡ as_text (normalized fl e.title))
      × (Dict.get "discipline" d ≡ as_text (normalized fl (discipline_text fl e.discipline)))
      × (Dict.get "revision" d ≡ as_text (normalized fl e.revision))
      × (Dict.get "building_zone" d ≡ as_text (normalized fl e.building_zone))
      × (Dict.get "project" d ≡ as_text (normalized fl e.project))

  or_else-none : (o : Option (Attribute F)) → Dict.or_else o none ≡ o
  or_else-none none = refl
  or_else-none (some a) = refl

  -- The dict that `build` ends with.
  abbrev pub attributes_of : ExtractionResult F → Job F → List (String × Attribute F)
  attributes_of e job =
      put_all fl (collect fl (raw_values fl e)) (build_required fl job e (derive_confidence fl e))

  get-attributes_of :
      (j : String) (e : ExtractionResult F) (job : Job F)
      → Dict.get j (attributes_of e job)
        ≡ Dict.or_else
            (written j (raw_values fl e))
            (Dict.get j (build_required fl job e (derive_confidence fl e)))
  get-attributes_of j e job = ground (
    arith,
    last_of-collect j (raw_values fl e),
    get-put_all fl j (collect fl (raw_values fl e))
        (build_required fl job e (derive_confidence fl e)),
  )

  HasContents-attributes_of :
      (e : ExtractionResult F) (job : Job F) → HasContents e job (attributes_of e job)
  unfolding build_required Dict.get
  HasContents-attributes_of e job =
      let at = λ (j : String). get-attributes_of j e job in
      (
        at "source_filename",
        at "document_type",
        at "extraction_confidence",
        ground (arith, at "drawing_number"),
        ground (arith, at "title"),
        ground (arith, at "discipline"),
        ground (arith, at "revision"),
        ground (arith, at "building_zone"),
        ground (arith, at "project"),
      )

module _ {F : Type 0} (fl : FloatOps F) (laws : FloatLaws fl) where
  -- What makes the confidence of a sidecar a number: a score that is set is no NaN, and without one
  -- none of the fields' confidences is negative.
  abbrev pub IsScored : Option F → ExtractionResult F → Type 0
  IsScored none e = IsNonneg fl laws e
  IsScored (some x) e = fl.is_nan x ≡ false

  derive_confidence-InUnit_score :
      (e : ExtractionResult F) (score : Option F)
      → e.confidence_score ≡ score
      → IsScored score e
      → InUnit fl (derive_confidence fl e)
  unfolding derive_confidence Confidence.weighted_sum
  derive_confidence-InUnit_score e none k h =
      let sum = weighted_sum_nonneg fl laws e h in
      ground (arith, k, clamp_unit-InUnit fl laws _ (laws.le_num _ _ sum).1)
  derive_confidence-InUnit_score e (some x) k h = ground (arith, k, clamp_unit-InUnit fl laws x h)

  is_empty-document_type_value :
      (t : DocumentType) → is_empty (codes (document_type_value t)) ≡ false
  unfolding document_type_value
  is_empty-document_type_value DocumentType.technical_drawing = refl
  is_empty-document_type_value DocumentType.floor_plan = refl
  is_empty-document_type_value DocumentType.electrical_schematic = refl
  is_empty-document_type_value DocumentType.mechanical_drawing = refl
  is_empty-document_type_value DocumentType.plumbing_drawing = refl
  is_empty-document_type_value DocumentType.fire_safety_plan = refl
  is_empty-document_type_value DocumentType.inspection_report = refl
  is_empty-document_type_value DocumentType.maintenance_log = refl
  is_empty-document_type_value DocumentType.compliance_certificate = refl
  is_empty-document_type_value DocumentType.equipment_manual = refl
  is_empty-document_type_value DocumentType.specification = refl
  is_empty-document_type_value DocumentType.risk_assessment = refl
  is_empty-document_type_value DocumentType.schedule = refl
  is_empty-document_type_value DocumentType.commissioning_report = refl
  is_empty-document_type_value DocumentType.warranty_certificate = refl
  is_empty-document_type_value DocumentType.product_data_sheet = refl
  is_empty-document_type_value DocumentType.safety_data_sheet = refl
  is_empty-document_type_value DocumentType.test_certificate = refl
  is_empty-document_type_value DocumentType.method_statement = refl
  is_empty-document_type_value DocumentType.as_built_drawing = refl
  is_empty-document_type_value DocumentType.document = refl

  is_empty-document_type :
      (t : Option DocumentType) → is_empty (document_type_or_unknown fl t) ≡ false
  is_empty-document_type none = refl
  is_empty-document_type (some t) = is_empty-document_type_value t

  conforms-build_required :
      (e : ExtractionResult F) (job : Job F)
      → is_empty job.filename ≡ false
      → InUnit fl (derive_confidence fl e)
      → conforms fl sidecar_json_schema (build_required fl job e (derive_confidence fl e)) ≡ true
  unfolding build_required Dict.get
  conforms-build_required e job h (low, high) =
      ground (arith, h, low, high, is_empty-document_type e.document_type)

  length-attributes_of :
      (e : ExtractionResult F) (job : Job F)
      → length (attributes_of fl e job) ≤ max_sidecar_metadata_keys
  unfolding build_required
  length-attributes_of e job = omega (
    arith,
    length-collect fl (raw_values fl e),
    length-put_all fl (collect fl (raw_values fl e))
        (build_required fl job e (derive_confidence fl e)),
  )

  merge_with_budget-put_all :
      (e : ExtractionResult F) (job : Job F)
      → merge_with_budget fl
          (build_required fl job e (derive_confidence fl e))
          (collect fl (raw_values fl e))
        ≡ (attributes_of fl e job, [])
  unfolding merge_with_budget build_required
  merge_with_budget-put_all e job =
      merge_loop-put_all fl 7 (build_required fl job e (derive_confidence fl e))
        (collect fl (raw_values fl e)) (omega (arith, length-collect fl (raw_values fl e)))

  build_eq :
      (schema_error : Schema → List (String × Attribute F) → Option Text)
      → Accepts fl schema_error
      → (e : ExtractionResult F) (companion : Option (CompanionResult F)) (job : Job F)
      → conforms fl sidecar_json_schema (attributes_of fl e job) ≡ true
      → build fl schema_error e companion job
        ≡ returned (record {
          metadata_attributes = attributes_of fl e job;
          companion_text = text_if_generated fl companion;
          source_filename = job.filename;
          file_hash = job.file_hash;
        })
  unfolding build
  build_eq schema_error accepting e companion job conforming =
      let fits = merge_with_budget-put_all e job in
      let accepted = accepting.accepts sidecar_json_schema (attributes_of fl e job) conforming in
      let same = ap (λ p. p.0) fits in rw (ap (λ p. p.1) fits, same, accepted, same, build) refl

  -- For a job with a filename and an extraction whose confidence is a number, `build` always returns
  -- a sidecar: it holds the three required keys and every optional field that is not blank, at most
  -- 10 keys, passes the schema, and shows a confidence in [0, 1].
  pub build-HasContents :
      (schema_error : Schema → List (String × Attribute F) → Option Text)
      → Accepts fl schema_error
      → (e : ExtractionResult F) (companion : Option (CompanionResult F)) (job : Job F)
      → is_empty job.filename ≡ false
      → IsScored e.confidence_score e
      → (document : SidecarDocument F) × (build fl schema_error e companion job ≡ returned document)
        × HasContents fl e job document.metadata_attributes
        × (length document.metadata_attributes ≤ max_sidecar_metadata_keys)
        × (conforms fl sidecar_json_schema document.metadata_attributes ≡ true)
        × InUnit fl (derive_confidence fl e)
        × (document.companion_text ≡ text_if_generated fl companion)
  build-HasContents schema_error accepting e companion job h k =
      let unit = derive_confidence-InUnit_score e e.confidence_score refl k in
      let optional = collect fl (raw_values fl e) in
      let required = build_required fl job e (derive_confidence fl e) in
      let short = length-collect fl (raw_values fl e) in
      let conforming =
        conforms-put_all fl optional required (conforms-build_required e job h unit)
          (AllObey-collect fl (raw_values fl e) (is_text_key-raw_values fl e)) in
      (
        record {
          metadata_attributes = attributes_of fl e job;
          companion_text = text_if_generated fl companion;
          source_filename = job.filename;
          file_hash = job.file_hash;
        },
        build_eq schema_error accepting e companion job conforming,
        HasContents-attributes_of fl e job,
        length-attributes_of e job,
        conforming,
        unit,
        refl,
      )
