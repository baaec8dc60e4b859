-- ===== src/Orchestrator/Extraction.antt =====
-- services/orchestrator.py: Stage 1, the three extractors and the merge of what they return.
pub mod Merging
use dev_zu_smart_ingest.Prelude.{
  String, ℕ, zero, suc, Option, none, some, List, [], ◌∷◌, ◌++◌, Bool, true, false, ◌&&◌, any,
  str_eq, if◌then◌else◌,
}
use dev_zu_smart_ingest.Prelude.Outcome.{Exception, Outcome, returned, raised}
use dev_zu_smart_ingest.Text.{Text, codes, describe}
use dev_zu_smart_ingest.Float.{FloatOps}
use dev_zu_smart_ingest.Domain.Enums.{Discipline}
use dev_zu_smart_ingest.Domain.Json.{Json, bool, str, arr, Items, nil, cons, Fields, end, field}
use dev_zu_smart_ingest.Domain.Entities.{ExtractionResult}
use dev_zu_smart_ingest.Orchestrator.Trace.{
  Run, log_stage, log_error, report, of_exception, duration_ms, fail,
}

-- `a or b` of optional texts: the empty text is falsy.
abbrev pub or_text : Option Text → Option Text → Option Text
or_text none b = b
or_text (some []) b = b
or_text (some (c ∷ s)) b = some (c ∷ s)

abbrev pub or_discipline : Option Discipline → Option Discipline → Option Discipline
or_discipline none b = b
or_discipline (some d) b = some d

-- The inner loop over `sources_used`.
unfoldable pub append_new : List String → List String → List String
append_new sources [] = sources
append_new sources (s ∷ rest) =
    append_new (if any (str_eq s) sources then sources else sources ++ s ∷ []) rest

module _ {F : Type 0} (fl : FloatOps F) where
  abbrev pub empty_extraction_result : ExtractionResult F
  empty_extraction_result = record {
    drawing_number = none;
    drawing_number_confidence = fl.pct 0;
    title = none;
    title_confidence = fl.pct 0;
    document_type = none;
    document_type_confidence = fl.pct 0;
    discipline = none;
    revision = none;
    building_zone = none;
    project = none;
    sources_used = [];
    raw_vision_response = none;
    raw_text_response = none;
    confidence_score = none;
    confidence_tier = none;
  }

  unfoldable pub merge_extraction_results :
      (drawing title document_type : ExtractionResult F) → ExtractionResult F
  unfolding append_new
  merge_extraction_results drawing title document_type =
      let either = λ (a b c : Option Text). or_text a (or_text b c) in
      record {
        drawing_number = drawing.drawing_number;
        drawing_number_confidence = drawing.drawing_number_confidence;
        title = title.title;
        title_confidence = title.title_confidence;
        document_type = document_type.document_type;
        document_type_confidence = document_type.document_type_confidence;
        discipline =
            or_discipline drawing.discipline
              (or_discipline title.discipline document_type.discipline);
        revision = either drawing.revision title.revision document_type.revision;
        building_zone =
            either drawing.building_zone title.building_zone document_type.building_zone;
        project = either drawing.project title.project document_type.project;
        sources_used =
            append_new (append_new (append_new [] drawing.sources_used) title.sources_used)
              document_type.sources_used;
        raw_vision_response =
            either drawing.raw_vision_response title.raw_vision_response
              document_type.raw_vision_response;
        raw_text_response =
            either drawing.raw_text_response title.raw_text_response
              document_type.raw_text_response;
        confidence_score = none;
        confidence_tier = none;
      }

  -- One turn of the loop over the gathered results.
  abbrev pub normalized : Outcome (ExtractionResult F) → ExtractionResult F
  normalized (returned result) = result
  normalized (raised e) = empty_extraction_result

  abbrev pub log_extractor : String → Outcome (ExtractionResult F) → Run F → Run F
  log_extractor stage (returned result) run = run
  log_extractor stage (raised e) run =
      report (of_exception stage e true) (log_error stage (describe e) run)

  abbrev pub is_returned : Outcome (ExtractionResult F) → Bool
  is_returned (returned result) = true
  is_returned (raised e) = false

  abbrev extractors_run : Json F
  extractors_run = arr (
      cons (str (codes "drawing_number"))
        (cons (str (codes "title")) (cons (str (codes "document_type")) nil)))

  abbrev pub labelled :
      (drawing title document_type : Outcome (ExtractionResult F))
      → List (String × Outcome (ExtractionResult F))
  labelled drawing title document_type =
      ("stage1.drawing_number", drawing)
      ∷ ("stage1.title", title)
      ∷ ("stage1.document_type", document_type)
      ∷ []

  -- The loop over the results, as far as the first `handled` of them.
  unfoldable pub log_results :
      (handled : ℕ) → List (String × Outcome (ExtractionResult F)) → Run F → Run F
  log_results zero results run = run
  log_results (suc handled) [] run = run
  log_results (suc handled) ((stage, result) ∷ results) run =
      log_results handled results (log_extractor stage result run)

  -- Stage 1 on the results that `asyncio.gather(…, return_exceptions=True)` gives. `fault` is what
  -- else raises in its `try`, with the number of results that the loop has handled by then: 0 where
  -- the tasks cannot be made or gathered, 3 where the merge meets what is no `ExtractionResult`.
  unfoldable pub stage1 :
      (elapsed : ℕ)
      → (fault : Option (ℕ × Exception))
      → (drawing title document_type : Outcome (ExtractionResult F)) → Run F
      → ExtractionResult F × Run F
  unfolding merge_extraction_results log_results
  stage1 elapsed none drawing title document_type run =
      let ok = is_returned drawing && is_returned title && is_returned document_type in
      (
        merge_extraction_results (normalized drawing) (normalized title) (normalized document_type),
        log_stage "stage1"
            (duration_ms elapsed (field "ok" (bool ok) (field "extractors_run" extractors_run end)))
            (log_results 3 (labelled drawing title document_type) run),
      )
  stage1 elapsed (some (handled, e)) drawing title document_type run = (
    empty_extraction_result,
    fail "stage1" elapsed e false (log_results handled (labelled drawing title document_type) run),
  )
