-- ===== src/Examples/Orchestrated.antt =====
-- A run of the pipeline in which the title extractor and the callback fail.
use dev_zu_smart_ingest.Prelude.{
  String, Option, none, some, List, [], ◌∷◌, true, false, ◌||◌, ◌≡◌, refl, if◌then◌else◌,
}
use dev_zu_smart_ingest.Prelude.Outcome.{Exception, returned, raised}
use dev_zu_smart_ingest.Text.{Text, codes}
use dev_zu_smart_ingest.Dict
use dev_zu_smart_ingest.Float.Fixed.{Fixed, fixed_ops, fixed_laws}
use dev_zu_smart_ingest.Domain.Enums.{ConfidenceTier, tier_eq}
use dev_zu_smart_ingest.Domain.Json.{end}
use dev_zu_smart_ingest.Domain.Entities.{Attribute, number}
use dev_zu_smart_ingest.Domain.Pages.{PdfData}
use dev_zu_smart_ingest.Pipeline.Confidence.{penalised, calculate}
use dev_zu_smart_ingest.Pipeline.Sidecar.{Schema, Accepts, build}
use dev_zu_smart_ingest.Orchestrator.Trace.{write_metadata}
use dev_zu_smart_ingest.Orchestrator.Extraction.{stage1}
use dev_zu_smart_ingest.Orchestrator.Run.{
  Collaborators, Request, stage1_fault, extracted, checked, run_pipeline,
}
use dev_zu_smart_ingest.Orchestrator.Run.Routing.{writes, run_pipeline-writes}
use dev_zu_smart_ingest.Orchestrator.Run.Errors.{crashed, is_some, sum_up, run_pipeline-status}
use dev_zu_smart_ingest.Orchestrator.Run.Tracing.{Traced, run_pipeline-Traced}
use dev_zu_smart_ingest.Orchestrator.Run.Agreement.{IsWired, run_pipeline-agrees}
use dev_zu_smart_ingest.Examples.Samples.{floor_plan, waiting_job}

abbrev broken : Exception
broken = record { type_name = "RuntimeError"; message = codes "down" }

abbrev page_data : PdfData Fixed
page_data = record {
  page_count = 1;
  file_hash = "abc";
  metadata = end;
  is_encrypted = false;
  has_text_layer = true;
}

abbrev no_schema_error : Schema → List (String × Attribute Fixed) → Option Text
no_schema_error schema attributes = none

abbrev pub collaborators : Collaborators Fixed
collaborators = record {
  load = λ bytes. returned page_data;
  gather = λ context. ((returned floor_plan, raised broken, returned floor_plan), context);
  stage1_raises = λ context. none;
  generate = λ context e. raised broken;
  validate = none;
  build = build fixed_ops no_schema_error;
  calculate = λ e v. returned (calculate fixed_ops e v);
  writer = λ c. returned true;
  indexer = none;
  callback = some (λ c. raised broken);
  elapsed = λ stage. 5;
}

abbrev request : Request Fixed
request = record {
  job = waiting_job;
  pdf_bytes = codes "%PDF";
  deployment_id = none;
  node_id = none;
  callback_url = some "https://client/hook";
  api_key = "";
}

run_pipeline-writes_example :
    let result = run_pipeline fixed_ops collaborators request in
    writes result.run ≡ (
      if tier_eq result.confidence_assessment.tier ConfidenceTier.review
      then []
      else write_metadata "abc" result.sidecar none none ∷ [])
run_pipeline-writes_example = run_pipeline-writes fixed_ops collaborators request

run_pipeline-status_example :
    let result = run_pipeline fixed_ops collaborators request in
    let merged = (extracted fixed_ops collaborators request).0 in
    result.status
    ≡ sum_up fixed_ops
        (((crashed (collaborators.load request.pdf_bytes)
              || is_some (stage1_fault fixed_ops collaborators request))
            || crashed (collaborators.build merged result.companion_result request.job))
          || crashed (collaborators.calculate merged (checked fixed_ops collaborators request).0))
        result.confidence_assessment.tier
run_pipeline-status_example = run_pipeline-status fixed_ops collaborators request

run_pipeline-Traced_example : Traced (run_pipeline fixed_ops collaborators request).run
run_pipeline-Traced_example = run_pipeline-Traced fixed_ops collaborators request

lenient : Accepts fixed_ops no_schema_error
lenient = record { accepts = λ schema attributes h. refl }

wired : IsWired fixed_ops no_schema_error collaborators
wired = record { builds = λ e companion job. refl; calculates = λ e v. refl }

run_pipeline-agrees_example :
    let result = run_pipeline fixed_ops collaborators request in
    let unpenalised =
      (calculate fixed_ops (extracted fixed_ops collaborators request).0 none).overall_confidence in
    Dict.get "extraction_confidence" result.sidecar.metadata_attributes
    ≡ some (
        number (
          if penalised fixed_ops (checked fixed_ops collaborators request).0
          then unpenalised
          else result.confidence_assessment.overall_confidence))
unfolding stage1
run_pipeline-agrees_example =
    run_pipeline-agrees fixed_ops fixed_laws no_schema_error collaborators request lenient wired
      refl (refl, refl, refl)
