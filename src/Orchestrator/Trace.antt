-- ===== src/Orchestrator/Trace.antt =====
-- services/orchestrator.py: what a run of the pipeline accumulates. `stages` and `trace_errors` are
-- the two keys of `pipeline_trace`, `errors` the list beside it, and `calls` the calls of the
-- collaborators that reach the outside, in their order.
use dev_zu_smart_ingest.Prelude.{String, ℕ, Option, List, [], ◌∷◌, ◌++◌, Bool, false, not, any}
use dev_zu_smart_ingest.Prelude.Int.{ℤ, pos}
use dev_zu_smart_ingest.Prelude.Outcome.{Exception}
use dev_zu_smart_ingest.Text.{Text, describe}
use dev_zu_smart_ingest.Dict
use dev_zu_smart_ingest.Domain.Json.{int, bool, str, Fields, end, field}
use dev_zu_smart_ingest.Domain.Entities.{
  FileHash, Job, SidecarDocument, ExtractionResult, CompanionResult, PipelineError,
}

pub data Call (F : Type 0) : Type 0 where
  write_metadata :
      (document_id : FileHash) (sidecar : SidecarDocument F) (deployment_id node_id : Option ℤ)
      → Call F
  index_companion :
      (document_id : FileHash) (extraction_result : ExtractionResult F)
      (companion_result : CompanionResult F) (deployment_id : Option ℤ)
      → Call F
  notify_completion : (callback_url : String) (job : Job F) (api_key : String) → Call F

pub record Run (F : Type 0) : Type 0 where
  pub stages : List (String × Fields F)
  pub trace_errors : List (String × Text)
  pub errors : List PipelineError
  pub calls : List (Call F)

abbrev pub of_exception : String → Exception → Bool → PipelineError
of_exception stage e recoverable = record {
  stage = stage;
  error_type = e.type_name;
  message = e.message;
  recoverable = recoverable;
}

module _ {F : Type 0} where
  abbrev pub no_run : Run F
  no_run = record { stages = []; trace_errors = []; errors = []; calls = [] }

  -- `pipeline_trace["stages"][stage] = {…}`
  abbrev pub log_stage : String → Fields F → Run F → Run F
  log_stage stage entry run = record run { stages = Dict.put stage entry run.stages }

  -- `pipeline_trace["errors"].append({"stage": …, "error": …})`
  abbrev pub log_error : String → Text → Run F → Run F
  log_error stage message run = record run {
    trace_errors = run.trace_errors ++ (stage, message) ∷ [];
  }

  abbrev pub report : PipelineError → Run F → Run F
  report error run = record run { errors = run.errors ++ error ∷ [] }

  abbrev pub call : Call F → Run F → Run F
  call c run = record run { calls = run.calls ++ c ∷ [] }

  abbrev pub duration_ms : ℕ → Fields F → Fields F
  duration_ms elapsed rest = field "duration_ms" (int (pos elapsed)) rest

  abbrev pub failed_entry : ℕ → Exception → Fields F
  failed_entry elapsed e =
      duration_ms elapsed (field "ok" (bool false) (field "error" (str (describe e)) end))

  -- The shape of most `except` blocks: a failed stage, its error in the trace, and a `PipelineError`.
  abbrev pub fail : String → ℕ → Exception → Bool → Run F → Run F
  fail stage elapsed e recoverable run =
      report (of_exception stage e recoverable)
        (log_error stage (describe e) (log_stage stage (failed_entry elapsed e) run))

abbrev pub has_unrecoverable_error : List PipelineError → Bool
has_unrecoverable_error errors = any (λ error. not error.recoverable) errors
