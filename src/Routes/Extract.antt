-- ===== src/Routes/Extract.antt =====
-- api/routes/extract.py: POST /extract. `integer` is Python's `int` of a text, None where it raises,
-- and `submit` the call of the job service.
mod Refusals
use dev_zu_smart_ingest.Prelude.{
  String, ℕ, Option, none, some, List, [], ◌∷◌, ◌++◌, map, str_eq, if◌then◌else◌,
}
use dev_zu_smart_ingest.Prelude.Int.{ℤ}
use dev_zu_smart_ingest.Prelude.Outcome.{Exception, Outcome, returned, raised}
use dev_zu_smart_ingest.Text.{Text, codes, comma_joined}
use dev_zu_smart_ingest.Text.Number.{uuid_text}
use dev_zu_smart_ingest.Domain.Enums.{
  ExtractionMode, extraction_mode_value, extraction_modes, extraction_mode_of_value,
}
use dev_zu_smart_ingest.Domain.Json.{str, arr, obj, Fields, end, field, natural}
use dev_zu_smart_ingest.Domain.Entities.{
  UploadedFile, SubmissionParams, AuthContext, BatchSubmissionResult,
}
use dev_zu_smart_ingest.JobService.Submission.{World, Action}
use dev_zu_smart_ingest.Routes.{Answer, content, http_error, server_error, serialize_summaries}

-- A file of the form, read.
pub record Upload : Type 0 where
  pub filename : Option Text
  pub content : List ℕ
  pub content_type : Option String

pub record Form : Type 0 where
  pub files : List Upload
  pub mode : String
  pub callback_url : Option String
  pub deployment_id : Option Text
  pub node_id : Option Text

-- A field that is read, or the detail of the 400 that it is refused with.
pub data Parsed (A : Type 0) : Type 0 where
  parsed : A → Parsed A
  refused : (detail : Text) → Parsed A

infixl 5 ◌>>=◌
abbrev ◌>>=◌ : {A B : Type 0} → Parsed A → (A → Parsed B) → Parsed B
parsed a >>= f = f a
refused detail >>= f = refused detail

-- `_parse_mode`
unfoldable pub parse_mode : String → Parsed ExtractionMode
unfolding extraction_mode_of_value
parse_mode mode = elim (extraction_mode_of_value mode) [
  | some m ↦ parsed m
  | none ↦ refused (
      codes "Invalid mode '"
      ++ (codes mode
          ++ (codes "'. Must be one of: "
              ++ comma_joined (map extraction_mode_value extraction_modes))))
]

abbrev pub filename_or : Option Text → Text
filename_or none = codes "unnamed.pdf"
filename_or (some []) = codes "unnamed.pdf"
filename_or (some (c ∷ s)) = c ∷ s

abbrev content_type_or : Option String → String
content_type_or none = "application/octet-stream"
content_type_or (some s) = if str_eq s "" then "application/octet-stream" else s

-- `_to_uploaded_file`
unfoldable pub to_uploaded_file : Upload → UploadedFile
to_uploaded_file u = record {
  filename = filename_or u.filename;
  content = u.content;
  content_type = content_type_or u.content_type;
}

module _ (integer : Text → Option ℤ) (repr : Text → Text) where
  abbrev integer_of : Text → Option ℤ → Parsed (Option ℤ)
  integer_of value (some n) = parsed (some n)
  integer_of value none = refused (codes "Expected integer, got: " ++ repr value)

  -- `_parse_int_or_none`
  unfoldable pub parse_int_or_none : Option Text → Parsed (Option ℤ)
  parse_int_or_none none = parsed none
  parse_int_or_none (some []) = parsed none
  parse_int_or_none (some (c ∷ s)) = integer_of (c ∷ s) (integer (c ∷ s))

  unfoldable pub submission_params : Form → Parsed SubmissionParams
  unfolding parse_mode parse_int_or_none
  submission_params form = do
    mode ← parse_mode form.mode
    deployment_id ← parse_int_or_none form.deployment_id
    node_id ← parse_int_or_none form.node_id
    parsed (record {
      mode = mode;
      callback_url = form.callback_url;
      deployment_id = deployment_id;
      node_id = node_id;
    })

-- `JobService.submit_batch`, or what stands for it.
abbrev pub Submit : Type 0 → Type 0
Submit F = List UploadedFile → SubmissionParams → AuthContext → Action F (BatchSubmissionResult F)

module _ {F : Type 0} where
  -- `_serialize_result`
  unfoldable pub serialize_result : BatchSubmissionResult F → Fields F
  serialize_result result = field "batch_id" (str (uuid_text result.batch_id)) (
      field "total" (natural result.total) (
        field "poll_url" (str result.poll_url)
          (field "jobs" (arr (serialize_summaries result.jobs)) end)))

  -- The `except` clauses around the call of the service.
  unfoldable pub submitted : Outcome (BatchSubmissionResult F) → Answer F
  unfolding serialize_result
  submitted (returned result) = content (serialize_result result)
  submitted (raised e) =
      if str_eq e.type_name "OversizeFileError"
      then http_error 413 e.message
      else if str_eq e.type_name "InvalidPDFError"
      then http_error 400 e.message
      else server_error e

  unfoldable pub answered : Outcome (BatchSubmissionResult F) × World F → Answer F × World F
  unfolding submitted
  answered (o, w) = (submitted o, w)

  unfoldable pub with_params :
      Submit F → List Upload → AuthContext → Parsed SubmissionParams → World F → Answer F × World F
  unfolding to_uploaded_file answered
  with_params submit files auth (refused detail) w = (http_error 400 detail, w)
  with_params submit files auth (parsed params) w =
      answered (submit (map to_uploaded_file files) params auth w)

  -- `submit_extract_batch`
  unfoldable pub submit_extract_batch :
      (integer : Text → Option ℤ)
      → (repr : Text → Text) → Submit F
      → Form
      → AuthContext
      → World F
      → Answer F × World F
  unfolding submission_params with_params
  submit_extract_batch integer repr submit form auth w = elim form.files [
    | [] ↦ (http_error 400 (codes "At least one file is required"), w)
    | f ∷ files ↦ with_params submit (f ∷ files) auth (submission_params integer repr form) w
  ]
