-- ===== src/Routes/Extract/Refusals.antt =====
-- A submission whose files do not pass the validation is answered 400 or 413 and changes nothing.
use dev_zu_smart_ingest.Prelude.{◌≡◌, refl, arith, Option, some, List, [], ◌∷◌, map, ◌⊎◌, inl, inr}
use dev_zu_smart_ingest.Prelude.Int.{ℤ}
use dev_zu_smart_ingest.Prelude.Outcome.{Exception, raised}
use dev_zu_smart_ingest.Text.{Text}
use dev_zu_smart_ingest.Float.{FloatOps}
use dev_zu_smart_ingest.Domain.Entities.{UploadedFile, SubmissionParams, AuthContext}
use dev_zu_smart_ingest.JobService.Submission.{World, Environment, check_files, submit_batch}
use dev_zu_smart_ingest.Routes.{Answer, http_error}
use dev_zu_smart_ingest.Routes.Extract.{
  Form, Upload, parsed, submission_params, submitted, submit_extract_batch, to_uploaded_file,
  with_params, answered,
}

abbrev IsRefusal : {F : Type 0} → Answer F → Type 0
IsRefusal answer =
    ((detail : Text) × (answer ≡ http_error 400 detail))
    ⊎ ((detail : Text) × (answer ≡ http_error 413 detail))

module _ {F : Type 0} (fl : FloatOps F) (env : Environment F) where
  check_files-type_name :
      (files : List UploadedFile) (e : Exception)
      → check_files fl env files ≡ some e
      → (e.type_name ≡ "InvalidPDFError") ⊎ (e.type_name ≡ "OversizeFileError")
  unfolding check_files
  check_files-type_name [] e h = absurd (ground (arith, h))
  check_files-type_name (f ∷ files) e h = ground (arith, h, check_files-type_name files e)

  submitted-IsRefusal :
      (e : Exception)
      → (e.type_name ≡ "InvalidPDFError") ⊎ (e.type_name ≡ "OversizeFileError")
      → IsRefusal (submitted {F = F} (raised e))
  unfolding submitted
  submitted-IsRefusal e (inl h) = inl (e.message, rw (h) refl)
  submitted-IsRefusal e (inr h) = inr (e.message, rw (h) refl)

  check_files-submit_batch :
      (f : UploadedFile) (files : List UploadedFile) (params : SubmissionParams)
      (auth : AuthContext) (e : Exception) (w : World F)
      → check_files fl env (f ∷ files) ≡ some e
      → submit_batch fl env (f ∷ files) params auth w ≡ (raised e, w)
  unfolding submit_batch
  check_files-submit_batch f files params auth e w h = rw (h, submit_batch) refl

  submit_extract_batch-refused :
      (integer : Text → Option ℤ) (repr : Text → Text) (form : Form) (f : Upload)
      (files : List Upload) (params : SubmissionParams) (e : Exception) (auth : AuthContext)
      (w : World F)
      → form.files ≡ f ∷ files
      → submission_params integer repr form ≡ parsed params
      → check_files fl env (map to_uploaded_file (f ∷ files)) ≡ some e
      → let (answer, after) = submit_extract_batch integer repr (submit_batch fl env) form auth w in
        IsRefusal answer × (after ≡ w)
  unfolding submit_extract_batch with_params answered
  submit_extract_batch-refused integer repr form f files params e auth w some_file valid h =
      rw
        (
          some_file,
          valid,
          check_files-submit_batch (to_uploaded_file f) (map to_uploaded_file files) params auth e w
              h,
          with_params,
        )
        (submitted-IsRefusal e (check_files-type_name (map to_uploaded_file (f ∷ files)) e h), refl)
