-- ===== src/JobService/Submission/Validation.antt =====
-- The validation pass of `submit_batch` comes before every effect.
use dev_zu_smart_ingest.Prelude.{
  ◌≤◌, none, List, [], ◌∷◌, true, ◌≡◌, ◌⊎◌, inl, inr, ◌↔◌, refl, arith, length, All, Option-cases,
}
use dev_zu_smart_ingest.Prelude.Outcome.{Exception, raised}
use dev_zu_smart_ingest.Float.{FloatOps}
use dev_zu_smart_ingest.Domain.Entities.{UploadedFile, SubmissionParams, AuthContext}
use dev_zu_smart_ingest.JobService.Submission.{
  World, Environment, is_valid_pdf, check_files, submit_batch,
}

module _ {F : Type 0} (fl : FloatOps F) (env : Environment F) where
  -- A file of at most the maximal size, named *.pdf, that begins with the PDF magic bytes.
  abbrev pub IsAcceptable : UploadedFile → Type 0
  IsAcceptable f = (length f.content ≤ env.max_pdf_bytes) × (is_valid_pdf fl env f ≡ true)

  pub check_files-none_iff :
      (files : List UploadedFile) → (check_files fl env files ≡ none) ↔ All IsAcceptable files
  unfolding check_files
  check_files-none_iff [] = (λ h. tt, λ h. refl)
  check_files-none_iff (f ∷ files) = ground (arith, check_files-none_iff files)

  -- An empty submission, or one with any file that is not acceptable, raises, and leaves the
  -- database, the disk, the queue and the ids drawn as they were.
  pub submit_batch-refuses :
      (files : List UploadedFile) (params : SubmissionParams) (auth : AuthContext) (w : World F)
      → (files ≡ []) ⊎ ¬ (All IsAcceptable files)
      → (e : Exception) × (submit_batch fl env files params auth w ≡ (raised e, w))
  unfolding submit_batch
  submit_batch-refuses [] params auth w h = (_, refl)
  submit_batch-refuses (f ∷ files) params auth w h =
      elim (Option-cases (check_files fl env (f ∷ files))) [
        | inl e ↦ absurd (ground (arith, h, check_files-none_iff (f ∷ files), e))
        | inr (e, refused) ↦ (e, rw (refused, submit_batch) refl)
      ]
