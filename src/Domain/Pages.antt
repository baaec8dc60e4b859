-- ===== src/Domain/Pages.antt =====
-- domain/entities.py: what the stages of the pipeline share about one PDF file.
use dev_zu_smart_ingest.Prelude.{String, Option, List, Bool, ℕ}
use dev_zu_smart_ingest.Text.{Text}
use dev_zu_smart_ingest.Domain.Json.{Fields}
use dev_zu_smart_ingest.Domain.Entities.{FileHash, Job, PipelineError}

pub record PdfData (F : Type 0) : Type 0 where
  pub page_count : ℕ
  pub file_hash : FileHash
  pub metadata : Fields F
  pub is_encrypted : Bool
  pub has_text_layer : Bool

pub record RenderedPage : Type 0 where
  pub page_number : ℕ
  pub jpeg_bytes : List ℕ
  pub base64_jpeg : Text
  pub width_px : ℕ
  pub height_px : ℕ
  pub dpi : ℕ
  pub render_time_ms : ℕ

pub record FilenameHints (F : Type 0) : Type 0 where
  pub drawing_number_hint : Option Text
  pub revision_hint : Option Text
  pub confidence : F
  pub matched_pattern : Option String

pub record PipelineContext (F : Type 0) : Type 0 where
  pub job : Job F
  pub pdf_bytes : List ℕ
  pub pdf_data : Option (PdfData F)
  pub extracted_text : Option Text
  pub rendered_pages : List RenderedPage
  pub filename_hints : Option (FilenameHints F)
  pub errors : List PipelineError
