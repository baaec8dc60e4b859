-- ===== src/Pipeline/DrawingNumber/Sources.antt =====
-- domain/pipeline/extractors/drawing_number.py: the three sources, and the extractor over them. The
-- PDF processor, the models and the parsers are arguments.
use dev_zu_smart_ingest.Prelude.{Option, none, some, [], if◌then◌else◌}
use dev_zu_smart_ingest.Prelude.Outcome.{Outcome, returned, raised, ◌>>=◌}
use dev_zu_smart_ingest.Text.{Text, is_empty}
use dev_zu_smart_ingest.Float.{FloatOps}
use dev_zu_smart_ingest.Domain.Json.{Json, str, Fields, get}
use dev_zu_smart_ingest.Domain.Entities.{ExtractionResult}
use dev_zu_smart_ingest.Domain.Pages.{RenderedPage, FilenameHints}
use dev_zu_smart_ingest.Pipeline.DrawingNumber
use dev_zu_smart_ingest.Pipeline.Title.{Context, get_or_render_first_page, get_or_extract_text}

-- `parse` is the response parser's call with the schema of a drawing number.
pub record Sources (F : Type 0) : Type 0 where
  pub render_first_page : Outcome RenderedPage
  pub extract_text : Outcome Text
  pub generate_vision : (image_base64 : Text) → Outcome Text
  pub generate_text : (text : Text) → Outcome Text
  pub parse : Text → Outcome (Fields F)
  pub parse_filename : Text → Outcome (FilenameHints F)

module _ {F : Type 0} where
  -- `value if isinstance(value, str) else None`
  abbrev string_or_none : Option (Json F) → Option Text
  string_or_none (some (str s)) = some s
  string_or_none _ = none

module _ {F : Type 0} (cs : Sources F) where
  -- The value in the response to a model's call, and its text; a call that raised gives none.
  unfoldable pub read_response : Outcome Text → Outcome (Option Text × Text)
  read_response (raised e) = returned (none, [])
  read_response (returned response_text) = do
    parsed ← cs.parse response_text
    returned (string_or_none (get "drawing_number" parsed), response_text)

  -- `_from_vision`
  unfoldable pub from_vision : Context → Outcome (Option Text × Text) × Context
  unfolding read_response get_or_render_first_page
  from_vision context =
      let (page, context') = get_or_render_first_page cs.render_first_page context in
      (read_response (do p ← page; cs.generate_vision p.base64_jpeg), context')

  -- `_from_text`
  unfoldable pub from_text : Context → Outcome (Option Text × Text) × Context
  unfolding read_response get_or_extract_text
  from_text context =
      let (text, context') = get_or_extract_text cs.extract_text context in
      let read = read_response (cs.generate_text text) in
      (if is_empty text then returned (none, []) else read, context')

  -- `_from_filename`, with the hints that the context keeps.
  unfoldable pub from_filename :
      (filename : Text) → Option (FilenameHints F) → Option Text × Option (FilenameHints F)
  from_filename filename (some hints) = (hints.drawing_number_hint, some hints)
  from_filename filename none = elim (cs.parse_filename filename) [
    | returned hints ↦ (hints.drawing_number_hint, some hints)
    | raised e ↦ (none, none)
  ]

module _ {F : Type 0} (fl : FloatOps F) (upper : Text → Text) (cs : Sources F) where
  -- `DrawingNumberExtractor.extract`
  unfoldable pub extract_from :
      (filename : Text)
      → Option (FilenameHints F)
      → Context
      → Outcome (ExtractionResult F) × Context
  unfolding from_vision from_text from_filename DrawingNumber.extract
  extract_from filename hints context =
      let (vision, context') = from_vision cs context in
      let (text, context'') = from_text cs context' in
      let (named, hints') = from_filename cs filename hints in
      (do v ← vision; t ← text; returned (DrawingNumber.extract fl upper v t named), context'')
