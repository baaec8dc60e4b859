-- ===== src/Pipeline/Companion.antt =====
-- domain/pipeline/companion.py: the description of a document's pages by the vision model. The PDF
-- processor, the model and the response parser are arguments, and so is `str` of a JSON value that is
-- neither a string nor null.
pub mod Pages
pub mod Markdown
pub mod Coverage
use dev_zu_smart_ingest.Prelude.{
  String, ℕ, suc, ◌+◌, Option, none, some, List, [], ◌∷◌, ◌++◌, Bool, true, false, ltb, leb, ◌==◌,
  ◌&&◌, ◌||◌, not, select, length, if◌then◌else◌, map,
}
use dev_zu_smart_ingest.Prelude.Int.{ℤ, pos_part}
use dev_zu_smart_ingest.Prelude.Outcome.{Outcome, returned, raised, ◌>>=◌}
use dev_zu_smart_ingest.Text.{Text, strip, or_none, is_empty, split_words}
use dev_zu_smart_ingest.Domain.Json.{
  Json, null, bool, int, float, str, arr, obj, Fields, get, items,
}
use dev_zu_smart_ingest.Domain.Entities.{CompanionResult, ExtractionResult}
use dev_zu_smart_ingest.Domain.Pages.{PdfData, RenderedPage, PipelineContext}
use dev_zu_smart_ingest.Pipeline.Companion.Pages.{select_pages_to_render}
use dev_zu_smart_ingest.Pipeline.Companion.Markdown.{
  joined_lines, line_break, assemble_companion_markdown,
}

-- The settings that the generator reads; without them no page is skipped and the default vision
-- model of shared/constants.py is used.
pub record Settings : Type 0 where
  pub vision_model : String
  pub skip_enabled : Bool
  pub skip_min_words : ℤ

abbrev pub default_vision_model : String
default_vision_model = "qwen2.5vl:7b"

-- `extract_page_texts` is `none` for a processor that has no such method. `generate_vision` gives the
-- response's text, and `parse` is the parser's call with the page schema.
pub record Collaborators (F : Type 0) : Type 0 where
  pub render_pages : List ℤ → Outcome (List RenderedPage)
  pub extract_page_texts : Option (List ℕ → Outcome (ℕ → Option Text))
  pub extract_page_text : ℕ → Outcome Text
  pub generate_vision : (model : String) → (image_base64 : Text) → Outcome Text
  pub parse : Text → Outcome (Fields F)
  pub py_str : Json F → Text

abbrev pub text_only_threshold_chars : ℕ
text_only_threshold_chars = 5000

abbrev pub text_only_threshold_pages : ℕ
text_only_threshold_pages = 10

-- The descriptions of the pages so far, and how many pages gave one.
pub record Described : Type 0 where
  pub visual : List Text
  pub technical : List Text
  pub successful_pages : ℕ

abbrev pub nothing_described : Described
nothing_described = record { visual = []; technical = []; successful_pages = 0 }

abbrev or_blank : Outcome Text → Text
or_blank (returned text) = text
or_blank (raised e) = []

-- `if text:` of a text that may be missing.
abbrev pub is_truthy : Option Text → Bool
is_truthy none = false
is_truthy (some text) = not (is_empty text)

abbrev with_truthy : Option Text → List Text → List Text
with_truthy none ts = ts
with_truthy (some t) ts = if is_empty t then ts else ts ++ t ∷ []

-- One round of the loop, once a page is described.
unfoldable pub add_description : (visual technical : Option Text) → Described → Described
add_description visual technical d =
    if is_truthy visual || is_truthy technical
    then record {
      visual = with_truthy visual d.visual;
      technical = with_truthy technical d.technical;
      successful_pages = d.successful_pages + 1;
    }
    else d

-- `_is_text_only`
unfoldable pub is_text_only : Option Text → (page_count : ℕ) → Bool
is_text_only none page_count = false
is_text_only (some text) page_count =
    if leb (length text) text_only_threshold_chars
    then false
    else if leb page_count text_only_threshold_pages
    then false
    else true

module _ {F : Type 0} where
  -- The result of every way to describe nothing.
  abbrev pub not_generated : CompanionResult F
  not_generated = record {
    companion_text = [];
    pages_described = 0;
    companion_generated = false;
    validation_passed = false;
    quality_score = none;
  }

  item_text : (py_str : Json F → Text) → Json F → Text
  item_text py_str (str s) = s
  item_text py_str v = py_str v

  -- `_coerce_to_str`
  unfoldable pub coerce_to_str : (py_str : Json F → Text) → Option (Json F) → Option Text
  unfolding item_text
  coerce_to_str py_str none = none
  coerce_to_str py_str (some null) = none
  coerce_to_str py_str (some (str s)) = or_none (strip s)
  coerce_to_str py_str (some (arr vs)) = or_none (
      joined_lines line_break
        (map strip (select (λ t. not (is_empty (strip t))) (map (item_text py_str) (items vs)))))
  coerce_to_str py_str (some v) = some (py_str v)

module _ {F : Type 0} (settings : Option Settings) (cs : Collaborators F) where
  abbrev pub vision_model : Option Settings → String
  vision_model none = default_vision_model
  vision_model (some s) = s.vision_model

  -- `skip_enabled and skip_min_words > 0`, with the least number of words of a page to skip.
  abbrev pub skip_from : Option Settings → Option ℕ
  skip_from none = none
  skip_from (some s) =
      if s.skip_enabled && ltb 0 (pos_part s.skip_min_words)
      then some (pos_part s.skip_min_words)
      else none

  -- What the parsed response says of a page.
  abbrev descriptions : Outcome (Fields F) → Option Text × Option Text
  descriptions (raised e) = (none, none)
  descriptions (returned parsed) = (
    coerce_to_str cs.py_str (get "visual_description" parsed),
    coerce_to_str cs.py_str (get "technical_details" parsed),
  )

  -- `_describe_one_page`
  unfoldable pub describe_one_page : RenderedPage → Option Text × Option Text
  unfolding coerce_to_str
  describe_one_page rendered = descriptions (do
    response_text ← cs.generate_vision (vision_model settings) rendered.base64_jpeg
    cs.parse response_text)

  -- The texts that are fetched for all pages at once: `none` if that is not possible or fails.
  prefetch : List RenderedPage → Option (ℕ → Option Text)
  prefetch rendered = elim cs.extract_page_texts [
    | none ↦ none
    | some batch ↦ elim (batch (map (λ r. r.page_number) rendered)) [
      | returned texts ↦ some texts
      | raised e ↦ none
    ]
  ]

  page_text : Option (ℕ → Option Text) → ℕ → Text
  page_text none n = or_blank (cs.extract_page_text n)
  page_text (some texts) n = elim (texts n) [ some text ↦ text | none ↦ [] ]

  -- Whether a page is left out because its own text is long.
  unfoldable pub is_skipped :
      Option ℕ → (prefetched : Option (ℕ → Option Text)) → RenderedPage → Bool
  unfolding page_text
  is_skipped none prefetched rendered = false
  is_skipped (some min_words) prefetched rendered =
      let text = page_text prefetched rendered.page_number in
      not (is_empty text) && leb min_words (length (split_words text))

  -- The loop over the rendered pages.
  unfoldable pub describe_pages :
      Option ℕ → (prefetched : Option (ℕ → Option Text)) → List RenderedPage → Described → Described
  unfolding is_skipped describe_one_page add_description
  describe_pages skip prefetched [] d = d
  describe_pages skip prefetched (r ∷ rendered) d =
      let skipped = describe_pages skip prefetched rendered d in
      let (visual, technical) = describe_one_page r in
      let described =
        describe_pages skip prefetched rendered (add_description visual technical d) in
      if is_skipped skip prefetched r then skipped else described

  unfoldable pub companion_of : ExtractionResult F → Described → CompanionResult F
  unfolding assemble_companion_markdown
  companion_of e d = if d.successful_pages == 0 then not_generated else record {
    companion_text = assemble_companion_markdown d.visual d.technical e;
    pages_described = d.successful_pages;
    companion_generated = true;
    validation_passed = false;
    quality_score = none;
  }

  unfoldable pub describe_document :
      ExtractionResult F → Outcome (List RenderedPage) → CompanionResult F
  unfolding describe_pages companion_of prefetch
  describe_document e (raised exc) = not_generated
  describe_document e (returned rendered) =
      let skip = skip_from settings in
      companion_of e (
        describe_pages skip (elim skip [ none ↦ none | some n ↦ prefetch rendered ]) rendered
          nothing_described)

  -- `generate`, on what it reads of the context.
  unfoldable pub generate :
      Option (PdfData F) → (extracted_text : Option Text) → ExtractionResult F → CompanionResult F
  unfolding is_text_only describe_document select_pages_to_render
  generate none text e = not_generated
  generate (some pdf) text e =
      let described =
        describe_document e (cs.render_pages (select_pages_to_render pdf.page_count)) in
      if pdf.page_count == 0 || is_text_only text pdf.page_count then not_generated else described
