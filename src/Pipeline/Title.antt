-- ===== src/Pipeline/Title.antt =====
-- domain/pipeline/extractors/title.py: the title of a document, from its first page's image and from
-- its text. The PDF processor, the models and the parser are arguments, and so is `str.lower`.
pub mod Pages
pub mod Fusion
use dev_zu_smart_ingest.Prelude.{
  String, ℕ, Option, none, some, List, [], ◌∷◌, ◌++◌, Bool, true, false, ◌==◌, find?, if◌then◌else◌,
}
use dev_zu_smart_ingest.Prelude.Outcome.{Exception, Outcome, returned, raised, ◌>>=◌}
use dev_zu_smart_ingest.Text.{
  Text, codes, is_empty, or_none, strip, split_words, join_words, text_eq,
}
use dev_zu_smart_ingest.Float.{FloatOps, max_float}
use dev_zu_smart_ingest.Domain.Json.{Json, null, str, Fields, get}
use dev_zu_smart_ingest.Domain.Entities.{ExtractionResult}
use dev_zu_smart_ingest.Domain.Pages.{RenderedPage}
use dev_zu_smart_ingest.Pipeline.Reported.{coerce_confidence}
use dev_zu_smart_ingest.Pipeline.Title.Pages.{first_and_last}

-- `_flatten_title`
unfoldable pub flatten_title : Option Text → Option Text
flatten_title none = none
flatten_title (some value) = or_none (strip (join_words (split_words value)))

-- `==` of two texts that may be missing.
abbrev option_text_eq : Option Text → Option Text → Bool
option_text_eq none none = true
option_text_eq (some s) (some t) = text_eq s t
option_text_eq _ _ = false

module _ (lower : Text → Text) where
  abbrev lowered : Option Text → Option Text
  lowered none = none
  lowered (some flat) = some (lower flat)

  -- `_normalise_for_compare`
  unfoldable pub normalise_for_compare : Option Text → Option Text
  unfolding flatten_title
  normalise_for_compare value = lowered (flatten_title value)

module _ {F : Type 0} (fl : FloatOps F) (lower : Text → Text) where
  -- `_fuse`, on the flattened titles.
  unfoldable pub fuse_flat : Option Text → F → Option Text → F → Option Text × F
  unfolding normalise_for_compare
  fuse_flat none vision_conf none text_conf = (none, fl.pct 0)
  fuse_flat (some v) vision_conf none text_conf = (some v, vision_conf)
  fuse_flat none vision_conf (some t) text_conf = (some t, text_conf)
  fuse_flat (some v) vision_conf (some t) text_conf =
      if option_text_eq (normalise_for_compare lower (some v))
        (normalise_for_compare lower (some t))
      then (some v, max_float fl (max_float fl vision_conf text_conf) (fl.pct 90))
      else (some v, fl.mul (fl.halve (fl.add vision_conf text_conf)) (fl.pct 70))

  unfoldable pub fuse :
      (vision_title : Option Text) (vision_conf : F) (text_title : Option Text) (text_conf : F)
      → Option Text × F
  unfolding fuse_flat
  fuse vision_title vision_conf text_title text_conf =
      fuse_flat (flatten_title vision_title) vision_conf (flatten_title text_title) text_conf

-- What the sources call: the models' calls give the response's text, and `parse` is the parser's
-- call with the title schema.
pub record Sources (F : Type 0) : Type 0 where
  pub render_first_page : Outcome RenderedPage
  pub extract_text : Outcome Text
  pub generate_vision : (image_base64 : Text) → Outcome Text
  pub generate_text : (text : Text) → Outcome Text
  pub parse : Text → Outcome (Fields F)

-- The parts of the context that the extractor reads and fills.
pub record Context : Type 0 where
  pub rendered_pages : List RenderedPage
  pub extracted_text : Option Text

-- `_get_or_render_first_page`
unfoldable pub get_or_render_first_page :
    Outcome RenderedPage → Context → Outcome RenderedPage × Context
get_or_render_first_page rendered context =
    elim (find? (λ p. p.page_number == 0) context.rendered_pages) [
      | some page ↦ (returned page, context)
      | none ↦ elim rendered [
        | returned page ↦
            (returned page, record context { rendered_pages = context.rendered_pages ++ page ∷ [] })
        | raised e ↦ (raised e, context)
      ]
    ]

abbrev text_or_empty : Outcome Text → Text
text_or_empty (returned text) = text
text_or_empty (raised e) = []

abbrev text_of : Option Text → Outcome Text → Text
text_of none extracted = text_or_empty extracted
text_of (some text) extracted = text

-- The text that an extractor gets from the context, which keeps it.
unfoldable pub get_or_extract_text : Outcome Text → Context → Text × Context
get_or_extract_text extracted context =
    let text = text_of context.extracted_text extracted in
    (text, record context { extracted_text = some text })

abbrev pub type_error : Exception
type_error = record {
  type_name = "TypeError";
  message = codes "expected string or bytes-like object";
}

module _ {F : Type 0} where
  -- A title is a string or null; the substitution raises for any other value.
  unfoldable pub title_of : Option (Json F) → Outcome (Option Text)
  title_of none = returned none
  title_of (some null) = returned none
  title_of (some (str s)) = returned (some s)
  title_of (some v) = raised type_error

module _ {F : Type 0} (fl : FloatOps F) (lower : Text → Text) (float_text : Text → Option F)
    (cs : Sources F) where
  -- What a source read from the response to a model's call; a call that raised reads nothing.
  unfoldable pub read_response : Outcome Text → Outcome (Option (Json F) × F)
  unfolding coerce_confidence
  read_response (raised e) = returned (none, fl.pct 0)
  read_response (returned text) = do
    parsed ← cs.parse text
    confidence ← coerce_confidence fl float_text (get "confidence" parsed)
    returned (get "title" parsed, confidence)

  -- `_from_vision`
  unfoldable pub from_vision : Context → Outcome (Option (Json F) × F) × Context
  unfolding get_or_render_first_page read_response
  from_vision context =
      let (page, context') = get_or_render_first_page cs.render_first_page context in
      (read_response (do p ← page; cs.generate_vision p.base64_jpeg), context')

  -- `_from_text`
  unfoldable pub from_text : Context → Outcome (Option (Json F) × F) × Context
  unfolding get_or_extract_text first_and_last read_response
  from_text context =
      let (text, context') = get_or_extract_text cs.extract_text context in
      let pages = first_and_last text in
      let read = read_response (cs.generate_text pages) in
      (if is_empty pages then returned (none, fl.pct 0) else read, context')

  -- `extract` once both sources are back.
  unfoldable pub result_of :
      (vision_title : Option Text) (vision_conf : F) (text_title : Option Text) (text_conf : F)
      → ExtractionResult F
  unfolding fuse
  result_of vision_title vision_conf text_title text_conf =
      let (title, confidence) = fuse fl lower vision_title vision_conf text_title text_conf in
      record {
        drawing_number = none;
        drawing_number_confidence = fl.pct 0;
        title = title;
        title_confidence = confidence;
        document_type = none;
        document_type_confidence = fl.pct 0;
        discipline = none;
        revision = none;
        building_zone = none;
        project = none;
        sources_used = source "vision" vision_title (source "text" text_title []);
        raw_vision_response = none;
        raw_text_response = none;
        confidence_score = none;
        confidence_tier = none;
      }
    where
      source : String → Option Text → List String → List String
      source name none rest = rest
      source name (some t) rest = name ∷ rest

  -- `extract`: the two tasks touch different parts of the context, so their order does not matter.
  unfoldable pub extract : Context → Outcome (ExtractionResult F) × Context
  unfolding from_vision from_text title_of result_of
  extract context =
      let (vision, context') = from_vision context in
      let (text, context'') = from_text context' in
      (
        do
          (v, vision_conf) ← vision
          (t, text_conf) ← text
          vision_title ← title_of v
          text_title ← title_of t
          returned (result_of vision_title vision_conf text_title text_conf),
        context'',
      )
