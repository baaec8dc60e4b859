-- ===== src/Examples/Described.antt =====
-- The properties of the companion, the titles and the responses, at concrete inputs.
use dev_zu_smart_ingest.Prelude.{
  String, arith, ◌≤◌, ◌↔◌, ◌≡◌, refl, Option, none, some, List, [], ◌∷◌, true, false, length, All,
}
use dev_zu_smart_ingest.Prelude.Outcome.{Outcome, returned, raised}
use dev_zu_smart_ingest.Text.{Text, codes, strip}
use dev_zu_smart_ingest.Float.{InUnit}
use dev_zu_smart_ingest.Float.Fixed.{Fixed, fixed_ops, fixed_laws}
use dev_zu_smart_ingest.Domain.Json.{Json, null, str, Fields, end, field, get}
use dev_zu_smart_ingest.Domain.Pages.{PdfData, RenderedPage}
use dev_zu_smart_ingest.Pipeline.Validation.{validate, field_specs}
use dev_zu_smart_ingest.Pipeline.Companion.{Collaborators, generate}
use dev_zu_smart_ingest.Pipeline.Companion.Coverage.{IsNamed, generate-validates}
use dev_zu_smart_ingest.Pipeline.Title.{flatten_title, fuse}
use dev_zu_smart_ingest.Pipeline.Title.Fusion.{Judged, fuse-Judged}
use dev_zu_smart_ingest.Pipeline.Responses.{Loaded, value_error, parse_sync}
use dev_zu_smart_ingest.Pipeline.Responses.Schema.{parse_sync-fills}
use dev_zu_smart_ingest.Examples.Samples.{percent, floor_plan}

abbrev page : RenderedPage
page = record {
  page_number = 0;
  jpeg_bytes = [];
  base64_jpeg = codes "aGk=";
  width_px = 10;
  height_px = 10;
  dpi = 150;
  render_time_ms = 1;
}

abbrev pdf : PdfData Fixed
pdf = record {
  page_count = 1;
  file_hash = "abc";
  metadata = end;
  is_encrypted = false;
  has_text_layer = true;
}

abbrev describers : Collaborators Fixed
describers = record {
  render_pages = λ pages. returned (page ∷ []);
  extract_page_texts = none;
  extract_page_text = λ n. returned [];
  generate_vision = λ model image. returned (codes "{}");
  parse = λ text. returned (field "visual_description" (str (codes "A plan")) end);
  py_str = λ v. codes "0";
}

abbrev unchanged : Text → Text
unchanged s = s

generate-validates_example :
    let companion_text = (generate none describers (some pdf) none floor_plan).companion_text in
    ((validate fixed_ops unchanged 50 companion_text floor_plan).passed ≡ true) ↔ (
      (50 ≤ length companion_text)
      × All (IsNamed fixed_ops unchanged 50) (field_specs fixed_ops unchanged 50 floor_plan))
unfolding generate get strip
generate-validates_example =
    generate-validates fixed_ops unchanged 50 none describers (λ a b c h. refl) (some pdf) none
      floor_plan refl

fuse-Judged_example :
    let fused =
      fuse fixed_ops unchanged
        (some (codes "PLAN A"))
        (percent 60)
        (some (codes "PLAN  A"))
        (percent 70) in
    InUnit fixed_ops fused.1
    × Judged fixed_ops fixed_laws unchanged
        (flatten_title (some (codes "PLAN A")))
        (percent 60)
        (flatten_title (some (codes "PLAN  A")))
        (percent 70)
        fused
fuse-Judged_example =
    fuse-Judged fixed_ops fixed_laws unchanged (some (codes "PLAN A")) (some (codes "PLAN  A"))
      (percent 60) (percent 70) (refl, refl) (refl, refl)

abbrev loads : Text → Loaded Fixed
loads text = value_error

abbrev repair : Text → Outcome Text
repair text = raised (record { type_name = "ValueError"; message = [] })

abbrev pairs : Text → List (String × Text)
pairs text = ("title", codes "null") ∷ []

abbrev float_text : Text → Option Fixed
float_text text = none

abbrev schema : Fields Fixed
schema = field "confidence" null end

parse_sync-fills_example :
    (result : Fields Fixed) × (v : Json Fixed) × (parse_sync loads repair pairs returned unchanged
        float_text
        (some (codes "title: null"))
        (some schema)
      ≡ returned result)
    × (get "confidence" result ≡ some v)
unfolding get
parse_sync-fills_example =
    parse_sync-fills loads repair pairs returned unchanged float_text
      (λ text e h. absurd (ground arith)) (λ text. (text, refl)) (some (codes "title: null")) schema
      "confidence" null refl
