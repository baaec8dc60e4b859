-- ===== src/Pipeline/DrawingNumber.antt =====
-- domain/pipeline/extractors/drawing_number.py: the vote of the three sources. `upper` is Python's
-- `str.upper`; what the sources found is the argument of `extract`.
pub mod Vote
mod Sources
use dev_zu_smart_ingest.Prelude.{
  String, ℕ, ◌+◌, Option, none, some, List, [], ◌∷◌, ◌++◌, Bool, true, false, leb, ltb, ◌==◌, ◌&&◌,
  length, if◌then◌else◌,
}
use dev_zu_smart_ingest.Text.{Text, text_eq, strip, or_none, split_words, join_words}
use dev_zu_smart_ingest.Float.{FloatOps}
use dev_zu_smart_ingest.Domain.Entities.{ExtractionResult}

-- `Counter(values)`, its keys in the order in which they came.
unfoldable pub count_one : Text → List (Text × ℕ) → List (Text × ℕ)
count_one v [] = (v, 1) ∷ []
count_one v ((w, n) ∷ counts) =
    let rest = count_one v counts in if text_eq v w then (w, n + 1) ∷ counts else (w, n) ∷ rest

unfoldable pub counter : List (Text × ℕ) → List Text → List (Text × ℕ)
unfolding count_one
counter counts [] = counts
counter counts (v ∷ values) = counter (count_one v counts) values

-- `counts.most_common(1)[0]`: the first of the greatest counts. `best` is the best so far.
unfoldable pub most_common : Text × ℕ → List (Text × ℕ) → Text × ℕ
most_common best [] = best
most_common (v, n) ((w, m) ∷ counts) =
    let replaced = most_common (w, m) counts in
    let kept = most_common (v, n) counts in if ltb n m then replaced else kept

abbrev pub candidates : Option Text → Option Text → Option Text → List Text
candidates v t f = present v (present t (present f []))
  where
    present : Option Text → List Text → List Text
    present none rest = rest
    present (some s) rest = s ∷ rest

abbrev pub or_first : Option Text → Option Text → Option Text
or_first none b = b
or_first (some []) b = b
or_first (some (c ∷ s)) b = some (c ∷ s)

module _ (upper : Text → Text) where
  -- `_normalise`
  unfoldable pub normalise : Option Text → Option Text
  normalise none = none
  normalise (some value) = or_none (upper (strip (join_words (split_words value))))

module _ {F : Type 0} (fl : FloatOps F) where
  abbrev pub confidence_all_agree : F
  confidence_all_agree = fl.pct 95

  abbrev pub confidence_two_of_three : F
  confidence_two_of_three = fl.pct 75

  abbrev pub confidence_single_source : F
  confidence_single_source = fl.pct 50

  abbrev pub confidence_disagreement : F
  confidence_disagreement = fl.pct 30

  -- `_fuse` after the values are normalised.
  unfoldable pub fuse_normalised : Option Text → Option Text → Option Text → Option Text × F
  unfolding counter most_common
  fuse_normalised vision text filename =
      let values = candidates vision text filename in
      elim values [
        | [] ↦ (none, fl.pct 0)
        | first ∷ rest ↦
            let (value, n) = most_common (first, 0) (counter [] (first ∷ rest)) in
            if length (first ∷ rest) == 3 && n == 3
            then (some value, confidence_all_agree)
            else if leb 2 n
            then (some value, confidence_two_of_three)
            else if length (first ∷ rest) == 1
            then (some first, confidence_single_source)
            else (or_first vision (or_first text filename), confidence_disagreement)
      ]

  unfoldable pub fuse :
      (upper : Text → Text) → (vision text filename : Option Text) → Option Text × F
  unfolding normalise fuse_normalised
  fuse upper vision text filename =
      fuse_normalised (normalise upper vision) (normalise upper text) (normalise upper filename)

  abbrev named_if : String → Option Text → List String → List String
  named_if source none rest = rest
  named_if source (some value) rest = source ∷ rest

  -- `extract`, on the values and the raw responses of the sources.
  unfoldable pub extract :
      (upper : Text → Text)
      → (vision text : Option Text × Text) → (filename : Option Text) → ExtractionResult F
  unfolding fuse
  extract upper vision text filename =
      let (chosen, confidence) = fuse upper vision.0 text.0 filename in
      record {
        drawing_number = chosen;
        drawing_number_confidence = confidence;
        title = none;
        title_confidence = fl.pct 0;
        document_type = none;
        document_type_confidence = fl.pct 0;
        discipline = none;
        revision = none;
        building_zone = none;
        project = none;
        sources_used =
            named_if "vision" vision.0 (named_if "text" text.0 (named_if "filename" filename []));
        raw_vision_response = or_none vision.1;
        raw_text_response = or_none text.1;
        confidence_score = none;
        confidence_tier = none;
      }
