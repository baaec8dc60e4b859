-- ===== src/Pipeline/Reported.antt =====
-- domain/pipeline/extractors: what the extractors of title and document type read from a parsed
-- response. `float_text` is `float(s)` of a text, `none` for its ValueError.
use dev_zu_smart_ingest.Prelude.{Option, none, some, true, false}
use dev_zu_smart_ingest.Prelude.Outcome.{Outcome, returned, ◌>>=◌}
use dev_zu_smart_ingest.Text.{Text}
use dev_zu_smart_ingest.Float.{FloatOps, clamp_unit}
use dev_zu_smart_ingest.Domain.Json.{Json, null, bool, int, float, str, arr, obj}

module _ {F : Type 0} (fl : FloatOps F) (float_text : Text → Option F) where
  abbrev clamped_or_zero : Option F → F
  clamped_or_zero none = fl.pct 0
  clamped_or_zero (some x) = clamp_unit fl x

  -- `_coerce_confidence`; what `float` raises for an `int` that is too large is not caught.
  unfoldable pub coerce_confidence : Option (Json F) → Outcome F
  unfolding clamp_unit
  coerce_confidence (some (int n)) = do x ← fl.of_int n; returned (clamp_unit fl x)
  coerce_confidence (some (float x)) = returned (clamp_unit fl x)
  coerce_confidence (some (bool true)) = returned (clamp_unit fl (fl.pct 100))
  coerce_confidence (some (bool false)) = returned (clamp_unit fl (fl.pct 0))
  coerce_confidence (some (str s)) = returned (clamped_or_zero (float_text s))
  coerce_confidence none = returned (fl.pct 0)
  coerce_confidence (some null) = returned (fl.pct 0)
  coerce_confidence (some (arr vs)) = returned (fl.pct 0)
  coerce_confidence (some (obj d)) = returned (fl.pct 0)
