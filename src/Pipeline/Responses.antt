-- ===== src/Pipeline/Responses.antt =====
-- domain/pipeline/json_parser.py: what a model's response is read as. `loads` is json.loads, `repair`
-- json_repair.repair_json and `pairs` the matches of the key-value pattern; `unescape` decodes the
-- escapes of a quoted value, `lower` is `str.lower` and `float_text` is `float(s)` of a text.
pub mod Schema
use dev_zu_smart_ingest.Prelude.{
  String, ℕ, ◌-◌, Option, none, some, List, [], ◌∷◌, ◌++◌, Bool, true, false, not, ◌&&◌, ◌||◌, ◌==◌,
  leb, length, take, drop, if◌then◌else◌,
}
use dev_zu_smart_ingest.Prelude.Outcome.{Exception, Outcome, returned, raised, ◌>>=◌}
use dev_zu_smart_ingest.Text.{
  Text, codes, is_empty, starts_with, ends_with, contains, strip, text_eq,
}
use dev_zu_smart_ingest.Text.Number.{parse_int}
use dev_zu_smart_ingest.Domain.Json.{
  Json, null, bool, int, float, str, arr, obj, Fields, end, field, get, put,
}

-- What json.loads gives: a value, a `ValueError`, or another exception, such as a `RecursionError`.
pub data Loaded (F : Type 0) : Type 0 where
  decoded : Json F → Loaded F
  value_error : Loaded F
  other_error : Exception → Loaded F

abbrev is_letter : ℕ → Bool
is_letter c = (leb b'a' c && leb c b'z') || (leb b'A' c && leb c b'Z')

skip_letters : Text → Text
skip_letters [] = []
skip_letters (c ∷ s) = let rest = skip_letters s in if is_letter c then rest else c ∷ s

abbrev skip_line_break : Text → Text
skip_line_break [] = []
skip_line_break (c ∷ s) = if c == 10 then s else c ∷ s

abbrev fence : Text
fence = codes "```"

-- The opening fence with its language tag, and the closing one.
abbrev without_opening : Text → Text
without_opening s = skip_line_break (skip_letters (drop 3 s))

without_closing : Text → Text
without_closing s =
    if ends_with s (10 ∷ fence)
    then take (length s - 4) s
    else if ends_with s fence
    then take (length s - 3) s
    else s

-- `_strip_code_fences`
unfoldable pub strip_code_fences : Text → Text
unfolding skip_letters without_closing
strip_code_fences text =
    let s = strip text in
    strip (if starts_with s fence then without_closing (without_opening s) else s)

-- The text from its first opening brace on, and a text up to its last closing brace.
from_first_brace : Text → Text
from_first_brace [] = []
from_first_brace (c ∷ s) = let rest = from_first_brace s in if c == b'{' then c ∷ s else rest

up_to_last_brace : Text → Option Text
up_to_last_brace [] = none
up_to_last_brace (c ∷ s) = elim (up_to_last_brace s) [
  | some t ↦ some (c ∷ t)
  | none ↦ if c == b'}' then some (c ∷ []) else none
]

-- `_slice_outer_braces`
unfoldable pub slice_outer_braces : Text → Option Text
unfolding from_first_brace up_to_last_brace
slice_outer_braces text = up_to_last_brace (from_first_brace text)

-- `raw[1:-1]`
abbrev inner : Text → Text
inner raw = take (length raw - 2) (drop 1 raw)

abbrev is_quoted : Text → Bool
is_quoted raw =
    (starts_with raw (b'"' ∷ []) && ends_with raw (b'"' ∷ []))
    || (starts_with raw (39 ∷ []) && ends_with raw (39 ∷ []))

module _ {F : Type 0} (loads : Text → Loaded F) (repair : Text → Outcome Text)
    (pairs : Text → List (String × Text)) (unescape : Text → Outcome Text) (lower : Text → Text)
    (float_text : Text → Option F) where
  -- The number that a text names, or the text.
  number_of : Text → Json F
  number_of raw =
      let floating : Json F = elim (float_text raw) [ some x ↦ float x | none ↦ str raw ] in
      let integral : Json F = elim (parse_int raw) [ some n ↦ int n | none ↦ str raw ] in
      if contains raw (b'.' ∷ []) then floating else integral

  -- `_coerce_kv_value`
  unfoldable pub coerce_kv_value : Text → Outcome (Json F)
  unfolding number_of
  coerce_kv_value value =
      let raw = strip value in
      let quoted : Outcome (Json F) = (do s ← unescape (inner raw); returned (str s)) in
      let number = number_of raw in
      if text_eq (lower raw) (codes "null")
      then returned null
      else if text_eq (lower raw) (codes "true")
      then returned (bool true)
      else if text_eq (lower raw) (codes "false")
      then returned (bool false)
      else if is_quoted raw
      then quoted
      else returned number

  -- The loop of `_regex_extract` over the matches.
  unfoldable pub collect_pairs : List (String × Text) → Fields F → Outcome (Fields F)
  unfolding coerce_kv_value
  collect_pairs [] out = returned out
  collect_pairs ((key, value) ∷ rest) out = do
    v ← coerce_kv_value value
    collect_pairs rest (put key v out)

  abbrev fields_of : Loaded F → Outcome (Option (Fields F))
  fields_of (decoded (obj d)) = returned (some d)
  fields_of (decoded _) = returned none
  fields_of value_error = returned none
  fields_of (other_error e) = raised e

  -- `_attempt_strict_json`
  unfoldable pub attempt_strict_json : Text → Outcome (Option (Fields F))
  attempt_strict_json text = fields_of (loads text)

  abbrev reparsed : Outcome Text → Outcome (Option (Fields F))
  reparsed (raised e) = returned none
  reparsed (returned []) = returned none
  reparsed (returned (c ∷ s)) = attempt_strict_json (c ∷ s)

  -- `_attempt_repair_json`
  unfoldable pub attempt_repair_json : Text → Outcome (Option (Fields F))
  unfolding attempt_strict_json
  attempt_repair_json text = reparsed (repair text)

  abbrev pub or_try :
      Outcome (Option (Fields F)) → Outcome (Option (Fields F)) → Outcome (Option (Fields F))
  or_try (raised e) next = raised e
  or_try (returned (some d)) next = returned (some d)
  or_try (returned none) next = next

  -- The strategies on the slice between the outer braces, if there is one.
  abbrev sliced : Option Text → Outcome (Option (Fields F))
  sliced none = returned none
  sliced (some s) = or_try (attempt_strict_json s) (attempt_repair_json s)

  abbrev or_regex : Text → Outcome (Option (Fields F)) → Outcome (Fields F)
  or_regex cleaned (raised e) = raised e
  or_regex cleaned (returned (some d)) = returned d
  or_regex cleaned (returned none) = collect_pairs (pairs cleaned) end

  -- The strategies in their order.
  unfoldable pub parse_cleaned : Text → Outcome (Fields F)
  unfolding attempt_strict_json attempt_repair_json collect_pairs slice_outer_braces
  parse_cleaned cleaned = or_regex cleaned (
      or_try (attempt_strict_json cleaned)
        (or_try (sliced (slice_outer_braces cleaned)) (attempt_repair_json cleaned)))

module _ {F : Type 0} where
  -- `out[key] = value` for every item of the parsed dict.
  unfoldable pub put_all : (parsed out : Fields F) → Fields F
  put_all end out = out
  put_all (field key v rest) out = put_all rest (put key v out)

  -- `_apply_schema`
  unfoldable pub apply_schema : (parsed schema : Option (Fields F)) → Fields F
  unfolding put_all
  apply_schema none none = end
  apply_schema (some parsed) none = parsed
  apply_schema none (some schema) = schema
  apply_schema (some parsed) (some schema) = put_all parsed schema

module _ {F : Type 0} (loads : Text → Loaded F) (repair : Text → Outcome Text)
    (pairs : Text → List (String × Text)) (unescape : Text → Outcome Text) (lower : Text → Text)
    (float_text : Text → Option F) where
  -- `_parse_sync`
  unfoldable pub parse_sync : Option Text → (schema : Option (Fields F)) → Outcome (Fields F)
  unfolding strip_code_fences parse_cleaned apply_schema
  parse_sync none schema = returned (apply_schema none schema)
  parse_sync (some text) schema =
      let cleaned = strip_code_fences text in
      let read : Outcome (Fields F) = (do
        parsed ← parse_cleaned loads repair pairs unescape lower float_text cleaned
        returned (apply_schema (some parsed) schema)) in
      if is_empty cleaned then returned (apply_schema none schema) else read
