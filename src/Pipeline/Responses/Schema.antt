-- ===== src/Pipeline/Responses/Schema.antt =====
-- A response is always read as a dict with every key of the schema.
use dev_zu_smart_ingest.Prelude.{
  String, Option, none, some, List, [], ◌∷◌, ◌≡◌, ◌≢◌, refl, ◌∙◌, Bool, true, false, str_eq,
  Bool-cases, inl, inr, if◌then◌else◌,
}
use dev_zu_smart_ingest.Prelude.Outcome.{Exception, Outcome, returned, raised, ◌>>=◌}
use dev_zu_smart_ingest.Text.{Text, codes, is_empty, strip, text_eq}
use dev_zu_smart_ingest.Domain.Json.{Json, obj, Fields, end, field, get, put, get-put, null, bool}
use dev_zu_smart_ingest.Pipeline.Responses.{
  Loaded, decoded, value_error, other_error, coerce_kv_value, collect_pairs, attempt_strict_json,
  attempt_repair_json, or_try, parse_cleaned, put_all, apply_schema, parse_sync, strip_code_fences,
  fields_of, reparsed, sliced, or_regex, slice_outer_braces, is_quoted, inner,
}

abbrev Returns {ℓ} : {A : Type ℓ} → Outcome A → Type 0
Returns (returned a) = Unit
Returns (raised e) = ⊥

Returns→value {ℓ} : {A : Type ℓ} (o : Outcome A) → Returns o → (a : A) × (o ≡ returned a)
Returns→value (returned a) h = (a, refl)
Returns→value (raised e) h = elim h [ ]

>>=-Returns {ℓ κ} :
    {A : Type ℓ} {B : Type κ} (o : Outcome A) (f : A → Outcome B)
    → Returns o
    → ((a : A) → Returns (f a))
    → Returns (o >>= f)
>>=-Returns (returned a) f h k = k a
>>=-Returns (raised e) f h k = elim h [ ]

module _ {F : Type 0} where
  -- Writing into a dict keeps its keys.
  put_all-keeps :
      (parsed out : Fields F) (key : String) (v : Json F)
      → get key out ≡ some v
      → (w : Json F) × (get key (put_all parsed out) ≡ some w)
  unfolding put_all
  put_all-keeps end out key v h = (v, h)
  put_all-keeps (field k u rest) out key v h = elim (Bool-cases (str_eq k key)) [
    | inl same ↦ put_all-keeps rest (put k u out) key u (get-put k key u out ∙ rw same refl)
    | inr other ↦ put_all-keeps rest (put k u out) key v (get-put k key u out ∙ rw other h)
  ]

  apply_schema-keeps :
      (parsed : Option (Fields F)) (schema : Fields F) (key : String) (v : Json F)
      → get key schema ≡ some v
      → (w : Json F) × (get key (apply_schema parsed (some schema)) ≡ some w)
  unfolding apply_schema
  apply_schema-keeps none schema key v h = (v, h)
  apply_schema-keeps (some parsed) schema key v h = put_all-keeps parsed schema key v h

module _ {F : Type 0} (loads : Text → Loaded F) (repair : Text → Outcome Text)
    (pairs : Text → List (String × Text)) (unescape : Text → Outcome Text) (lower : Text → Text)
    (float_text : Text → Option F)
    (loads_quiet : (text : Text) (e : Exception) → loads text ≢ other_error e)
    (unescape_quiet : (text : Text) → (s : Text) × (unescape text ≡ returned s)) where
  strict-Returns :
      (text : Text)
      → Returns (attempt_strict_json loads repair pairs unescape lower float_text text)
  unfolding attempt_strict_json
  strict-Returns text = go (loads text) refl
    where
      go :
          (l : Loaded F)
          → loads text ≡ l
          → Returns (fields_of loads repair pairs unescape lower float_text l)
      go (decoded (obj d)) k = tt
      go (decoded v) k = tt
      go value_error k = tt
      go (other_error e) k = absurd (loads_quiet text e k)

  repaired-Returns :
      (o : Outcome Text) → Returns (reparsed loads repair pairs unescape lower float_text o)
  repaired-Returns (raised e) = tt
  repaired-Returns (returned []) = tt
  repaired-Returns (returned (c ∷ s)) = strict-Returns (c ∷ s)

  repair-Returns :
      (text : Text)
      → Returns (attempt_repair_json loads repair pairs unescape lower float_text text)
  unfolding attempt_repair_json
  repair-Returns text = repaired-Returns (repair text)

  or_try-Returns :
      (first second : Outcome (Option (Fields F)))
      → Returns first
      → Returns second
      → Returns (or_try loads repair pairs unescape lower float_text first second)
  or_try-Returns (returned (some d)) second h k = tt
  or_try-Returns (returned none) second h k = k
  or_try-Returns (raised e) second h k = elim h [ ]

  sliced-Returns :
      (slice : Option Text) → Returns (sliced loads repair pairs unescape lower float_text slice)
  sliced-Returns none = tt
  sliced-Returns (some s) =
      or_try-Returns (attempt_strict_json loads repair pairs unescape lower float_text s)
        (attempt_repair_json loads repair pairs unescape lower float_text s) (strict-Returns s)
        (repair-Returns s)

  coerce_kv_value-Returns :
      (value : Text) → Returns (coerce_kv_value loads repair pairs unescape lower float_text value)
  unfolding coerce_kv_value
  coerce_kv_value-Returns value =
      let raw = strip value in
      let (s, plain) = unescape_quiet (inner raw) in
      choose (text_eq (lower raw) (codes "null")) (text_eq (lower raw) (codes "true"))
        (text_eq (lower raw) (codes "false")) (is_quoted raw) _ _ (rw plain tt)
    where
      choose :
          (a b c d : Bool) (quoted : Outcome (Json F)) (number : Json F)
          → Returns quoted
          → Returns (
              if a
              then returned null
              else if b
              then returned (bool true)
              else if c
              then returned (bool false)
              else if d
              then quoted
              else returned number)
      choose true b c d quoted number h = tt
      choose false true c d quoted number h = tt
      choose false false true d quoted number h = tt
      choose false false false true quoted number h = h
      choose false false false false quoted number h = tt

  collect_pairs-Returns :
      (matches : List (String × Text)) (out : Fields F)
      → Returns (collect_pairs loads repair pairs unescape lower float_text matches out)
  unfolding collect_pairs
  collect_pairs-Returns [] out = tt
  collect_pairs-Returns ((key, value) ∷ rest) out =
      >>=-Returns (coerce_kv_value loads repair pairs unescape lower float_text value) _
        (coerce_kv_value-Returns value) (λ v. collect_pairs-Returns rest (put key v out))

  or_regex-Returns :
      (cleaned : Text) (o : Outcome (Option (Fields F)))
      → Returns o
      → Returns (or_regex loads repair pairs unescape lower float_text cleaned o)
  or_regex-Returns cleaned (returned (some d)) h = tt
  or_regex-Returns cleaned (returned none) h = collect_pairs-Returns (pairs cleaned) end
  or_regex-Returns cleaned (raised e) h = elim h [ ]

  parse_cleaned-Returns :
      (cleaned : Text)
      → Returns (parse_cleaned loads repair pairs unescape lower float_text cleaned)
  unfolding parse_cleaned
  parse_cleaned-Returns cleaned =
      let slice = slice_outer_braces cleaned in
      or_regex-Returns cleaned _ (
        or_try-Returns (attempt_strict_json loads repair pairs unescape lower float_text cleaned) _
          (strict-Returns cleaned)
          (or_try-Returns (sliced loads repair pairs unescape lower float_text slice)
            (attempt_repair_json loads repair pairs unescape lower float_text cleaned)
            (sliced-Returns slice) (repair-Returns cleaned)))

  -- If json.loads fails with a ValueError only and the escapes can be decoded, any response, a
  -- missing one too, is read as a dict, and every key of the expected schema is in it.
  pub parse_sync-fills :
      (text : Option Text) (schema : Fields F) (key : String) (default : Json F)
      → get key schema ≡ some default
      → (result : Fields F) × (v : Json F) × (parse_sync loads repair pairs unescape lower
            float_text text
            (some schema)
          ≡ returned result)
        × (get key result ≡ some v)
  unfolding parse_sync
  parse_sync-fills none schema key default h =
      let (v, e) = apply_schema-keeps none schema key default h in (_, v, refl, e)
  parse_sync-fills (some text) schema key default h =
      elim (Bool-cases (is_empty (strip_code_fences text))) [
        | inl blank ↦
            let (v, e) = apply_schema-keeps none schema key default h in
            (apply_schema none (some schema), v, rw blank refl, e)
        | inr content ↦
            let (parsed, read) =
              Returns→value
                (parse_cleaned loads repair pairs unescape lower float_text
                  (strip_code_fences text))
                (parse_cleaned-Returns (strip_code_fences text)) in
            let (v, e) = apply_schema-keeps (some parsed) schema key default h in
            (apply_schema (some parsed) (some schema), v, rw (content, read) refl, e)
      ]
