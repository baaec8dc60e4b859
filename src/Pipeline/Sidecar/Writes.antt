-- ===== src/Pipeline/Sidecar/Writes.antt =====
-- The writes to the dict of a sidecar: how many there are, what they leave at a key, and that they
-- keep the schema.
use dev_zu_smart_ingest.Prelude.{
  String, ℕ, zero, suc, ◌+◌, ◌≤◌, Option, none, some, List, [], ◌∷◌, Bool, true, false, ◌≡◌, refl,
  arith, length, all, eq_iff,
}
use dev_zu_smart_ingest.Text.{Text, is_empty, strip, or_none}
use dev_zu_smart_ingest.Float.{FloatOps}
use dev_zu_smart_ingest.Dict
use dev_zu_smart_ingest.Domain.Entities.{ExtractionResult, Attribute}
use dev_zu_smart_ingest.Pipeline.Sidecar.{
  non_empty_string, unit_number, sidecar_json_schema, obeys_property, has_key, conforms, raw_values,
  normalized, include, collect, merge_loop,
}

module _ {F : Type 0} (fl : FloatOps F) where
  -- The dict after the writes of a list, none of them dropped.
  abbrev pub put_all :
      List (String × Attribute F) → List (String × Attribute F) → List (String × Attribute F)
  put_all [] d = d
  put_all ((key, value) ∷ rest) d = put_all rest (Dict.put key value d)

  pub merge_loop-put_all :
      (budget : ℕ) (d : List (String × Attribute F)) (rest : List (String × Attribute F))
      → length rest ≤ budget
      → merge_loop fl budget d rest ≡ (put_all rest d, [])
  unfolding merge_loop
  merge_loop-put_all budget d [] h = refl
  merge_loop-put_all zero d ((key, value) ∷ rest) h = absurd (omega (arith, h))
  merge_loop-put_all (suc budget) d ((key, value) ∷ rest) h =
      ground (arith, h, merge_loop-put_all budget (Dict.put key value d) rest)

  pub length-collect :
      (values : List (String × Option Text)) → length (collect fl values) ≤ length values
  unfolding collect
  length-collect [] = omega arith
  length-collect ((key, raw) ∷ values) = ground (arith, length-collect values)

  pub get-put_all :
      (j : String) (rest d : List (String × Attribute F))
      → Dict.get j (put_all rest d) ≡ Dict.or_else (Dict.last_of j rest) (Dict.get j d)
  get-put_all j [] d = refl
  get-put_all j ((key, value) ∷ rest) d =
      ground (arith, get-put_all j rest (Dict.put key value d), Dict.get-put key j value d)

  -- Each write obeys the rule of its key.
  abbrev AllObey : List (String × Attribute F) → Type 0
  AllObey writes = all (obeys_property fl sidecar_json_schema.properties) writes ≡ true

  -- The keys whose values are texts.
  abbrev is_text_key : String → Bool
  is_text_key key = elim (Dict.get key sidecar_json_schema.properties) [
    | none ↦ false
    | some non_empty_string ↦ true
    | some unit_number ↦ false
  ]

  is_text_key-get :
      (key : String)
      → is_text_key key ≡ true
      → Dict.get key sidecar_json_schema.properties ≡ some non_empty_string
  is_text_key-get key h = ground (arith, h)

  or_none-nonempty : (s t : Text) → or_none s ≡ some t → is_empty t ≡ false
  or_none-nonempty [] t h = cc
  or_none-nonempty (c ∷ s) t h = ground (arith, h)

  normalized-nonempty :
      (raw : Option Text) (t : Text) → normalized fl raw ≡ some t → is_empty t ≡ false
  unfolding normalized
  normalized-nonempty none t h = cc
  normalized-nonempty (some s) t h = or_none-nonempty (strip s) t h

  AllObey-include :
      (key : String) (value : Option Text) (rest : List (String × Attribute F))
      → Dict.get key sidecar_json_schema.properties ≡ some non_empty_string
      → ((t : Text) → value ≡ some t → is_empty t ≡ false)
      → AllObey rest
      → AllObey (include fl key value rest)
  AllObey-include key none rest k nonempty h = h
  AllObey-include key (some t) rest k nonempty h = ground (arith, k, h, nonempty t refl)

  pub AllObey-collect :
      (values : List (String × Option Text))
      → all (λ (key, raw). is_text_key key) values ≡ true
      → AllObey (collect fl values)
  unfolding collect
  AllObey-collect [] h = refl
  AllObey-collect ((key, raw) ∷ values) h =
      AllObey-include key (normalized fl raw) (collect fl values)
        (is_text_key-get key (ground (arith, h))) (normalized-nonempty raw)
        (AllObey-collect values (ground (arith, h)))

  pub is_text_key-raw_values :
      (e : ExtractionResult F) → all (λ (key, raw). is_text_key key) (raw_values fl e) ≡ true
  unfolding Dict.get
  is_text_key-raw_values e = refl

  has_key-put :
      (key : String) (value : Attribute F) (j : String) (d : List (String × Attribute F))
      → has_key fl d j ≡ true
      → has_key fl (Dict.put key value d) j ≡ true
  unfolding Dict.put
  has_key-put key value j [] h = cc
  has_key-put key value j ((k, w) ∷ d) h = ground (arith, h, has_key-put key value j d)

  AllObey-put :
      (key : String) (value : Attribute F) (d : List (String × Attribute F))
      → obeys_property fl sidecar_json_schema.properties (key, value) ≡ true
      → AllObey d
      → AllObey (Dict.put key value d)
  unfolding Dict.put
  AllObey-put key value [] k h = ground (arith, k)
  AllObey-put key value ((j, w) ∷ d) k h =
      ground (arith, k, h, eq_iff j key, AllObey-put key value d k)

  conforms-put :
      (key : String) (value : Attribute F) (d : List (String × Attribute F))
      → conforms fl sidecar_json_schema d ≡ true
      → obeys_property fl sidecar_json_schema.properties (key, value) ≡ true
      → conforms fl sidecar_json_schema (Dict.put key value d) ≡ true
  conforms-put key value d h k = ground (
    arith,
    h,
    k,
    has_key-put key value "source_filename" d,
    has_key-put key value "document_type" d,
    has_key-put key value "extraction_confidence" d,
    AllObey-put key value d k,
  )

  pub conforms-put_all :
      (rest d : List (String × Attribute F))
      → conforms fl sidecar_json_schema d ≡ true
      → AllObey rest
      → conforms fl sidecar_json_schema (put_all rest d) ≡ true
  conforms-put_all [] d h k = h
  conforms-put_all ((key, value) ∷ rest) d h k =
      conforms-put_all rest (Dict.put key value d) (conforms-put key value d h (ground (arith, k)))
        (ground (arith, k))

  length-put :
      (key : String) (value : Attribute F) (d : List (String × Attribute F))
      → length (Dict.put key value d) ≤ suc (length d)
  unfolding Dict.put
  length-put key value [] = omega arith
  length-put key value ((j, w) ∷ d) = ground (arith, length-put key value d)

  pub length-put_all :
      (rest d : List (String × Attribute F)) → length (put_all rest d) ≤ length rest + length d
  length-put_all [] d = omega arith
  length-put_all ((key, value) ∷ rest) d =
      omega (arith, length-put_all rest (Dict.put key value d), length-put key value d)
