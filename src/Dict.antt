-- ===== src/Dict.antt =====
-- A Python `dict` with text keys: its items in insertion order.
use dev_zu_smart_ingest.Prelude.{
  String, Option, none, some, List, [], ◌∷◌, ◌≡◌, refl, arith, str_eq, eq_iff, if◌then◌else◌,
}

module _ {ℓ} {V : Type ℓ} where
  -- `d.get(key)`
  unfoldable pub get : String → List (String × V) → Option V
  get key [] = none
  get key ((k, v) ∷ d) = let rest = get key d in if str_eq k key then some v else rest

  -- `d[key] = value`: a key that is there keeps its place.
  unfoldable pub put : String → V → List (String × V) → List (String × V)
  put key v [] = (key, v) ∷ []
  put key v ((k, w) ∷ d) =
      let rest = put key v d in if str_eq k key then (k, v) ∷ d else (k, w) ∷ rest

  pub get-put :
      (key j : String) (v : V) (d : List (String × V))
      → get j (put key v d) ≡ (if str_eq key j then some v else get j d)
  unfolding get put
  get-put key j v [] = refl
  get-put key j v ((k, w) ∷ d) =
      ground (arith, eq_iff k key, eq_iff k j, eq_iff key j, get-put key j v d)

  abbrev pub or_else : Option V → Option V → Option V
  or_else none o = o
  or_else (some v) o = some v

  -- The value that the last of several writes of a key leaves.
  abbrev pub last_of : String → List (String × V) → Option V
  last_of key [] = none
  last_of key ((k, v) ∷ d) = or_else (last_of key d) (if str_eq k key then some v else none)
