-- ===== src/Domain/Json.antt =====
-- JSON values as the service stores and returns them: Python's `dict[str, Any]` of decoded JSON.
use dev_zu_smart_ingest.Prelude.{
  String, ℕ, Bool, Option, none, some, List, [], ◌∷◌, ◌≡◌, refl, arith, str_eq, eq_iff,
  if◌then◌else◌,
}
use dev_zu_smart_ingest.Prelude.Int.{ℤ, pos}
use dev_zu_smart_ingest.Text.{Text, codes}

mutual
  pub data Json (F : Type 0) : Type 0 where
    null : Json F
    bool : Bool → Json F
    int : ℤ → Json F
    float : F → Json F
    str : Text → Json F
    arr : Items F → Json F
    obj : Fields F → Json F

  pub data Items (F : Type 0) : Type 0 where
    nil : Items F
    cons : Json F → Items F → Items F

  pub data Fields (F : Type 0) : Type 0 where
    end : Fields F
    field : String → Json F → Fields F → Fields F

module _ {F : Type 0} where
  -- `d.get(key)`
  unfoldable pub get : String → Fields F → Option (Json F)
  get key end = none
  get key (field k v d) = let rest = get key d in if str_eq k key then some v else rest

  -- `d[key] = value`: a key that is there keeps its place.
  unfoldable pub put : String → Json F → Fields F → Fields F
  put key v end = field key v end
  put key v (field k w d) =
      let rest = put key v d in if str_eq k key then field k v d else field k w rest

  pub get-put :
      (key j : String) (v : Json F) (d : Fields F)
      → get j (put key v d) ≡ (if str_eq key j then some v else get j d)
  unfolding get put
  get-put key j v end = refl
  get-put key j v (field k w d) =
      ground (arith, eq_iff k key, eq_iff k j, eq_iff key j, get-put key j v d)

  abbrev pub items : Items F → List (Json F)
  items nil = []
  items (cons v vs) = v ∷ items vs

  -- `f(x) if x is not None else None` as JSON, and the JSON of a string and of a count.
  abbrev pub nullable {ℓ} : {A : Type ℓ} → (A → Json F) → Option A → Json F
  nullable f none = null
  nullable f (some a) = f a

  abbrev pub native : String → Json F
  native s = str (codes s)

  abbrev pub natural : ℕ → Json F
  natural n = int (pos n)
