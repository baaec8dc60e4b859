-- ===== src/Examples/Sorting.antt =====
-- An engine that orders rows by insertion, which keeps what SQL promises.
use mathlib.Core.List.{Perm}
use mathlib.Core.List.Perm
use dev_zu_smart_ingest.Prelude.{
  ℕ, ◌≤◌, arith, List, [], ◌∷◌, leb, if◌then◌else◌, Bool-cases, inl, inr,
}
use dev_zu_smart_ingest.Float.Fixed.{Fixed}
use dev_zu_smart_ingest.Repository.Queries.{Engine}
use dev_zu_smart_ingest.Repository.Pending.{EngineLaws, IsAtMost, IsDescending}

module _ {A : Type 0} (key : A → ℕ) where
  abbrev pub insert : A → List A → List A
  insert x [] = x ∷ []
  insert x (y ∷ ys) = let rest = insert x ys in if leb (key y) (key x) then x ∷ y ∷ ys else y ∷ rest

  abbrev pub sort : List A → List A
  sort [] = []
  sort (x ∷ xs) = insert x (sort xs)

  insert-IsAtMost :
      (n : ℕ) (x : A) (ys : List A) → key x ≤ n → IsAtMost key n ys → IsAtMost key n (insert x ys)
  insert-IsAtMost n x [] h k = h
  insert-IsAtMost n x (y ∷ ys) h k = ground (arith, h, k)

  insert-IsDescending : (x : A) (ys : List A) → IsDescending key ys → IsDescending key (insert x ys)
  insert-IsDescending x [] h = (tt, tt)
  insert-IsDescending x (y ∷ ys) (h, hs) = elim (Bool-cases (leb (key y) (key x))) [
    | inl above ↦ rw above (ground (arith, above), (h, hs))
    | inr below ↦
        rw below
          (insert-IsAtMost (key y) x ys (ground (arith, below)) h, insert-IsDescending x ys hs)
  ]

  sort-IsDescending : (xs : List A) → IsDescending key (sort xs)
  sort-IsDescending [] = tt
  sort-IsDescending (x ∷ xs) = insert-IsDescending x (sort xs) (sort-IsDescending xs)

  insert-Perm : (x : A) (ys : List A) → Perm (insert x ys) (x ∷ ys)
  insert-Perm x [] = Perm.refl _
  insert-Perm x (y ∷ ys) = elim (Bool-cases (leb (key y) (key x))) [
    | inl above ↦ rw above (Perm.refl (x ∷ y ∷ ys))
    | inr below ↦ rw below (Perm.trans (Perm.cons y (insert-Perm x ys)) (Perm.swap x y ys))
  ]

  sort-Perm : (xs : List A) → Perm (sort xs) xs
  sort-Perm [] = Perm.refl _
  sort-Perm (x ∷ xs) = Perm.trans (insert-Perm x (sort xs)) (Perm.cons x (sort-Perm xs))

abbrev pub sorting_engine : Engine Fixed
sorting_engine = record { unordered = λ rows. rows; descending = sort; numeric = λ x. x }

pub sorting_laws : EngineLaws sorting_engine
sorting_laws = record {
  unordered_perm = λ rows. Perm.refl rows;
  descending_perm = sort-Perm;
  descending_order = sort-IsDescending;
}
