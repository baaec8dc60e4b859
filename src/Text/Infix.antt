-- ===== src/Text/Infix.antt =====
-- Texts that occur in others.
use mathlib.Core.List.{append_assoc, append-nil}
use dev_zu_smart_ingest.Prelude.{
  ℕ, ◌≡◌, refl, sym, ap, subst, ◌∙◌, arith, ◌++◌, [], ◌∷◌, ◌&&◌, true, Bool-cases, inl, inr,
}
use dev_zu_smart_ingest.Text.{
  Text, starts_with, contains, is_space, is_empty, strip_left, strip_right, strip,
}

abbrev pub Infix : Text → Text → Type 0
Infix v t = (p : Text) × (q : Text) × (t ≡ p ++ (v ++ q))

pub Infix-here : (v q : Text) → Infix v (v ++ q)
Infix-here v q = ([], q, refl)

pub Infix-left : (s v t : Text) → Infix v t → Infix v (s ++ t)
Infix-left s v t (p, q, e) = (s ++ p, q, rw e (sym (append_assoc s p (v ++ q))))

pub Infix-right : (v s t : Text) → Infix v s → Infix v (s ++ t)
Infix-right v s t (p, q, e) =
    (p, q ++ t, rw e (append_assoc p (v ++ q) t ∙ ap (λ u. p ++ u) (append_assoc v q t)))

pub Infix-trans : (u v t : Text) → Infix u v → Infix v t → Infix u t
Infix-trans u v t i (p, q, e) = rw e (Infix-left p u (v ++ q) (Infix-right u v q i))

starts_with-append : (v q : Text) → starts_with (v ++ q) v ≡ true
unfolding starts_with
starts_with-append [] q = refl
starts_with-append (c ∷ v) q = ground (arith, starts_with-append v q)

contains-append : (p v q : Text) → contains (p ++ (v ++ q)) v ≡ true
unfolding contains
contains-append [] [] [] = refl
contains-append [] [] (d ∷ q) = ground (arith, starts_with-append [] (d ∷ q))
contains-append [] (c ∷ v) q = ground (arith, starts_with-append (c ∷ v) q)
contains-append (c ∷ p) v q = ground (arith, contains-append p v q)

-- `v in t` is true of what occurs in `t`.
pub contains-Infix : (v t : Text) → Infix v t → contains t v ≡ true
contains-Infix v t (p, q, e) = rw e (contains-append p v q)

pub Infix-self : (v : Text) → Infix v v
Infix-self v = ([], [], sym (append-nil v))

-- The rest of a text after one of its words: it ends there or goes on with white space.
abbrev pub StartsBlank : Text → Type 0
StartsBlank [] = Unit
StartsBlank (c ∷ s) = is_space c ≡ true

-- A text that occurs in another behind white space, and ends at its end or before white space.
abbrev pub Delimited : Text → Text → Type 0
Delimited v t =
    (p : Text) × (c : ℕ) × (q : Text) × (t ≡ p ++ (c ∷ (v ++ q)))
    × (is_space c ≡ true)
    × StartsBlank q

pub Delimited-left : (s v t : Text) → Delimited v t → Delimited v (s ++ t)
Delimited-left s v t (p, c, q, e, space, blank) =
    (s ++ p, c, q, rw e (sym (append_assoc s p (c ∷ (v ++ q)))), space, blank)

strip_right-prefix : (v : Text) → (q : Text) × (v ≡ strip_right v ++ q) × StartsBlank q
unfolding strip_right
strip_right-prefix [] = ([], refl, tt)
strip_right-prefix (c ∷ v) =
    let (q, e, blank) = strip_right-prefix v in
    elim (Bool-cases (is_empty (strip_right v) && is_space c)) [
      | inl cut ↦ rw cut (c ∷ v, refl, ground (arith, cut))
      | inr kept ↦ rw kept (q, ap (λ u. c ∷ u) e, blank)
    ]

-- What `str.lower` does at white space: it goes over the texts on both sides by themselves. Its one
-- rule that looks at other characters, for the final sigma, looks no further than that.
abbrev pub SplitsAtSpace : (Text → Text) → Type 0
SplitsAtSpace lower =
    (a b : Text) (c : ℕ) → is_space c ≡ true → lower (a ++ c ∷ b) ≡ lower a ++ c ∷ lower b

module _ (lower : Text → Text) (splits : SplitsAtSpace lower) where
  lower-after :
      (p : Text) (c : ℕ) (w : Text) → is_space c ≡ true → Infix (lower w) (lower (p ++ c ∷ w))
  lower-after p c w h = rw (splits p w c h) (
      Infix-left (lower p) (lower w) (c ∷ lower w)
        (Infix-left (c ∷ []) (lower w) (lower w) (Infix-self (lower w))))

  lower-before : (w q : Text) → StartsBlank q → Infix (lower w) (lower (w ++ q))
  lower-before w [] h = rw (append-nil w) (Infix-self (lower w))
  lower-before w (c ∷ q) h = rw (splits w q c h) (Infix-here (lower w) (c ∷ lower q))

  lower-strip_left : (v : Text) → Infix (lower (strip_left v)) (lower v)
  unfolding strip_left
  lower-strip_left [] = Infix-self (lower [])
  lower-strip_left (c ∷ v) = elim (Bool-cases (is_space c)) [
    | inl space ↦ rw space (
        Infix-trans (lower (strip_left v)) (lower v) (lower (c ∷ v)) (lower-strip_left v)
          (lower-after [] c v space))
    | inr other ↦ rw other (Infix-self (lower (c ∷ v)))
  ]

  lower-strip_right : (v : Text) → Infix (lower (strip_right v)) (lower v)
  lower-strip_right v =
      let (q, e, blank) = strip_right-prefix v in
      subst (λ t. Infix (lower (strip_right v)) (lower t)) (sym e)
        (lower-before (strip_right v) q blank)

  -- A delimited text occurs stripped and in lower case in the lower case of the whole.
  pub lower-Delimited : (v t : Text) → Delimited v t → Infix (lower (strip v)) (lower t)
  unfolding strip
  lower-Delimited v t (p, c, q, e, space, blank) =
      let left = strip_left v in
      rw e (
        Infix-trans (lower (strip_right left)) (lower left) (lower (p ++ c ∷ (v ++ q)))
          (lower-strip_right left)
          (Infix-trans (lower left) (lower v) (lower (p ++ c ∷ (v ++ q))) (lower-strip_left v) (
            Infix-trans (lower v) (lower (v ++ q)) (lower (p ++ c ∷ (v ++ q)))
              (lower-before v q blank) (lower-after p c (v ++ q) space))))
