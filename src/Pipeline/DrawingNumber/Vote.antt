-- ===== src/Pipeline/DrawingNumber/Vote.antt =====
-- The vote against its description: agreement, majority, priority.
use dev_zu_smart_ingest.Prelude.{
  Option, none, some, [], ◌∷◌, Bool, false, ◌≡◌, refl, arith, ◌&&◌, if◌then◌else◌,
}
use dev_zu_smart_ingest.Text.{Text, text_eq, text_eq→≡, text_eq_refl, or_none}
use dev_zu_smart_ingest.Float.{FloatOps}
use dev_zu_smart_ingest.Pipeline.DrawingNumber.{
  count_one, counter, most_common, normalise, fuse_normalised, fuse, confidence_all_agree,
  confidence_two_of_three, confidence_single_source, confidence_disagreement,
}

abbrev pub agree : Option Text → Option Text → Bool
agree (some s) (some t) = text_eq s t
agree _ _ = false

-- Not the empty text, which `_normalise` never gives.
abbrev pub IsNormal : Option Text → Type 0
IsNormal (some []) = ⊥
IsNormal _ = Unit

module _ {F : Type 0} (fl : FloatOps F) where
  -- Two sources that do not agree: neither, one, or both of them found something.
  abbrev pub by_priority : Option Text → Option Text → Option Text → Option Text × F
  by_priority none none none = (none, fl.pct 0)
  by_priority (some v) none none = (some v, confidence_single_source fl)
  by_priority none (some t) none = (some t, confidence_single_source fl)
  by_priority none none (some f) = (some f, confidence_single_source fl)
  by_priority (some v) _ _ = (some v, confidence_disagreement fl)
  by_priority none (some t) _ = (some t, confidence_disagreement fl)

  abbrev pub vote : Option Text → Option Text → Option Text → Option Text × F
  vote v t f =
      if agree v t && agree t f
      then (v, confidence_all_agree fl)
      else if agree v t
      then (v, confidence_two_of_three fl)
      else if agree v f
      then (v, confidence_two_of_three fl)
      else if agree t f
      then (t, confidence_two_of_three fl)
      else by_priority v t f

  fuse_normalised-vote :
      (v t f : Option Text)
      → IsNormal v
      → IsNormal t
      → IsNormal f
      → fuse_normalised fl v t f ≡ vote v t f
  unfolding fuse_normalised counter count_one most_common
  fuse_normalised-vote none none none nv nt nf = refl
  fuse_normalised-vote (some v) none none nv nt nf = ground arith
  fuse_normalised-vote none (some t) none nv nt nf = ground arith
  fuse_normalised-vote none none (some f) nv nt nf = ground arith
  fuse_normalised-vote (some v) (some t) none nv nt nf =
      ground (arith, nv, text_eq→≡ v t, text_eq_refl v, text_eq_refl t, text_eq→≡ t v)
  fuse_normalised-vote (some v) none (some f) nv nt nf =
      ground (arith, nv, text_eq→≡ v f, text_eq_refl v, text_eq_refl f, text_eq→≡ f v)
  fuse_normalised-vote none (some t) (some f) nv nt nf =
      ground (arith, nt, text_eq→≡ t f, text_eq_refl t, text_eq_refl f, text_eq→≡ f t)
  fuse_normalised-vote (some v) (some t) (some f) nv nt nf = ground (
    arith,
    nv,
    text_eq→≡ v t,
    text_eq_refl v,
    text_eq_refl t,
    text_eq→≡ t v,
    text_eq→≡ v f,
    text_eq_refl v,
    text_eq_refl f,
    text_eq→≡ f v,
    text_eq→≡ t f,
    text_eq_refl t,
    text_eq_refl f,
    text_eq→≡ f t,
  )

  or_none-IsNormal : (s : Text) → IsNormal (or_none s)
  or_none-IsNormal [] = tt
  or_none-IsNormal (c ∷ s) = tt

  normalise-IsNormal : (upper : Text → Text) (s : Option Text) → IsNormal (normalise upper s)
  unfolding normalise
  normalise-IsNormal upper none = tt
  normalise-IsNormal upper (some s) = or_none-IsNormal _

  -- The count of the normalised values decides like the rule that it stands for: three sources that
  -- agree give their value at 0.95; two that agree give theirs at 0.75; a single source gives its
  -- value at 0.50; several that all differ give the first of vision, text and filename at 0.30; no
  -- source gives nothing at 0.
  pub fuse-vote :
      (upper : Text → Text) (vision text filename : Option Text)
      → fuse fl upper vision text filename
        ≡ vote (normalise upper vision) (normalise upper text) (normalise upper filename)
  unfolding fuse
  fuse-vote upper vision text filename =
      fuse_normalised-vote _ _ _ (normalise-IsNormal upper vision) (normalise-IsNormal upper text)
        (normalise-IsNormal upper filename)
