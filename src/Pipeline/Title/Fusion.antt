-- ===== src/Pipeline/Title/Fusion.antt =====
-- What the fusion of the two titles promises.
use dev_zu_smart_ingest.Prelude.{
  ℕ, ◌≤◌, ◌≡◌, refl, arith, Option, none, some, true, false, if◌then◌else◌, Bool-cases, ◌⊎◌, inl,
  inr, ◌∙◌,
}
use dev_zu_smart_ingest.Text.{Text}
use dev_zu_smart_ingest.Float.{FloatOps, FloatLaws, InUnit, max_float}
use dev_zu_smart_ingest.Pipeline.Title.{
  flatten_title, normalise_for_compare, option_text_eq, fuse_flat, fuse,
}

module _ {F : Type 0} (fl : FloatOps F) (laws : FloatLaws fl) where
  -- The greater of two numbers is at least each of them, and one of them.
  max_float-lem :
      (a b : F)
      → InUnit fl a
      → InUnit fl b
      → InUnit fl (max_float fl a b)
        × (fl.le a (max_float fl a b) ≡ true)
        × (fl.le b (max_float fl a b) ≡ true)
  max_float-lem a b (a0, a1) (b0, b1) =
      let na = (laws.le_num (fl.pct 0) a a0).1 in
      let nb = (laws.le_num (fl.pct 0) b b0).1 in
      elim (Bool-cases (fl.lt a b)) [
        | inl less ↦ rw less ((b0, b1), laws.lt_le a b less, laws.le_refl b nb)
        | inr more ↦
            rw more ((a0, a1), laws.le_refl a na, ground (arith, laws.lt_total a b na nb, more))
      ]

module _ {F : Type 0} (fl : FloatOps F) (laws : FloatLaws fl) where
  pct-InUnit : (k : ℕ) → k ≤ 100 → InUnit fl (fl.pct k)
  pct-InUnit k h = (ground (arith, h, laws.pct_le 0 k), ground (arith, h, laws.pct_le k 100))

  max_float_one_of : (a b : F) → (max_float fl a b ≡ a) ⊎ (max_float fl a b ≡ b)
  max_float_one_of a b = ground arith

  -- The confidence of two titles that agree: the greatest of the two confidences and 0.9.
  abbrev pub IsGreatest : (a b c : F) → Type 0
  IsGreatest a b c =
      ((c ≡ a) ⊎ ((c ≡ b) ⊎ (c ≡ fl.pct 90)))
      × (fl.le (fl.pct 90) c ≡ true)
      × (fl.le a c ≡ true)
      × (fl.le b c ≡ true)

  agreed :
      (a b : F)
      → InUnit fl a
      → InUnit fl b
      → let c = max_float fl (max_float fl a b) (fl.pct 90) in InUnit fl c × IsGreatest a b c
  agreed a b ha hb =
      let (hm, am, bm) = max_float-lem fl laws a b ha hb in
      let (hc, mc, nc) =
        max_float-lem fl laws (max_float fl a b) (fl.pct 90) hm (pct-InUnit 90 (omega arith)) in
      (
        hc,
        (
          elim (max_float_one_of (max_float fl a b) (fl.pct 90)) [
            | inl m ↦ elim (max_float_one_of a b) [
              | inl e ↦ inl (m ∙ e)
              | inr e ↦ inr (inl (m ∙ e))
            ]
            | inr n ↦ inr (inr n)
          ],
          nc,
          laws.le_trans a (max_float fl a b) _ am mc,
          laws.le_trans b (max_float fl a b) _ bm mc,
        ),
      )

  averaged :
      (a b : F)
      → InUnit fl a
      → InUnit fl b
      → let c = fl.mul (fl.halve (fl.add a b)) (fl.pct 70) in
        InUnit fl c × (fl.le c (fl.pct 70) ≡ true)
  averaged a b (a0, a1) (b0, b1) =
      let (m0, m1) = laws.mean_unit a b a0 a1 b0 b1 in
      let top = laws.mul_unit (fl.halve (fl.add a b)) 70 (omega arith) m0 m1 in
      (
        (
          laws.mul_nonneg (fl.halve (fl.add a b)) 70 (omega arith) (omega arith) m0,
          laws.le_trans _ (fl.pct 70) (fl.pct 100) top (ground (arith, laws.pct_le 70 100)),
        ),
        top,
      )

module _ {F : Type 0} (fl : FloatOps F) (laws : FloatLaws fl) (lower : Text → Text) where
  -- The rule for two flattened titles and their confidences. Both sources agree: the title of the
  -- vision model with the greatest of the confidences and 0.9. They disagree: the same title with 0.7
  -- times the mean of the confidences. Only one has a title: that title with its confidence.
  abbrev pub Judged : Option Text → F → Option Text → F → Option Text × F → Type 0
  Judged none vision_conf none text_conf (title, c) = (title ≡ none) × (c ≡ fl.pct 0)
  Judged (some v) vision_conf none text_conf (title, c) = (title ≡ some v) × (c ≡ vision_conf)
  Judged none vision_conf (some t) text_conf (title, c) = (title ≡ some t) × (c ≡ text_conf)
  Judged (some v) vision_conf (some t) text_conf (title, c) =
      (title ≡ some v)
      × elim (option_text_eq (normalise_for_compare lower (some v))
          (normalise_for_compare lower (some t))) [
            | true ↦ IsGreatest fl laws vision_conf text_conf c
            | false ↦
                (c ≡ fl.mul (fl.halve (fl.add vision_conf text_conf)) (fl.pct 70))
                × (fl.le c (fl.pct 70) ≡ true)
          ]

  fuse_flat-Judged :
      (v t : Option Text) (vision_conf text_conf : F)
      → InUnit fl vision_conf
      → InUnit fl text_conf
      → let fused = fuse_flat fl lower v vision_conf t text_conf in
        InUnit fl fused.1 × Judged v vision_conf t text_conf fused
  unfolding fuse_flat
  fuse_flat-Judged none none vision_conf text_conf hv ht =
      (pct-InUnit fl laws 0 (omega arith), (refl, refl))
  fuse_flat-Judged (some v) none vision_conf text_conf hv ht = (hv, (refl, refl))
  fuse_flat-Judged none (some t) vision_conf text_conf hv ht = (ht, (refl, refl))
  fuse_flat-Judged (some v) (some t) vision_conf text_conf hv ht =
      elim (option_text_eq (normalise_for_compare lower (some v))
          (normalise_for_compare lower (some t)))
        as (λ agree.
          let fused : Option Text × F =
            if agree
            then (some v, max_float fl (max_float fl vision_conf text_conf) (fl.pct 90))
            else (some v, fl.mul (fl.halve (fl.add vision_conf text_conf)) (fl.pct 70)) in
          InUnit fl fused.1
          × ((fused.0 ≡ some v) × elim agree [
            | true ↦ IsGreatest fl laws vision_conf text_conf fused.1
            | false ↦
                (fused.1 ≡ fl.mul (fl.halve (fl.add vision_conf text_conf)) (fl.pct 70))
                × (fl.le fused.1 (fl.pct 70) ≡ true)
          ])) [
            | true ↦
                let (u, greatest) = agreed fl laws vision_conf text_conf hv ht in
                (u, (refl, greatest))
            | false ↦
                let (u, low) = averaged fl laws vision_conf text_conf hv ht in
                (u, (refl, (refl, low)))
          ]

  -- For confidences in the unit interval, so is that of the fused title, at most 0.7 if the sources
  -- disagree. The title is that of the vision model if it has one, else that of the text model. Its
  -- confidence is that of the source if only one has a title, and 0 if none has. If both agree, case
  -- and spaces aside, it is the greatest of the two and 0.9; if not, 0.7 times their mean.
  pub fuse-Judged :
      (vision_title text_title : Option Text) (vision_conf text_conf : F)
      → InUnit fl vision_conf
      → InUnit fl text_conf
      → let fused = fuse fl lower vision_title vision_conf text_title text_conf in
        InUnit fl fused.1
        × Judged (flatten_title vision_title) vision_conf (flatten_title text_title) text_conf fused
  unfolding fuse
  fuse-Judged vision_title text_title vision_conf text_conf =
      fuse_flat-Judged (flatten_title vision_title) (flatten_title text_title) vision_conf text_conf
