-- ===== src/Float.antt =====
-- Python's `float`, as an interface: the operations that the pipeline uses, and the laws of IEEE 754
-- that its proofs rest on. `Float.Fixed` fills it with decimals of two places and a NaN.
pub mod Fixed
use dev_zu_smart_ingest.Prelude.{
  ℕ, ◌≤◌, ◌<◌, Bool, true, false, not, ◌≡◌, leb, if◌then◌else◌, String, arith,
}
use dev_zu_smart_ingest.Prelude.Int.{ℤ}
use dev_zu_smart_ingest.Prelude.Outcome.{Outcome}

-- `pct k` is the literal k / 100. `ratio a b` is the quotient of two `int`s; `of_int` and `of_text`
-- are the calls `float(…)`, which may raise.
pub record FloatOps (F : Type 0) : Type 0 where
  pub lt : F → F → Bool
  pub le : F → F → Bool
  pub add : F → F → F
  pub mul : F → F → F
  pub halve : F → F
  pub neg : F → F
  pub pct : ℕ → F
  pub ratio : ℕ → ℕ → F
  pub is_nan : F → Bool
  pub of_int : ℤ → Outcome F
  pub of_text : String → Outcome F

-- The laws of IEEE 754 arithmetic with round-to-nearest: `<` and `<=` are false at a NaN and a total
-- order elsewhere, the literals from 0.00 to 1.00 keep their order, and rounding is monotone.
pub record FloatLaws {F : Type 0} (fl : FloatOps F) : Type 0 where
  pub le_num : (a b : F) → fl.le a b ≡ true → (fl.is_nan a ≡ false) × (fl.is_nan b ≡ false)
  pub lt_num : (a b : F) → fl.lt a b ≡ true → (fl.is_nan a ≡ false) × (fl.is_nan b ≡ false)
  pub lt_total : (a b : F) → fl.is_nan a ≡ false → fl.is_nan b ≡ false → fl.lt a b ≡ not (fl.le b a)
  pub lt_le : (a b : F) → fl.lt a b ≡ true → fl.le a b ≡ true
  pub le_refl : (a : F) → fl.is_nan a ≡ false → fl.le a a ≡ true
  pub le_trans : (a b c : F) → fl.le a b ≡ true → fl.le b c ≡ true → fl.le a c ≡ true
  pub pct_num : (k : ℕ) → fl.is_nan (fl.pct k) ≡ false
  pub pct_le : (j k : ℕ) → j ≤ 100 → k ≤ 100 → fl.le (fl.pct j) (fl.pct k) ≡ leb j k
  pub add_mono :
      (a b c d : F)
      → fl.le (fl.pct 0) a ≡ true
      → fl.le (fl.pct 0) c ≡ true
      → fl.le a b ≡ true
      → fl.le c d ≡ true
      → fl.le (fl.add a c) (fl.add b d) ≡ true
  pub add_nonneg :
      (a b : F)
      → fl.le (fl.pct 0) a ≡ true
      → fl.le (fl.pct 0) b ≡ true
      → fl.le (fl.pct 0) (fl.add a b) ≡ true
  pub sub_mono :
      (a b : F) (k : ℕ)
      → k ≤ 100
      → fl.le a b ≡ true
      → fl.le (fl.add a (fl.neg (fl.pct k))) (fl.add b (fl.neg (fl.pct k))) ≡ true
  pub sub_le :
      (a : F) (k : ℕ)
      → k ≤ 100
      → fl.is_nan a ≡ false
      → fl.le (fl.add a (fl.neg (fl.pct k))) a ≡ true
  pub mul_mono :
      (a b : F) (k : ℕ)
      → k ≤ 100
      → 0 < k
      → fl.le (fl.pct 0) a ≡ true
      → fl.le a b ≡ true
      → fl.le (fl.mul a (fl.pct k)) (fl.mul b (fl.pct k)) ≡ true
  pub mul_nonneg :
      (a : F) (k : ℕ)
      → k ≤ 100
      → 0 < k
      → fl.le (fl.pct 0) a ≡ true
      → fl.le (fl.pct 0) (fl.mul a (fl.pct k)) ≡ true
  pub mul_unit :
      (a : F) (k : ℕ)
      → k ≤ 100
      → fl.le (fl.pct 0) a ≡ true
      → fl.le a (fl.pct 100) ≡ true
      → fl.le (fl.mul a (fl.pct k)) (fl.pct k) ≡ true
  pub mean_unit :
      (a b : F)
      → fl.le (fl.pct 0) a ≡ true
      → fl.le a (fl.pct 100) ≡ true
      → fl.le (fl.pct 0) b ≡ true
      → fl.le b (fl.pct 100) ≡ true
      → (fl.le (fl.pct 0) (fl.halve (fl.add a b)) ≡ true)
        × (fl.le (fl.halve (fl.add a b)) (fl.pct 100) ≡ true)
  pub ratio_unit :
      (a b : ℕ)
      → a ≤ b
      → 0 < b
      → (fl.le (fl.pct 0) (fl.ratio a b) ≡ true) × (fl.le (fl.ratio a b) (fl.pct 100) ≡ true)

module _ {F : Type 0} (fl : FloatOps F) where
  -- `_clamp_unit`, which confidence.py and validation.py both define.
  unfoldable pub clamp_unit : F → F
  clamp_unit value =
      if fl.lt value (fl.pct 0)
      then fl.pct 0
      else if fl.lt (fl.pct 100) value
      then fl.pct 100
      else value

  -- What lies in the closed unit interval.
  abbrev pub InUnit : F → Type 0
  InUnit x = (fl.le (fl.pct 0) x ≡ true) × (fl.le x (fl.pct 100) ≡ true)

  -- Python's `max(a, b)` gives `b` only if it is greater.
  abbrev pub max_float : F → F → F
  max_float a b = if fl.lt a b then b else a

  abbrev pub min_float : F → F → F
  min_float a b = if fl.lt b a then b else a

module _ {F : Type 0} (fl : FloatOps F) (laws : FloatLaws fl) where
  -- What is no NaN is clamped into the unit interval.
  pub clamp_unit-InUnit : (x : F) → fl.is_nan x ≡ false → InUnit fl (clamp_unit fl x)
  unfolding clamp_unit
  clamp_unit-InUnit x h = ground (
    arith,
    laws.lt_total x (fl.pct 0) h (laws.pct_num 0),
    laws.lt_total (fl.pct 100) x (laws.pct_num 100) h,
    laws.pct_le 0 0,
    laws.pct_le 0 100,
    laws.pct_le 100 100,
  )

  -- A value in the unit interval is left alone.
  pub clamp_unit-InUnit_eq : (x : F) → InUnit fl x → clamp_unit fl x ≡ x
  unfolding clamp_unit
  clamp_unit-InUnit_eq x (low, high) =
      let h = (laws.le_num (fl.pct 0) x low).1 in
      ground (
        arith,
        laws.lt_total x (fl.pct 0) h (laws.pct_num 0),
        laws.lt_total (fl.pct 100) x (laws.pct_num 100) h,
      )

  pub clamp_unit_mono :
      (x y : F) → fl.le x y ≡ true → fl.le (clamp_unit fl x) (clamp_unit fl y) ≡ true
  unfolding clamp_unit
  clamp_unit_mono x y h =
      let (nx, ny) = laws.le_num x y h in
      ground (
        arith,
        laws.lt_total x (fl.pct 0) nx (laws.pct_num 0),
        laws.lt_total (fl.pct 100) x (laws.pct_num 100) nx,
        laws.lt_total y (fl.pct 0) ny (laws.pct_num 0),
        laws.lt_total (fl.pct 100) y (laws.pct_num 100) ny,
        laws.pct_le 0 0,
        laws.pct_le 0 100,
        laws.pct_le 100 100,
        laws.le_trans (fl.pct 0) x y,
        laws.le_trans x y (fl.pct 100),
        laws.le_trans x y (fl.pct 0),
        laws.le_trans (fl.pct 100) x y,
        h,
        nx,
        ny,
      )
