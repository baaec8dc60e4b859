-- ===== src/Float/Fixed.antt =====
-- Decimals of two places and a NaN fill the interface, so the laws can be met and tests can run.
use mathlib.Core.List.{[]}
use native.Mathlib.Nat.{div-lt_iff_lt-mul}
use dev_zu_smart_ingest.Prelude.{
  refl, not, ◌<◌, ◌≤◌, str_eq, if◌then◌else◌, ℕ, suc, ◌+◌, ◌*◌, ◌/◌, Bool, true, false, ◌≡◌, arith,
  String,
}
use dev_zu_smart_ingest.Prelude.Int.{ℤ, pos, negsuc, ◌+ℤ◌, le_ℤ, sub_ℕ}
use dev_zu_smart_ingest.Prelude.Outcome.{Outcome, returned, raised}
use dev_zu_smart_ingest.Float.{FloatOps, FloatLaws}

pub data Fixed : Type 0 where
  nan : Fixed
  hundredths : ℤ → Fixed

abbrev is_nan : Fixed → Bool
is_nan nan = true
is_nan (hundredths z) = false

abbrev le : Fixed → Fixed → Bool
le (hundredths a) (hundredths b) = le_ℤ a b
le _ _ = false

abbrev lt : Fixed → Fixed → Bool
lt (hundredths a) (hundredths b) = not (le_ℤ b a)
lt _ _ = false

abbrev add : Fixed → Fixed → Fixed
add (hundredths a) (hundredths b) = hundredths (a +ℤ b)
add _ _ = nan

-- The size of a product, cut to two places, under the sign that the operands give.
abbrev signed : ℤ → ℤ → ℤ
signed (pos a) (pos b) = pos (a * b / 100)
signed (pos a) (negsuc b) = sub_ℕ 0 (a * suc b / 100)
signed (negsuc a) (pos b) = sub_ℕ 0 (suc a * b / 100)
signed (negsuc a) (negsuc b) = pos (suc a * suc b / 100)

abbrev mul : Fixed → Fixed → Fixed
mul (hundredths a) (hundredths b) = hundredths (signed a b)
mul _ _ = nan

abbrev halve : Fixed → Fixed
halve nan = nan
halve (hundredths (pos a)) = hundredths (pos (a / 2))
halve (hundredths (negsuc a)) = hundredths (sub_ℕ 0 (suc a / 2))

abbrev neg : Fixed → Fixed
neg nan = nan
neg (hundredths (pos a)) = hundredths (sub_ℕ 0 a)
neg (hundredths (negsuc a)) = hundredths (pos (suc a))

-- `float("nan")` gives a NaN; other texts are left out of this sample.
abbrev of_text : String → Outcome Fixed
of_text s =
    if str_eq s "nan"
    then returned nan
    else raised (record { type_name = "ValueError"; message = [] })

abbrev scale : ℤ → ℤ
scale (pos a) = pos (100 * a)
scale (negsuc a) = negsuc (100 * a + 99)

abbrev pub fixed_ops : FloatOps Fixed
fixed_ops = record {
  lt = lt;
  le = le;
  add = add;
  mul = mul;
  halve = halve;
  neg = neg;
  pct = λ k. hundredths (pos k);
  ratio = λ a b. hundredths (pos (100 * a / b));
  is_nan = is_nan;
  of_int = λ z. returned (hundredths (scale z));
  of_text = of_text;
}

le_num : (a b : Fixed) → le a b ≡ true → (is_nan a ≡ false) × (is_nan b ≡ false)
le_num (hundredths a) (hundredths b) h = (refl, refl)
le_num _ _ h = ground arith

lt_num : (a b : Fixed) → lt a b ≡ true → (is_nan a ≡ false) × (is_nan b ≡ false)
lt_num (hundredths a) (hundredths b) h = (refl, refl)
lt_num _ _ h = ground arith

lt_total : (a b : Fixed) → is_nan a ≡ false → is_nan b ≡ false → lt a b ≡ not (le b a)
lt_total (hundredths a) (hundredths b) h k = refl
lt_total _ _ h k = ground arith

lt_le : (a b : Fixed) → lt a b ≡ true → le a b ≡ true
lt_le (hundredths (pos a)) (hundredths (pos b)) h = ground arith
lt_le (hundredths (pos a)) (hundredths (negsuc b)) h = ground arith
lt_le (hundredths (negsuc a)) (hundredths (pos b)) h = ground arith
lt_le (hundredths (negsuc a)) (hundredths (negsuc b)) h = ground arith
lt_le _ _ h = ground arith

le_refl : (a : Fixed) → is_nan a ≡ false → le a a ≡ true
le_refl a h = ground arith

le_trans : (a b c : Fixed) → le a b ≡ true → le b c ≡ true → le a c ≡ true
le_trans a b c h k = ground arith

add_mono :
    (a b c d : Fixed)
    → le (hundredths (pos 0)) a ≡ true
    → le (hundredths (pos 0)) c ≡ true
    → le a b ≡ true
    → le c d ≡ true
    → le (add a c) (add b d) ≡ true
unfolding ◌+ℤ◌
add_mono (hundredths (pos a)) (hundredths (pos b)) (hundredths (pos c)) (hundredths (pos d)) p q h
      k =
    ground arith
add_mono _ _ _ _ p q h k = ground arith

sub_mono :
    (a b : Fixed) (k : ℕ)
    → le a b ≡ true
    → le (add a (neg (hundredths (pos k)))) (add b (neg (hundredths (pos k)))) ≡ true
unfolding ◌+ℤ◌
sub_mono a b k h = ground arith

scaled_mono : (a b k : ℕ) → a ≤ b → a * k / 100 ≤ b * k / 100
scaled_mono a b k h = let product : a * k ≤ b * k = grind arith in omega arith

mul_mono :
    (a b : Fixed) (k : ℕ)
    → 0 < k
    → le (hundredths (pos 0)) a ≡ true
    → le a b ≡ true
    → le (mul a (hundredths (pos k))) (mul b (hundredths (pos k))) ≡ true
mul_mono (hundredths (pos a)) (hundredths (pos b)) k h p q = ground (arith, scaled_mono a b k)
mul_mono _ _ k h p q = ground arith

mul_nonneg :
    (a : Fixed) (k : ℕ)
    → 0 < k
    → le (hundredths (pos 0)) a ≡ true
    → le (hundredths (pos 0)) (mul a (hundredths (pos k))) ≡ true
mul_nonneg a k h p = ground arith

mul_unit :
    (a : Fixed) (k : ℕ)
    → le (hundredths (pos 0)) a ≡ true
    → le a (hundredths (pos 100)) ≡ true
    → le (mul a (hundredths (pos k))) (hundredths (pos k)) ≡ true
mul_unit (hundredths (pos a)) k h p =
    let bound : a * k / 100 ≤ 100 * k / 100 = scaled_mono a 100 k (ground arith) in
    ground (arith, bound)
mul_unit _ k h p = ground arith

mean_unit :
    (a b : Fixed)
    → le (hundredths (pos 0)) a ≡ true
    → le a (hundredths (pos 100)) ≡ true
    → le (hundredths (pos 0)) b ≡ true
    → le b (hundredths (pos 100)) ≡ true
    → (le (hundredths (pos 0)) (halve (add a b)) ≡ true)
      × (le (halve (add a b)) (hundredths (pos 100)) ≡ true)
unfolding ◌+ℤ◌
mean_unit (hundredths (pos a)) (hundredths (pos b)) h p k q = ground arith
mean_unit _ _ h p k q = ground arith

-- A quotient of a part by its whole, in hundredths.
ratio_bound : (a b : ℕ) → a ≤ b → 0 < b → 100 * a / b ≤ 100
ratio_bound a b h p =
    let below = (div-lt_iff_lt-mul {k = b} {x = 100 * a} {y = 101} p).1 (omega arith) in omega arith

pub fixed_laws : FloatLaws fixed_ops
unfolding ◌+ℤ◌
fixed_laws = record {
  le_num = le_num;
  lt_num = lt_num;
  lt_total = lt_total;
  lt_le = lt_le;
  le_refl = le_refl;
  le_trans = le_trans;
  pct_num = λ k. refl;
  pct_le = λ j k h h'. ground arith;
  add_mono = add_mono;
  add_nonneg = λ a b h k. ground arith;
  sub_mono = λ a b k h. sub_mono a b k;
  sub_le = λ a k small h. ground arith;
  mul_mono = λ a b k h. mul_mono a b k;
  mul_nonneg = λ a k h. mul_nonneg a k;
  mul_unit = λ a k h. mul_unit a k;
  mean_unit = mean_unit;
  ratio_unit = λ a b h p. ground (arith, ratio_bound a b);
}
