-- ===== src/Text/Number.antt =====
-- `str(n)` and `int(s)` for Python's integers, over the decimal digits of ASCII, and `str(uuid)`.
use dev_zu_smart_ingest.Prelude.{
  ℕ, zero, suc, ◌+◌, ◌-◌, ◌*◌, ◌/◌, ◌%◌, ◌^◌, ◌<◌, ◌≡◌, refl, Bool, true, false, ◌&&◌, [], ◌∷◌,
  Option, none, some, arith, leb, ltb, ◌==◌, if◌then◌else◌, Bool-cases, inl, inr, ◌∙◌,
}
use dev_zu_smart_ingest.Prelude.Int.{ℤ, pos, negsuc}
use dev_zu_smart_ingest.Text.{Text, codes, is_space, strip, strip_left, strip_right}

-- The digits of `n` in front of `acc`; the fuel is more than the number, so it is never spent.
digits_from : ℕ → ℕ → Text → Text
digits_from zero n acc = acc
digits_from (suc f) n acc =
    let more = digits_from f (n / 10) ((48 + n % 10) ∷ acc) in
    if n / 10 == 0 then (48 + n % 10) ∷ acc else more

unfoldable pub nat_text : ℕ → Text
unfolding digits_from
nat_text n = digits_from (suc n) n []

-- `str(n)`
unfoldable pub int_text : ℤ → Text
unfolding nat_text
int_text (pos n) = nat_text n
int_text (negsuc n) = b'-' ∷ nat_text (suc n)

abbrev is_digit : ℕ → Bool
is_digit c = leb b'0' c && leb c b'9'

-- The digits of `int(s)`; a single underscore may stand between two digits. `after` says that the
-- character before was a digit.
parse_digits : (after : Bool) → ℕ → Text → Option ℕ
parse_digits true v [] = some v
parse_digits false v [] = none
parse_digits after v (c ∷ s) =
    let next = parse_digits true (v * 10 + (c - 48)) s in
    let gap = parse_digits false v s in
    if is_digit c then next else if c == b'_' && after then gap else none

negated : ℕ → ℤ
negated zero = pos 0
negated (suc n) = negsuc n

signed_digits : Text → Option ℤ
unfolding parse_digits negated
signed_digits [] = none
signed_digits (c ∷ s) =
    if c == b'-'
    then elim (parse_digits false 0 s) [ some n ↦ some (negated n) | none ↦ none ]
    else if c == b'+'
    then elim (parse_digits false 0 s) [ some n ↦ some (pos n) | none ↦ none ]
    else elim (parse_digits false 0 (c ∷ s)) [ some n ↦ some (pos n) | none ↦ none ]

-- `int(s)`, with `none` for the `ValueError`.
unfoldable pub parse_int : Text → Option ℤ
unfolding signed_digits strip
parse_int s = signed_digits (strip s)

-- Every character is an ASCII digit.
abbrev AllDigits : Text → Type 0
AllDigits [] = Unit
AllDigits (c ∷ s) = (is_digit c ≡ true) × AllDigits s

digits_from-AllDigits : (f n : ℕ) (acc : Text) → AllDigits acc → AllDigits (digits_from f n acc)
unfolding digits_from
digits_from-AllDigits zero n acc h = h
digits_from-AllDigits (suc f) n acc h =
    let digit : is_digit (48 + n % 10) ≡ true = ground arith in
    elim (Bool-cases (n / 10 == 0)) [
      | inl last ↦ rw last (digit, h)
      | inr more ↦ rw more (digits_from-AllDigits f (n / 10) ((48 + n % 10) ∷ acc) (digit, h))
    ]

parse_digits-digit :
    (after : Bool) (v c : ℕ) (s : Text)
    → is_digit c ≡ true
    → parse_digits after v (c ∷ s) ≡ parse_digits true (v * 10 + (c - 48)) s
unfolding parse_digits
parse_digits-digit true v c s h = rw h
parse_digits-digit false v c s h = rw h

-- Reading the digits of `n` gives `n`, and goes on with what stands behind them.
parse_digits-digits_from :
    (f n : ℕ) (after : Bool) (acc : Text)
    → n < f
    → parse_digits after 0 (digits_from f n acc) ≡ parse_digits true n acc
unfolding digits_from
parse_digits-digits_from zero n after acc h = elim h [ ]
parse_digits-digits_from (suc f) n after acc h =
    let digit : is_digit (48 + n % 10) ≡ true = ground arith in
    elim (Bool-cases (n / 10 == 0)) [
      | inl last ↦
          let single : 0 * 10 + (48 + n % 10 - 48) ≡ n = ground arith in
          rw last (parse_digits-digit after 0 (48 + n % 10) acc digit ∙ rw single)
      | inr more ↦
          let whole : n / 10 * 10 + (48 + n % 10 - 48) ≡ n = omega arith in
          rw more (
            parse_digits-digits_from f (n / 10) after ((48 + n % 10) ∷ acc) (ground arith)
            ∙ (parse_digits-digit true (n / 10) (48 + n % 10) acc digit ∙ rw whole))
    ]

-- Nothing in the text is white space.
abbrev pub Solid : Text → Type 0
Solid [] = Unit
Solid (c ∷ s) = (is_space c ≡ false) × Solid s

AllDigits-Solid : (s : Text) → AllDigits s → Solid s
AllDigits-Solid [] h = tt
AllDigits-Solid (c ∷ s) (d, h) = (unfold is_space in ground arith, AllDigits-Solid s h)

strip_right-Solid : (s : Text) → Solid s → strip_right s ≡ s
unfolding strip_right
strip_right-Solid [] h = refl
strip_right-Solid (c ∷ s) (d, h) = ground (arith, strip_right-Solid s h)

-- A text without white space is left alone by `strip()`.
pub strip-Solid : (s : Text) → Solid s → strip s ≡ s
unfolding strip strip_left
strip-Solid [] h = refl
strip-Solid (c ∷ s) (d, h) = rw d (strip_right-Solid (c ∷ s) (d, h))

signed_digits-digits :
    (s : Text) (n : ℕ)
    → AllDigits s
    → parse_digits false 0 s ≡ some n
    → signed_digits s ≡ some (pos n)
unfolding signed_digits
signed_digits-digits [] n h e = unfold parse_digits in cc
signed_digits-digits (c ∷ s) n (d, h) e = ground arith

-- `int(str(n))` is `n` again.
pub parse_int-int_text : (z : ℤ) → parse_int (int_text z) ≡ some z
unfolding parse_int int_text nat_text
parse_int-int_text (pos n) =
    let digits = digits_from-AllDigits (suc n) n [] tt in
    rw (strip-Solid (digits_from (suc n) n []) (AllDigits-Solid (digits_from (suc n) n []) digits))
      (signed_digits-digits (digits_from (suc n) n []) n digits
        (parse_digits-digits_from (suc n) n false [] (omega arith)))
parse_int-int_text (negsuc n) =
    let digits = digits_from-AllDigits (suc (suc n)) (suc n) [] tt in
    let solid = AllDigits-Solid (digits_from (suc (suc n)) (suc n) []) digits in
    rw (strip-Solid (b'-' ∷ digits_from (suc (suc n)) (suc n) []) (unfold is_space in refl, solid))
      (unfold signed_digits in
        ground (arith, parse_digits-digits_from (suc (suc n)) (suc n) false []))

hex_digit : ℕ → ℕ
hex_digit d = if ltb d 10 then b'0' + d else b'a' + (d - 10)

-- The last `width` hexadecimal digits of `n`, in front of `acc`.
hex_digits : (width : ℕ) → ℕ → Text → Text
unfolding hex_digit
hex_digits zero n acc = acc
hex_digits (suc w) n acc = hex_digits w (n / 16) (hex_digit (n % 16) ∷ acc)

-- `str(uuid)`: the 32 hexadecimal digits in groups of 8, 4, 4, 4 and 12.
unfoldable pub uuid_text : ℕ → Text
unfolding hex_digits
uuid_text n = hex_digits 8 (n / 2 ^ 96) (
    b'-'
    ∷ hex_digits 4 (n / 2 ^ 80) (
        b'-'
        ∷ hex_digits 4 (n / 2 ^ 64) (b'-' ∷ hex_digits 4 (n / 2 ^ 48) (b'-' ∷ hex_digits 12 n []))))

uuid_text_one : uuid_text 0x1f ≡ codes "00000000-0000-0000-0000-00000000001f"
unfolding uuid_text
uuid_text_one = refl

parse_int_forms :
    (parse_int (codes " 1_000\n") ≡ some (pos 1000))
    × (parse_int (codes "-07") ≡ some (negsuc 6))
    × (parse_int (codes "1__0") ≡ none)
    × (parse_int (codes "-") ≡ none)
unfolding parse_int strip_left strip_right is_space
parse_int_forms = (refl, refl, refl, refl)
