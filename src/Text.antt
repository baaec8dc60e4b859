-- ===== src/Text.antt =====
-- Python's `str` where the program walks it: a list of code points. Texts that are only compared
-- whole (keys, enum values, hashes, messages) are native strings.
pub mod Number
pub mod Infix
use Prim.Native.Char.{code}
use dev_zu_smart_ingest.Prelude.{
  ℕ, String, Bool, true, false, ◌&&◌, ◌||◌, List, [], ◌∷◌, ◌++◌, ◌≡◌, refl, arith, leb, ◌==◌,
  if◌then◌else◌, Option, none, some,
}
use dev_zu_smart_ingest.Prelude.Outcome.{Exception}

abbrev pub Text : Type 0
Text = List ℕ

abbrev pub codes : String → Text
codes String.[] = []
codes (String.◌∷◌ c s) = code c ∷ codes s

-- `f"{type(exc).__name__}: {exc}"`
unfoldable pub describe : Exception → Text
describe e = codes e.type_name ++ (codes ": " ++ e.message)

abbrev pub is_empty : Text → Bool
is_empty [] = true
is_empty (c ∷ s) = false

-- `s == t`
unfoldable pub text_eq : Text → Text → Bool
text_eq [] [] = true
text_eq [] (d ∷ t) = false
text_eq (c ∷ s) [] = false
text_eq (c ∷ s) (d ∷ t) = c == d && text_eq s t

pub text_eq→≡ : (s t : Text) → text_eq s t ≡ true → s ≡ t
unfolding text_eq
text_eq→≡ [] [] h = refl
text_eq→≡ [] (d ∷ t) h = cc
text_eq→≡ (c ∷ s) [] h = cc
text_eq→≡ (c ∷ s) (d ∷ t) h = ground (arith, text_eq→≡ s t)

pub text_eq_refl : (s : Text) → text_eq s s ≡ true
unfolding text_eq
text_eq_refl [] = refl
text_eq_refl (c ∷ s) = ground (arith, text_eq_refl s)

-- `s.startswith(p)`
unfoldable pub starts_with : Text → Text → Bool
starts_with s [] = true
starts_with [] (d ∷ p) = false
starts_with (c ∷ s) (d ∷ p) = c == d && starts_with s p

-- `s.endswith(p)`: the suffix stands at one of the positions of `s`.
unfoldable pub ends_with : Text → Text → Bool
unfolding text_eq
ends_with [] p = is_empty p
ends_with (c ∷ s) p = text_eq (c ∷ s) p || ends_with s p

-- `p in s`
unfoldable pub contains : Text → Text → Bool
unfolding starts_with
contains [] p = is_empty p
contains (c ∷ s) p = starts_with (c ∷ s) p || contains s p

-- The characters that `str.isspace` accepts, which `strip()`, `split()` and `\s` go by.
unfoldable pub is_space : ℕ → Bool
is_space c =
    (leb 0x09 c && leb c 0x0d)
    || (leb 0x1c c && leb c 0x20)
    || c == 0x85
    || c == 0xa0
    || c == 0x1680
    || (leb 0x2000 c && leb c 0x200a)
    || c == 0x2028
    || c == 0x2029
    || c == 0x202f
    || c == 0x205f
    || c == 0x3000

-- `s.lstrip()`
unfoldable pub strip_left : Text → Text
unfolding is_space
strip_left [] = []
strip_left (c ∷ s) = let rest = strip_left s in if is_space c then rest else c ∷ s

-- `s.rstrip()`
unfoldable pub strip_right : Text → Text
unfolding is_space
strip_right [] = []
strip_right (c ∷ s) =
    let rest = strip_right s in if is_empty rest && is_space c then [] else c ∷ rest

-- `s.strip()`
unfoldable pub strip : Text → Text
unfolding strip_left strip_right
strip s = strip_right (strip_left s)

-- `s.rstrip("/")`
unfoldable pub without_slashes : Text → Text
without_slashes [] = []
without_slashes (c ∷ s) =
    let rest = without_slashes s in if is_empty rest && c == 0x2f then [] else c ∷ rest

-- `s or None`
abbrev pub or_none : Text → Option Text
or_none [] = none
or_none (c ∷ s) = some (c ∷ s)

-- The words of `s.split()`: `word` is the word that has begun, and is kept when it is not empty.
unfoldable pub words_from : Text → Text → List Text
unfolding is_space
words_from word [] = if is_empty word then [] else word ∷ []
words_from word (c ∷ s) = elim (is_space c) [
  | true ↦ let rest = words_from [] s in if is_empty word then rest else word ∷ rest
  | false ↦ words_from (word ++ c ∷ []) s
]

unfoldable pub split_words : Text → List Text
unfolding words_from
split_words s = words_from [] s

-- `" ".join(words)`
unfoldable pub join_words : List Text → Text
join_words [] = []
join_words (w ∷ []) = w
join_words (w ∷ v ∷ ws) = w ++ b' ' ∷ join_words (v ∷ ws)

-- `", ".join(names)`
abbrev pub comma_joined : List String → Text
comma_joined [] = []
comma_joined (s ∷ []) = codes s
comma_joined (s ∷ t ∷ rest) = codes s ++ (codes ", " ++ comma_joined (t ∷ rest))
