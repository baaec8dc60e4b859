-- ===== src/Ollama/Prompt/Escaping.antt =====
-- The text of a document cannot close the block that it stands in.
use dev_zu_smart_ingest.Prelude.{
  ℕ, zero, suc, ◌≡◌, refl, sym, ap, ◌∙◌, arith, ◌++◌, [], ◌∷◌, Bool, true, false, not, ◌&&◌, ◌||◌,
  ◌==◌, all, drop, Bool-cases, inl, inr,
}
use dev_zu_smart_ingest.Text.{Text, starts_with, contains}
use dev_zu_smart_ingest.Ollama.Prompt.{
  closing, escaped_closing, replace_from, escape_closing, full_prompt, opening, newline,
  reaffirmation,
}

-- Neither an opening angle bracket nor a line break.
abbrev is_plain : ℕ → Bool
is_plain d = not (d == b'<') && not (d == 10)

-- A text is searched at its own positions, in front of `after`.
abbrev pub occurs_before : (p u after : Text) → Bool
occurs_before p [] after = false
occurs_before p (c ∷ u) after = starts_with (c ∷ u ++ after) p || occurs_before p u after

starts_with-line :
    (s t p : Text) → all is_plain p ≡ true → starts_with (s ++ 10 ∷ t) p ≡ starts_with s p
unfolding starts_with
starts_with-line s t [] h = refl
starts_with-line [] t (d ∷ p) h = ground arith
starts_with-line (c ∷ s) t (d ∷ p) h = ground (arith, starts_with-line s t p)

-- The two cases of a replacement.
replace_from-matched :
    (c : ℕ) (s : Text)
    → starts_with (c ∷ s) closing ≡ true
    → replace_from 0 (c ∷ s) ≡ escaped_closing ++ replace_from 18 s
unfolding replace_from
replace_from-matched c s h = rw h

replace_from-kept :
    (c : ℕ) (s : Text)
    → starts_with (c ∷ s) closing ≡ false
    → replace_from 0 (c ∷ s) ≡ c ∷ replace_from 0 s
unfolding replace_from
replace_from-kept c s h = rw h

starts_with-head :
    (c d : ℕ) (s p : Text) → starts_with (c ∷ s) (d ∷ p) ≡ (c == d && starts_with s p)
unfolding starts_with
starts_with-head c d s p = refl

starts_with-nil : (s : Text) → starts_with s [] ≡ true
unfolding starts_with
starts_with-nil s = refl

starts_with-end : (d : ℕ) (p : Text) → starts_with [] (d ∷ p) ≡ false
unfolding starts_with
starts_with-end d p = refl

replace_from-nil : (skip : ℕ) → replace_from skip [] ≡ []
unfolding replace_from
replace_from-nil skip = refl

-- What starts with an angle bracket does not start with a plain character.
starts_with-bracket :
    (c d : ℕ) (s u p : Text)
    → starts_with (c ∷ s) closing ≡ true
    → is_plain d ≡ true
    → starts_with (c ∷ u) (d ∷ p) ≡ false
starts_with-bracket c d s u p h k =
    ground (arith, starts_with-head c b'<' s (drop 1 closing), starts_with-head c d u p)

starts_with-replace :
    (s t p : Text)
    → all is_plain p ≡ true
    → starts_with (replace_from 0 s ++ 10 ∷ t) p ≡ starts_with s p
starts_with-replace s t [] h =
    starts_with-nil (replace_from 0 s ++ 10 ∷ t) ∙ sym (starts_with-nil s)
starts_with-replace [] t (d ∷ p) h =
    rw (replace_from-nil 0) (ground (arith, starts_with-head 10 d t p, starts_with-end d p))
starts_with-replace (c ∷ s) t (d ∷ p) h = elim (Bool-cases (starts_with (c ∷ s) closing)) [
  | inl match ↦ rw (replace_from-matched c s match) (
      ground (
        arith,
        starts_with-bracket c d s (drop 1 escaped_closing ++ replace_from 18 s ++ 10 ∷ t) p match,
        starts_with-bracket c d s s p match,
        starts_with-head c b'<' s (drop 1 closing),
      ))
  | inr kept ↦ rw (replace_from-kept c s kept) (
      ground (
        arith,
        starts_with-replace s t p,
        starts_with-head c d s p,
        starts_with-head c d (replace_from 0 s ++ 10 ∷ t) p,
      ))
]

occurs_before-replace :
    (skip : ℕ) (s t : Text) → occurs_before closing (replace_from skip s) (10 ∷ t) ≡ false
unfolding replace_from
occurs_before-replace skip [] t = refl
occurs_before-replace (suc skip) (c ∷ s) t = occurs_before-replace skip s t
occurs_before-replace zero (c ∷ s) t = elim (Bool-cases (starts_with (c ∷ s) closing)) [
  | inl match ↦ rw (replace_from-matched c s match) (occurs_before-replace 18 s t)
  | inr kept ↦ rw (replace_from-kept c s kept) (
      rw (starts_with-replace s t (drop 1 closing) refl, occurs_before-replace 0 s t)
        (ground (arith, starts_with-head c b'<' s (drop 1 closing))))
]

-- What does not contain the closing delimiter is left as it is.
escape_closing_unchanged : (s : Text) → contains s closing ≡ false → escape_closing s ≡ s
unfolding escape_closing contains
escape_closing_unchanged [] h = replace_from-nil 0
escape_closing_unchanged (c ∷ s) h = elim (Bool-cases (starts_with (c ∷ s) closing)) [
  | inl match ↦ absurd (ground (arith, match, h))
  | inr kept ↦
      rw (replace_from-kept c s kept)
        (ap (λ t. c ∷ t) (escape_closing_unchanged s (ground (arith, kept, h))))
]

-- The prompt of `generate_text` is the caller's prompt, the opened block, the escaped text, and a
-- line break with the closing delimiter and the reaffirmation. The closing delimiter occurs at no
-- position of the escaped text, not even one that would end after it: the block is closed by the
-- code and not by the document, whatever the document says.
pub full_prompt-sealed :
    (prompt text : Text)
    → let after = newline ++ closing ++ newline ++ newline ++ reaffirmation in
      (full_prompt prompt text
        ≡ prompt ++ ((newline ++ newline ++ opening ++ newline) ++ (escape_closing text ++ after)))
      × (occurs_before closing (escape_closing text) after ≡ false)
unfolding full_prompt escape_closing
full_prompt-sealed prompt text = (refl, occurs_before-replace 0 text _)
