-- ===== src/Pipeline/Title/Pages.antt =====
-- domain/pipeline/extractors/title.py: the text of a document's first and last page, by the markers
-- that the PDF processor puts between pages.
use dev_zu_smart_ingest.Prelude.{
  ℕ, zero, suc, Option, none, some, List, [], ◌∷◌, ◌++◌, if◌then◌else◌, length, drop,
}
use dev_zu_smart_ingest.Text.{Text, codes, starts_with}

abbrev pub page_token : Text
page_token = codes "---PAGE "

abbrev pub marker_end : Text
marker_end = codes "---" ++ 10 ∷ 10 ∷ []

-- `s.split(separator)`: `part` is the part that has begun, and `skip` counts the characters of a
-- separator that are left to be passed over.
unfoldable pub split_from : (separator : Text) → (skip : ℕ) → (part : Text) → Text → List Text
unfolding starts_with
split_from separator skip part [] = part ∷ []
split_from separator (suc skip) part (c ∷ s) = split_from separator skip part s
split_from separator zero part (c ∷ s) =
    let next = part ∷ split_from separator (length (drop 1 separator)) [] s in
    let more = split_from separator zero (part ++ c ∷ []) s in
    if starts_with (c ∷ s) separator then next else more

-- `s.split(separator, 1)[1]`, if the separator occurs.
unfoldable pub after_first : (separator : Text) → Text → Option Text
unfolding starts_with
after_first separator [] = none
after_first separator (c ∷ s) =
    let later = after_first separator s in
    if starts_with (c ∷ s) separator then some (drop (length separator) (c ∷ s)) else later

abbrev body_of : Text → Text
body_of part = elim (after_first marker_end part) [ some body ↦ body | none ↦ part ]

abbrev last_of : Text → List Text → Text
last_of part [] = part
last_of part (p ∷ parts) = last_of p parts

-- `_first_and_last_page_text`, on the text of the context.
unfoldable pub first_and_last : Text → Text
unfolding split_from after_first
first_and_last text = elim (split_from page_token 0 [] text) [
  | before ∷ first ∷ second ∷ parts ↦
      body_of first ++ ((10 ∷ 10 ∷ []) ++ body_of (last_of second parts))
  | _ ↦ text
]
