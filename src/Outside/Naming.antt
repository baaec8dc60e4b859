-- ===== src/Outside/Naming.antt =====
-- Different deployments and nodes are kept apart.
use dev_zu_smart_ingest.Prelude.{
  String, ◌≡◌, ◌≢◌, refl, sym, ◌∙◌, ap, arith, Option, none, some, [], ◌∷◌, ◌++◌, str_eq,
  if◌then◌else◌,
}
use dev_zu_smart_ingest.Prelude.Int.{ℤ}
use dev_zu_smart_ingest.Text.{Text, codes, strip}
use dev_zu_smart_ingest.Text.Number.{int_text, parse_int, parse_int-int_text}
use dev_zu_smart_ingest.Dict.{get, get-put}
use dev_zu_smart_ingest.Domain.Entities.{FileHash, SidecarDocument, text}
use dev_zu_smart_ingest.Outside.{
  upsert_of, es_index_name, or_default, coerce_id_to_str, index_prefix,
}

module _ {F : Type 0} where
  -- Every written record names this service, and otherwise has the sidecar's attributes.
  upsert_of-metadata :
      (id : FileHash) (sidecar : SidecarDocument F) (deployment_id node_id : Option ℤ)
      (key : String)
      → get key (upsert_of id sidecar deployment_id node_id).metadata ≡ (
          if str_eq "ingestion_service" key
          then some (text (codes "zubot-ingestion"))
          else get key sidecar.metadata_attributes)
  unfolding upsert_of
  upsert_of-metadata id sidecar deployment_id node_id key =
      get-put "ingestion_service" key (text (codes "zubot-ingestion")) sidecar.metadata_attributes

parse_int-nil : (n : ℤ) → parse_int [] ≢ some n
unfolding parse_int
parse_int-nil n h = ground (arith, h)

parse_int-or_default-some :
    (n : ℤ) (t : Text) → parse_int t ≡ some n → parse_int (or_default (some t)) ≡ some n
unfolding or_default
parse_int-or_default-some n [] h = absurd (parse_int-nil n h)
parse_int-or_default-some n (c ∷ s) h = h

-- The id that a name was made of can be read back from it, and no id is read from the default.
parse_int-or_default : (id : Option ℤ) → parse_int (or_default (coerce_id_to_str id)) ≡ id
unfolding or_default coerce_id_to_str parse_int strip
parse_int-or_default none = refl
parse_int-or_default (some n) = parse_int-or_default-some n (int_text n) (parse_int-int_text n)

append-injective : (p s t : Text) → p ++ s ≡ p ++ t → s ≡ t
append-injective [] s t h = h
append-injective (c ∷ p) s t h = append-injective p s t (ground (arith, h))

-- Two deployments share an index only if they are the same.
es_index_name-injective :
    (d e : Option ℤ)
    → es_index_name (coerce_id_to_str d) ≡ es_index_name (coerce_id_to_str e)
    → d ≡ e
unfolding es_index_name
es_index_name-injective d e h =
    let same =
      append-injective index_prefix (or_default (coerce_id_to_str d))
        (or_default (coerce_id_to_str e)) h in
    sym (parse_int-or_default d) ∙ ap parse_int same ∙ parse_int-or_default e
