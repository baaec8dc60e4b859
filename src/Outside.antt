-- ===== src/Outside.antt =====
-- infrastructure/chromadb/writer.py with the names of shared/constants.py: what is written where. The
-- calls of the ChromaDB client are arguments.
mod Naming
pub mod Search
use dev_zu_smart_ingest.Prelude.{String, Option, none, some, List, [], ◌∷◌, ◌++◌, Bool, true, false}
use dev_zu_smart_ingest.Prelude.Int.{ℤ}
use dev_zu_smart_ingest.Prelude.Outcome.{Exception, Outcome, returned, raised}
use dev_zu_smart_ingest.Text.{Text, codes}
use dev_zu_smart_ingest.Text.Number.{int_text}
use dev_zu_smart_ingest.Dict.{put}
use dev_zu_smart_ingest.Domain.Entities.{FileHash, SidecarDocument, Attribute, text}

abbrev pub collection_prefix : Text
collection_prefix = codes "zubot_metadata_"

abbrev pub index_prefix : Text
index_prefix = codes "zubot_companion_"

-- `value or "default"`
unfoldable pub or_default : Option Text → Text
or_default none = codes "default"
or_default (some []) = codes "default"
or_default (some (c ∷ s)) = c ∷ s

unfoldable pub chroma_collection_name : (deployment_id node_id : Option Text) → Text
unfolding or_default
chroma_collection_name deployment_id node_id =
    collection_prefix ++ (or_default deployment_id ++ (b'_' ∷ or_default node_id))

unfoldable pub es_index_name : (deployment_id : Option Text) → Text
unfolding or_default
es_index_name deployment_id = index_prefix ++ or_default deployment_id

-- `_coerce_id_to_str`
unfoldable pub coerce_id_to_str : Option ℤ → Option Text
coerce_id_to_str none = none
coerce_id_to_str (some n) = some (int_text n)

abbrev pub text_or_empty : Option Text → Text
text_or_empty none = []
text_or_empty (some s) = s

abbrev succeeded {ℓ} : {A : Type ℓ} → Outcome A → Bool
succeeded (returned a) = true
succeeded (raised e) = false

-- A call of `upsert` on a collection.
pub record Upsert (F : Type 0) : Type 0 where
  pub collection_name : Text
  pub document_id : FileHash
  pub document_body : Text
  pub metadata : List (String × Attribute F)

module _ {F : Type 0} where
  -- The record that a sidecar is written as.
  unfoldable pub upsert_of :
      (document_id : FileHash) → SidecarDocument F → (deployment_id node_id : Option ℤ) → Upsert F
  unfolding chroma_collection_name coerce_id_to_str put
  upsert_of document_id sidecar deployment_id node_id = record {
    collection_name =
        chroma_collection_name (coerce_id_to_str deployment_id) (coerce_id_to_str node_id);
    document_id = document_id;
    document_body = text_or_empty sidecar.companion_text;
    metadata = put "ingestion_service" (text (codes "zubot-ingestion")) sidecar.metadata_attributes;
  }

  -- `write_metadata`: any exception of the client is answered False.
  unfoldable pub write_metadata :
      (upsert : Upsert F → Outcome (Unit {0}))
      → (document_id : FileHash) → SidecarDocument F
      → (deployment_id node_id : Option ℤ) → Bool
  unfolding upsert_of
  write_metadata upsert document_id sidecar deployment_id node_id =
      succeeded (upsert (upsert_of document_id sidecar deployment_id node_id))

-- `check_connection`
unfoldable pub check_connection : {A : Type 0} → (list_collections : Outcome A) → Bool
check_connection (returned a) = true
check_connection (raised e) = false
