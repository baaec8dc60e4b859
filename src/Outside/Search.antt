-- ===== src/Outside/Search.antt =====
-- infrastructure/elasticsearch/indexer.py: the companion documents that are indexed for search. The
-- calls of httpx are arguments: a status code, or an exception.
use dev_zu_smart_ingest.Prelude.{
  String, ℕ, Option, none, some, [], ◌∷◌, ◌++◌, Bool, true, false, ◌&&◌, leb, ltb,
}
use dev_zu_smart_ingest.Prelude.Int.{ℤ}
use dev_zu_smart_ingest.Prelude.Outcome.{Outcome, returned, raised}
use dev_zu_smart_ingest.Text.{Text, codes, without_slashes}
use dev_zu_smart_ingest.Domain.Enums.{confidence_tier_value, document_type_value, discipline_value}
use dev_zu_smart_ingest.Domain.Json.{
  int, float, str, bool, obj, Fields, end, field, nullable, native, natural,
}
use dev_zu_smart_ingest.Domain.Entities.{FileHash, ExtractionResult, CompanionResult}

pub record Settings : Type 0 where
  pub base_url : Text
  pub username : Option String
  pub password : Option String

abbrev pair_of : Option String → Option String → Option (String × String)
pair_of (some username) (some password) = some (username, password)
pair_of (some username) none = none
pair_of none password = none

-- `_build_auth`
unfoldable pub build_auth : Settings → Option (String × String)
build_auth settings = pair_of settings.username settings.password

-- A request: its URL, its credentials and its body.
pub record Request (F : Type 0) : Type 0 where
  pub url : Text
  pub auth : Option (String × String)
  pub body : Option (Fields F)

-- A 2xx response; any exception is answered False.
unfoldable pub accepted : Outcome ℕ → Bool
accepted (returned status_code) = leb 200 status_code && ltb status_code 300
accepted (raised e) = false

module _ {F : Type 0} where
  abbrev extraction_fields : ExtractionResult F → Fields F
  extraction_fields r = field "drawing_number" (nullable str r.drawing_number) (
      field "drawing_number_confidence" (float r.drawing_number_confidence) (
        field "title" (nullable str r.title) (
          field "title_confidence" (float r.title_confidence) (
            field "document_type" (nullable (λ d. native (document_type_value d)) r.document_type) (
              field "document_type_confidence" (float r.document_type_confidence) (
                field "discipline" (nullable (λ d. native (discipline_value d)) r.discipline) (
                  field "revision" (nullable str r.revision) (
                    field "building_zone" (nullable str r.building_zone)
                      (field "project" (nullable str r.project) end)))))))))

  -- `_build_document`
  unfoldable pub build_document :
      (document_id : FileHash)
      → ExtractionResult F
      → CompanionResult F
      → (deployment_id : Option ℤ) → Fields F
  build_document document_id r c deployment_id = field "document_id" (native document_id) (
      field "deployment_id" (nullable int deployment_id) (
        field "companion_text" (str c.companion_text) (
          field "pages_described" (natural c.pages_described) (
            field "companion_generated" (bool c.companion_generated) (
              field "extraction" (obj (extraction_fields r)) (
                field "tier" (nullable (λ t. native (confidence_tier_value t)) r.confidence_tier)
                  (field "confidence_score" (nullable float r.confidence_score) end)))))))

  unfoldable pub index_companion :
      (put : Request F → Outcome ℕ)
      → Settings
      → (document_id : FileHash) → ExtractionResult F
      → CompanionResult F
      → (deployment_id : Option ℤ) → Bool
  unfolding build_document without_slashes build_auth accepted
  index_companion put settings document_id r c deployment_id = accepted (
      put (record {
        url = without_slashes settings.base_url ++ (codes "/companions/_doc/" ++ codes document_id);
        auth = build_auth settings;
        body = some (build_document document_id r c deployment_id);
      }))

  unfoldable pub check_connection : (get : Request F → Outcome ℕ) → Settings → Bool
  unfolding without_slashes build_auth accepted
  check_connection get settings = accepted (
      get (record {
        url = without_slashes settings.base_url ++ codes "/_cluster/health";
        auth = build_auth settings;
        body = none;
      }))

-- The indexer that the factory builds.
pub data SearchIndexer : Type 0 where
  noop : SearchIndexer
  elasticsearch : Settings → SearchIndexer

-- `build_search_indexer`
unfoldable pub build_search_indexer :
    (url : Option Text) → (username password : Option String) → SearchIndexer
build_search_indexer none username password = noop
build_search_indexer (some []) username password = noop
build_search_indexer (some (c ∷ s)) username password =
    elasticsearch (record { base_url = c ∷ s; username = username; password = password })

-- `index_companion` of either indexer.
unfoldable pub indexed :
    {F : Type 0}
    → (put : Request F → Outcome ℕ) → SearchIndexer
    → (document_id : FileHash) → ExtractionResult F
    → CompanionResult F
    → (deployment_id : Option ℤ) → Bool
unfolding index_companion
indexed put noop document_id r c deployment_id = true
indexed put (elasticsearch settings) document_id r c deployment_id =
    index_companion put settings document_id r c deployment_id
