-- ===== src/Access.antt =====
-- api/middleware: who may call the service, and by what the calls are counted. `decode` is jwt.decode
-- with the service's secret, `py_str` is `str` of a claim, and the request's headers and the remote
-- address come from Starlette and slowapi.
pub mod Guard
pub mod Limits
use dev_zu_smart_ingest.Prelude.{
  String, ℕ, Option, none, some, List, [], ◌∷◌, ◌++◌, Bool, true, false, not, ◌&&◌, ◌||◌, any, drop,
  length, leb, str_eq, max, if◌then◌else◌,
}
use dev_zu_smart_ingest.Prelude.Int.{ℤ, pos, negsuc}
use dev_zu_smart_ingest.Prelude.Outcome.{Exception, Outcome, returned, raised}
use dev_zu_smart_ingest.Text.{Text, codes, is_empty, starts_with, text_eq}
use dev_zu_smart_ingest.Text.Number.{parse_int}
use dev_zu_smart_ingest.Domain.Json.{Json, null, bool, int, float, str, arr, obj, Fields, get}
use dev_zu_smart_ingest.Domain.Entities.{AuthContext}

-- `AUTH_EXEMPT_PATHS` of shared/constants.py, and the paths that are never rate limited.
abbrev pub auth_exempt_paths : List Text
auth_exempt_paths =
    codes "/health" ∷ codes "/metrics" ∷ codes "/docs" ∷ codes "/openapi.json" ∷ codes "/redoc" ∷ []

abbrev pub rate_limit_exempt_paths : List Text
rate_limit_exempt_paths = codes "/health" ∷ codes "/metrics" ∷ []

-- `_is_exempt`
unfoldable pub is_exempt : (path : Text) → Bool
is_exempt path =
    any (text_eq path) auth_exempt_paths
    || starts_with path (codes "/docs")
    || starts_with path (codes "/openapi")

unfoldable pub is_rate_limit_exempt : (path : Text) → Bool
is_rate_limit_exempt path =
    any (text_eq path) rate_limit_exempt_paths
    || any (text_eq path) auth_exempt_paths
    || starts_with path (codes "/docs")
    || starts_with path (codes "/openapi")

pub record Request : Type 0 where
  pub path : Text
  pub api_key : Option Text
  pub authorization : Option Text
  pub remote_address : Text

-- What jwt.decode gives: the claims, a `PyJWTError`, or another exception.
pub data Decoded (F : Type 0) : Type 0 where
  claims : Fields F → Decoded F
  jwt_error : Decoded F
  other_error : Exception → Decoded F

abbrev pub bearer_prefix : Text
bearer_prefix = codes "Bearer "

abbrev pub api_context : AuthContext
api_context = record {
  user_id = "api";
  auth_method = "api_key";
  deployment_id = none;
  node_id = none;
}

-- `api_key and api_key == settings.ZUBOT_INGESTION_API_KEY`
abbrev pub is_api_key : Option Text → (expected : Text) → Bool
is_api_key none expected = false
is_api_key (some key) expected = not (is_empty key) && text_eq key expected

abbrev pub header_or_empty : Option Text → Text
header_or_empty none = []
header_or_empty (some value) = value

module _ {F : Type 0} where
  -- `_coerce_id`
  unfoldable pub coerce_id : Option (Json F) → Option ℤ
  coerce_id (some (int n)) = some n
  coerce_id (some (str s)) = parse_int s
  coerce_id _ = none

  -- The context of a token, by its `user_id`, the one claim that is required.
  unfoldable pub token_context :
      (py_str : Json F → String) → Option (Json F) → Fields F → Option AuthContext
  unfolding coerce_id
  token_context py_str none body = none
  token_context py_str (some null) body = none
  token_context py_str (some user_id) body = some (record {
    user_id = py_str user_id;
    auth_method = "wod_token";
    deployment_id = coerce_id (get "deployment_id" body);
    node_id = coerce_id (get "node_id" body);
  })

  unfoldable pub decoded_context :
      (py_str : Json F → String) → Decoded F → Outcome (Option AuthContext)
  unfolding token_context
  decoded_context py_str (claims body) = returned (token_context py_str (get "user_id" body) body)
  decoded_context py_str jwt_error = returned none
  decoded_context py_str (other_error e) = raised e

module _ {F : Type 0} (expected_key : Text) (decode : Text → Decoded F)
    (py_str : Json F → String) where
  -- `_authenticate`
  unfoldable pub authenticate : Request → Outcome (Option AuthContext)
  unfolding decoded_context
  authenticate request =
      let header = header_or_empty request.authorization in
      let decoded = decoded_context py_str (decode (drop (length bearer_prefix) header)) in
      if is_api_key request.api_key expected_key
      then returned (some api_context)
      else if starts_with header bearer_prefix
      then decoded
      else returned none

-- What the middleware answers: what the next handler answers, or a 401.
pub data Response (R : Type 0) : Type 0 where
  passed : R → Response R
  unauthorized : Response R

module _ {F R : Type 0} (expected_key : Text) (decode : Text → Decoded F)
    (py_str : Json F → String) where
  abbrev pub next_answer : Outcome R → Outcome (Response R)
  next_answer (returned r) = returned (passed r)
  next_answer (raised e) = raised e

  abbrev pub admitted :
      Outcome (Option AuthContext) → (Option AuthContext → Outcome R) → Outcome (Response R)
  admitted (raised e) call_next = raised e
  admitted (returned none) call_next = returned unauthorized
  admitted (returned (some context)) call_next = next_answer (call_next (some context))

  -- `dispatch`; `call_next` sees the context that is attached to the request, if one is.
  unfoldable pub dispatch :
      Request → (call_next : Option AuthContext → Outcome R) → Outcome (Response R)
  unfolding is_exempt authenticate
  dispatch request call_next =
      let checked = admitted (authenticate expected_key decode py_str request) call_next in
      if is_exempt request.path then next_answer (call_next none) else checked

abbrev pub missing_context : Exception
missing_context = record {
  type_name = "HTTPException";
  message = codes "auth_context missing — AuthMiddleware not installed?";
}

-- `get_auth_context`
unfoldable pub get_auth_context : Option AuthContext → Outcome AuthContext
get_auth_context none = raised missing_context
get_auth_context (some context) = returned context

abbrev user_key : Option AuthContext → Option String
user_key none = none
user_key (some context) = if str_eq context.user_id "" then none else some context.user_id

-- `get_rate_limit_key`
unfoldable pub get_rate_limit_key : Option AuthContext → Request → Text
get_rate_limit_key context request = elim (user_key context) [
  | some user_id ↦ codes "user:" ++ codes user_id
  | none ↦ codes "ip:" ++ request.remote_address
]

-- `_retry_after_seconds`: `window` is the limit of the request, if it has one, with the seconds that
-- are left in its window, or the failure of the storage.
unfoldable pub retry_after_seconds : (window : Option (Outcome ℤ)) → ℕ
retry_after_seconds none = 1
retry_after_seconds (some (raised e)) = 1
retry_after_seconds (some (returned (pos n))) = max 1 n
retry_after_seconds (some (returned (negsuc n))) = 1
