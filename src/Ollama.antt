-- ===== src/Ollama.antt =====
-- infrastructure/ollama/client.py: the requests to the model server. What httpx gives for an
-- attempt, what `response.json()` decodes and how a float becomes an `int` are arguments; `pow` is
-- the float power `**`.
pub mod Prompt
pub mod Generation
use dev_zu_smart_ingest.Prelude.{
  String, ℕ, zero, suc, ◌+◌, Option, none, some, List, [], ◌∷◌, ◌++◌, Bool, true, false, ltb, ◌==◌,
  ◌||◌, any, str_eq, if◌then◌else◌,
}
use dev_zu_smart_ingest.Prelude.Int.{ℤ, pos, negsuc}
use dev_zu_smart_ingest.Prelude.Outcome.{Exception, Outcome, returned, raised, ◌>>=◌}
use dev_zu_smart_ingest.Text.{Text, codes, starts_with}
use dev_zu_smart_ingest.Text.Number.{int_text, nat_text}
use dev_zu_smart_ingest.Float.{FloatOps}
use dev_zu_smart_ingest.Domain.Json.{
  Json, null, bool, int, float, str, arr, obj, Items, nil, cons, Fields, end, field, get, items,
}
use dev_zu_smart_ingest.Ollama.Prompt.{full_prompt}

-- The settings that the constructor reads.
pub record Settings (F : Type 0) : Type 0 where
  pub vision_model : String
  pub text_model : String
  pub keep_alive : String
  pub retry_max_attempts : ℤ
  pub retry_initial_backoff_seconds : F
  pub retry_backoff_multiplier : F

-- `range(n)` makes no round for a negative `n`.
abbrev pub rounds : ℤ → ℕ
rounds (pos n) = n
rounds (negsuc n) = 0

pub record OllamaResponse (F : Type 0) : Type 0 where
  pub response_text : Text
  pub model : String
  pub prompt_eval_count : Option ℤ
  pub eval_count : Option ℤ
  pub total_duration_ns : Option ℤ
  pub raw : Fields F

-- The label that `record_ollama_request_status` counts.
pub data RequestStatus : Type 0 where
  success : RequestStatus
  error : RequestStatus
  retry : RequestStatus

-- What `response.json()` gives: a value, a `ValueError`, or another exception, such as a
-- `RecursionError`.
pub data Body (F : Type 0) : Type 0 where
  decoded : Json F → Body F
  value_error : Exception → Body F
  body_error : Exception → Body F

-- What `self._http_client.post` gives: a response with its status and what `.json()` makes of its
-- body, an `httpx.HTTPError`, or another exception.
pub data Answer (F : Type 0) : Type 0 where
  response : (status_code : ℕ) (json : Body F) → Answer F
  http_error : Exception → Answer F
  other_error : Exception → Answer F

-- What a call of the client ends with: a response, an `OllamaError`, or an exception that the client
-- lets through.
pub data OllamaResult (A : Type 0) : Type 0 where
  generated : A → OllamaResult A
  ollama_error :
      (message : Text) (status_code : Option ℕ) (cause : Option Exception) → OllamaResult A
  escaped : Exception → OllamaResult A

-- A call so far: how many requests it has sent, the statuses that it has counted and the delays.
pub record Exchange (F : Type 0) : Type 0 where
  pub requests : ℕ
  pub counted : List RequestStatus
  pub sleeps : List F
  pub result : OllamaResult (OllamaResponse F)

-- `_RETRYABLE_STATUS_CODES`
abbrev pub is_retryable : ℕ → Bool
is_retryable code = code == 429 || code == 503

abbrev pub escaping : {A : Type 0} {B : Type 0} → Outcome A → (A → OllamaResult B) → OllamaResult B
escaping (returned a) k = k a
escaping (raised e) k = escaped e

module _ {F : Type 0} where
  abbrev pub requested : List RequestStatus → OllamaResult (OllamaResponse F) → Exchange F
  requested counted result = record {
    requests = 1;
    counted = counted;
    sleeps = [];
    result = result;
  }

  abbrev pub slept : F → Exchange F → Exchange F
  slept delay rest = record {
    requests = suc rest.requests;
    counted = RequestStatus.retry ∷ rest.counted;
    sleeps = delay ∷ rest.sleeps;
    result = rest.result;
  }

  -- After the loop: the last status, if there is one, decides the error.
  unfoldable pub exhausted :
      (max_attempts : ℤ) (last_status : Option ℕ) (last_error : Option Exception)
      → OllamaResult (OllamaResponse F)
  exhausted max (some code) cause =
      ollama_error
        (codes "Ollama /api/generate exhausted "
          ++ (int_text max ++ (codes " retries (last status " ++ (nat_text code ++ codes ")"))))
        (some code) none
  exhausted max none cause =
      ollama_error
        (codes "Ollama /api/generate exhausted "
          ++ (int_text max ++ codes " retries (transport error)"))
        none cause

  unfoldable pub refused : ℕ → OllamaResult (OllamaResponse F)
  refused code =
      ollama_error (codes "Ollama /api/generate returned HTTP " ++ nat_text code) (some code) none

  -- `_coerce_optional_int`; `int_of_float` is `int(value)`, which raises for what is not finite.
  unfoldable pub coerce_optional_int :
      (int_of_float : F → Outcome ℤ) → Option (Json F) → Outcome (Option ℤ)
  coerce_optional_int int_of_float (some (int n)) = returned (some n)
  coerce_optional_int int_of_float (some (float x)) = do n ← int_of_float x; returned (some n)
  coerce_optional_int int_of_float none = returned none
  coerce_optional_int int_of_float (some null) = returned none
  coerce_optional_int int_of_float (some (bool b)) = returned none
  coerce_optional_int int_of_float (some (str s)) = returned none
  coerce_optional_int int_of_float (some (arr vs)) = returned none
  coerce_optional_int int_of_float (some (obj d)) = returned none

  -- The three counters of a response with a text.
  unfoldable pub response_of :
      (int_of_float : F → Outcome ℤ)
      → (model : String) → (response_text : Text) → Fields F
      → Outcome (OllamaResponse F)
  unfolding coerce_optional_int
  response_of int_of_float model response_text body = do
    prompt_eval_count ← coerce_optional_int int_of_float (get "prompt_eval_count" body)
    eval_count ← coerce_optional_int int_of_float (get "eval_count" body)
    total_duration ← coerce_optional_int int_of_float (get "total_duration" body)
    returned (record {
      response_text = response_text;
      model = model;
      prompt_eval_count = prompt_eval_count;
      eval_count = eval_count;
      total_duration_ns = total_duration;
      raw = body;
    })

  missing_response : ℕ → OllamaResult (OllamaResponse F)
  missing_response code =
      ollama_error (codes "Ollama /api/generate response missing 'response' field") (some code) none

  parse_object :
      (F → Outcome ℤ)
      → (model : String) → (code : ℕ) → Fields F
      → Option (Json F)
      → OllamaResult (OllamaResponse F)
  unfolding missing_response
  parse_object int_of_float model code body (some (str s)) =
      escaping (response_of int_of_float model s body) generated
  parse_object int_of_float model code body _ = missing_response code

  -- `_parse_response`
  unfoldable pub parse_response :
      (int_of_float : F → Outcome ℤ)
      → (model : String) → (code : ℕ) → (json : Body F) → OllamaResult (OllamaResponse F)
  unfolding parse_object
  parse_response int_of_float model code (body_error e) = escaped e
  parse_response int_of_float model code (value_error e) =
      ollama_error (codes "Ollama /api/generate returned non-JSON body") (some code) (some e)
  parse_response int_of_float model code (decoded (obj body)) =
      parse_object int_of_float model code body (get "response" body)
  parse_response int_of_float model code (decoded _) =
      ollama_error (codes "Ollama /api/generate returned non-object JSON body") (some code) none

module _ {F : Type 0} (fl : FloatOps F) (pow : F → ℕ → F) (int_of_float : F → Outcome ℤ) where
  -- `_compute_backoff`; the attempts are counted from 0.
  unfoldable pub compute_backoff : ℕ → (initial multiplier : F) → F
  compute_backoff attempt initial multiplier = fl.mul initial (pow multiplier attempt)

  abbrev pub backoff : Settings F → ℕ → F
  backoff s attempt =
      compute_backoff attempt s.retry_initial_backoff_seconds s.retry_backoff_multiplier

  -- The loop over `range(max_attempts)` of `_post_generate` from `attempt` on, with `left` rounds
  -- left and the last status and error that were seen.
  unfoldable pub request_loop :
      Settings F
      → (model : String) (answers : ℕ → Answer F) (left attempt : ℕ) (last_status : Option ℕ)
        (last_error : Option Exception)
      → Exchange F
  unfolding refused parse_response
  request_loop s model answers zero attempt status cause = record {
    requests = 0;
    counted = RequestStatus.error ∷ [];
    sleeps = [];
    result = exhausted s.retry_max_attempts status cause;
  }
  request_loop s model answers (suc left) attempt status cause = elim (answers attempt) [
    | http_error e ↦
        let rest = request_loop s model answers left (suc attempt) none (some e) in
        if ltb (attempt + 1) (rounds s.retry_max_attempts)
        then slept (backoff s attempt) rest
        else requested (RequestStatus.error ∷ []) (exhausted s.retry_max_attempts none (some e))
    | response code json ↦
        let rest = request_loop s model answers left (suc attempt) (some code) none in
        if code == 200
        then requested (RequestStatus.success ∷ []) (parse_response int_of_float model code json)
        else if is_retryable code
        then (if ltb (attempt + 1) (rounds s.retry_max_attempts)
            then slept (backoff s attempt) rest
            else requested (RequestStatus.error ∷ [])
                (exhausted s.retry_max_attempts (some code) none))
        else requested (RequestStatus.error ∷ []) (refused code)
    | other_error e ↦ requested [] (escaped e)
  ]

  -- `_post_generate`
  unfoldable pub post_generate :
      Settings F → (model : String) → (answers : ℕ → Answer F) → Exchange F
  unfolding request_loop
  post_generate s model answers =
      request_loop s model answers (rounds s.retry_max_attempts) 0 none none

abbrev pub model_or : String → Option String → String
model_or default none = default
model_or default (some model) = model

module _ {F : Type 0} where
  abbrev options : F → Json F
  options temperature = obj (field "temperature" (float temperature) end)

  -- `payload["keep_alive"] = keep_alive` unless it is empty.
  abbrev kept_alive : String → Fields F
  kept_alive keep_alive =
      if str_eq keep_alive "" then end else field "keep_alive" (str (codes keep_alive)) end

  unfoldable pub vision_payload :
      Settings F
      → (image_base64 prompt : Text) → (model : Option String) → (temperature : F) → Fields F
  vision_payload s image prompt model temperature =
      field "model" (str (codes (model_or s.vision_model model))) (
        field "prompt" (str prompt) (
          field "images" (arr (cons (str image) nil)) (
            field "format" (str (codes "json")) (
              field "stream" (bool false)
                (field "options" (options temperature) (kept_alive s.keep_alive))))))

  unfoldable pub text_payload :
      Settings F → (text prompt : Text) → (model : Option String) → (temperature : F) → Fields F
  unfolding full_prompt
  text_payload s text prompt model temperature =
      field "model" (str (codes (model_or s.text_model model))) (
        field "prompt" (str (full_prompt prompt text)) (
          field "format" (str (codes "json")) (
            field "stream" (bool false)
              (field "options" (options temperature) (kept_alive s.keep_alive)))))

module _ {F : Type 0} (fl : FloatOps F) (pow : F → ℕ → F) (int_of_float : F → Outcome ℤ) where
  -- `generate_vision` and `generate_text`; `post` is what the server answers to a payload.
  unfoldable pub generate_vision :
      Settings F
      → (post : Fields F → ℕ → Answer F) → (image_base64 prompt : Text) → (model : Option String)
      → (temperature : F) → Exchange F
  unfolding post_generate vision_payload
  generate_vision s post image prompt model temperature =
      post_generate fl pow int_of_float s (model_or s.vision_model model)
        (post (vision_payload s image prompt model temperature))

  unfoldable pub generate_text :
      Settings F
      → (post : Fields F → ℕ → Answer F) → (text prompt : Text) → (model : Option String)
      → (temperature : F) → Exchange F
  unfolding post_generate text_payload
  generate_text s post text prompt model temperature =
      post_generate fl pow int_of_float s (model_or s.text_model model)
        (post (text_payload s text prompt model temperature))

module _ {F : Type 0} where
  is_named : (model : Text) → Json F → Bool
  is_named model (obj entry) = elim (get "name" entry) [
    | some (str name) ↦ starts_with name model
    | _ ↦ false
  ]
  is_named model _ = false

  listed : (model : Text) → Option (Json F) → Bool
  unfolding is_named
  listed model (some (arr models)) = any (is_named model) (items models)
  listed model _ = false

  listed_in : (model : Text) → Body F → Outcome Bool
  unfolding listed
  listed_in model (decoded (obj body)) = returned (listed model (get "models" body))
  listed_in model (decoded _) = returned false
  listed_in model (value_error e) = returned false
  listed_in model (body_error e) = raised e

  -- `check_model_available`, on the answer to `GET /api/tags`.
  unfoldable pub check_model_available : (model : Text) → Answer F → Outcome Bool
  unfolding listed_in
  check_model_available model (http_error e) = returned false
  check_model_available model (other_error e) = raised e
  check_model_available model (response code json) =
      if code == 200 then listed_in model json else returned false
