-- ===== src/Callback.antt =====
-- infrastructure/callback/client.py: the webhook that tells a receiver of a finished job. `dumps` is
-- the call of json.dumps and encode, `hexdigest` the HMAC-SHA256 and `isoformat` that of a datetime;
-- what httpx gives for each attempt is an argument. Delays are counted in half seconds, which floats
-- hold exactly.
pub mod Loop
pub mod Delivery
use dev_zu_smart_ingest.Prelude.{
  String, ℕ, zero, suc, ◌+◌, ◌-◌, ◌*◌, ◌^◌, Option, none, some, List, [], ◌∷◌, ◌++◌, Bool, true,
  false, ltb, leb, ◌&&◌, str_eq, if◌then◌else◌,
}
use dev_zu_smart_ingest.Prelude.Int.{ℤ, pos, negsuc}
use dev_zu_smart_ingest.Prelude.Outcome.{Exception, Outcome, returned, raised, ◌>>=◌}
use dev_zu_smart_ingest.Text.{Text, codes}
use dev_zu_smart_ingest.Text.Number.{uuid_text}
use dev_zu_smart_ingest.Domain.Enums.{ConfidenceTier, job_status_value, confidence_tier_value}
use dev_zu_smart_ingest.Domain.Json.{Json, null, int, float, str, obj, Fields, end, field}
use dev_zu_smart_ingest.Domain.Entities.{Instant, Job}

abbrev pub signature_header : String
signature_header = "X-Zubot-Signature"

abbrev pub api_key_header : String
api_key_header = "X-API-Key"

-- The client's settings; an empty secret counts as none.
pub record Client : Type 0 where
  pub signing_secret : Option String
  pub max_retries : ℕ

abbrev pub some_unless_empty : String → Option String
some_unless_empty s = if str_eq s "" then none else some s

abbrev pub secret_or_none : Option String → Option String
secret_or_none none = none
secret_or_none (some s) = some_unless_empty s

-- `__init__`: a negative `max_retries` counts as 0.
unfoldable pub new_client : Option String → ℤ → Client
new_client secret (pos n) = record { signing_secret = secret_or_none secret; max_retries = n }
new_client secret (negsuc n) = record { signing_secret = secret_or_none secret; max_retries = 0 }

-- `_backoff_delay`, in half seconds: `_BACKOFF_BASE` is one of them and `_BACKOFF_FACTOR` is 2.
unfoldable pub backoff_delay : ℕ → ℕ
backoff_delay attempt = if ltb attempt 1 then 0 else 1 * 2 ^ (attempt - 1)

-- What `client.post` gives: a response, a `TransportError` (a timeout is one), or another exception.
pub data Answer : Type 0 where
  response : (status_code : ℕ) → Answer
  transport_error : Exception → Answer
  other_error : Exception → Answer

pub record Post : Type 0 where
  pub url : String
  pub content : List ℕ
  pub headers : List (String × String)

-- The warning that a delivery logs when it gives up.
pub data Warning : Type 0 where
  non_retryable_status : (status_code : ℕ) → Warning
  unexpected_error : Exception → Warning
  exhausted_retries : (last_status : Option ℕ) (last_error : Option Exception) → Warning

-- A delivery so far: what it has posted and how long it has slept, in their order, and what it ends
-- with: an acknowledgement, or a warning.
pub record Sent : Type 0 where
  pub posts : List Post
  pub sleeps : List ℕ
  pub warning : Option Warning

abbrev pub ended : Option Warning → Post → Sent
ended warning post = record { posts = post ∷ []; sleeps = []; warning = warning }

abbrev pub unsent : Warning → Sent
unsent warning = record { posts = []; sleeps = []; warning = some warning }

abbrev pub slept : Post → ℕ → Sent → Sent
slept post delay rest = record {
  posts = post ∷ rest.posts;
  sleeps = delay ∷ rest.sleeps;
  warning = rest.warning;
}

-- The loop over `range(1, max_retries + 1)` from `attempt` on, with `left` rounds left and the last
-- status and error that were seen.
unfoldable pub post_loop :
    (max_retries : ℕ) (answers : ℕ → Answer) (post : Post) (left attempt : ℕ)
    (last_status : Option ℕ) (last_error : Option Exception)
    → Sent
unfolding backoff_delay
post_loop max answers post zero attempt status error = unsent (exhausted_retries status error)
post_loop max answers post (suc left) attempt status error = elim (answers attempt) [
  | transport_error e ↦
      let rest = post_loop max answers post left (suc attempt) none (some e) in
      if leb max attempt
      then ended (some (exhausted_retries none (some e))) post
      else slept post (backoff_delay attempt) rest
  | response code ↦
      let rest = post_loop max answers post left (suc attempt) (some code) error in
      if leb 200 code && ltb code 300
      then ended none post
      else if leb 500 code && ltb code 600
      then (if leb max attempt
          then ended (some (exhausted_retries (some code) error)) post
          else slept post (backoff_delay attempt) rest)
      else ended (some (non_retryable_status code)) post
  | other_error e ↦ ended (some (unexpected_error e)) post
]

abbrev pub acknowledged : Sent → Bool
acknowledged s = elim s.warning [ none ↦ true | some w ↦ false ]

module _ {F : Type 0} (isoformat : Instant → Text) where
  abbrev nullable {ℓ} : {A : Type ℓ} → (A → Json F) → Option A → Json F
  nullable f none = null
  nullable f (some a) = f a

  -- `_job_to_payload`
  unfoldable pub job_to_payload : Job F → Fields F
  job_to_payload job = field "job_id" (str (uuid_text job.job_id)) (
      field "batch_id" (str (uuid_text job.batch_id)) (
        field "filename" (str job.filename) (
          field "file_hash" (str (codes job.file_hash)) (
            field "status" (str (codes (job_status_value job.status))) (
              field "confidence_tier"
                (nullable (λ t. str (codes (confidence_tier_value t))) job.confidence_tier)
                (field "overall_confidence" (nullable float job.overall_confidence) (
                  field "result" (nullable obj job.result) (
                    field "error_message" (nullable str job.error_message) (
                      field "processing_time_ms"
                        (nullable (λ n. int (pos n)) job.processing_time_ms)
                        (field "otel_trace_id" (nullable (λ s. str (codes s)) job.otel_trace_id) (
                          field "created_at" (str (isoformat job.created_at))
                            (field "updated_at" (str (isoformat job.updated_at)) end))))))))))))

module _ (hexdigest : List ℕ → String → String) where
  -- `_build_headers`
  unfoldable pub build_headers : Client → List ℕ → (api_key : String) → List (String × String)
  build_headers client body api_key =
      (("Content-Type", "application/json") ∷ ("User-Agent", "zubot-ingestion/1.0") ∷ [])
      ++ ((if str_eq api_key "" then [] else (api_key_header, api_key) ∷ [])
          ++ elim client.signing_secret [
            | none ↦ []
            | some secret ↦ (signature_header, hexdigest body secret) ∷ []
          ])

  abbrev pub message : Client → String → List ℕ → String → Post
  message client url body api_key = record {
    url = url;
    content = body;
    headers = build_headers client body api_key;
  }

-- What entering and leaving `async with httpx.AsyncClient(...)` may raise; the outer `except` turns
-- it into a warning.
abbrev pub left_client : Option Exception → Sent → Sent
left_client none sent = sent
left_client (some e) sent = record sent { warning = some (unexpected_error e) }

unfoldable pub with_client : (entering leaving : Option Exception) → Sent → Sent
with_client (some e) leaving sent = unsent (unexpected_error e)
with_client none leaving sent = left_client leaving sent

module _ {F : Type 0} (isoformat : Instant → Text) (dumps : Fields F → Outcome (List ℕ))
    (hexdigest : List ℕ → String → String) where
  -- `notify_completion`: the body is serialised outside the guard.
  unfoldable pub notify_completion :
      Client
      → (entering leaving : Option Exception) → (answers : ℕ → Answer) → (callback_url : String)
      → Job F
      → (api_key : String) → Outcome (Bool × Sent)
  unfolding post_loop with_client job_to_payload
  notify_completion client entering leaving answers url job api_key = do
    body ← dumps (job_to_payload isoformat job)
    let sent = with_client entering leaving (
        post_loop client.max_retries answers (message hexdigest client url body api_key)
          client.max_retries 1 none none)
    returned (acknowledged sent, sent)

-- `build_callback_client`; `none` is the `NoOpCallbackClient`, which acknowledges everything.
unfoldable pub build_callback_client : (enabled : Bool) → (secret : String) → Option Client
unfolding new_client
build_callback_client false secret = none
build_callback_client true secret = some (new_client (some_unless_empty secret) (pos 3))
