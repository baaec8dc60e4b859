-- ===== src/Callback/Delivery.antt =====
-- How often a webhook is posted, with what, what it waits, and when it counts as acknowledged.
use dev_zu_smart_ingest.Prelude.{
  String, ℕ, ◌-◌, ◌≡◌, ◌↔◌, refl, arith, Option, none, some, List, [], ◌∷◌, Bool, true, false,
  length, All, inl, inr,
}
use dev_zu_smart_ingest.Prelude.Outcome.{Exception, Outcome, Outcome-cases, returned, raised}
use dev_zu_smart_ingest.Text.{Text}
use dev_zu_smart_ingest.Dict.{get}
use dev_zu_smart_ingest.Domain.Json.{Fields}
use dev_zu_smart_ingest.Domain.Entities.{Instant, Job}
use dev_zu_smart_ingest.Retry.{Decides}
use dev_zu_smart_ingest.Callback.{
  Client, Answer, Post, non_retryable_status, signature_header, unexpected_error, exhausted_retries,
  Sent, acknowledged, build_headers, notify_completion, job_to_payload, message,
}
use dev_zu_smart_ingest.Callback.Loop.{meaning, conclusion, delays, post_loop-Fulfilled}

-- The answer of `notify_completion`: an acknowledgement, and nothing else, is True.
abbrev pub succeeded : Option Bool → Bool
succeeded none = false
succeeded (some b) = b

acknowledged_lem : (sent : Sent) → acknowledged sent ≡ succeeded (conclusion sent.warning)
acknowledged_lem sent =
    elim sent.warning
      as (λ w. (elim w [ none ↦ true | some v ↦ false ]) ≡ succeeded (conclusion w)) [
        | none ↦ refl
        | some (non_retryable_status code) ↦ refl
        | some (unexpected_error e) ↦ refl
        | some (exhausted_retries status error) ↦ refl
      ]

module _ (hexdigest : List ℕ → String → String) where
  -- A post to the receiver with these bytes, and with their signature if there is a secret.
  abbrev pub Carries : Client → String → List ℕ → Post → Type 0
  Carries client url body post =
      (post.url ≡ url)
      × (post.content ≡ body)
      × (get signature_header post.headers
          ≡ elim client.signing_secret [ none ↦ none | some secret ↦ some (hexdigest body secret) ])

  message-Carries :
      (client : Client) (url : String) (body : List ℕ) (api_key : String)
      → Carries client url body (message hexdigest client url body api_key)
  unfolding build_headers get
  message-Carries client url body api_key = ground arith

  All-Carries :
      (client : Client) (url : String) (body : List ℕ) (api_key : String) (posts : List Post)
      → All (λ p. p ≡ message hexdigest client url body api_key) posts
      → All (Carries client url body) posts
  All-Carries client url body api_key [] h = tt
  All-Carries client url body api_key (p ∷ posts) (e, h) =
      (rw e (message-Carries client url body api_key), All-Carries client url body api_key posts h)

module _ {F : Type 0} (isoformat : Instant → Text) (dumps : Fields F → Outcome (List ℕ))
    (hexdigest : List ℕ → String → String) where
  -- If the body can be serialised and the HTTP client opens and closes, the call returns what the
  -- first answer that is neither 5xx nor a lost connection says among `max_retries` attempts: True
  -- for 2xx, False for any other, False if there is none. It posts up to that answer and no more,
  -- always the same signed bytes to the callback's URL, and waits 1, 2, 4, ... half seconds between.
  pub notify_completion-Decides :
      (client : Client) (answers : ℕ → Answer) (url : String) (job : Job F) (api_key : String)
      (body : List ℕ)
      → dumps (job_to_payload isoformat job) ≡ returned body
      → (result : Option Bool) × (sent : Sent) × (notify_completion isoformat dumps hexdigest client
            none none answers url job api_key
          ≡ returned (succeeded result, sent))
        × Decides (λ i. meaning (answers i)) 1 client.max_retries result (length sent.posts)
        × All (Carries hexdigest client url body) sent.posts
        × (sent.sleeps ≡ delays 1 (length sent.posts - 1))
  unfolding notify_completion
  notify_completion-Decides client answers url job api_key body h =
      let post = message hexdigest client url body api_key in
      let (decides, same, waits) =
        post_loop-Fulfilled client.max_retries answers post client.max_retries 1 none none
          (omega arith) in
      rw (h, acknowledged_lem)
        (_, _, refl, decides, All-Carries hexdigest client url body api_key _ same, waits)

  -- Whatever httpx does, the call raises if and only if its body cannot be serialised.
  pub notify_completion-raised :
      (client : Client) (entering leaving : Option Exception) (answers : ℕ → Answer) (url : String)
      (job : Job F) (api_key : String) (e : Exception)
      → (notify_completion isoformat dumps hexdigest client entering leaving answers url job api_key
          ≡ raised e)
        ↔ (dumps (job_to_payload isoformat job) ≡ raised e)
  unfolding notify_completion
  notify_completion-raised client entering leaving answers url job api_key e =
      elim (Outcome-cases (dumps (job_to_payload isoformat job))) [
        | inl (body, h) ↦ rw h ((λ k. absurd (ground (arith, k))), λ k. absurd (ground (arith, k)))
        | inr (e', h) ↦ rw h ((λ k. ground (arith, k)), λ k. ground (arith, k))
      ]
