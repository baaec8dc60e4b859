-- ===== src/Ollama/Generation.antt =====
-- The retry loop of `_post_generate`: which answer decides, what is counted and what is waited.
use dev_zu_smart_ingest.Prelude.{
  String, ℕ, zero, suc, ◌+◌, ◌<◌, ◌≡◌, refl, ap, arith, Option, none, some, List, [], ◌∷◌, true,
  false, ltb, ◌==◌, if◌then◌else◌, Bool-cases, inl, inr,
}
use dev_zu_smart_ingest.Prelude.Int.{ℤ}
use dev_zu_smart_ingest.Prelude.Outcome.{Exception, Outcome}
use dev_zu_smart_ingest.Float.{FloatOps}
use dev_zu_smart_ingest.Retry.{Verdict, decided, again, Decides, Decides-first, Decides-later}
use dev_zu_smart_ingest.Ollama.{
  Settings, rounds, OllamaResponse, RequestStatus, Answer, response, http_error, other_error,
  OllamaResult, escaped, Exchange, is_retryable, requested, slept, exhausted, refused,
  parse_response, backoff, request_loop, post_generate,
}

abbrev repeated : ℕ → List RequestStatus → List RequestStatus
repeated zero final = final
repeated (suc n) final = RequestStatus.retry ∷ repeated n final

module _ {F : Type 0} where
  -- What the last answer counts as.
  abbrev pub final_count : Answer F → List RequestStatus
  final_count (response code json) =
      if code == 200 then RequestStatus.success ∷ [] else RequestStatus.error ∷ []
  final_count (http_error e) = RequestStatus.error ∷ []
  final_count (other_error e) = []

  -- The result when no answer decides: the error names the last answer.
  abbrev pub blamed : ℤ → Answer F → OllamaResult (OllamaResponse F)
  blamed max (response code json) = exhausted max (some code) none
  blamed max (http_error e) = exhausted max none (some e)
  blamed max (other_error e) = escaped e

  abbrev pub concluded :
      ℤ → Option (OllamaResult (OllamaResponse F)) → Answer F → OllamaResult (OllamaResponse F)
  concluded max (some r) last = r
  concluded max none last = blamed max last

module _ {F : Type 0} (fl : FloatOps F) (pow : F → ℕ → F) (int_of_float : F → Outcome ℤ)
    (s : Settings F) (model : String) (answers : ℕ → Answer F) where
  -- What an answer means: 200 is parsed, 429, 503 and a lost connection are tried again, anything
  -- else is final.
  abbrev pub meaning : Answer F → Verdict (OllamaResult (OllamaResponse F))
  meaning (response code json) =
      if code == 200
      then decided (parse_response int_of_float model code json)
      else if is_retryable code
      then again
      else decided (refused code)
  meaning (http_error e) = again
  meaning (other_error e) = decided (escaped e)

  abbrev pub delays : (attempt n : ℕ) → List F
  delays attempt zero = []
  delays attempt (suc n) = backoff fl pow int_of_float s attempt ∷ delays (suc attempt) n

  -- What the loop from `attempt` on promises, with `left` attempts left: `last` is the number of
  -- attempts before the last one.
  abbrev pub Promised : (attempt left : ℕ) → Exchange F → Type 0
  Promised attempt left x =
      (result : Option (OllamaResult (OllamaResponse F))) × (last : ℕ) × (x.requests ≡ suc last)
      × Decides (λ i. meaning (answers i)) attempt left result x.requests
      × (x.result ≡ concluded s.retry_max_attempts result (answers (attempt + last)))
      × (x.counted ≡ repeated last (final_count (answers (attempt + last))))
      × (x.sleeps ≡ delays attempt last)

  decided-Promised :
      (attempt left : ℕ) (counted : List RequestStatus) (r : OllamaResult (OllamaResponse F))
      → meaning (answers attempt) ≡ decided r
      → counted ≡ final_count (answers attempt)
      → Promised attempt (suc left) (requested counted r)
  decided-Promised attempt left counted r h k =
      let e : attempt + 0 ≡ attempt = omega arith in
      (
        some r,
        0,
        refl,
        Decides-first (λ i. meaning (answers i)) attempt left r h,
        refl,
        rw e k,
        refl,
      )

  exhausted-Promised :
      (attempt : ℕ) (r : OllamaResult (OllamaResponse F))
      → meaning (answers attempt) ≡ again
      → r ≡ blamed s.retry_max_attempts (answers attempt)
      → RequestStatus.error ∷ [] ≡ final_count (answers attempt)
      → Promised attempt 1 (requested (RequestStatus.error ∷ []) r)
  exhausted-Promised attempt r h k c =
      let e : attempt + 0 ≡ attempt = omega arith in
      let nothing : Decides (λ i. meaning (answers i)) (suc attempt) 0 none 0 =
        (refl, λ j k. absurd (omega arith)) in
      (
        none,
        0,
        refl,
        Decides-later (λ i. meaning (answers i)) attempt 0 none 0 h nothing,
        rw e k,
        rw e c,
        refl,
      )

  slept-Promised :
      (attempt left : ℕ) (rest : Exchange F)
      → meaning (answers attempt) ≡ again
      → Promised (suc attempt) left rest
      → Promised attempt (suc left) (slept (backoff fl pow int_of_float s attempt) rest)
  slept-Promised attempt left rest h (result, last, n, decides, r, c, w) =
      let e : attempt + suc last ≡ suc attempt + last = omega arith in
      (
        result,
        suc last,
        ap suc n,
        Decides-later (λ i. meaning (answers i)) attempt left result rest.requests h decides,
        rw e r,
        rw e (ap (λ l. RequestStatus.retry ∷ l) c),
        ap (λ l. backoff fl pow int_of_float s attempt ∷ l) w,
      )

  -- An answer that asks for another attempt: the last one, or one with attempts left.
  retried-Promised :
      (attempt left : ℕ) (r : OllamaResult (OllamaResponse F)) (rest : Exchange F)
      → suc left + attempt ≡ rounds s.retry_max_attempts
      → meaning (answers attempt) ≡ again
      → r ≡ blamed s.retry_max_attempts (answers attempt)
      → RequestStatus.error ∷ [] ≡ final_count (answers attempt)
      → (0 < left → Promised (suc attempt) left rest)
      → Promised attempt (suc left) (
          if ltb (attempt + 1) (rounds s.retry_max_attempts)
          then slept (backoff fl pow int_of_float s attempt) rest
          else requested (RequestStatus.error ∷ []) r)
  retried-Promised attempt zero r rest h k b c more =
      let last : ltb (attempt + 1) (rounds s.retry_max_attempts) ≡ false = ground arith in
      rw last (exhausted-Promised attempt r k b c)
  retried-Promised attempt (suc left) r rest h k b c more =
      let early : ltb (attempt + 1) (rounds s.retry_max_attempts) ≡ true = ground arith in
      rw early (slept-Promised attempt (suc left) rest k (more (omega arith)))

  answered-Promised :
      (left attempt : ℕ) (status : Option ℕ) (cause : Option Exception) (answer : Answer F)
      → answers attempt ≡ answer
      → suc left + attempt ≡ rounds s.retry_max_attempts
      → ((status : Option ℕ) (cause : Option Exception)
          → 0 < left
          → Promised
              (suc attempt)
              left
              (request_loop fl pow int_of_float s model answers left (suc attempt) status cause))
      → Promised attempt
          (suc left)
          (request_loop fl pow int_of_float s model answers (suc left) attempt status cause)
  unfolding request_loop
  answered-Promised left attempt status cause (http_error e) k h more =
      rw (k, request_loop)
        (retried-Promised attempt left _ _ h (rw k) (rw k) (rw k) (more none (some e)))
  answered-Promised left attempt status cause (other_error e) k h more =
      rw (k, request_loop) (decided-Promised attempt left [] (escaped e) (rw k) (rw k))
  answered-Promised left attempt status cause (response code json) k h more =
      elim (Bool-cases (code == 200)) [
        | inl ok ↦
            rw (k, request_loop, ok) (decided-Promised attempt left _ _ (rw (k, ok)) (rw (k, ok)))
        | inr not_ok ↦ elim (Bool-cases (is_retryable code)) [
          | inl busy ↦
              rw (k, request_loop, not_ok, busy)
                (retried-Promised attempt left _ _ h (rw (k, not_ok, busy)) (rw k) (rw (k, not_ok))
                  (more (some code) none))
          | inr final ↦
              rw (k, request_loop, not_ok, final)
                (decided-Promised attempt left _ _ (rw (k, not_ok, final)) (rw (k, not_ok)))
        ]
      ]

  request_loop-Promised :
      (left attempt : ℕ) (status : Option ℕ) (cause : Option Exception)
      → left + attempt ≡ rounds s.retry_max_attempts
      → 0 < left
      → Promised attempt left
          (request_loop fl pow int_of_float s model answers left attempt status cause)
  request_loop-Promised zero attempt status cause h k = absurd (omega arith)
  request_loop-Promised (suc left) attempt status cause h k =
      answered-Promised left attempt status cause (answers attempt) refl h
        λ status' cause'. request_loop-Promised left (suc attempt) status' cause' (omega arith)

  -- With a positive budget of attempts, a call ends as the first answer that is neither 429, nor 503,
  -- nor a lost connection says: 200 is parsed, another status is an OllamaError, another exception
  -- goes through; without such an answer the
  -- error names the last one. It sends requests up to that answer and no more, counts one retry for
  -- each but the last, which it counts by what it was, and waits the backoff of each retry.
  pub post_generate-Promised :
      0 < rounds s.retry_max_attempts
      → Promised 0 (rounds s.retry_max_attempts) (post_generate fl pow int_of_float s model answers)
  unfolding post_generate
  post_generate-Promised h =
      request_loop-Promised (rounds s.retry_max_attempts) 0 none none (omega arith) h
