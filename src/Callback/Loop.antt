-- ===== src/Callback/Loop.antt =====
-- The retry loop of `notify_completion`: its answers, posts and delays.
use dev_zu_smart_ingest.Prelude.{
  ℕ, zero, suc, ◌+◌, ◌-◌, ◌<◌, ◌≡◌, refl, ap, arith, Option, none, some, List, [], ◌∷◌, Bool, true,
  false, ltb, leb, ◌&&◌, if◌then◌else◌, length, All, Bool-cases, inl, inr, subst,
}
use dev_zu_smart_ingest.Prelude.Outcome.{Exception}
use dev_zu_smart_ingest.Retry.{Verdict, decided, again, Decides, Decides-first, Decides-later}
use dev_zu_smart_ingest.Callback.{
  Answer, response, transport_error, other_error, Post, Warning, non_retryable_status,
  unexpected_error, exhausted_retries, Sent, ended, slept, post_loop, backoff_delay,
}

-- What a receiver's answer means: 2xx acknowledges, 5xx and a lost connection are tried again,
-- anything else is final.
abbrev pub meaning : Answer → Verdict Bool
meaning (response code) =
    if leb 200 code && ltb code 300
    then decided true
    else if leb 500 code && ltb code 600
    then again
    else decided false
meaning (transport_error e) = again
meaning (other_error e) = decided false

-- What the client concluded: nothing, once its attempts are used up.
abbrev pub conclusion : Option Warning → Option Bool
conclusion none = some true
conclusion (some (non_retryable_status code)) = some false
conclusion (some (unexpected_error e)) = some false
conclusion (some (exhausted_retries status error)) = none

-- The delays before `n` further attempts after attempt number `attempt`.
abbrev pub delays : (attempt n : ℕ) → List ℕ
delays attempt zero = []
delays attempt (suc n) = backoff_delay attempt ∷ delays (suc attempt) n

-- What the loop from `attempt` on promises, with `left` attempts left.
abbrev Promised : (answers : ℕ → Answer) (post : Post) (attempt left : ℕ) → Sent → Type 0
Promised answers post attempt left sent =
    Decides (λ i. meaning (answers i)) attempt left (conclusion sent.warning) (length sent.posts)
    × All (λ p. p ≡ post) sent.posts
    × (length sent.posts ≡ suc (length sent.sleeps))
    × (sent.sleeps ≡ delays attempt (length sent.sleeps))

module _ (max : ℕ) (answers : ℕ → Answer) (post : Post) where
  ended-Promised :
      (attempt left : ℕ) (warning : Option Warning) (r : Bool)
      → meaning (answers attempt) ≡ decided r
      → conclusion warning ≡ some r
      → Promised answers post attempt (suc left) (ended warning post)
  ended-Promised attempt left warning r h k =
      (rw k (Decides-first (λ i. meaning (answers i)) attempt left r h), (refl, tt), refl, refl)

  exhausted-Promised :
      (attempt : ℕ) (status : Option ℕ) (error : Option Exception)
      → meaning (answers attempt) ≡ again
      → Promised answers post attempt 1 (ended (some (exhausted_retries status error)) post)
  exhausted-Promised attempt status error h =
      let nothing : Decides (λ i. meaning (answers i)) (suc attempt) 0 none 0 =
        (refl, λ j k. absurd (omega arith)) in
      (Decides-later (λ i. meaning (answers i)) attempt 0 none 0 h nothing, (refl, tt), refl, refl)

  slept-Promised :
      (attempt left : ℕ) (rest : Sent)
      → meaning (answers attempt) ≡ again
      → Promised answers post (suc attempt) left rest
      → Promised answers post attempt (suc left) (slept post (backoff_delay attempt) rest)
  slept-Promised attempt left rest h (d, same, n, waits) = (
    Decides-later (λ i. meaning (answers i)) attempt left _ _ h d,
    (refl, same),
    ap suc n,
    ap (λ s. backoff_delay attempt ∷ s) waits,
  )

  -- An answer that asks for another attempt: the last one, or one with attempts left.
  retried-Promised :
      (attempt left : ℕ) (status : Option ℕ) (error : Option Exception) (rest : Sent)
      → suc left + attempt ≡ suc max
      → meaning (answers attempt) ≡ again
      → (0 < left → Promised answers post (suc attempt) left rest)
      → Promised answers post attempt (suc left) (
          if leb max attempt
          then ended (some (exhausted_retries status error)) post
          else slept post (backoff_delay attempt) rest)
  retried-Promised attempt zero status error rest h k more =
      let last : leb max attempt ≡ true = ground arith in
      rw last (exhausted-Promised attempt status error k)
  retried-Promised attempt (suc left) status error rest h k more =
      let early : leb max attempt ≡ false = ground arith in
      rw early (slept-Promised attempt (suc left) rest k (more (omega arith)))

  answered-Promised :
      (left attempt : ℕ) (status : Option ℕ) (error : Option Exception) (answer : Answer)
      → answers attempt ≡ answer
      → suc left + attempt ≡ suc max
      → ((status : Option ℕ) (error : Option Exception)
          → 0 < left
          → Promised answers post
              (suc attempt)
              left
              (post_loop max answers post left (suc attempt) status error))
      → Promised answers post attempt
          (suc left)
          (post_loop max answers post (suc left) attempt status error)
  unfolding post_loop
  answered-Promised left attempt status error (transport_error e) k h more =
      rw (k, post_loop)
        (retried-Promised attempt left none (some e) _ h (rw k) (more none (some e)))
  answered-Promised left attempt status error (other_error e) k h more =
      rw (k, post_loop) (ended-Promised attempt left (some (unexpected_error e)) false (rw k) refl)
  answered-Promised left attempt status error (response code) k h more =
      elim (Bool-cases (leb 200 code && ltb code 300)) [
        | inl ok ↦ rw (k, post_loop, ok) (ended-Promised attempt left none true (rw (k, ok)) refl)
        | inr not_ok ↦ elim (Bool-cases (leb 500 code && ltb code 600)) [
          | inl busy ↦
              rw (k, post_loop, not_ok, busy)
                (retried-Promised attempt left (some code) error _ h (rw (k, not_ok, busy))
                  (more (some code) error))
          | inr final ↦
              rw (k, post_loop, not_ok, final)
                (ended-Promised attempt left (some (non_retryable_status code)) false
                  (rw (k, not_ok, final)) refl)
        ]
      ]

  post_loop-Promised :
      (left attempt : ℕ) (status : Option ℕ) (error : Option Exception)
      → left + attempt ≡ suc max
      → 0 < left
      → Promised answers post attempt left (post_loop max answers post left attempt status error)
  post_loop-Promised zero attempt status error h k = absurd (omega arith)
  post_loop-Promised (suc left) attempt status error h k =
      answered-Promised left attempt status error (answers attempt) refl h
        λ status' error'. post_loop-Promised left (suc attempt) status' error' (omega arith)

  abbrev pub Fulfilled : (attempt left : ℕ) → Sent → Type 0
  Fulfilled attempt left sent =
      Decides (λ i. meaning (answers i)) attempt left (conclusion sent.warning) (length sent.posts)
      × All (λ p. p ≡ post) sent.posts
      × (sent.sleeps ≡ delays attempt (length sent.posts - 1))

  -- The same for a client that makes no attempt as well.
  pub post_loop-Fulfilled :
      (left attempt : ℕ) (status : Option ℕ) (error : Option Exception)
      → left + attempt ≡ suc max
      → Fulfilled attempt left (post_loop max answers post left attempt status error)
  unfolding post_loop
  post_loop-Fulfilled zero attempt status error h = ((refl, λ j k. absurd (omega arith)), tt, refl)
  post_loop-Fulfilled (suc left) attempt status error h =
      let (decides, same, n, waits) =
        post_loop-Promised (suc left) attempt status error h (omega arith) in
      let sent = post_loop max answers post (suc left) attempt status error in
      let e : length sent.sleeps ≡ length sent.posts - 1 = omega (arith, n) in
      (decides, same, subst (λ n. sent.sleeps ≡ delays attempt n) e waits)
