-- ===== src/Retry.antt =====
-- What a bounded retry loop promises, for infrastructure/callback/client.py and
-- infrastructure/ollama/client.py: the first decisive answer among the attempts that it may make.
use dev_zu_smart_ingest.Prelude.{ℕ, zero, suc, ◌+◌, ◌<◌, ◌≡◌, refl, arith, Option, none, some}

-- What an answer means to the loop: it ends it, or the next attempt is due.
pub data Verdict {ℓ} (R : Type ℓ) : Type ℓ where
  decided : R → Verdict R
  again : Verdict R

module _ {ℓ} {R : Type ℓ} where
  -- The answers of the `n` attempts from number `from` on ask for another attempt.
  abbrev pub AllAgain : (ℕ → Verdict R) → (from n : ℕ) → Type ℓ
  AllAgain verdict from n = (j : ℕ) → j < n → verdict (from + j) ≡ again

  -- Of `n` attempts from number `from` on, the first that decides gives the result and is the last
  -- that is made; without one, all of them are made and there is no result.
  abbrev pub Decides : (ℕ → Verdict R) → (from n : ℕ) → Option R → (used : ℕ) → Type ℓ
  Decides verdict from n (some r) used =
      (k : ℕ) × (k < n)
      × (used ≡ suc k)
      × (verdict (from + k) ≡ decided r)
      × AllAgain verdict from k
  Decides verdict from n none used = (used ≡ n) × AllAgain verdict from n

  AllAgain-suc :
      (verdict : ℕ → Verdict R) (from n : ℕ)
      → verdict from ≡ again
      → AllAgain verdict (suc from) n
      → AllAgain verdict from (suc n)
  AllAgain-suc verdict from n h rest zero k = let e : from + 0 ≡ from = omega arith in rw e h
  AllAgain-suc verdict from n h rest (suc j) k =
      let e : from + suc j ≡ suc from + j = omega arith in rw e (rest j (omega arith))

  pub Decides-first :
      (verdict : ℕ → Verdict R) (from n : ℕ) (r : R)
      → verdict from ≡ decided r
      → Decides verdict from (suc n) (some r) 1
  Decides-first verdict from n r h =
      let e : from + 0 ≡ from = omega arith in
      (0, omega arith, refl, rw e h, λ j k. absurd (omega arith))

  pub Decides-later :
      (verdict : ℕ → Verdict R) (from n : ℕ) (result : Option R) (used : ℕ)
      → verdict from ≡ again
      → Decides verdict (suc from) n result used
      → Decides verdict from (suc n) result (suc used)
  Decides-later verdict from n none used h (e, rest) =
      (omega arith, AllAgain-suc verdict from n h rest)
  Decides-later verdict from n (some r) used h (k, low, e, hit, rest) =
      let e' : from + suc k ≡ suc from + k = omega arith in
      (suc k, omega arith, omega arith, rw e' hit, AllAgain-suc verdict from k h rest)
