-- ===== src/Access/Limits.antt =====
-- api/middleware/rate_limit.py: where the counters are kept and how a 429 is answered. `is_digit` says
-- which characters `str.isdigit` accepts; `inject` is what slowapi makes of the headers, whether it
-- raises or not.
use dev_zu_smart_ingest.Prelude.{
  String, ℕ, ◌+◌, Option, none, some, List, [], ◌∷◌, ◌++◌, ◌≡◌, refl, arith, Bool, true, false, not,
  ◌&&◌, ltb, ◌==◌, if◌then◌else◌, take, drop, str_eq, eq_refl, Option-cases, Bool-cases, inl, inr,
}
use dev_zu_smart_ingest.Prelude.Int.{pos}
use dev_zu_smart_ingest.Prelude.Outcome.{Outcome}
use dev_zu_smart_ingest.Prelude.Int.{ℤ}
use dev_zu_smart_ingest.Text.{Text, codes, is_empty, starts_with, without_slashes}
use dev_zu_smart_ingest.Text.Number.{int_text}
use dev_zu_smart_ingest.Dict.{get, put, get-put}
use dev_zu_smart_ingest.Access.{retry_after_seconds}

abbrev later : Option ℕ → Option ℕ
later none = none
later (some n) = some (1 + n)

-- `s.find(p)` and `s.rfind("/")`, with None for -1.
unfoldable pub find_text : Text → Text → Option ℕ
unfolding starts_with
find_text p [] = if is_empty p then some 0 else none
find_text p (c ∷ s) =
    let rest = find_text p s in if starts_with (c ∷ s) p then some 0 else later rest

abbrev at_or : Bool → Option ℕ → Option ℕ
at_or here none = if here then some 0 else none
at_or here (some n) = some (1 + n)

unfoldable pub last_slash : Text → Option ℕ
last_slash [] = none
last_slash (c ∷ s) = at_or (c == 0x2f) (last_slash s)

abbrev next_of : Option ℕ → ℕ
next_of none = 0
next_of (some n) = 1 + n

abbrev all_digits : (ℕ → Bool) → Text → Bool
all_digits is_digit [] = true
all_digits is_digit (c ∷ s) = is_digit c && all_digits is_digit s

-- `s.isdigit()`
abbrev is_digits : (ℕ → Bool) → Text → Bool
is_digits is_digit s = not (is_empty s) && all_digits is_digit s

-- The base URL without the number of a database.
unfoldable pub without_db : (is_digit : ℕ → Bool) → Text → Option ℕ → Text
unfolding find_text
without_db is_digit base none = base
without_db is_digit base (some i) =
    if ltb (next_of (find_text (codes "//") base)) i && is_digits is_digit (drop (1 + i) base)
    then take i base
    else base

abbrev pub rate_limit_redis_db : ℕ
rate_limit_redis_db = 4

unfoldable pub build_storage_uri : (is_digit : ℕ → Bool) → (redis_url : Text) → (db : ℕ) → Text
unfolding without_slashes last_slash without_db
build_storage_uri is_digit redis_url db =
    let base = without_slashes redis_url in
    without_db is_digit base (last_slash base) ++ (b'/' ∷ int_text (pos db))

abbrev pub Headers : Type 0
Headers = List (String × Text)

abbrev absent : Option Text → Bool
absent none = true
absent (some v) = false

-- Fills in a header that is absent.
unfoldable pub ensure : String → Text → Headers → Headers
unfolding get put
ensure name v headers = if absent (get name headers) then put name v headers else headers

abbrev ensure_limit : Option ℕ → Headers → Headers
unfolding ensure
ensure_limit none headers = headers
ensure_limit (some amount) headers = ensure "X-RateLimit-Limit" (int_text (pos amount)) headers

pub record Limited : Type 0 where
  pub status_code : ℕ
  pub detail : Text
  pub retry_after : ℕ
  pub headers : Headers

-- The headers are slowapi's to fill in only for a request that has a limit.
abbrev injected : Option (Outcome ℤ) → (Headers → Headers) → Headers → Headers
injected none inject headers = headers
injected (some window) inject headers = inject headers

-- `custom_429_handler`: `limit` is the amount that the exception names, `now` the seconds since 1970.
unfoldable pub custom_429_handler :
    (inject : Headers → Headers)
    → (window : Option (Outcome ℤ)) → (limit : Option ℕ) → (now : ℕ) → Limited
unfolding retry_after_seconds ensure put
custom_429_handler inject window limit now =
    let retry_after = retry_after_seconds window in
    let seconds = int_text (pos retry_after) in
    let seeded = injected window inject (put "Retry-After" seconds []) in
    record {
      status_code = 429;
      detail = codes "Rate limit exceeded";
      retry_after = retry_after;
      headers = ensure "Retry-After" seconds (
          ensure "X-RateLimit-Reset" (int_text (pos (now + retry_after)))
            (ensure "X-RateLimit-Remaining" (codes "0") (ensure_limit limit seeded)));
    }

abbrev HasHeader : String → Headers → Type 0
HasHeader name headers = (v : Text) × (get name headers ≡ some v)

ensure-HasHeader :
    (name : String) (v : Text) (headers : Headers) → HasHeader name (ensure name v headers)
unfolding ensure
ensure-HasHeader name v headers = elim (Option-cases (get name headers)) [
  | inl missing ↦ (v, ground (arith, missing, get-put name name v headers, eq_refl name))
  | inr (w, found) ↦ (w, rw (found) found)
]

ensure-HasHeader_other :
    (name other : String) (v : Text) (headers : Headers)
    → HasHeader other headers
    → HasHeader other (ensure name v headers)
unfolding ensure
ensure-HasHeader_other name other v headers (w, h) = elim (Option-cases (get name headers)) [
  | inl missing ↦ elim (Bool-cases (str_eq name other)) [
    | inl same ↦ (v, rw (missing, get-put name other v headers, same) refl)
    | inr apart ↦ (w, rw (missing, get-put name other v headers, apart) h)
  ]
  | inr (u, found) ↦ (w, rw (found) h)
]

-- Headers that are filled in one after the other are all there.
ensure_all-HasHeader :
    (a b c d : String) (u v w x : Text) (headers : Headers)
    → let h1 = ensure a u headers in
      let h2 = ensure b v h1 in
      let h3 = ensure c w h2 in
      let h4 = ensure d x h3 in HasHeader a h4 × HasHeader b h4 × HasHeader c h4 × HasHeader d h4
ensure_all-HasHeader a b c d u v w x headers =
    let h1 = ensure a u headers in
    let h2 = ensure b v h1 in
    let h3 = ensure c w h2 in
    let kept = ensure-HasHeader_other in
    (
      kept d a x h3 (kept c a w h2 (kept b a v h1 (ensure-HasHeader a u headers))),
      kept d b x h3 (kept c b w h2 (ensure-HasHeader b v h1)),
      kept d c x h3 (ensure-HasHeader c w h2),
      ensure-HasHeader d x h3,
    )

-- Each answer has the four headers, whatever slowapi does with them, if the exception has its limit.
custom_429_handler-HasHeader :
    (inject : Headers → Headers) (window : Option (Outcome ℤ)) (limit now : ℕ)
    → let headers = (custom_429_handler inject window (some limit) now).headers in
      HasHeader "X-RateLimit-Limit" headers
      × HasHeader "X-RateLimit-Remaining" headers
      × HasHeader "X-RateLimit-Reset" headers
      × HasHeader "Retry-After" headers
unfolding custom_429_handler
custom_429_handler-HasHeader inject window limit now =
    let seconds = int_text (pos (retry_after_seconds window)) in
    ensure_all-HasHeader "X-RateLimit-Limit" "X-RateLimit-Remaining" "X-RateLimit-Reset"
      "Retry-After" (int_text (pos limit)) (codes "0")
      (int_text (pos (now + retry_after_seconds window))) seconds
      (injected window inject (put "Retry-After" seconds []))
