-- ===== src/Access/Guard.antt =====
-- No call passes the guard without credentials, and no call that needs none is limited.
use dev_zu_smart_ingest.Prelude.{
  ◌≡◌, ◌⊎◌, inl, inr, refl, ap, arith, Option, none, some, Bool, true, false, ◌||◌, any, drop,
  length, Bool-cases, String,
}
use dev_zu_smart_ingest.Prelude.Outcome.{
  Exception, Outcome, Outcome-cases, returned, raised, returned-injective,
}
use dev_zu_smart_ingest.Text.{Text, codes, is_empty, text_eq, text_eq→≡, starts_with}
use dev_zu_smart_ingest.Domain.Json.{Json, null, Fields, get}
use dev_zu_smart_ingest.Domain.Entities.{AuthContext}
use dev_zu_smart_ingest.Access.{
  is_exempt, is_rate_limit_exempt, auth_exempt_paths, rate_limit_exempt_paths, Request, Decoded,
  claims, jwt_error, other_error, bearer_prefix, api_context, is_api_key, header_or_empty,
  token_context, decoded_context, authenticate, unauthorized, dispatch, next_answer,
}

any_of_four : (a b c d : Bool) → (b || c || d) ≡ true → (a || b || c || d) ≡ true
any_of_four true b c d h = ground arith
any_of_four false b c d h = h

-- A path without authentication is not rate limited.
is_exempt-is_rate_limit_exempt :
    (path : Text) → is_exempt path ≡ true → is_rate_limit_exempt path ≡ true
unfolding is_exempt is_rate_limit_exempt
is_exempt-is_rate_limit_exempt path h =
    any_of_four (any (text_eq path) rate_limit_exempt_paths) (any (text_eq path) auth_exempt_paths)
      (starts_with path (codes "/docs")) (starts_with path (codes "/openapi")) h

module _ {F : Type 0} (expected_key : Text) (decode : Text → Decoded F)
    (py_str : Json F → String) where
  -- The API key of the service; or a token that decodes to claims with a `user_id`, which the
  -- context then names.
  abbrev pub IsCredential : Request → AuthContext → Type 0
  IsCredential request context =
      ((request.api_key ≡ some expected_key)
        × (is_empty expected_key ≡ false)
        × (context ≡ api_context))
      ⊎ ((body : Fields F) × (user_id : Json F) × (starts_with
              (header_or_empty request.authorization) bearer_prefix
            ≡ true)
          × (decode (drop (length bearer_prefix) (header_or_empty request.authorization))
              ≡ claims body)
          × (get "user_id" body ≡ some user_id)
          × (context.user_id ≡ py_str user_id)
          × (context.auth_method ≡ "wod_token"))

  is_api_key→≡ :
      (key : Option Text)
      → is_api_key key expected_key ≡ true
      → (key ≡ some expected_key) × (is_empty expected_key ≡ false)
  is_api_key→≡ none h = absurd (ground arith)
  is_api_key→≡ (some key) h =
      let same : key ≡ expected_key = text_eq→≡ key expected_key (ground (arith, h)) in
      (ap some same, rw (← same) (ground (arith, h)))

  token_context-some :
      (user_id : Option (Json F)) (body : Fields F) (context : AuthContext)
      → token_context py_str user_id body ≡ some context
      → (v : Json F) × (user_id ≡ some v)
        × (context.user_id ≡ py_str v)
        × (context.auth_method ≡ "wod_token")
  unfolding token_context
  token_context-some none body context h = absurd (ground arith)
  token_context-some (some null) body context h = absurd (ground arith)
  token_context-some (some v) body context h = (v, refl, ground (arith, h), ground (arith, h))

  decoded_context-some :
      (request : Request) (context : AuthContext)
      → starts_with (header_or_empty request.authorization) bearer_prefix ≡ true
      → (decoded : Decoded F)
      → decode (drop (length bearer_prefix) (header_or_empty request.authorization)) ≡ decoded
      → decoded_context py_str decoded ≡ returned (some context)
      → IsCredential request context
  unfolding decoded_context
  decoded_context-some request context bearer (claims body) d h =
      let (v, e, named, method) =
        token_context-some (get "user_id" body) body context (returned-injective h) in
      inr (body, v, bearer, d, e, named, method)
  decoded_context-some request context bearer jwt_error d h = absurd (ground (arith, h))
  decoded_context-some request context bearer (other_error e) d h = absurd (ground (arith, h))

  authenticate-IsCredential :
      (request : Request) (context : AuthContext)
      → authenticate expected_key decode py_str request ≡ returned (some context)
      → IsCredential request context
  unfolding authenticate
  authenticate-IsCredential request context h =
      let header = header_or_empty request.authorization in
      elim (Bool-cases (is_api_key request.api_key expected_key)) [
        | inl key ↦
            let (same, present) = is_api_key→≡ request.api_key key in
            inl (same, present, ground (arith, key, h))
        | inr no_key ↦ elim (Bool-cases (starts_with header bearer_prefix)) [
          | inl bearer ↦
              decoded_context-some request context bearer
                (decode (drop (length bearer_prefix) header)) refl (rw (no_key, bearer) at h)
          | inr no_bearer ↦ absurd (ground (arith, no_key, no_bearer, h))
        ]
      ]

module _ {F R : Type 0} (expected_key : Text) (decode : Text → Decoded F)
    (py_str : Json F → String) where
  -- A request to a path that is not exempt reaches the next handler with a context that its
  -- credentials give; otherwise it is answered 401, or raises, and the handler is not called.
  pub dispatch-guarded :
      (request : Request)
      → is_exempt request.path ≡ false
      → ((context : AuthContext) × IsCredential expected_key decode py_str request context
          × ((call_next : Option AuthContext → Outcome R)
              → dispatch expected_key decode py_str request call_next
                ≡ next_answer expected_key decode py_str (call_next (some context))))
        ⊎ (((call_next : Option AuthContext → Outcome R)
              → dispatch expected_key decode py_str request call_next ≡ returned unauthorized)
            ⊎ ((e : Exception) × ((call_next : Option AuthContext → Outcome R)
                  → dispatch expected_key decode py_str request call_next ≡ raised e)))
  unfolding dispatch
  dispatch-guarded request h =
      elim (Outcome-cases (authenticate expected_key decode py_str request)) [
        | inr (e, k) ↦ inr (inr (e, λ call_next. rw (h, k, dispatch) refl))
        | inl (none, k) ↦ inr (inl (λ call_next. rw (h, k, dispatch) refl))
        | inl (some context, k) ↦ inl (
          context,
          authenticate-IsCredential expected_key decode py_str request context k,
          λ call_next. rw (h, k, dispatch) refl,
        )
      ]
