-- ===== src/LargeContext/TransformLaws.antt =====
-- The handling of long contexts does not panic, and its recorded action is what it did.
use aiephant_ai_gateway.Common.{
  ℕ, ◌≤◌, ◌≡◌, ◌≢◌, refl, inl, inr, true, Option, none, some, is_some, Option-cases, Bool-cases,
  Result, ok, err, arith,
}
use aiephant_ai_gateway.Common.Text.{Text}
use aiephant_ai_gateway.LargeContext.{ChatCompletionsPayload}
use aiephant_ai_gateway.LargeContext.Parse.{Json, parse_chat_completions_payload}
use aiephant_ai_gateway.LargeContext.Budgets.{Floats, compute_input_budget_tokens}
use aiephant_ai_gateway.LargeContext.Headers.{
  TokenLimitExceptionHandler, truncate, middle_out, fallback, HeaderValue, InvalidRequestError,
  LargeContextHeaders, parse_large_context_headers, resolve,
}
use aiephant_ai_gateway.LargeContext.Models.{resolve_primary_model}
use aiephant_ai_gateway.LargeContext.Apply.{apply_truncate, apply_middle_out}
use aiephant_ai_gateway.LargeContext.ApplyLaws.{Shortened, apply_truncate-Shortened}
use aiephant_ai_gateway.LargeContext.Transform.{
  LargeContextAction, truncated, middle_out_applied, panics, Numbers, Choice, shorten_or_skip,
  with_budget, shorten_arm, fallback_arm, choose, budget_of, numbers, finish, with_primary,
  with_payload, with_headers, maybe_transform_unified_api_chat_request,
}

module _ (f : Floats) (j : Json) (estimate : ChatCompletionsPayload j.Value → Text → Option ℕ) where
  open j use {Value}

  with_budget-some :
      (done : LargeContextAction) (apply : ℕ → Option Value) (normalized : Option Value)
      (budget : ℕ)
      → with_budget f j estimate done apply normalized (some budget) ≢ none
  unfolding with_budget shorten_or_skip
  with_budget-some done apply normalized budget e = elim (Option-cases (apply budget)) [
    | inl none_ ↦ ground arith
    | inr (v, some_) ↦ ground arith
  ]

  -- A model with a limit has a budget.
  budget_of-some :
      (limit requested : Option ℕ)
      → is_some limit ≡ true
      → (budget : ℕ) × (budget_of f j estimate limit requested ≡ some budget)
  unfolding budget_of
  budget_of-some none requested e = cc e
  budget_of-some (some limit) requested e = (_, refl)

  shorten_arm-some :
      (done : LargeContextAction) (apply : ℕ → Option Value)
      (payload : ChatCompletionsPayload Value) (primary : Text) (normalized : Option Value)
      → shorten_arm f j estimate done apply payload
          (numbers f j estimate payload primary)
          normalized
        ≢ none
  unfolding shorten_arm numbers
  shorten_arm-some done apply payload primary normalized e =
      elim (Bool-cases (is_some (resolve primary))) [
        | inl limited ↦
            let (budget, b) =
              budget_of-some (resolve primary) payload.requested_completion_tokens limited in
            ground (arith, with_budget-some done apply normalized budget)
        | inr unlimited ↦ ground arith
      ]

  choose-some :
      (h : TokenLimitExceptionHandler) (payload : ChatCompletionsPayload Value)
      (source : Option Text) (primary : Text) (normalized : Option Value)
      → choose f j estimate h payload source primary
          (numbers f j estimate payload primary)
          normalized
        ≢ none
  unfolding choose fallback_arm
  choose-some fallback payload source primary normalized e = cc e
  choose-some truncate payload source primary normalized e =
      shorten_arm-some truncated (apply_truncate f j payload primary) payload primary normalized e
  choose-some middle_out payload source primary normalized e =
      shorten_arm-some middle_out_applied (apply_middle_out f j payload primary) payload primary
        normalized e

  finish-handled :
      (h : TokenLimitExceptionHandler) (source : Option Text) (primary : Text) (n : Numbers)
      (body : Text) (choice : Choice f j estimate)
      → choice ≢ none
      → finish f j estimate h source primary n body choice ≢ panics
  unfolding finish
  finish-handled h source primary n body none some_ e = some_ refl
  finish-handled h source primary n body (some (action, v)) some_ e = cc e

  with_primary-handled :
      (h : TokenLimitExceptionHandler) (payload : ChatCompletionsPayload Value)
      (source : Option Text) (body : Text) (primary : Option Text)
      → with_primary f j estimate h payload source body primary ≢ panics
  unfolding with_primary
  with_primary-handled h payload source body none e = cc e
  with_primary-handled h payload source body (some primary) e =
      finish-handled h source primary (numbers f j estimate payload primary) body _
        (choose-some h payload source primary _) e

  with_payload-handled :
      (h : TokenLimitExceptionHandler) (override : Option Text) (body : Text)
      (payload : Option (ChatCompletionsPayload Value))
      → with_payload f j estimate h override body payload ≢ panics
  unfolding with_payload
  with_payload-handled h override body none e = cc e
  with_payload-handled h override body (some payload) e =
      with_primary-handled h payload _ body (resolve_primary_model payload.model override) e

  with_headers-handled :
      (body : Text) (hs : Result InvalidRequestError LargeContextHeaders)
      → with_headers f j estimate body hs ≢ panics
  unfolding with_headers
  with_headers-handled body (err x) e = cc e
  with_headers-handled body (ok hs) e = elim (Option-cases hs.handler) [
    | inl none_ ↦ cc (rw none_ at e)
    | inr (h, some_) ↦
        with_payload-handled h hs.model_override body (parse_chat_completions_payload j body)
          (rw some_ at e)
  ]

  -- A request is always handled: the budget that shortening expects is there whenever it is needed.
  pub maybe_transform-handled :
      (handler_header override_header : Option HeaderValue) (body : Text)
      → maybe_transform_unified_api_chat_request f j estimate handler_header override_header body
        ≢ panics
  unfolding maybe_transform_unified_api_chat_request
  maybe_transform-handled handler_header override_header body =
      with_headers-handled body (parse_large_context_headers handler_header override_header)

  -- A recorded truncation is one: the model has a limit, the estimate has reached the budget computed
  -- from it, and the new request is the old one shortened to that budget.
  pub choose-truncated :
      (payload : ChatCompletionsPayload Value) (source : Option Text) (primary : Text)
      (normalized transformed : Option Value)
      → choose f j estimate truncate payload source primary
          (numbers f j estimate payload primary)
          normalized
        ≡ some (truncated, transformed)
      → (limit estimated : ℕ) × (resolve primary ≡ some limit)
        × (estimate payload primary ≡ some estimated)
        × (compute_input_budget_tokens limit payload.requested_completion_tokens ≤ estimated)
        × (v : Value) × (transformed ≡ some v)
        × Shortened f j payload primary
            (compute_input_budget_tokens limit payload.requested_completion_tokens)
            v
  unfolding choose shorten_arm numbers budget_of with_budget shorten_or_skip
  choose-truncated payload source primary normalized transformed e =
      elim (Option-cases (resolve primary)) [
        | inl unlimited ↦ absurd (ground arith)
        | inr (limit, limited) ↦ elim (Option-cases (estimate payload primary)) [
          | inl unknown ↦ absurd (ground arith)
          | inr (estimated, known) ↦
              let budget = compute_input_budget_tokens limit payload.requested_completion_tokens in
              elim (Option-cases (apply_truncate f j payload primary budget)) [
                | inl none_ ↦ absurd (ground arith)
                | inr (v, some_) ↦ (
                  limit,
                  estimated,
                  limited,
                  known,
                  ground arith,
                  v,
                  ground arith,
                  apply_truncate-Shortened f j payload primary budget v some_,
                )
              ]
        ]
      ]
