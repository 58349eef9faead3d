-- ===== src/LargeContext/Transform.antt =====
-- middleware/large_context/mod.rs: what happens to a chat request whose sender asks for the handling of
-- long contexts. The token estimators and serde_json are parameters.
use aiephant_ai_gateway.Common.{
  ℕ, Bool, false, not, Option, none, some, option_or, is_some, length, ltb, Result, ok, err,
  if◌then◌else◌,
}
use aiephant_ai_gateway.Common.Text.{Text, text_eq}
use aiephant_ai_gateway.LargeContext.{ChatCompletionsPayload}
use aiephant_ai_gateway.LargeContext.Parse.{Json, parse_chat_completions_payload}
use aiephant_ai_gateway.LargeContext.Budgets.{Floats, compute_input_budget_tokens}
use aiephant_ai_gateway.LargeContext.Headers.{
  TokenLimitExceptionHandler, truncate, middle_out, fallback, HeaderValue, InvalidRequestError,
  invalid_request_body, LargeContextHeaders, parse_large_context_headers, resolve,
}
use aiephant_ai_gateway.LargeContext.Models.{
  resolve_primary_model, extract_fallback_model_candidates,
}
use aiephant_ai_gateway.LargeContext.Apply.{
  no_messages, apply_truncate, apply_middle_out, apply_fallback,
}

pub data LargeContextAction : Type 0 where
  skipped_no_model skipped_no_text_messages skipped_non_text_messages skipped_no_estimate
        skipped_below_limit skipped_no_model_limit skipped_no_fallback_model truncated
        middle_out_applied fallback_applied :
      LargeContextAction

pub record LargeContextDecision : Type 0 where
  pub handler : TokenLimitExceptionHandler
  pub action : LargeContextAction
  pub original_model : Option Text
  pub effective_model : Option Text
  pub estimated_input_tokens : Option ℕ
  pub model_context_limit : Option ℕ
  pub input_budget_tokens : Option ℕ

-- The decision that is recorded and the answer, or the panic of an `expect`.
pub data Handled : Type 0 where
  panics : Handled
  handled : Option LargeContextDecision → Result InvalidRequestError Text → Handled

-- The numbers that a handler decides by.
pub record Numbers : Type 0 where
  pub model_context_limit : Option ℕ
  pub estimated_input_tokens : Option ℕ
  pub input_budget_tokens : Option ℕ

-- `estimated.zip(budget).is_some_and(|(e, b)| e < b)`.
abbrev pub below_limit : Option ℕ → Option ℕ → Bool
below_limit (some e) (some b) = ltb e b
below_limit none _ = false
below_limit (some e) none = false

abbrev pub has_fewer_than_two : Option Text → Bool
has_fewer_than_two none = false
has_fewer_than_two (some source) = ltb (length (extract_fallback_model_candidates source)) 2

module _ (f : Floats) (j : Json) (estimate : ChatCompletionsPayload j.Value → Text → Option ℕ) where
  open j use {Value, with_model, to_vec}

  -- An action with the body it leads to; `none` is a panic.
  abbrev pub Choice : Type 0
  Choice = Option (LargeContextAction × Option Value)

  unfoldable pub shorten_or_skip : LargeContextAction → Option Value → Option Value → Choice
  shorten_or_skip done none normalized = some (skipped_no_text_messages, normalized)
  shorten_or_skip done (some v) normalized = some (done, some v)

  unfoldable pub with_budget :
      LargeContextAction → (ℕ → Option Value) → Option Value → Option ℕ → Choice
  unfolding shorten_or_skip
  with_budget done apply normalized none = none
  with_budget done apply normalized (some budget) = shorten_or_skip done (apply budget) normalized

  -- The arms of `Truncate` and `MiddleOut`, which differ in what they apply.
  unfoldable pub shorten_arm :
      LargeContextAction
      → (ℕ → Option Value)
      → ChatCompletionsPayload Value
      → Numbers
      → Option Value
      → Choice
  unfolding with_budget
  shorten_arm done apply payload n normalized =
      if no_messages payload.messages
      then some (skipped_no_text_messages, normalized)
      else if payload.has_non_text_message_content
      then some (skipped_non_text_messages, normalized)
      else if not (is_some n.model_context_limit)
      then some (skipped_no_model_limit, normalized)
      else if not (is_some n.estimated_input_tokens)
      then some (skipped_no_estimate, normalized)
      else if below_limit n.estimated_input_tokens n.input_budget_tokens
      then some (skipped_below_limit, normalized)
      else with_budget done apply normalized n.input_budget_tokens

  unfoldable pub fallback_value :
      ChatCompletionsPayload Value → Option Text → Numbers → Option Value
  unfolding apply_fallback
  fallback_value payload none n = none
  fallback_value payload (some source) n =
      apply_fallback j payload source n.estimated_input_tokens n.input_budget_tokens

  unfoldable pub fallback_arm :
      ChatCompletionsPayload Value → Option Text → Numbers → Option Value → Choice
  unfolding fallback_value
  fallback_arm payload source n normalized =
      let transformed = fallback_value payload source n in
      let action =
        if is_some transformed
        then fallback_applied
        else if has_fewer_than_two source
        then skipped_no_fallback_model
        else skipped_below_limit in
      some (action, option_or transformed normalized)

  unfoldable pub choose :
      TokenLimitExceptionHandler
      → ChatCompletionsPayload Value
      → Option Text
      → Text
      → Numbers
      → Option Value
      → Choice
  unfolding shorten_arm fallback_arm
  choose fallback payload source primary n normalized = fallback_arm payload source n normalized
  choose truncate payload source primary n normalized =
      shorten_arm truncated (apply_truncate f j payload primary) payload n normalized
  choose middle_out payload source primary n normalized =
      shorten_arm middle_out_applied (apply_middle_out f j payload primary) payload n normalized

  unfoldable pub budget_of : Option ℕ → Option ℕ → Option ℕ
  unfolding compute_input_budget_tokens
  budget_of none requested = none
  budget_of (some limit) requested = some (compute_input_budget_tokens limit requested)

  unfoldable pub numbers : ChatCompletionsPayload Value → Text → Numbers
  unfolding budget_of resolve
  numbers payload primary = record {
    model_context_limit = resolve primary;
    estimated_input_tokens = estimate payload primary;
    input_budget_tokens = budget_of (resolve primary) payload.requested_completion_tokens;
  }

  same_model : Option Text → Text → Bool
  same_model none primary = false
  same_model (some model) primary = text_eq model primary

  normalized_model_body : ChatCompletionsPayload Value → Text → Option Value
  unfolding same_model
  normalized_model_body payload primary =
      if same_model payload.model primary then none else some (with_model payload.raw primary)

  model_in : Option Value → Option Text
  model_in none = none
  model_in (some v) = j.model_of v

  serialized : Option Text → Result InvalidRequestError Text
  serialized none = err invalid_request_body
  serialized (some body) = ok body

  answer : Text → Option Value → Result InvalidRequestError Text
  unfolding serialized
  answer body none = ok body
  answer body (some v) = serialized (to_vec v)

  unfoldable pub finish :
      TokenLimitExceptionHandler → Option Text → Text → Numbers → Text → Choice → Handled
  unfolding answer model_in
  finish h source primary n body none = panics
  finish h source primary n body (some (action, transformed)) =
      handled
        (some (record {
          handler = h;
          action = action;
          original_model = source;
          effective_model = option_or (model_in transformed) (some primary);
          estimated_input_tokens = n.estimated_input_tokens;
          model_context_limit = n.model_context_limit;
          input_budget_tokens = n.input_budget_tokens;
        }))
        (answer body transformed)

  unfoldable pub with_primary :
      TokenLimitExceptionHandler
      → ChatCompletionsPayload Value
      → Option Text
      → Text
      → Option Text
      → Handled
  unfolding finish choose numbers normalized_model_body
  with_primary h payload source body none =
      handled
        (some (record {
          handler = h;
          action = skipped_no_model;
          original_model = source;
          effective_model = none;
          estimated_input_tokens = none;
          model_context_limit = none;
          input_budget_tokens = none;
        }))
        (ok body)
  with_primary h payload source body (some primary) =
      let n = numbers payload primary in
      finish h source primary n body
        (choose h payload source primary n (normalized_model_body payload primary))

  unfoldable pub with_payload :
      TokenLimitExceptionHandler
      → Option Text
      → Text
      → Option (ChatCompletionsPayload Value)
      → Handled
  unfolding with_primary resolve_primary_model
  with_payload h model_override body none = handled none (ok body)
  with_payload h model_override body (some payload) =
      with_primary h payload (option_or payload.model model_override) body
        (resolve_primary_model payload.model model_override)

  unfoldable pub with_headers : Text → Result InvalidRequestError LargeContextHeaders → Handled
  unfolding with_payload parse_chat_completions_payload
  with_headers body (err e) = handled none (err e)
  with_headers body (ok hs) = elim hs.handler [
    | none ↦ handled none (ok body)
    | some h ↦ with_payload h hs.model_override body (parse_chat_completions_payload j body)
  ]

  unfoldable pub maybe_transform_unified_api_chat_request :
      Option HeaderValue → Option HeaderValue → Text → Handled
  unfolding with_headers parse_large_context_headers
  maybe_transform_unified_api_chat_request handler_header override_header body =
      with_headers body (parse_large_context_headers handler_header override_header)
