-- ===== src/LargeContext/Apply.antt =====
-- middleware/large_context/heuristics.rs: what truncation, middle-out and fallback make of a request.
use aiephant_ai_gateway.Common.{
  ℕ, Bool, true, false, ◌||◌, Option, none, some, List, [], ◌∷◌, leb, ◌==◌, if◌then◌else◌,
}
use aiephant_ai_gateway.Common.Text.{Text}
use aiephant_ai_gateway.LargeContext.{ChatMessageTextRef, ChatCompletionsPayload}
use aiephant_ai_gateway.LargeContext.Parse.{Json}
use aiephant_ai_gateway.LargeContext.Shorten.{truncate_text_to_limit, middle_out_text_to_limit}
use aiephant_ai_gateway.LargeContext.Budgets.{
  Floats, budget_chars, total_message_chars, proportional_char_budgets,
}
use aiephant_ai_gateway.LargeContext.Models.{extract_fallback_model_candidates}

unfoldable pub shortened : (Text → ℕ → Text) → List ChatMessageTextRef → List ℕ → List (ℕ × Text)
shortened shorten [] bs = []
shortened shorten (m ∷ ms) [] = []
shortened shorten (m ∷ ms) (b ∷ bs) = (m.index, shorten m.content b) ∷ shortened shorten ms bs

abbrev pub no_messages : List ChatMessageTextRef → Bool
no_messages [] = true
no_messages (m ∷ ms) = false

module _ (f : Floats) (j : Json) where
  open j use {Value, with_model, has_messages, set_content}

  unfoldable pub write_contents : List (ℕ × Text) → Value → Value
  write_contents [] v = v
  write_contents ((index, content) ∷ rest) v = write_contents rest (set_content v index content)

  -- The two functions differ in how they shorten a text.
  unfoldable pub apply_shortening :
      (Text → ℕ → Text) → ChatCompletionsPayload Value → Text → ℕ → Option Value
  unfolding write_contents shortened
  apply_shortening shorten payload primary_model input_budget_tokens =
      let total = budget_chars f input_budget_tokens primary_model in
      let cloned = with_model payload.raw primary_model in
      if payload.has_non_text_message_content || no_messages payload.messages
      then none
      else if total == 0
      then none
      else if leb (total_message_chars payload.messages) total
      then none
      else if has_messages cloned
      then some (
          write_contents
            (shortened shorten payload.messages (proportional_char_budgets payload.messages total))
            cloned)
      else none

  unfoldable pub apply_truncate : ChatCompletionsPayload Value → Text → ℕ → Option Value
  apply_truncate = apply_shortening truncate_text_to_limit

  unfoldable pub apply_middle_out : ChatCompletionsPayload Value → Text → ℕ → Option Value
  apply_middle_out = apply_shortening middle_out_text_to_limit

abbrev second : List Text → Option Text
second [] = none
second (t ∷ []) = none
second (t ∷ u ∷ ts) = some u

-- Without both numbers the fallback applies, and with them if the estimate reaches the budget.
abbrev pub over_budget : Option ℕ → Option ℕ → Bool
over_budget (some estimated) (some budget) = leb budget estimated
over_budget none _ = true
over_budget (some _) none = true

module _ (j : Json) where
  open j use {Value, with_model}

  fall_back_to : ChatCompletionsPayload Value → Bool → Option Text → Option Value
  fall_back_to payload applies none = none
  fall_back_to payload applies (some model) =
      if applies then some (with_model payload.raw model) else none

  unfoldable pub apply_fallback :
      ChatCompletionsPayload Value → Text → Option ℕ → Option ℕ → Option Value
  unfolding fall_back_to
  apply_fallback payload model_source estimated budget =
      fall_back_to payload (over_budget estimated budget)
        (second (extract_fallback_model_candidates model_source))
