-- ===== src/LargeContext/ApplyLaws.antt =====
-- Shortened requests fit the budget of their model.
use aiephant_ai_gateway.Common.{ℕ, ◌+◌, ◌≤◌, ◌≡◌, refl, ap, some, List, [], ◌∷◌, map, length, arith}
use aiephant_ai_gateway.Common.Text.{Text}
use aiephant_ai_gateway.LargeContext.{ChatMessageTextRef, ChatCompletionsPayload}
use aiephant_ai_gateway.LargeContext.Shorten.{
  normalize_text, truncate_text_to_limit, middle_out_text_to_limit,
}
use aiephant_ai_gateway.LargeContext.ShortenLaws.{
  length-normalize_text, truncate_text_to_limit-fits, middle_out_text_to_limit-fits,
}
use aiephant_ai_gateway.LargeContext.Budgets.{
  Floats, budget_chars, proportional_char_budgets, sum, sum-proportional_char_budgets,
}
use aiephant_ai_gateway.LargeContext.Parse.{Json}
use aiephant_ai_gateway.LargeContext.Apply.{
  shortened, write_contents, apply_shortening, apply_truncate, apply_middle_out,
}

abbrev pub contents_chars : List (ℕ × Text) → ℕ
contents_chars [] = 0
contents_chars ((index, content) ∷ rest) = length (normalize_text content) + contents_chars rest

abbrev pub Fits : (Text → ℕ → Text) → Type 0
Fits shorten = (text : Text) (max_chars : ℕ) → length (shorten text max_chars) ≤ max_chars

contents_chars-shortened :
    (shorten : Text → ℕ → Text)
    → Fits shorten
    → (ms : List ChatMessageTextRef) (bs : List ℕ)
    → contents_chars (shortened shorten ms bs) ≤ sum bs
unfolding shortened
contents_chars-shortened shorten fits [] bs = omega arith
contents_chars-shortened shorten fits (m ∷ ms) [] = omega arith
contents_chars-shortened shorten fits (m ∷ ms) (b ∷ bs) = omega (
  arith,
  length-normalize_text (shorten m.content b),
  fits m.content b,
  contents_chars-shortened shorten fits ms bs,
)

indices-shortened :
    (shorten : Text → ℕ → Text) (ms : List ChatMessageTextRef) (bs : List ℕ)
    → length bs ≡ length ms
    → map (λ c. c.0) (shortened shorten ms bs) ≡ map (λ m. m.index) ms
unfolding shortened
indices-shortened shorten [] bs e = refl
indices-shortened shorten (m ∷ ms) [] e = absurd (omega arith)
indices-shortened shorten (m ∷ ms) (b ∷ bs) e =
    ap (λ l. m.index ∷ l) (indices-shortened shorten ms bs (omega arith))

module _ (f : Floats) (j : Json) where
  open j use {Value, with_model}

  -- The new request is the old one with the model and the contents set, of every message and within
  -- the budget.
  abbrev pub Shortened : ChatCompletionsPayload Value → Text → ℕ → Value → Type 0
  Shortened payload model budget v =
      (contents : List (ℕ × Text)) × (v
        ≡ write_contents f j contents (with_model payload.raw model))
      × (map (λ c. c.0) contents ≡ map (λ m. m.index) payload.messages)
      × (contents_chars contents ≤ budget_chars f budget model)

  apply_shortening-Shortened :
      (shorten : Text → ℕ → Text)
      → Fits shorten
      → (payload : ChatCompletionsPayload Value) (model : Text) (budget : ℕ) (v : Value)
      → apply_shortening f j shorten payload model budget ≡ some v
      → Shortened payload model budget v
  unfolding apply_shortening
  apply_shortening-Shortened shorten fits payload model budget v e =
      let total = budget_chars f budget model in
      let bs = proportional_char_budgets payload.messages total in
      let contents = shortened shorten payload.messages bs in
      let (every, shares) = sum-proportional_char_budgets payload.messages total in
      (
        contents,
        ground arith,
        indices-shortened shorten payload.messages bs every,
        ground (arith, contents_chars-shortened shorten fits payload.messages bs, shares),
      )

  -- A truncated request is the old one with its model and the contents of all its text messages set,
  -- and the new contents have together no more characters, normalized, than the budget.
  pub apply_truncate-Shortened :
      (payload : ChatCompletionsPayload Value) (model : Text) (budget : ℕ) (v : Value)
      → apply_truncate f j payload model budget ≡ some v
      → Shortened payload model budget v
  unfolding apply_truncate
  apply_truncate-Shortened =
      apply_shortening-Shortened truncate_text_to_limit
        (λ text n. (truncate_text_to_limit-fits text n).0)

  -- The same of a request that is shortened in the middle of its messages.
  pub apply_middle_out-Shortened :
      (payload : ChatCompletionsPayload Value) (model : Text) (budget : ℕ) (v : Value)
      → apply_middle_out f j payload model budget ≡ some v
      → Shortened payload model budget v
  unfolding apply_middle_out
  apply_middle_out-Shortened =
      apply_shortening-Shortened middle_out_text_to_limit
        (λ text n. ground (arith, middle_out_text_to_limit-fits text n))
