-- ===== src/LargeContext/Budgets.antt =====
-- middleware/large_context/heuristics.rs: how the characters of a model's context are shared out among
-- the messages. `f32` is a parameter.
use aiephant_ai_gateway.Common.{
  ℕ, suc, ◌+◌, ◌-◌, ◌*◌, ◌/◌, ◌^◌, ◌≤◌, ◌<◌, ◌≡◌, refl, ap, ◌⊎◌, inl, inr, min, max, Bool, true,
  false, ◌||◌, Option, none, some, unwrap_or, List, [], ◌∷◌, map, length, ◌==◌, if◌then◌else◌,
  arith, Bool-cases,
}
use aiephant_ai_gateway.Common.Text.{Text, codes, trim, to_ascii_lowercase, starts_with}
use native.Mathlib.Nat.{div-lt_iff_lt-mul}
use aiephant_ai_gateway.LargeContext.{ChatMessageTextRef}
use aiephant_ai_gateway.LargeContext.Shorten.{normalize_text}

-- What the code uses of `f32`.
pub record Floats : Type 1 where
  pub F32 : Type 0
  pub quarter : F32
  pub fifth : F32
  pub nine_tenths : F32
  pub of_u32 : ℕ → F32
  pub div : F32 → F32 → F32
  pub mul : F32 → F32 → F32
  -- `floor() as usize`.
  pub floor : F32 → ℕ

-- `split_once('/')`: what follows the first slash, or all of the text.
after_slash : Text → Option Text
after_slash [] = none
after_slash (c ∷ s) = if c == b'/' then some s else after_slash s

tokens_per_char : (f : Floats) → Text → f.F32
unfolding after_slash starts_with to_ascii_lowercase trim
tokens_per_char f model =
    let normalized = to_ascii_lowercase (trim model) in
    let suffix = unwrap_or (after_slash normalized) normalized in
    if starts_with (codes "gpt-3.5-turbo") suffix then f.fifth else f.quarter

unfoldable pub budget_chars : Floats → ℕ → Text → ℕ
unfolding tokens_per_char
budget_chars f input_budget_tokens primary_model =
    f.floor
      (f.mul (f.div (f.of_u32 input_budget_tokens) (tokens_per_char f primary_model)) f.nine_tenths)

abbrev pub message_chars : ChatMessageTextRef → ℕ
message_chars m = length (normalize_text m.content)

abbrev pub sum : List ℕ → ℕ
sum [] = 0
sum (n ∷ ns) = n + sum ns

-- `total_message_chars`.
unfoldable pub total_message_chars : List ChatMessageTextRef → ℕ
total_message_chars messages = sum (map message_chars messages)

-- `usize` has 64 bits.
abbrev saturating_mul : ℕ → ℕ → ℕ
saturating_mul a b = min (a * b) (2 ^ 64 - 1)

abbrev is_last : List ChatMessageTextRef → Bool
is_last [] = true
is_last (m ∷ ms) = false

unfoldable pub message_budget : Bool → ℕ → ℕ → ℕ → ℕ
message_budget last chars remaining_chars remaining_source_chars =
    if last
    then remaining_chars
    else if remaining_source_chars == 0
    then 0
    else saturating_mul chars remaining_chars / remaining_source_chars

-- The loop of `proportional_char_budgets`.
unfoldable pub share : ℕ → ℕ → List ChatMessageTextRef → List ℕ
share remaining_chars remaining_source_chars [] = []
share remaining_chars remaining_source_chars (m ∷ ms) =
    let chars = message_chars m in
    let budget = message_budget (is_last ms) chars remaining_chars remaining_source_chars in
    budget ∷ share (remaining_chars - budget) (remaining_source_chars - chars) ms

abbrev pub no_budget : ChatMessageTextRef → ℕ
no_budget m = 0

unfoldable pub proportional_char_budgets : List ChatMessageTextRef → ℕ → List ℕ
unfolding share
proportional_char_budgets messages total_budget_chars =
    let total_chars = total_message_chars messages in
    if total_chars == 0 || total_budget_chars == 0
    then map no_budget messages
    else share total_budget_chars total_chars messages

-- `compute_input_budget_tokens`.
unfoldable pub compute_input_budget_tokens : ℕ → Option ℕ → ℕ
compute_input_budget_tokens limit requested = limit - unwrap_or requested (max (limit / 10) 1)

message_budget_bound :
    (last : Bool) (chars rest remaining : ℕ)
    → message_budget last chars remaining (chars + rest) ≤ remaining
unfolding message_budget
message_budget_bound true chars rest remaining = omega arith
message_budget_bound false chars rest remaining = elim (Bool-cases (chars + rest == 0)) [
  | inl none_ ↦ rw none_ (omega arith)
  | inr some_ ↦
      let k = chars + rest in
      let positive : 0 < k = ground arith in
      let below : saturating_mul chars remaining < suc remaining * k = omega arith in
      let quotient : saturating_mul chars remaining / k < suc remaining =
        (div-lt_iff_lt-mul positive).1 below in
      rw some_ (omega arith)
]

message_budget_last :
    (chars remaining source : ℕ) → message_budget true chars remaining source ≡ remaining
unfolding message_budget
message_budget_last chars remaining source = refl

share_step :
    (r k : ℕ) (m n : ChatMessageTextRef) (ms : List ChatMessageTextRef)
    → sum (share r k (m ∷ n ∷ ms))
      ≡ message_budget false (message_chars m) r k
        + sum
            (share (r - message_budget false (message_chars m) r k) (k - message_chars m) (n ∷ ms))
unfolding share
share_step r k m n ms = refl

share_last :
    (r k : ℕ) (m : ChatMessageTextRef)
    → sum (share r k (m ∷ [])) ≡ message_budget true (message_chars m) r k + 0
unfolding share
share_last r k m = refl

total_message_chars_cons :
    (m : ChatMessageTextRef) (ms : List ChatMessageTextRef)
    → total_message_chars (m ∷ ms) ≡ message_chars m + total_message_chars ms
unfolding total_message_chars
total_message_chars_cons m ms = refl

total_message_chars_nil : total_message_chars [] ≡ 0
unfolding total_message_chars
total_message_chars_nil = refl

sum-share :
    (m : ChatMessageTextRef) (ms : List ChatMessageTextRef) (remaining : ℕ)
    → sum (share remaining (total_message_chars (m ∷ ms)) (m ∷ ms)) ≡ remaining
sum-share m [] remaining = omega (
  arith,
  share_last remaining (total_message_chars (m ∷ [])) m,
  message_budget_last (message_chars m) remaining (total_message_chars (m ∷ [])),
)
sum-share m (n ∷ ms) remaining =
    let total = total_message_chars (n ∷ ms) in
    let b = message_budget false (message_chars m) remaining (message_chars m + total) in
    let short : b ≤ remaining = message_budget_bound false (message_chars m) total remaining in
    let cut : message_chars m + total - message_chars m ≡ total = omega arith in
    let rest : sum (share (remaining - b) (message_chars m + total - message_chars m) (n ∷ ms))
        ≡ remaining - b =
      rw cut (sum-share n ms (remaining - b)) in
    rw (total_message_chars_cons m (n ∷ ms))
      (omega (arith, share_step remaining (message_chars m + total) m n ms, rest, short))

length-share : (ms : List ChatMessageTextRef) (r k : ℕ) → length (share r k ms) ≡ length ms
unfolding share
length-share [] r k = refl
length-share (m ∷ ms) r k = ap suc (length-share ms _ _)

sum-zeros : (ms : List ChatMessageTextRef) → sum (map no_budget ms) ≡ 0
sum-zeros [] = refl
sum-zeros (m ∷ ms) = omega (arith, sum-zeros ms)

length-zeros : (ms : List ChatMessageTextRef) → length (map no_budget ms) ≡ length ms
length-zeros [] = refl
length-zeros (m ∷ ms) = ap suc (length-zeros ms)

-- Every message gets a budget, and the budgets are together the whole total, or all nothing if the
-- messages have no characters.
pub sum-proportional_char_budgets :
    (messages : List ChatMessageTextRef) (total : ℕ)
    → (length (proportional_char_budgets messages total) ≡ length messages)
      × ((sum (proportional_char_budgets messages total) ≡ total)
          ⊎ ((sum (proportional_char_budgets messages total) ≡ 0)
              × (total_message_chars messages ≡ 0)))
unfolding proportional_char_budgets
sum-proportional_char_budgets [] total = ground (arith, total_message_chars_nil)
sum-proportional_char_budgets (m ∷ ms) total = ground (
  arith,
  sum-share m ms total,
  length-share (m ∷ ms) total (total_message_chars (m ∷ ms)),
  sum-zeros (m ∷ ms),
  length-zeros (m ∷ ms),
)
