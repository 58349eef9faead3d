-- ===== src/Common/Text/Trim.antt =====
-- Trimming once is enough.
use mathlib.Core.Path.{◌≡◌, refl, ap, ◌∙◌}
use mathlib.Core.Bool.{false, ◌&&◌}
use mathlib.Core.Logic.{inl, inr}
use mathlib.Core.List.{[], ◌∷◌}
use aiephant_ai_gateway.Common.Lists.{All}
use Prim.Native.Nat.{ℕ}
use native.Mathlib.Omega.{arith}
use aiephant_ai_gateway.Common.Tests.{Bool-cases}
use aiephant_ai_gateway.Common.Text.{Text, is_empty, is_whitespace, trim_start, trim_end, trim}

trim_end_idem : (s : Text) → trim_end (trim_end s) ≡ trim_end s
unfolding trim_end
trim_end_idem [] = refl
trim_end_idem (c ∷ s) = ground (arith, trim_end_idem s)

-- No white space stands first.
abbrev StartsDark : Text → Type 0
StartsDark [] = Unit
StartsDark (c ∷ s) = is_whitespace c ≡ false

trim_start-StartsDark : (s : Text) → StartsDark (trim_start s)
unfolding trim_start
trim_start-StartsDark [] = tt
trim_start-StartsDark (c ∷ s) = elim (Bool-cases (is_whitespace c)) [
  | inl white ↦ rw white (trim_start-StartsDark s)
  | inr dark ↦ rw dark dark
]

trim_end-StartsDark : (s : Text) → StartsDark s → StartsDark (trim_end s)
unfolding trim_end
trim_end-StartsDark [] d = tt
trim_end-StartsDark (c ∷ s) d = rw d d

StartsDark-trim_start : (s : Text) → StartsDark s → trim_start s ≡ s
unfolding trim_start
StartsDark-trim_start [] d = refl
StartsDark-trim_start (c ∷ s) d = rw d refl

pub trim_idem : (s : Text) → trim (trim s) ≡ trim s
unfolding trim
trim_idem s =
    ap trim_end (
      StartsDark-trim_start (trim_end (trim_start s))
        (trim_end-StartsDark (trim_start s) (trim_start-StartsDark s)))
    ∙ trim_end_idem (trim_start s)

module _ (P : ℕ → Type 0) where
  All-trim_start : (s : Text) → All P s → All P (trim_start s)
  unfolding trim_start
  All-trim_start [] h = tt
  All-trim_start (c ∷ s) (p, h) = elim (Bool-cases (is_whitespace c)) [
    | inl white ↦ rw white (All-trim_start s h)
    | inr dark ↦ rw dark (p, h)
  ]

  All-trim_end : (s : Text) → All P s → All P (trim_end s)
  unfolding trim_end
  All-trim_end [] h = tt
  All-trim_end (c ∷ s) (p, h) = elim (Bool-cases (is_whitespace c && is_empty (trim_end s))) [
    | inl white ↦ rw white tt
    | inr dark ↦ rw dark (p, All-trim_end s h)
  ]

  pub All-trim : (s : Text) → All P s → All P (trim s)
  unfolding trim
  All-trim s h = All-trim_end (trim_start s) (All-trim_start s h)
