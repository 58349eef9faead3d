-- ===== src/LargeContext/Models.antt =====
-- middleware/large_context/heuristics.rs: the models that a `model` field names.
use aiephant_ai_gateway.Common.{
  ℕ, ◌≡◌, false, not, inl, inr, Option, none, some, option_or, List, [], ◌∷◌, ◌++◌, map, All, ◌==◌,
  if◌then◌else◌, Bool-cases, select, ◌&&◌,
}
use aiephant_ai_gateway.Common.Text.{Text, trim, trim_start, trim_end, is_empty, is_whitespace}

-- `str::split`, with the piece that is being read.
unfoldable pub split : ℕ → Text → Text → List Text
split sep piece [] = piece ∷ []
split sep piece (c ∷ s) =
    let over = split sep [] s in
    let on = split sep (piece ++ c ∷ []) s in if c == sep then piece ∷ over else on

unfoldable pub extract_fallback_model_candidates : Text → List Text
unfolding split
extract_fallback_model_candidates model =
    select (λ candidate. not (is_empty candidate)) (map trim (split b',' [] model))

abbrev first : List Text → Option Text
first [] = none
first (t ∷ ts) = some t

abbrev first_candidate : Option Text → Option Text
first_candidate none = none
first_candidate (some source) = first (extract_fallback_model_candidates source)

unfoldable pub resolve_primary_model : Option Text → Option Text → Option Text
resolve_primary_model body_model header_model_override =
    first_candidate (option_or body_model header_model_override)

-- No character of the text is the separator.
abbrev pub Without : ℕ → Text → Type 0
Without sep = All (λ c. (c == sep) ≡ false)

Without-append : (sep : ℕ) (s t : Text) → Without sep s → Without sep t → Without sep (s ++ t)
Without-append sep [] t a b = b
Without-append sep (c ∷ s) t (x, a) b = (x, Without-append sep s t a b)

split-Without :
    (sep : ℕ) (piece s : Text) → Without sep piece → All (Without sep) (split sep piece s)
unfolding split
split-Without sep piece [] a = (a, tt)
split-Without sep piece (c ∷ s) a = elim (Bool-cases (c == sep)) [
  | inl over ↦ rw over (a, split-Without sep [] s tt)
  | inr on ↦
      rw on (split-Without sep (piece ++ c ∷ []) s (Without-append sep piece (c ∷ []) a (on, tt)))
]

Without-trim_start : (sep : ℕ) (s : Text) → Without sep s → Without sep (trim_start s)
unfolding trim_start
Without-trim_start sep [] a = tt
Without-trim_start sep (c ∷ s) (x, a) = elim (Bool-cases (is_whitespace c)) [
  | inl space ↦ rw space (Without-trim_start sep s a)
  | inr letter ↦ rw letter (x, a)
]

Without-trim_end : (sep : ℕ) (s : Text) → Without sep s → Without sep (trim_end s)
unfolding trim_end
Without-trim_end sep [] a = tt
Without-trim_end sep (c ∷ s) (x, a) = elim (Bool-cases (is_whitespace c && is_empty (trim_end s))) [
  | inl space ↦ rw space tt
  | inr letter ↦ rw letter (x, Without-trim_end sep s a)
]

-- A name that a `model` field can stand for.
abbrev pub IsCandidate : Text → Type 0
IsCandidate t = Without b',' t × (is_empty t ≡ false)

named-IsCandidate :
    (pieces : List Text)
    → All (Without b',') pieces
    → All IsCandidate (select (λ t. not (is_empty t)) (map trim pieces))
unfolding trim
named-IsCandidate [] a = tt
named-IsCandidate (p ∷ ps) (x, a) = elim (Bool-cases (is_empty (trim p))) [
  | inl blank ↦ rw blank (named-IsCandidate ps a)
  | inr some_ ↦ rw some_ (
    (Without-trim_end b',' (trim_start p) (Without-trim_start b',' p x), some_),
    named-IsCandidate ps a,
  )
]

-- The candidates that are extracted from a `model` field are not empty and have no comma.
pub extract_fallback_model_candidates-IsCandidate :
    (model : Text) → All IsCandidate (extract_fallback_model_candidates model)
unfolding extract_fallback_model_candidates
extract_fallback_model_candidates-IsCandidate model =
    named-IsCandidate (split b',' [] model) (split-Without b',' [] model tt)
