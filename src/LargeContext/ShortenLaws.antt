-- ===== src/LargeContext/ShortenLaws.antt =====
-- How long shortened texts are.
use aiephant_ai_gateway.Common.{
  ℕ, ◌+◌, ◌-◌, ◌/◌, ◌≤◌, ◌<◌, ◌≡◌, ◌⊎◌, inl, inr, Option, none, some, List, [], ◌∷◌, ◌++◌, length,
  take, drop, arith, length-append, length-take, length-drop, Bool-cases,
}
use aiephant_ai_gateway.Common.Text.{Text, is_whitespace, is_empty, trim_end}
use aiephant_ai_gateway.LargeContext.Shorten.{
  flush, split_whitespace, join, normalize_text, before_last_space, last_or, kept_prefix, shorten,
  truncate_text_to_limit, middle_out_text_to_limit, ellipsis,
}

-- What a list of words takes when it is joined: a space after each but the last.
joined_length : List Text → ℕ
joined_length [] = 0
joined_length (w ∷ ws) = length w + 1 + joined_length ws

length-join : (ws : List Text) → length (join ws) ≤ joined_length ws - 1
unfolding join joined_length
length-join [] = omega arith
length-join (w ∷ []) = omega arith
length-join (w ∷ v ∷ ws) =
    omega (arith, length-append w (b' ' ∷ join (v ∷ ws)), length-join (v ∷ ws))

joined_length-flush :
    (w : Text) (ws : List Text) → joined_length (flush w ws) ≤ length w + 1 + joined_length ws
unfolding flush joined_length
joined_length-flush [] ws = omega arith
joined_length-flush (c ∷ w) ws = omega arith

joined_length-split :
    (word s : Text) → joined_length (split_whitespace word s) ≤ length word + length s + 1
unfolding split_whitespace joined_length
joined_length-split word [] = omega (arith, joined_length-flush word [])
joined_length-split word (c ∷ s) = elim (Bool-cases (is_whitespace c)) [
  | inl space ↦
      rw space
        (omega (arith, joined_length-flush word (split_whitespace [] s), joined_length-split [] s))
  | inr letter ↦
      rw letter (omega (arith, length-append word (c ∷ []), joined_length-split (word ++ c ∷ []) s))
]

-- Normalizing does not make a text longer.
pub length-normalize_text : (text : Text) → length (normalize_text text) ≤ length text
unfolding normalize_text
length-normalize_text text =
    omega (arith, length-join (split_whitespace [] text), joined_length-split [] text)

length-trim_end : (s : Text) → length (trim_end s) ≤ length s
unfolding trim_end
length-trim_end [] = omega arith
length-trim_end (c ∷ s) = ground (arith, length-trim_end s)

-- A prefix that is found is no longer than the text.
abbrev NoLonger : Text → Option Text → Type 0
NoLonger s none = Unit
NoLonger s (some p) = length p ≤ length s

last_or-NoLonger :
    (c : ℕ) (s : Text) (o : Option Text) → NoLonger s o → NoLonger (c ∷ s) (last_or o c)
last_or-NoLonger c s (some p) h = omega (arith, h)
last_or-NoLonger c s none h = elim (Bool-cases (is_whitespace c)) [
  | inl space ↦ rw space (omega arith)
  | inr letter ↦ rw letter tt
]

before_last_space-NoLonger : (s : Text) → NoLonger s (before_last_space s)
unfolding before_last_space
before_last_space-NoLonger [] = tt
before_last_space-NoLonger (c ∷ s) =
    last_or-NoLonger c s (before_last_space s) (before_last_space-NoLonger s)

length-kept_prefix :
    (limit : ℕ) (s : Text) (o : Option Text)
    → NoLonger s o
    → length (kept_prefix limit s o) ≤ length s
unfolding kept_prefix
length-kept_prefix limit s none h = omega arith
length-kept_prefix limit s (some p) h = ground (arith, h)

length-shorten : (limit : ℕ) (s : Text) → length (shorten limit s) ≤ length s + 3
unfolding shorten
length-shorten limit s =
    let kept = kept_prefix limit s (before_last_space s) in
    let short = length-kept_prefix limit s (before_last_space s) (before_last_space-NoLonger s) in
    elim (Bool-cases (is_empty (trim_end kept))) [
      | inl blank ↦ rw blank (omega (arith, length-append s ellipsis))
      | inr some_ ↦
          rw some_
            (omega (arith, length-append (trim_end kept) ellipsis, length-trim_end kept, short))
    ]

-- A text is cut to at most the given number of characters, at a word where one ends near enough; and
-- one that fits is only normalized.
pub truncate_text_to_limit-fits :
    (text : Text) (max_chars : ℕ)
    → (length (truncate_text_to_limit text max_chars) ≤ max_chars)
      × ((max_chars < length (normalize_text text))
          ⊎ (truncate_text_to_limit text max_chars ≡ normalize_text text))
unfolding truncate_text_to_limit
truncate_text_to_limit-fits text max_chars = ground (
  arith,
  length-take max_chars (normalize_text text),
  length-take (max_chars - 3) (normalize_text text),
  length-shorten (max_chars - 3) (take (max_chars - 3) (normalize_text text)),
)

length-halves :
    (s : Text) (v : ℕ)
    → v ≤ length s
    → length (take ((v + 1) / 2) s ++ ellipsis ++ drop (length s - v / 2) s) ≡ v + 3
length-halves s v short =
    let head = take ((v + 1) / 2) s in
    let tail = drop (length s - v / 2) s in
    omega (
      arith,
      length-append (head ++ ellipsis) tail,
      length-append head ellipsis,
      length-take ((v + 1) / 2) s,
      length-drop (length s - v / 2) s,
    )

-- A text that is shortened in the middle gets exactly the given number of characters; and one that
-- fits is only normalized.
pub middle_out_text_to_limit-fits :
    (text : Text) (max_chars : ℕ)
    → ((length (normalize_text text) ≤ max_chars)
        × (middle_out_text_to_limit text max_chars ≡ normalize_text text))
      ⊎ ((max_chars < length (normalize_text text))
          × (length (middle_out_text_to_limit text max_chars) ≡ max_chars))
unfolding middle_out_text_to_limit
middle_out_text_to_limit-fits text max_chars = ground (
  arith,
  length-take max_chars (normalize_text text),
  length-halves (normalize_text text) (max_chars - 3),
)
