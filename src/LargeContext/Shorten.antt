-- ===== src/LargeContext/Shorten.antt =====
-- middleware/large_context/heuristics.rs: one text shortened to a number of characters.
use aiephant_ai_gateway.Common.{
  ℕ, ◌+◌, ◌-◌, ◌/◌, Option, none, some, List, [], ◌∷◌, ◌++◌, length, take, drop, leb, ltb, ◌==◌,
  if◌then◌else◌,
}
use aiephant_ai_gateway.Common.Text.{Text, codes, is_whitespace, is_empty, trim_end}

-- A word that is over; an empty one is none.
unfoldable pub flush : Text → List Text → List Text
flush [] words = words
flush (c ∷ w) words = (c ∷ w) ∷ words

-- `str::split_whitespace`, with the word that is being read.
unfoldable pub split_whitespace : Text → Text → List Text
unfolding flush is_whitespace
split_whitespace word [] = flush word []
split_whitespace word (c ∷ s) =
    let over = split_whitespace [] s in
    let on = split_whitespace (word ++ c ∷ []) s in if is_whitespace c then flush word over else on

-- `[String]::join(" ")`.
unfoldable pub join : List Text → Text
join [] = []
join (w ∷ []) = w
join (w ∷ v ∷ ws) = w ++ b' ' ∷ join (v ∷ ws)

unfoldable pub normalize_text : Text → Text
unfolding split_whitespace join
normalize_text text = join (split_whitespace [] text)

abbrev pub ellipsis : Text
ellipsis = codes "..."

-- `char::len_utf8`.
abbrev len_utf8 : ℕ → ℕ
len_utf8 c = if ltb c 0x80 then 1 else if ltb c 0x800 then 2 else if ltb c 0x10000 then 3 else 4

-- `str::len`, in bytes.
abbrev pub byte_length : Text → ℕ
byte_length [] = 0
byte_length (c ∷ s) = len_utf8 c + byte_length s

abbrev pub prepend : ℕ → Option Text → Option Text
prepend c none = none
prepend c (some s) = some (c ∷ s)

abbrev pub last_or : Option Text → ℕ → Option Text
last_or (some p) c = prepend c (some p)
last_or none c = if is_whitespace c then some [] else none

-- The text before its last white space, which `char_indices().rev().find_map` finds by its byte
-- index.
unfoldable pub before_last_space : Text → Option Text
before_last_space [] = none
before_last_space (c ∷ s) = last_or (before_last_space s) c

-- The index of the space is kept only if it is within 32 of the limit: the index is in bytes, the
-- limit in characters.
unfoldable pub kept_prefix : ℕ → Text → Option Text → Text
kept_prefix raw_limit candidate none = candidate
kept_prefix raw_limit candidate (some p) =
    if leb (raw_limit - 32) (byte_length p) then p else candidate

unfoldable pub shorten : ℕ → Text → Text
unfolding kept_prefix before_last_space trim_end
shorten raw_limit candidate =
    let trimmed = trim_end (kept_prefix raw_limit candidate (before_last_space candidate)) in
    (if is_empty trimmed then candidate else trimmed) ++ ellipsis

unfoldable pub truncate_text_to_limit : Text → ℕ → Text
unfolding shorten
truncate_text_to_limit text max_chars =
    let normalized = normalize_text text in
    if max_chars == 0
    then []
    else if leb (length normalized) max_chars
    then normalized
    else if leb max_chars 3
    then take max_chars normalized
    else shorten (max_chars - 3) (take (max_chars - 3) normalized)

-- `chars().rev().take(n)`, reversed again.
abbrev pub last_chars : ℕ → Text → Text
last_chars n s = drop (length s - n) s

unfoldable pub middle_out_text_to_limit : Text → ℕ → Text
middle_out_text_to_limit text max_chars =
    let normalized = normalize_text text in
    if max_chars == 0
    then []
    else if leb (length normalized) max_chars
    then normalized
    else if leb max_chars (3 + 2)
    then take max_chars normalized
    else (let visible_chars = max_chars - 3 in
        take ((visible_chars + 1) / 2) normalized
        ++ ellipsis
        ++ last_chars (visible_chars / 2) normalized)
