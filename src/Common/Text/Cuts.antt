-- ===== src/Common/Text/Cuts.antt =====
-- The methods of `str` that cut a text at a character or a pattern.
use Prim.Native.Nat.{ℕ}
use mathlib.Core.Path.{◌≡◌, refl, subst}
use mathlib.Core.Logic.{inl, inr}
use mathlib.Core.Bool.{false, cond}
use mathlib.Core.Option.{Option, none, some}
use mathlib.Core.List.{[], ◌∷◌, ◌++◌}
use native.Mathlib.Omega.{arith}
use aiephant_ai_gateway.Common.Tests.{◌==◌, Bool-cases, Option-cases}
use aiephant_ai_gateway.Common.Lists.{All}
use aiephant_ai_gateway.Common.Text.{Text, text_eq, text_eq_iff}

unfoldable pub on_first : ℕ → Option (Text × Text) → Option (Text × Text)
on_first c none = none
on_first c (some (a, b)) = some (c ∷ a, b)

-- `s.split_once(sep)`, and so `s.splitn(2, sep)`, which gives `s` alone for `none`.
unfoldable pub split_once : ℕ → Text → Option (Text × Text)
unfolding on_first
split_once sep [] = none
split_once sep (c ∷ s) =
    let rest = on_first c (split_once sep s) in cond (c == sep) (some ([], s)) rest

-- `s.strip_prefix(p)`.
unfoldable pub strip_prefix : Text → Text → Option Text
strip_prefix [] s = some s
strip_prefix (p ∷ ps) [] = none
strip_prefix (p ∷ ps) (c ∷ s) = let rest = strip_prefix ps s in cond (p == c) rest none

unfoldable pub option_map : {A B : Type 0} → (A → B) → Option A → Option B
option_map f none = none
option_map f (some a) = some (f a)

-- `s.strip_suffix(p)`, for a pattern that is not empty.
unfoldable pub strip_suffix : Text → Text → Option Text
unfolding option_map
strip_suffix p [] = none
strip_suffix p (c ∷ s) =
    let rest = option_map (λ t. c ∷ t) (strip_suffix p s) in cond (text_eq (c ∷ s) p) (some []) rest

-- The occurrence later in the text, or the one here.
unfoldable pub last_cut : ℕ → Option (Text × Text) → Option Text → Option (Text × Text)
unfolding option_map
last_cut c (some (a, b)) here = some (c ∷ a, b)
last_cut c none here = option_map (λ b. ([], b)) here

-- `s.rsplit_once(p)`, the slices before and after `s.rfind(p)`, for a pattern that is not empty.
unfoldable pub rsplit_once : Text → Text → Option (Text × Text)
unfolding last_cut strip_prefix
rsplit_once p [] = none
rsplit_once p (c ∷ s) = last_cut c (rsplit_once p s) (strip_prefix p (c ∷ s))

pub split_once-joins : (sep : ℕ) (s a b : Text) → split_once sep s ≡ some (a, b) → s ≡ a ++ sep ∷ b
unfolding split_once on_first
split_once-joins sep [] a b e = cc e
split_once-joins sep (c ∷ s) a b e = elim (Bool-cases (c == sep)) [
  | inl same ↦ ground (arith, e, same)
  | inr differs ↦ elim (Option-cases (split_once sep s)) [
    | inl none_ ↦ cc (rw (differs, none_) at e)
    | inr ((a', b'), cut) ↦ ground (arith, rw (differs, cut) at e, split_once-joins sep s a' b' cut)
  ]
]

-- The separator does not occur.
abbrev pub Lacks : ℕ → Text → Type 0
Lacks sep = All (λ c. c == sep ≡ false)

pub strip_prefix-joins : (p s b : Text) → strip_prefix p s ≡ some b → s ≡ p ++ b
unfolding strip_prefix
strip_prefix-joins [] s b e = ground (arith, e)
strip_prefix-joins (p ∷ ps) [] b e = cc e
strip_prefix-joins (p ∷ ps) (c ∷ s) b e = elim (Bool-cases (p == c)) [
  | inl same ↦ ground (arith, strip_prefix-joins ps s b (rw same at e), same)
  | inr differs ↦ cc (rw differs at e)
]

pub strip_suffix-joins : (p s a : Text) → strip_suffix p s ≡ some a → s ≡ a ++ p
unfolding strip_suffix option_map
strip_suffix-joins p [] a e = cc e
strip_suffix-joins p (c ∷ s) a e = elim (Bool-cases (text_eq (c ∷ s) p)) [
  | inl same ↦ ground (arith, (text_eq_iff (c ∷ s) p).0 same, rw same at e)
  | inr differs ↦ elim (Option-cases (strip_suffix p s)) [
    | inl none_ ↦ cc (rw (differs, none_) at e)
    | inr (a', cut) ↦ ground (arith, rw (differs, cut) at e, strip_suffix-joins p s a' cut)
  ]
]

pub rsplit_once-joins : (p s a b : Text) → rsplit_once p s ≡ some (a, b) → s ≡ a ++ (p ++ b)
unfolding rsplit_once last_cut option_map
rsplit_once-joins p [] a b e = cc e
rsplit_once-joins p (c ∷ s) a b e = elim (Option-cases (rsplit_once p s)) [
  | inr ((a', b'), cut) ↦ ground (arith, rw cut at e, rsplit_once-joins p s a' b' cut)
  | inl none_ ↦ elim (Option-cases (strip_prefix p (c ∷ s))) [
    | inl no_ ↦ cc (rw (none_, no_) at e)
    | inr (b', cut) ↦ ground (arith, rw (none_, cut) at e, strip_prefix-joins p (c ∷ s) b' cut)
  ]
]

pub split_once-Lacks : (sep : ℕ) (s a b : Text) → split_once sep s ≡ some (a, b) → Lacks sep a
unfolding split_once on_first
split_once-Lacks sep [] a b e = cc e
split_once-Lacks sep (c ∷ s) a b e = elim (Bool-cases (c == sep)) [
  | inl same ↦ let none_ : [] ≡ a = ground (arith, rw same at e) in subst (Lacks sep) none_ tt
  | inr differs ↦ elim (Option-cases (split_once sep s)) [
    | inl none_ ↦ cc (rw (differs, none_) at e)
    | inr ((a', b'), cut) ↦
        let longer : c ∷ a' ≡ a = ground (arith, rw (differs, cut) at e) in
        subst (Lacks sep) longer (differs, split_once-Lacks sep s a' b' cut)
  ]
]

pub Lacks-split_once : (sep : ℕ) (s : Text) → Lacks sep s → split_once sep s ≡ none
unfolding split_once on_first
Lacks-split_once sep [] l = refl
Lacks-split_once sep (c ∷ s) (h, l) = rw (h, Lacks-split_once sep s l) refl

pub split_once-append :
    (sep : ℕ) (a b : Text) → Lacks sep a → split_once sep (a ++ sep ∷ b) ≡ some (a, b)
unfolding split_once on_first
split_once-append sep [] b l = ground arith
split_once-append sep (c ∷ a) b (h, l) = rw (h, split_once-append sep a b l) refl
