-- ===== src/DefaultModel/Greatest.antt =====
-- default_model/resolve.rs: the most expensive model, and among those the last by name.
use aiephant_ai_gateway.Common.{
  ◌≡◌, refl, ap, sym, subst, ◌∙◌, ◌⊎◌, inl, inr, Bool, true, false, Option, none, some, List, [],
  ◌∷◌, arith, ltb, if◌then◌else◌, if_true, if_false, All, Any, Bool-cases,
}
use aiephant_ai_gateway.Common.Text.{Text}

-- `Ord` on `str`, which is that of the code points.
unfoldable pub text_le : Text → Text → Bool
text_le [] t = true
text_le (a ∷ s) [] = false
text_le (a ∷ s) (b ∷ t) =
    let rest = text_le s t in if ltb a b then true else if ltb b a then false else rest

unfoldable pub later : Text → Option Text → Text
unfolding text_le
later s none = s
later s (some t) = if text_le s t then t else s

-- `Iterator::max`.
unfoldable pub greatest : List Text → Option Text
unfolding later
greatest [] = none
greatest (s ∷ ss) = some (later s (greatest ss))

text_le_refl : (s : Text) → text_le s s ≡ true
unfolding text_le
text_le_refl [] = refl
text_le_refl (a ∷ s) = ground (arith, text_le_refl s)

text_le_trans : (s t u : Text) → text_le s t ≡ true → text_le t u ≡ true → text_le s u ≡ true
unfolding text_le
text_le_trans [] t u p q = refl
text_le_trans (a ∷ s) [] u p q = cc p
text_le_trans (a ∷ s) (b ∷ t) [] p q = cc q
text_le_trans (a ∷ s) (b ∷ t) (c ∷ u) p q = ground (arith, text_le_trans s t u)

text_le_total : (s t : Text) → text_le s t ≡ false → text_le t s ≡ true
unfolding text_le
text_le_total [] t p = cc p
text_le_total (a ∷ s) [] p = refl
text_le_total (a ∷ s) (b ∷ t) p = ground (arith, text_le_total s t)

-- No name of the list comes after it.
abbrev pub Last : Text → List Text → Type 0
Last m = All (λ s. text_le s m ≡ true)

Last-later : (s t : Text) (ss : List Text) → text_le s t ≡ true → Last s ss → Last t ss
Last-later s t [] p l = tt
Last-later s t (x ∷ ss) p (q, l) = (text_le_trans x s t q p, Last-later s t ss p l)

-- The later of a name and the last of the others is the last of all.
later-Last : (s : Text) (ss : List Text) (t : Text) → Last t ss → Last (later s (some t)) (s ∷ ss)
unfolding later
later-Last s ss t l = elim (Bool-cases (text_le s t)) [
  | inl p ↦ subst (λ m. Last m (s ∷ ss)) (sym (if_true t s p)) (p, l)
  | inr p ↦
      subst (λ m. Last m (s ∷ ss)) (sym (if_false t s p))
        (text_le_refl s, Last-later t s ss (text_le_total s t p) l)
]

pub greatest-Last :
    (s : Text) (ss : List Text) → (m : Text) × (greatest (s ∷ ss) ≡ some m) × Last m (s ∷ ss)
unfolding greatest later
greatest-Last s [] = (s, refl, (text_le_refl s, tt))
greatest-Last s (t ∷ ss) =
    let (m, e, l) = greatest-Last t ss in
    (later s (some m), ap (λ o. some (later s o)) e, later-Last s (t ∷ ss) m l)

later_either : (s t : Text) → (later s (some t) ≡ t) ⊎ (later s (some t) ≡ s)
unfolding later
later_either s t = elim (Bool-cases (text_le s t)) [
  | inl p ↦ inl (if_true t s p)
  | inr p ↦ inr (if_false t s p)
]

-- The last of the names is one of them.
pub greatest-Any :
    (s : Text) (ss : List Text) (m : Text) → greatest (s ∷ ss) ≡ some m → Any (λ n. n ≡ m) (s ∷ ss)
unfolding greatest later
greatest-Any s [] m e = inl (cc e)
greatest-Any s (t ∷ ss) m e =
    let (n, f, l) = greatest-Last t ss in
    let q = ap (λ o. some (later s o)) (sym f) ∙ e in
    elim (later_either s n) [
      | inl r ↦ inr (greatest-Any t ss m (cc (f, q, r)))
      | inr r ↦ inl (cc (q, r))
    ]
