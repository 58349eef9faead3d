-- ===== src/Common/Sets.antt =====
-- Finite sets as lists: the hash sets of the code, seen through `contains`, `insert` and `remove`.
use mathlib.Core.Path.{◌≡◌, refl}
use mathlib.Core.Logic.{ite, ◌≢◌}
use mathlib.Core.Bool.{Bool, true, false}
use mathlib.Core.List.{List, [], ◌∷◌}
use native.Mathlib.Omega.{arith}

module _ {K : Type 0} (dec : Discrete K) where
  unfoldable pub contains : K → List K → Bool
  contains k [] = false
  contains k (x ∷ xs) = ite (dec x k) true (contains k xs)

  -- `HashSet::insert`.
  unfoldable pub insert : K → List K → List K
  insert k xs = k ∷ xs

  -- `HashSet::remove`.
  unfoldable pub remove : K → List K → List K
  remove k [] = []
  remove k (x ∷ xs) = let rest = remove k xs in ite (dec x k) rest (x ∷ rest)

  pub contains-insert :
      (k j : K) (xs : List K) → contains j (insert k xs) ≡ ite (dec k j) true (contains j xs)
  unfolding contains insert
  contains-insert k j xs = refl

  pub contains-remove_self : (k : K) (xs : List K) → contains k (remove k xs) ≡ false
  unfolding contains remove
  contains-remove_self k [] = refl
  contains-remove_self k (x ∷ xs) = ground (arith, contains-remove_self k xs)

  pub contains-remove_ne :
      (k j : K) (xs : List K) → k ≢ j → contains j (remove k xs) ≡ contains j xs
  unfolding contains remove
  contains-remove_ne k j [] h = refl
  contains-remove_ne k j (x ∷ xs) h = ground (arith, contains-remove_ne k j xs h)

  pub contains-remove :
      (k j : K) (xs : List K) → contains j (remove k xs) ≡ ite (dec k j) false (contains j xs)
  contains-remove k j xs = ground (arith, contains-remove_self k xs, contains-remove_ne k j xs)
