-- ===== src/DefaultModel/Prices.antt =====
-- default_model/price.rs and the choice by price of default_model/resolve.rs.
use aiephant_ai_gateway.Common.{Bool, Option, List, [], ◌∷◌, map, select, unwrap_or}
use aiephant_ai_gateway.Common.Text.{Text, codes}
use aiephant_ai_gateway.DefaultModel.{Doubles, Json}
use aiephant_ai_gateway.DefaultModel.Greatest.{greatest}
use aiephant_ai_gateway.DefaultModel.Lists.{option_bind}

module _ {F : Type 0} (f64 : Doubles F) where
  unfoldable pub price_of : {Value : Type 0} → Json Value F → Value → Text → F
  unfolding option_bind
  price_of json info key = unwrap_or (option_bind (json.get info key) json.as_f64) f64.zero

  unfoldable pub price_sum_from_info : {Value : Type 0} → Json Value F → Value → F
  unfolding price_of
  price_sum_from_info json info =
      f64.add (price_of json info (codes "prompt")) (price_of json info (codes "completion"))

  unfoldable pub fold_max : F → List (Text × F) → F
  fold_max acc [] = acc
  fold_max acc ((m, s) ∷ scored) = fold_max (f64.max acc s) scored

  unfoldable pub nearly : F → F → Bool
  nearly a b =
      f64.le (f64.abs (f64.sub a b))
        (f64.max f64.one_billionth (f64.mul f64.one_billionth (f64.abs b)))

  -- The names whose price is nearly the highest.
  unfoldable pub names_near : F → List (Text × F) → List Text
  unfolding nearly
  names_near top scored = map (λ s. s.0) (select (λ s. nearly s.1 top) scored)

  -- Without a value where the function panics.
  unfoldable pub pick_greatest_by_price_and_name : List (Text × F) → Option Text
  unfolding greatest names_near fold_max
  pick_greatest_by_price_and_name scored =
      greatest (names_near (fold_max f64.neg_infinity scored) scored)
