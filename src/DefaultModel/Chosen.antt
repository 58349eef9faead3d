-- ===== src/DefaultModel/Chosen.antt =====
-- default_model/choose.rs: what the choice is among, and that the best of them is chosen.
use aiephant_ai_gateway.Common.{
  ◌≡◌, refl, ap, ◌∙◌, inl, inr, Option, none, some, List, [], ◌∷◌, map, select, Result, ok, err,
  if◌then◌else◌, Bool-cases, Option-cases,
}
use aiephant_ai_gateway.Common.Text.{Text}
use aiephant_ai_gateway.Common.Text.Cuts.{option_map}
use aiephant_ai_gateway.DefaultModel.{Doubles, Json, SelectionRow, RouterStore}
use aiephant_ai_gateway.DefaultModel.Best.{PriceLaws, IsFinite, IsBest, pick_greatest-IsBest}
use aiephant_ai_gateway.DefaultModel.Candidates.{
  BareModelExpandIndex, expand_policy_model_list, resolve_model_id_list,
}
use aiephant_ai_gateway.DefaultModel.Choose.{
  ScoredGatewayModel, ApiError, no_model_available, Choice, not_excluded, candidate_of, wanted,
  score, resolve_scored_gateway_models, pick_any, pick_best_scored_gateway_model, chosen,
  choose_scored, choose_expanded, choose_listed, choose_default_gateway_model_excluding_provider,
}
use aiephant_ai_gateway.DefaultModel.Lists.{option_bind, push_some, filter_map}

-- The name and the price of a scored model that is not excluded.
unfoldable pub if_not_excluded :
    {F : Type 0} → Option Text → ScoredGatewayModel F → Option (Text × F)
unfolding not_excluded
if_not_excluded excluded c =
    if not_excluded excluded c then some (c.gateway_model, c.price_sum) else none

select-filter_map :
    {F : Type 0} (excluded : Option Text) (scored : List (ScoredGatewayModel F))
    → map {B = Text × F}
        (λ c. (c.gateway_model, c.price_sum))
        (select (not_excluded excluded) scored)
      ≡ filter_map (if_not_excluded excluded) scored
unfolding filter_map if_not_excluded push_some
select-filter_map excluded [] = refl
select-filter_map excluded (c ∷ scored) = elim (Bool-cases (not_excluded excluded c)) [
  | inl p ↦ rw (p, select-filter_map excluded scored)
  | inr p ↦ rw (p, select-filter_map excluded scored)
]

filter_map-filter_map :
    {A B C : Type 0} (f : A → Option B) (g : B → Option C) (xs : List A)
    → filter_map g (filter_map f xs) ≡ filter_map (λ x. option_bind (f x) g) xs
unfolding filter_map push_some option_bind
filter_map-filter_map f g [] = refl
filter_map-filter_map f g (x ∷ xs) = elim (Option-cases (f x)) [
  | inl p ↦ rw (p, filter_map-filter_map f g xs)
  | inr (y, p) ↦ rw (p, filter_map-filter_map f g xs)
]

module _ {Value F : Type 0} (to_lowercase : Text → Text) (json : Json Value F) (f64 : Doubles F)
    (choice : Choice) where
  -- A model with its price, if it may be chosen: it is not blocked, it names a provider that is not
  -- excluded, and the store has a row for it whose kind fits the path.
  unfoldable pub eligible : List (SelectionRow Value) → Text → Option (Text × F)
  unfolding option_bind candidate_of score if_not_excluded
  eligible rows m =
      option_bind
        (option_bind (candidate_of to_lowercase choice.vk_policy.blocked_models m)
          (score json f64 choice.path rows))
        (if_not_excluded choice.excluded_provider_code)

  pub scored-eligible :
      (rows : List (SelectionRow Value)) (list : List Text)
      → map {B = Text × F}
          (λ c. (c.gateway_model, c.price_sum))
          (select (not_excluded choice.excluded_provider_code) (
            filter_map
              (score json f64 choice.path rows)
              (filter_map (candidate_of to_lowercase choice.vk_policy.blocked_models) list)))
        ≡ filter_map (eligible rows) list
  unfolding eligible
  scored-eligible rows list =
      let f = candidate_of to_lowercase choice.vk_policy.blocked_models in
      let g = score json f64 choice.path rows in
      let h = if_not_excluded choice.excluded_provider_code in
      select-filter_map choice.excluded_provider_code (filter_map g (filter_map f list))
      ∙ ap (filter_map h) (filter_map-filter_map f g list)
      ∙ filter_map-filter_map (λ m. option_bind (f m) g) h list

module _ (Error : Type 0) {F : Type 0} (f64 : Doubles F) (laws : PriceLaws f64) where
  -- The error if there is nothing to choose among, else the best.
  abbrev pub IsChoice : List (Text × F) → Option (Result (ApiError Error) Text) → Type 0
  IsChoice [] r = r ≡ some (err no_model_available)
  IsChoice (e ∷ es) r = (m : Text) × (r ≡ some (ok m)) × IsBest f64 laws m (e ∷ es)

  pick_any-IsChoice :
      (es : List (Text × F))
      → IsFinite f64 laws es
      → IsChoice es (option_map chosen (pick_any f64 es))
  unfolding pick_any option_map chosen
  pick_any-IsChoice [] p = refl
  pick_any-IsChoice ((m₀, a) ∷ es) p =
      let (m, e, b) = pick_greatest-IsBest f64 laws m₀ a es p in
      (m, ap (λ o. option_map chosen (option_map some o)) e, b)

module _ {Value F Error : Type 0} (to_lowercase : Text → Text) (json : Json Value F)
    (f64 : Doubles F) (laws : PriceLaws f64) (index : BareModelExpandIndex)
    (store : RouterStore Error Value) (choice : Choice) (rows : List (SelectionRow Value)) where
  -- What the store is asked for a list of models, and answers.
  abbrev Answered : List Text → Type 0
  Answered list =
      store.get_gateway_model_selection_info_batch
        (wanted (filter_map (candidate_of to_lowercase choice.vk_policy.blocked_models) list))
      ≡ ok rows

  choose_expanded-IsChoice :
      (list : List Text)
      → Answered list
      → IsFinite f64 laws (filter_map (eligible to_lowercase json f64 choice rows) list)
      → IsChoice Error f64 laws
          (filter_map (eligible to_lowercase json f64 choice rows) list)
          (choose_expanded to_lowercase json f64 index store choice list)
  unfolding choose_expanded choose_scored resolve_scored_gateway_models
      pick_best_scored_gateway_model
  choose_expanded-IsChoice [] e p = refl
  choose_expanded-IsChoice (m ∷ list) e p =
      rw (e, scored-eligible to_lowercase json f64 choice rows (m ∷ list))
        (pick_any-IsChoice Error f64 laws
          (filter_map (eligible to_lowercase json f64 choice rows) (m ∷ list)) p)

  -- If the store answers, the list of the policy gives the raw entries, and the rows are those for
  -- the candidates: with no eligible model the error says that none is available; else a model is
  -- chosen whose price is nearly the top price of the eligible ones, and no model with such a price
  -- has a later name, provided that these prices are finite. The choice does not panic.
  pub choose_default_gateway_model-IsChoice :
      (raw : List Text)
      → resolve_model_id_list json store choice.has_department choice.vk_policy ≡ ok raw
      → Answered (expand_policy_model_list index raw)
      → IsFinite f64 laws (
          filter_map
            (eligible to_lowercase json f64 choice rows)
            (expand_policy_model_list index raw))
      → IsChoice Error f64 laws
          (filter_map
            (eligible to_lowercase json f64 choice rows)
            (expand_policy_model_list index raw))
          (choose_default_gateway_model_excluding_provider to_lowercase json f64 index
            (some store)
            choice)
  unfolding choose_default_gateway_model_excluding_provider choose_listed
  choose_default_gateway_model-IsChoice raw l e p =
      rw l (choose_expanded-IsChoice (expand_policy_model_list index raw) e p)
