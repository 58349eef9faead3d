-- ===== src/DefaultModel/Permitted.antt =====
-- A model that is chosen is one that may be chosen.
use aiephant_ai_gateway.Common.{
  ◌≡◌, refl, ap, sym, ◌∙◌, subst, inl, inr, Bool, true, false, Option, none, some, List, [], ◌∷◌,
  map, select, Result, ok, arith, Any, Bool-cases, Option-cases, Result-cases,
}
use aiephant_ai_gateway.Common.Text.{Text, eq_ignore_ascii_case}
use aiephant_ai_gateway.Common.Text.Cuts.{option_map}
use aiephant_ai_gateway.DefaultModel.{Doubles, Json, SelectionRow, RouterStore}
use aiephant_ai_gateway.DefaultModel.Candidates.{
  split_provider_model, BareModelExpandIndex, expand_policy_model_list, resolve_model_id_list,
}
use aiephant_ai_gateway.DefaultModel.Choose.{
  ScoredGatewayModel, DefaultModelCandidate, ApiError, Choice, not_excluded, candidate_of,
  parsed_candidate, wanted, score, score_info, selection_info, candidate_lookup_key,
  model_info_allows_unified_path, price_sum, resolve_scored_gateway_models, pick_any,
  pick_best_scored_gateway_model, chosen, choose_scored, choose_expanded, choose_listed,
  choose_default_gateway_model_excluding_provider,
}
use aiephant_ai_gateway.DefaultModel.Chosen.{eligible, if_not_excluded, scored-eligible}
use aiephant_ai_gateway.DefaultModel.Greatest.{greatest, greatest-Any}
use aiephant_ai_gateway.DefaultModel.Lists.{option_bind, push_some, filter_map}
use aiephant_ai_gateway.DefaultModel.Prices.{
  pick_greatest_by_price_and_name, names_near, fold_max, nearly,
}
use aiephant_ai_gateway.VirtualKey.{model_access_allowed, listed}
use aiephant_ai_gateway.VirtualKey.Access.{ListedIn, listed-ListedIn}

some_injective : {A : Type 0} (a b : A) → some a ≡ some b → a ≡ b
some_injective a b e = ground (arith, e)

map-select-Any :
    {F : Type 0} (p : Text × F → Bool) (m : Text) (es : List (Text × F))
    → Any (λ n. n ≡ m) (map {B = Text} (λ s. s.0) (select p es))
    → Any (λ e. e.0 ≡ m) es
map-select-Any p m [] h = h
map-select-Any p m (e ∷ es) h = elim (Bool-cases (p e)) [
  | inl kept ↦ elim (rw kept at h) [ inl q ↦ inl q | inr r ↦ inr (map-select-Any p m es r) ]
  | inr left ↦ inr (map-select-Any p m es (rw left at h))
]

greatest-some-Any : (ss : List Text) (m : Text) → greatest ss ≡ some m → Any (λ n. n ≡ m) ss
unfolding greatest
greatest-some-Any [] m e = cc e
greatest-some-Any (s ∷ ss) m e = greatest-Any s ss m e

-- What is picked is one of the names.
pick_any-Any :
    {F : Type 0} (f64 : Doubles F) (es : List (Text × F)) (m : Text)
    → pick_any f64 es ≡ some (some m)
    → Any (λ e. e.0 ≡ m) es
unfolding pick_any option_map pick_greatest_by_price_and_name names_near
pick_any-Any f64 [] m e = cc e
pick_any-Any f64 (x ∷ es) m e = elim (Option-cases (pick_greatest_by_price_and_name f64 (x ∷ es))) [
  | inl p ↦ cc (rw p at e)
  | inr (n, p) ↦
      let same : n ≡ m = ground (arith, rw p at e) in
      let top = fold_max f64 f64.neg_infinity (x ∷ es) in
      map-select-Any (λ s. nearly f64 s.1 top) m (x ∷ es)
        (greatest-some-Any (names_near f64 top (x ∷ es)) m (p ∙ ap some same))
]

filter_map-Any :
    {A B : Type 0} (f : A → Option B) (P : B → Type 0) (xs : List A)
    → Any P (filter_map f xs)
    → (x : A) × Any (λ z. z ≡ x) xs × (y : B) × (f x ≡ some y) × P y
unfolding filter_map push_some
filter_map-Any f P [] h = absurd h
filter_map-Any f P (x ∷ xs) h = elim (Option-cases (f x)) [
  | inl p ↦ let (z, among, y, e, q) = filter_map-Any f P xs (rw p at h) in (z, inr among, y, e, q)
  | inr (y, p) ↦ elim (rw p at h) [
    | inl q ↦ (x, inl refl, y, p, q)
    | inr r ↦ let (z, among, y', e, q) = filter_map-Any f P xs r in (z, inr among, y', e, q)
  ]
]

if_not_excluded-kept :
    {F : Type 0} (excluded : Option Text) (c : ScoredGatewayModel F) (y : Text × F)
    → if_not_excluded excluded c ≡ some y
    → ((name : Text) → excluded ≡ some name → eq_ignore_ascii_case c.provider_code name ≡ false)
      × (y.0 ≡ c.gateway_model)
unfolding if_not_excluded not_excluded
if_not_excluded-kept none c y e = (λ name q. cc q, ground (arith, e))
if_not_excluded-kept (some other) c y e =
    elim (Bool-cases (eq_ignore_ascii_case c.provider_code other)) [
      | inl same ↦ cc (rw same at e)
      | inr differs ↦
          let kept = rw differs at e in
          (
            λ name q.
                subst (λ n. eq_ignore_ascii_case c.provider_code n ≡ false)
                  (some_injective other name q) differs,
            ap (λ p. p.0) (sym (some_injective (c.gateway_model, c.price_sum) y kept)),
          )
    ]

module _ {Value F : Type 0} (to_lowercase : Text → Text) (json : Json Value F) (f64 : Doubles F)
    (choice : Choice) where
  -- The model is not blocked, it names a provider that is not excluded, and the row for it, the last
  -- of those for its key, has a kind that fits the path.
  abbrev pub MayBeChosen : List (SelectionRow Value) → Text → Type 0
  MayBeChosen rows m =
      (¬ ListedIn to_lowercase m choice.vk_policy.blocked_models)
      × (provider_code model_id : Text) × (split_provider_model m ≡ some (provider_code, model_id))
      × ((excluded : Text)
          → choice.excluded_provider_code ≡ some excluded
          → eq_ignore_ascii_case provider_code excluded ≡ false)
      × (info : Option Value) × (selection_info rows (candidate_lookup_key provider_code model_id)
          ≡ some info)
      × (model_info_allows_unified_path json f64 info choice.path ≡ true)

  unblocked :
      (m : Text)
      → model_access_allowed to_lowercase m none choice.vk_policy.blocked_models ≡ true
      → ¬ ListedIn to_lowercase m choice.vk_policy.blocked_models
  unfolding model_access_allowed listed
  unblocked m e l =
      let is_listed = (listed-ListedIn to_lowercase m choice.vk_policy.blocked_models).1 l in
      cc (rw is_listed at e)

  candidate_of-MayBeChosen :
      (rows : List (SelectionRow Value)) (m provider_code model_id : Text) (y : Text × F)
      → model_access_allowed to_lowercase m none choice.vk_policy.blocked_models ≡ true
      → split_provider_model m ≡ some (provider_code, model_id)
      → eligible to_lowercase json f64 choice rows m ≡ some y
      → MayBeChosen rows m × (y.0 ≡ m)
  unfolding eligible candidate_of parsed_candidate option_bind score score_info if_not_excluded
  candidate_of-MayBeChosen rows m provider_code model_id y free split e =
      let key = candidate_lookup_key provider_code model_id in
      let chosen_ = rw (free, split) at e in
      elim (Option-cases (selection_info rows key)) [
        | inl none_ ↦ cc (rw none_ at chosen_)
        | inr (info, found) ↦
            elim (Bool-cases (model_info_allows_unified_path json f64 info choice.path)) [
              | inl fits ↦
                  let c : ScoredGatewayModel F = record {
                    gateway_model = m;
                    provider_code = provider_code;
                    price_sum = price_sum json f64 info;
                  } in
                  let (open_, same) =
                    if_not_excluded-kept choice.excluded_provider_code c y
                      (rw (found, fits) at chosen_) in
                  (
                    (unblocked m free, provider_code, model_id, split, open_, info, found, fits),
                    same,
                  )
              | inr unfit ↦ cc (rw (found, unfit) at chosen_)
            ]
      ]

  eligible-MayBeChosen :
      (rows : List (SelectionRow Value)) (m : Text) (y : Text × F)
      → eligible to_lowercase json f64 choice rows m ≡ some y
      → MayBeChosen rows m × (y.0 ≡ m)
  unfolding eligible candidate_of parsed_candidate option_bind
  eligible-MayBeChosen rows m y e =
      elim (Bool-cases (model_access_allowed to_lowercase m none choice.vk_policy.blocked_models)) [
        | inl free ↦ elim (Option-cases (split_provider_model m)) [
          | inl none_ ↦ cc (rw (free, none_) at e)
          | inr ((provider_code, model_id), split) ↦
              candidate_of-MayBeChosen rows m provider_code model_id y free split e
        ]
        | inr blocked ↦ cc (rw blocked at e)
      ]

option_map-chosen :
    {E : Type 0} (o : Option (Option Text)) (m : Text)
    → option_map {A = Option Text} {B = Result (ApiError E) Text} chosen o ≡ some (ok m)
    → o ≡ some (some m)
unfolding option_map chosen
option_map-chosen none m e = cc e
option_map-chosen (some none) m e = cc (some_injective _ _ e)
option_map-chosen (some (some n)) m e = ground (arith, some_injective _ _ e)

module _ {Value F Error : Type 0} (to_lowercase : Text → Text) (json : Json Value F)
    (f64 : Doubles F) (index : BareModelExpandIndex) (store : RouterStore Error Value)
    (choice : Choice) where
  abbrev candidates : List Text → List DefaultModelCandidate
  candidates = filter_map (candidate_of to_lowercase choice.vk_policy.blocked_models)

  -- The model is of the list, and may be chosen by the rows that the store has for it.
  abbrev pub IsPermitted : List Text → Text → Type 0
  IsPermitted list m =
      Any (λ x. x ≡ m) list
      × (rows : List (SelectionRow Value)) × (store.get_gateway_model_selection_info_batch
            (wanted (candidates list))
          ≡ ok rows)
      × MayBeChosen to_lowercase json f64 choice rows m

  choose_expanded-IsPermitted :
      (list : List Text) (m : Text)
      → choose_expanded to_lowercase json f64 index store choice list ≡ some (ok m)
      → IsPermitted list m
  unfolding choose_expanded choose_scored resolve_scored_gateway_models
      pick_best_scored_gateway_model
  choose_expanded-IsPermitted [] m e = cc (some_injective _ _ e)
  choose_expanded-IsPermitted (x ∷ list) m e =
      elim (Result-cases
        (store.get_gateway_model_selection_info_batch (wanted (candidates (x ∷ list))))) [
          | inl (rows, answered) ↦
              let picked = option_map-chosen _ m (rw answered at e) in
              let scored =
                subst (λ es. pick_any f64 es ≡ some (some m))
                  (scored-eligible to_lowercase json f64 choice rows (x ∷ list)) picked in
              let (z, among, y, eligible_, same) =
                filter_map-Any (eligible to_lowercase json f64 choice rows) (λ y. y.0 ≡ m)
                  (x ∷ list) (pick_any-Any f64 _ m scored) in
              let (may, named) =
                eligible-MayBeChosen to_lowercase json f64 choice rows z y eligible_ in
              let is : z ≡ m = sym named ∙ same in
              (
                subst (λ n. Any (λ x. x ≡ n) (x ∷ list)) is among,
                rows,
                answered,
                subst (MayBeChosen to_lowercase json f64 choice rows) is may,
              )
          | inr (x, failed) ↦ cc (some_injective _ _ (rw failed at e))
        ]

  -- A model that is chosen for a request without one, whatever the prices, is in the expanded list of
  -- the policy; it is not on the list of blocked models, up to case; it names a provider, which is not
  -- the excluded one, up to case; and the store has a row for it whose kind fits the path.
  pub choose_default_gateway_model-IsPermitted :
      (m : Text)
      → choose_default_gateway_model_excluding_provider to_lowercase json f64 index
          (some store)
          choice
        ≡ some (ok m)
      → (raw : List Text) × (resolve_model_id_list json store choice.has_department choice.vk_policy
          ≡ ok raw)
        × IsPermitted (expand_policy_model_list index raw) m
  unfolding choose_default_gateway_model_excluding_provider choose_listed
  choose_default_gateway_model-IsPermitted m e =
      elim (Result-cases
        (resolve_model_id_list json store choice.has_department choice.vk_policy)) [
          | inl (raw, l) ↦ (
            raw,
            l,
            choose_expanded-IsPermitted (expand_policy_model_list index raw) m (rw l at e),
          )
          | inr (x, failed) ↦ cc (some_injective _ _ (rw failed at e))
        ]
