-- ===== src/DefaultModel/Choose.antt =====
-- default_model/choose.rs: the choice of a model for a path, a key and a workspace.
use aiephant_ai_gateway.Common.{
  Bool, true, false, not, ◌||◌, Option, none, some, List, [], ◌∷◌, ◌++◌, map, select, option_or,
  Result, ok, err, ◌>>=◌, if◌then◌else◌,
}
use aiephant_ai_gateway.Common.Text.{Text, codes, text_eq, to_ascii_lowercase, eq_ignore_ascii_case}
use aiephant_ai_gateway.Common.Text.Cuts.{option_map}
use aiephant_ai_gateway.DefaultModel.{Doubles, Json, SelectionRow, RouterStore}
use aiephant_ai_gateway.DefaultModel.Candidates.{
  split_provider_model, BareModelExpandIndex, expand_policy_model_list, resolve_model_id_list,
}
use aiephant_ai_gateway.DefaultModel.Lists.{option_bind, filter_map}
use aiephant_ai_gateway.DefaultModel.Prices.{price_sum_from_info, pick_greatest_by_price_and_name}
use aiephant_ai_gateway.VirtualKey.{VkPolicy, model_access_allowed}

pub data ModelInteractionSelectionPolicy : Type 0 where
  chat_multimodal_reasoning : ModelInteractionSelectionPolicy
  embedding_only : ModelInteractionSelectionPolicy
  legacy_compatible : ModelInteractionSelectionPolicy

unfoldable pub selection_policy_for_unified_path : Text → ModelInteractionSelectionPolicy
selection_policy_for_unified_path path =
    if text_eq path (codes "chat/completions")
      || text_eq path (codes "messages")
      || text_eq path (codes "responses")
    then chat_multimodal_reasoning
    else if text_eq path (codes "embeddings")
    then embedding_only
    else legacy_compatible

unfoldable pub is_type : Text → Option Text → Bool
is_type name none = false
is_type name (some t) = text_eq t name

unfoldable pub policy_allows_interaction_type : ModelInteractionSelectionPolicy → Option Text → Bool
unfolding is_type
policy_allows_interaction_type chat_multimodal_reasoning t =
    is_type (codes "chat") t || is_type (codes "multimodal") t || is_type (codes "reasoning") t
policy_allows_interaction_type embedding_only t = is_type (codes "embedding") t
policy_allows_interaction_type legacy_compatible t = not (is_type (codes "embedding") t)

unfoldable pub candidate_lookup_key : Text → Text → Text
unfolding to_ascii_lowercase
candidate_lookup_key provider_code model_id =
    to_ascii_lowercase provider_code ++ b'/' ∷ to_ascii_lowercase model_id

pub record DefaultModelCandidate : Type 0 where
  pub original : Text
  pub provider_code : Text
  pub model_id : Text

unfoldable pub wanted : List DefaultModelCandidate → List (Text × Text)
wanted = map (λ c. (c.provider_code, c.model_id))

pub record ScoredGatewayModel (F : Type 0) : Type 0 where
  pub gateway_model : Text
  pub provider_code : Text
  pub price_sum : F

pub data ApiError (Error : Type 0) : Type 0 where
  no_model_available : ApiError Error
  store_error : Error → ApiError Error

-- What the request brings: its path, the model list of its key, whether it has a department, and
-- the provider that it may not use.
pub record Choice : Type 0 where
  pub path : Text
  pub vk_policy : VkPolicy
  pub has_department : Bool
  pub excluded_provider_code : Option Text

-- `get` on the map from the rows, where a later row replaces an earlier one.
unfoldable pub selection_info :
    {Value : Type 0} → List (SelectionRow Value) → Text → Option (Option Value)
unfolding candidate_lookup_key
selection_info [] key = none
selection_info (row ∷ rows) key = option_or (selection_info rows key) (
    if text_eq (candidate_lookup_key row.provider_code row.model_id) key
    then some row.info
    else none)

unfoldable pub not_excluded : {F : Type 0} → Option Text → ScoredGatewayModel F → Bool
not_excluded none candidate = true
not_excluded (some excluded) candidate = not (eq_ignore_ascii_case candidate.provider_code excluded)

module _ (to_lowercase : Text → Text) where
  unfoldable pub parsed_candidate : Text → Option (Text × Text) → Option DefaultModelCandidate
  parsed_candidate m none = none
  parsed_candidate m (some (provider, model)) =
      some (record { original = m; provider_code = provider; model_id = model })

  -- A model that is not blocked and has a provider.
  unfoldable pub candidate_of : Option (List Text) → Text → Option DefaultModelCandidate
  unfolding model_access_allowed parsed_candidate split_provider_model
  candidate_of blocked m =
      if model_access_allowed to_lowercase m none blocked
      then parsed_candidate m (split_provider_model m)
      else none

module _ {Value F : Type 0} (json : Json Value F) (f64 : Doubles F) where
  unfoldable pub model_interaction_type_from_info : Option Value → Option Text
  unfolding option_bind
  model_interaction_type_from_info info =
      option_bind info λ i. option_bind (json.get i (codes "model_interaction_type")) json.as_str

  unfoldable pub model_info_allows_unified_path : Option Value → Text → Bool
  unfolding policy_allows_interaction_type selection_policy_for_unified_path
      model_interaction_type_from_info
  model_info_allows_unified_path info path =
      policy_allows_interaction_type (selection_policy_for_unified_path path)
        (model_interaction_type_from_info info)

  unfoldable pub price_sum : Option Value → F
  unfolding price_sum_from_info
  price_sum none = f64.zero
  price_sum (some j) = price_sum_from_info f64 json j

  unfoldable pub score_info :
      Text → DefaultModelCandidate → Option (Option Value) → Option (ScoredGatewayModel F)
  unfolding model_info_allows_unified_path price_sum
  score_info path candidate none = none
  score_info path candidate (some info) =
      if model_info_allows_unified_path info path
      then some (record {
        gateway_model = candidate.original;
        provider_code = candidate.provider_code;
        price_sum = price_sum info;
      })
      else none

  unfoldable pub score :
      Text → List (SelectionRow Value) → DefaultModelCandidate → Option (ScoredGatewayModel F)
  unfolding score_info selection_info candidate_lookup_key
  score path rows candidate =
      score_info path candidate
        (selection_info rows (candidate_lookup_key candidate.provider_code candidate.model_id))

module _ {Value F Error : Type 0} (to_lowercase : Text → Text) (json : Json Value F)
    (f64 : Doubles F) (store : RouterStore Error Value) where
  unfoldable pub resolve_scored_gateway_models :
      Text → VkPolicy → List Text → Result Error (List (ScoredGatewayModel F))
  unfolding filter_map candidate_of score wanted
  resolve_scored_gateway_models path vk_policy list = do
    let candidates = filter_map (candidate_of to_lowercase vk_policy.blocked_models) list
    rows ← store.get_gateway_model_selection_info_batch (wanted candidates)
    ok (filter_map (score json f64 path rows) candidates)

unfoldable pub pick_any : {F : Type 0} → Doubles F → List (Text × F) → Option (Option Text)
unfolding pick_greatest_by_price_and_name option_map
pick_any f64 [] = some none
pick_any f64 (s ∷ filtered) = option_map some (pick_greatest_by_price_and_name f64 (s ∷ filtered))

-- Without a value where the choice panics.
unfoldable pub pick_best_scored_gateway_model :
    {F : Type 0} → Doubles F → List (ScoredGatewayModel F) → Option Text → Option (Option Text)
unfolding pick_any not_excluded
pick_best_scored_gateway_model f64 scored excluded =
    pick_any f64 (map (λ c. (c.gateway_model, c.price_sum)) (select (not_excluded excluded) scored))

unfoldable pub chosen : {E : Type 0} → Option Text → Result (ApiError E) Text
chosen none = err no_model_available
chosen (some m) = ok m

unfoldable pub choose_scored :
    {F Error : Type 0}
    → Doubles F
    → Choice
    → Result Error (List (ScoredGatewayModel F))
    → Option (Result (ApiError Error) Text)
unfolding pick_best_scored_gateway_model chosen option_map
choose_scored f64 choice (err e) = some (err (store_error e))
choose_scored f64 choice (ok scored) =
    option_map chosen (pick_best_scored_gateway_model f64 scored choice.excluded_provider_code)

module _ {Value F Error : Type 0} (to_lowercase : Text → Text) (json : Json Value F)
    (f64 : Doubles F) (index : BareModelExpandIndex) where
  unfoldable pub choose_expanded :
      RouterStore Error Value → Choice → List Text → Option (Result (ApiError Error) Text)
  unfolding choose_scored resolve_scored_gateway_models
  choose_expanded store choice [] = some (err no_model_available)
  choose_expanded store choice (m ∷ list) = choose_scored f64 choice (
      resolve_scored_gateway_models to_lowercase json f64 store choice.path choice.vk_policy
        (m ∷ list))

  unfoldable pub choose_listed :
      RouterStore Error Value
      → Choice
      → Result Error (List Text)
      → Option (Result (ApiError Error) Text)
  unfolding choose_expanded expand_policy_model_list
  choose_listed store choice (err e) = some (err (store_error e))
  choose_listed store choice (ok list) =
      choose_expanded store choice (expand_policy_model_list index list)

  -- Without a value where the choice panics.
  unfoldable pub choose_default_gateway_model_excluding_provider :
      Option (RouterStore Error Value) → Choice → Option (Result (ApiError Error) Text)
  unfolding choose_listed resolve_model_id_list
  choose_default_gateway_model_excluding_provider none choice = some (err no_model_available)
  choose_default_gateway_model_excluding_provider (some store) choice =
      choose_listed store choice
        (resolve_model_id_list json store choice.has_department choice.vk_policy)

  unfoldable pub choose_default_gateway_model :
      Option (RouterStore Error Value) → Choice → Option (Result (ApiError Error) Text)
  unfolding choose_default_gateway_model_excluding_provider
  choose_default_gateway_model store choice =
      choose_default_gateway_model_excluding_provider store
        (record choice { excluded_provider_code = none })
