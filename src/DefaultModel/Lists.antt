-- ===== src/DefaultModel/Lists.antt =====
-- default_model/resolve.rs: the lists of models in the JSON of policies.
use aiephant_ai_gateway.Common.{not, Option, none, some, List, [], ◌∷◌, map, select, option_or}
use aiephant_ai_gateway.Common.Text.{Text, codes, is_empty, trim}
use aiephant_ai_gateway.DefaultModel.{Json}

unfoldable pub option_bind : {A B : Type 0} → Option A → (A → Option B) → Option B
option_bind none f = none
option_bind (some a) f = f a

unfoldable pub push_some : {A : Type 0} → Option A → List A → List A
push_some none xs = xs
push_some (some x) xs = x ∷ xs

-- `Iterator::filter_map`.
unfoldable pub filter_map : {A B : Type 0} → (A → Option B) → List A → List B
unfolding push_some
filter_map f [] = []
filter_map f (x ∷ xs) = push_some (f x) (filter_map f xs)

unfoldable pub some_if_any : List Text → Option (List Text)
some_if_any [] = none
some_if_any (m ∷ ms) = some (m ∷ ms)

-- The trimmed entries that are not empty, if there are any.
unfoldable pub non_empty_list : List Text → Option (List Text)
unfolding some_if_any trim
non_empty_list list = some_if_any (select (λ s. not (is_empty s)) (map trim list))

unfoldable pub first_non_empty_list :
    Option (List Text) → Option (List Text) → Option (List Text) → Option (List Text)
unfolding non_empty_list option_bind
first_non_empty_list a b c =
    option_or (option_bind a non_empty_list)
      (option_or (option_bind b non_empty_list) (option_bind c non_empty_list))

module _ {Value F : Type 0} (json : Json Value F) where
  unfoldable pub non_empty_string_ids : Value → Option (List Text)
  unfolding option_bind filter_map non_empty_list
  non_empty_string_ids a =
      option_bind (json.as_array a) λ elements. non_empty_list (filter_map json.as_str elements)

  unfoldable pub model_ids_from_doc : Option (Option (List Text)) → Option (List Text)
  unfolding first_non_empty_list
  model_ids_from_doc none = none
  model_ids_from_doc (some allowed_models) = first_non_empty_list allowed_models none none

  -- The value under the first of two keys that is there.
  unfoldable pub get_either : Value → Text → Text → Option Value
  get_either v key legacy = option_or (json.get v key) (json.get v legacy)

  unfoldable pub model_ids_from_config_json : Value → Option (List Text)
  unfolding option_bind get_either non_empty_string_ids model_ids_from_doc
  model_ids_from_config_json v =
      option_or
        (option_bind (get_either v (codes "allowedModels") (codes "allowed_models"))
          non_empty_string_ids)
        (model_ids_from_doc (json.model_list_doc v))

  unfoldable pub model_ids_at : Value → Text → Option (List Text)
  unfolding option_bind non_empty_string_ids
  model_ids_at v ptr = option_bind (json.pointer v ptr) non_empty_string_ids

  unfoldable pub model_ids_from_whitelist : Value → Option (List Text)
  unfolding option_bind get_either non_empty_string_ids
  model_ids_from_whitelist v =
      option_bind (get_either v (codes "modelWhitelist") (codes "model_whitelist"))
        λ whitelist. option_bind (json.get whitelist (codes "models")) non_empty_string_ids

  unfoldable pub model_ids_from_policy_overrides_json : Value → Option (List Text)
  unfolding option_bind model_ids_at model_ids_from_whitelist model_ids_from_config_json
  model_ids_from_policy_overrides_json v =
      option_or (model_ids_at v (codes "/modelWhitelist/models")) (
        option_or (model_ids_at v (codes "/model_whitelist/models")) (
          option_or (model_ids_from_whitelist v) (
            option_or (model_ids_from_config_json v)
              (option_bind (json.get v (codes "model_access")) model_ids_from_config_json))))
