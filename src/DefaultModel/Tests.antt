-- ===== src/DefaultModel/Tests.antt =====
-- A workspace with three models, of which the dearest is of a provider that is excluded. Prices are
-- natural numbers of billionths.
use Prim.Native.String.{String}
use aiephant_ai_gateway.Common.{
  ℕ, ◌≡◌, refl, true, Option, none, some, List, [], ◌∷◌, ◌+◌, ◌-◌, ◌*◌, ◌/◌, max, leb, ok, arith,
  if◌then◌else◌, map,
}
use aiephant_ai_gateway.Common.Text.{Text, codes, is_whitespace, to_ascii_lowercase, lower, text_eq}
use aiephant_ai_gateway.DefaultModel.{Doubles, Json, SelectionRow, RouterStore}
use aiephant_ai_gateway.DefaultModel.Best.{PriceLaws}
use aiephant_ai_gateway.DefaultModel.Candidates.{
  BareModelExpandIndex, expand_policy_model_list, resolve_model_id_list,
}
use aiephant_ai_gateway.DefaultModel.Choose.{
  Choice, choose_default_gateway_model_excluding_provider,
}
use aiephant_ai_gateway.DefaultModel.Chosen.{
  eligible, IsChoice, choose_default_gateway_model-IsChoice,
}
use aiephant_ai_gateway.DefaultModel.Lists.{filter_map}
use aiephant_ai_gateway.DefaultModel.Permitted.{
  IsPermitted, choose_default_gateway_model-IsPermitted,
}

abbrev billionths : Doubles ℕ
billionths = record {
  zero = 0;
  one_billionth = 1;
  neg_infinity = 0;
  add = λ a b. a + b;
  sub = λ a b. (a - b) + (b - a);
  mul = λ a b. (a * b) / 1000000000;
  max = max;
  abs = λ a. a;
  le = leb;
}

abbrev laws : PriceLaws billionths
laws = record {
  is_finite = λ a. true;
  max-neg_infinity = λ a p. ground arith;
  max_either = λ a b p q. ground arith;
  le-max_left = λ a b p q. ground arith;
  le-max_right = λ a b p q. ground arith;
  le_refl = λ a p. ground arith;
  le_trans = λ a b c p q. ground arith;
  sub_self = λ a p. ground arith;
  abs-zero = refl;
  zero_le = λ a. ground arith;
}

-- The JSON of the rows: the list of a policy, and what is known of a model.
data Value : Type 0 where
  policy : List Text → Value
  strings : List Text → Value
  string : Text → Value
  number : ℕ → Value
  model : (kind : Text) (prompt completion : ℕ) → Value

abbrev get : Value → Text → Option Value
get (policy models) key =
    if text_eq key (codes "allowedModels") then some (strings models) else none
get (model kind prompt completion) key =
    if text_eq key (codes "model_interaction_type")
    then some (string kind)
    else if text_eq key (codes "prompt")
    then some (number prompt)
    else if text_eq key (codes "completion")
    then some (number completion)
    else none
get _ key = none

abbrev as_f64 : Value → Option ℕ
as_f64 (number n) = some n
as_f64 _ = none

abbrev as_str : Value → Option Text
as_str (string t) = some t
as_str _ = none

abbrev as_array : Value → Option (List Value)
as_array (strings ts) = some (map string ts)
as_array _ = none

abbrev json : Json Value ℕ
json = record {
  get = get;
  pointer = λ v key. none;
  as_f64 = as_f64;
  as_str = as_str;
  as_array = as_array;
  model_list_doc = λ v. none;
}

abbrev raw : List Text
raw = codes "llama-3" ∷ codes "openai/GPT-4o" ∷ codes "azure/gpt-4o" ∷ codes "openai/o1" ∷ []

abbrev row_of : String → String → Value → SelectionRow Value
row_of provider id info = record {
  provider_code = codes provider;
  model_id = codes id;
  info = some info;
}

abbrev rows : List (SelectionRow Value)
rows =
    row_of "groq" "llama-3" (model (codes "chat") 3 4)
    ∷ row_of "openai" "gpt-4o" (model (codes "multimodal") 50 20)
    ∷ row_of "azure" "gpt-4o" (model (codes "chat") 60 20)
    ∷ row_of "openai" "o1" (model (codes "embedding") 90 0)
    ∷ []

abbrev store : RouterStore Text Value
store = record {
  overrides_for_department = ok (some (policy []));
  overrides_for_virtual_key = ok none;
  overrides_workspace_default = ok none;
  config_for_workspace = ok (some (policy raw));
  get_gateway_model_selection_info_batch = λ wanted. ok rows;
}

abbrev choice : Choice
choice = record {
  path = codes "chat/completions";
  vk_policy = record { allowed_models = none; blocked_models = some (codes "GROQ/llama-2" ∷ []) };
  has_department = true;
  excluded_provider_code = some (codes "Azure");
}

abbrev index : BareModelExpandIndex
index = (codes "llama-3", codes "groq/llama-3" ∷ codes "groq/llama-2" ∷ []) ∷ []

chooses :
    choose_default_gateway_model_excluding_provider to_ascii_lowercase json billionths index
      (some store)
      choice
    ≡ some (ok (codes "openai/GPT-4o"))
unfolding choose_default_gateway_model_excluding_provider is_whitespace lower
chooses = refl

choose_default_gateway_model-IsChoice_example :
    IsChoice Text billionths laws
      (filter_map
        (eligible to_ascii_lowercase json billionths choice rows)
        (expand_policy_model_list index raw))
      (choose_default_gateway_model_excluding_provider to_ascii_lowercase json billionths index
        (some store)
        choice)
unfolding choose_default_gateway_model_excluding_provider eligible is_whitespace lower
choose_default_gateway_model-IsChoice_example =
    choose_default_gateway_model-IsChoice to_ascii_lowercase json billionths laws index store choice
      rows raw refl refl (refl, (refl, tt))

choose_default_gateway_model-IsPermitted_example :
    (list : List Text) × (resolve_model_id_list json store choice.has_department choice.vk_policy
      ≡ ok list)
    × IsPermitted to_ascii_lowercase json billionths index store choice
        (expand_policy_model_list index list)
        (codes "openai/GPT-4o")
choose_default_gateway_model-IsPermitted_example =
    choose_default_gateway_model-IsPermitted to_ascii_lowercase json billionths index store choice
      (codes "openai/GPT-4o") chooses
