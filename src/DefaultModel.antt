-- ===== src/DefaultModel.antt =====
-- default_model/, discover/router/bare_model_expand_index.rs and middleware/model_support/parse.rs:
-- the model that a request without a model gets. The store, serde_json, `str::to_lowercase` and the
-- arithmetic of f64 are parameters.
pub mod Best
pub mod Candidates
pub mod Choose
pub mod Chosen
pub mod Greatest
pub mod Lists
pub mod Permitted
pub mod Prices
pub mod Tests
use aiephant_ai_gateway.Common.{Bool, Option, List, Result}
use aiephant_ai_gateway.Common.Text.{Text}

-- The operations on `f64` that the choice uses.
pub record Doubles (F : Type 0) : Type 0 where
  pub zero : F
  pub one_billionth : F
  pub neg_infinity : F
  pub add : F → F → F
  pub sub : F → F → F
  pub mul : F → F → F
  pub max : F → F → F
  pub abs : F → F
  pub le : F → F → Bool

-- The operations on `serde_json::Value`; the last reads a `ModelListDoc`.
pub record Json (Value F : Type 0) : Type 0 where
  pub get : Value → Text → Option Value
  pub pointer : Value → Text → Option Value
  pub as_f64 : Value → Option F
  pub as_str : Value → Option Text
  pub as_array : Value → Option (List Value)
  pub model_list_doc : Value → Option (Option (List Text))

-- A row of the batch query.
pub record SelectionRow (Value : Type 0) : Type 0 where
  pub provider_code : Text
  pub model_id : Text
  pub info : Option Value

-- What the store answers, for the workspace, the key and the department of a request.
pub record RouterStore (Error Value : Type 0) : Type 0 where
  pub overrides_for_department : Result Error (Option Value)
  pub overrides_for_virtual_key : Result Error (Option Value)
  pub overrides_workspace_default : Result Error (Option Value)
  pub config_for_workspace : Result Error (Option Value)
  pub get_gateway_model_selection_info_batch :
      List (Text × Text) → Result Error (List (SelectionRow Value))
