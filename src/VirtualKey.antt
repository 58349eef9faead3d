-- ===== src/VirtualKey.antt =====
-- virtual_key/: which models a virtual key may use. `str::to_lowercase` is a parameter, since it
-- stands on the tables of Unicode.
pub mod Access
pub mod DirectProxy
pub mod Tests
use aiephant_ai_gateway.Common.{
  Bool, true, false, Option, none, some, List, [], ◌∷◌, any, Result, ok, err, if◌then◌else◌,
}
use aiephant_ai_gateway.Common.Text.{Text, text_eq}

-- The part of `VkPolicy` that says which models are allowed.
pub record VkPolicy : Type 0 where
  pub allowed_models : Option (List Text)
  pub blocked_models : Option (List Text)

pub data AccessError : Type 0 where
  model_access_denied : Text → AccessError

module _ (to_lowercase : Text → Text) where
  abbrev pub listed : Text → Option (List Text) → Bool
  listed req_lower none = false
  listed req_lower (some list) = any (λ m. text_eq (to_lowercase m) req_lower) list

  unfoldable pub model_access_allowed : Text → Option (List Text) → Option (List Text) → Bool
  model_access_allowed request_model allowed_models blocked_models =
      let req_lower = to_lowercase request_model in
      if listed req_lower allowed_models
      then true
      else if listed req_lower blocked_models
      then false
      else true

  unfoldable pub check_model_access : Option VkPolicy → Text → Result AccessError (Unit {0})
  unfolding model_access_allowed
  check_model_access none model_str = ok tt
  check_model_access (some policy) model_str =
      if model_access_allowed model_str policy.allowed_models policy.blocked_models
      then ok tt
      else err (model_access_denied model_str)
