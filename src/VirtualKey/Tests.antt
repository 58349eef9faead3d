-- ===== src/VirtualKey/Tests.antt =====
-- A key that allows one model of a family that it blocks.
use aiephant_ai_gateway.Common.{◌≡◌, refl, ◌↔◌, ◌⊎◌, false, Result, some, [], ◌∷◌, err, ok}
use aiephant_ai_gateway.Common.Text.{Text, codes, to_ascii_lowercase}
use aiephant_ai_gateway.Provider.{open_ai}
use aiephant_ai_gateway.Retry.Dispatch.{direct_proxy}
use aiephant_ai_gateway.VirtualKey.DirectProxy.{
  denied, DirectRequest, enforce_direct_proxy_vk_model_policy, Checked, enforce_direct_proxy_iff,
}
use aiephant_ai_gateway.VirtualKey.{VkPolicy, model_access_denied, check_model_access}
use aiephant_ai_gateway.VirtualKey.Access.{ListedIn, check_model_access_iff}

abbrev policy : VkPolicy
policy = record {
  allowed_models = some (codes "gpt-4o" ∷ []);
  blocked_models = some (codes "gpt-4o" ∷ codes "GPT-5" ∷ []);
}

abbrev requested : Text
requested = codes "gpt-5"

check_model_access_iff_example :
    ((check_model_access to_ascii_lowercase (some policy) requested
        ≡ err (model_access_denied requested))
      ↔ (ListedIn to_ascii_lowercase requested policy.blocked_models
          × ¬ ListedIn to_ascii_lowercase requested policy.allowed_models))
    × ((check_model_access to_ascii_lowercase (some policy) requested ≡ ok tt)
        ⊎ (check_model_access to_ascii_lowercase (some policy) requested
            ≡ err (model_access_denied requested)))
check_model_access_iff_example = check_model_access_iff to_ascii_lowercase policy requested

-- The body is its model.
abbrev model_of : Text → Result Text Text
model_of body = ok body

abbrev direct_request : Text → DirectRequest
direct_request path_and_query = record {
  has_model_override = false;
  is_custom_provider = false;
  has_master_key_base_url = false;
  request_kind = direct_proxy;
  provider = open_ai;
  path_and_query = path_and_query;
  vk_policy = some policy;
}

-- A query is enough for a blocked model.
passes_with_query :
    enforce_direct_proxy_vk_model_policy to_ascii_lowercase model_of
      (direct_request (codes "v1/chat/completions?a=1"))
      requested
      0
    ≡ (ok tt, 0)
unfolding enforce_direct_proxy_vk_model_policy
passes_with_query = refl

enforce_direct_proxy_iff_example :
    (enforce_direct_proxy_vk_model_policy to_ascii_lowercase model_of
        (direct_request (codes "v1/chat/completions"))
        requested
        0
      ≡ (err (denied (model_access_denied requested)), 1))
    ↔ (Checked (direct_request (codes "v1/chat/completions"))
        × ListedIn to_ascii_lowercase requested policy.blocked_models
        × ¬ ListedIn to_ascii_lowercase requested policy.allowed_models)
enforce_direct_proxy_iff_example =
    enforce_direct_proxy_iff to_ascii_lowercase model_of
      (direct_request (codes "v1/chat/completions")) policy requested requested 0 refl refl
