-- ===== src/VirtualKey/DirectProxy.antt =====
-- dispatcher/service.rs: the model policy of a virtual key for a request that goes to a provider
-- directly. The parser of the body is a parameter.
use aiephant_ai_gateway.Common.{
  ℕ, suc, ◌≡◌, ap, ◌↔◌, inl, inr, Bool, true, false, not, ◌&&◌, Option, some, arith, Result, ok,
  err, if◌then◌else◌, Bool-cases, if_true, if_false, subst, sym, ◌∙◌,
}
use aiephant_ai_gateway.Common.Text.{Text, codes, ends_with}
use aiephant_ai_gateway.Provider.{InferenceProvider, open_ai}
use aiephant_ai_gateway.Retry.Dispatch.{RequestKind, direct_proxy, custom_provider}
use aiephant_ai_gateway.VirtualKey.Access.{ListedIn, check_model_access_iff}
use aiephant_ai_gateway.VirtualKey.{VkPolicy, AccessError, model_access_denied, check_model_access}

pub data PolicyError (E : Type 0) : Type 0 where
  invalid_request_body : E → PolicyError E
  denied : AccessError → PolicyError E

-- What the check reads of a request.
pub record DirectRequest : Type 0 where
  pub has_model_override : Bool
  pub is_custom_provider : Bool
  pub has_master_key_base_url : Bool
  pub request_kind : RequestKind
  pub provider : InferenceProvider
  pub path_and_query : Text
  pub vk_policy : Option VkPolicy

unfoldable pub is_direct : RequestKind → Bool
is_direct direct_proxy = true
is_direct custom_provider = true
is_direct _ = false

unfoldable pub is_open_ai : InferenceProvider → Bool
is_open_ai open_ai = true
is_open_ai _ = false

-- A denial is counted in the metrics.
unfoldable pub count_denied :
    {E : Type 0} → Result AccessError (Unit {0}) → ℕ → Result (PolicyError E) (Unit {0}) × ℕ
count_denied (ok u) model_denied = (ok tt, model_denied)
count_denied (err e) model_denied = (err (denied e), suc model_denied)

unfoldable pub is_checked : DirectRequest → Bool
unfolding is_direct is_open_ai ends_with
is_checked req =
    if req.has_model_override
    then false
    else if req.is_custom_provider && req.has_master_key_base_url
    then false
    else if not (is_direct req.request_kind)
    then false
    else if not (is_open_ai req.provider)
    then false
    else if not (ends_with (codes "chat/completions") req.path_and_query)
    then false
    else true

abbrev pub Checked : DirectRequest → Type 0
Checked req =
    (req.has_model_override ≡ false)
    × (req.is_custom_provider && req.has_master_key_base_url ≡ false)
    × (is_direct req.request_kind ≡ true)
    × (is_open_ai req.provider ≡ true)
    × (ends_with (codes "chat/completions") req.path_and_query ≡ true)

is_checked-Checked : (req : DirectRequest) → (is_checked req ≡ true) ↔ Checked req
unfolding is_checked
is_checked-Checked req = ground arith

module _ {Body E : Type 0} (to_lowercase : Text → Text) (model_of : Body → Result E Text) where
  unfoldable pub check_parsed :
      Option VkPolicy → Result E Text → ℕ → Result (PolicyError E) (Unit {0}) × ℕ
  unfolding count_denied check_model_access
  check_parsed policy (err e) model_denied = (err (invalid_request_body e), model_denied)
  check_parsed policy (ok model) model_denied =
      count_denied (check_model_access to_lowercase policy model) model_denied

  unfoldable pub enforce_direct_proxy_vk_model_policy :
      DirectRequest → Body → ℕ → Result (PolicyError E) (Unit {0}) × ℕ
  unfolding is_checked check_parsed
  enforce_direct_proxy_vk_model_policy req req_body_bytes model_denied =
      if is_checked req
      then check_parsed req.vk_policy (model_of req_body_bytes) model_denied
      else (ok tt, model_denied)

  count_denied_iff :
      (r : Result AccessError (Unit {0})) (m : Text) (n : ℕ)
      → (count_denied {E = E} r n ≡ (err (denied (model_access_denied m)), suc n))
        ↔ (r ≡ err (model_access_denied m))
  unfolding count_denied
  count_denied_iff (ok u) m n = (λ e. cc e, λ e. cc e)
  count_denied_iff (err (model_access_denied k)) m n = (λ e. cc e, λ e. cc e)

  enforce_unchecked :
      (req : DirectRequest) (body : Body) (n : ℕ)
      → is_checked req ≡ false
      → enforce_direct_proxy_vk_model_policy req body n ≡ (ok tt, n)
  unfolding enforce_direct_proxy_vk_model_policy
  enforce_unchecked req body n p =
      if_false (check_parsed req.vk_policy (model_of body) n) (ok tt, n) p

  enforce_checked :
      (req : DirectRequest) (body : Body) (n : ℕ)
      → is_checked req ≡ true
      → enforce_direct_proxy_vk_model_policy req body n
        ≡ check_parsed req.vk_policy (model_of body) n
  unfolding enforce_direct_proxy_vk_model_policy
  enforce_checked req body n p = if_true (check_parsed req.vk_policy (model_of body) n) (ok tt, n) p

  check_parsed_iff :
      (policy : VkPolicy) (parsed : Result E Text) (m : Text) (n : ℕ)
      → parsed ≡ ok m
      → (check_parsed (some policy) parsed n ≡ (err (denied (model_access_denied m)), suc n))
        ↔ (check_model_access to_lowercase (some policy) m ≡ err (model_access_denied m))
  unfolding check_parsed
  check_parsed_iff policy parsed m n e =
      subst
        (λ r.
          (check_parsed (some policy) r n ≡ (err (denied (model_access_denied m)), suc n))
          ↔ (check_model_access to_lowercase (some policy) m ≡ err (model_access_denied m)))
        (sym e) (count_denied_iff (check_model_access to_lowercase (some policy) m) m n)

  -- A request to a provider whose body names a model is denied, and counted, exactly if it is one that
  -- is checked (no policy has replaced its model, it does not go to a custom provider with its own
  -- base URL, it is a direct-proxy or custom-provider request to OpenAI, and its path together with
  -- its query ends with chat/completions) and the model, up to case, is blocked and not allowed.
  pub enforce_direct_proxy_iff :
      (req : DirectRequest) (policy : VkPolicy) (body : Body) (m : Text) (n : ℕ)
      → req.vk_policy ≡ some policy
      → model_of body ≡ ok m
      → (enforce_direct_proxy_vk_model_policy req body n
          ≡ (err (denied (model_access_denied m)), suc n))
        ↔ (Checked req
            × ListedIn to_lowercase m policy.blocked_models
            × ¬ ListedIn to_lowercase m policy.allowed_models)
  enforce_direct_proxy_iff req policy body m n v e = elim (Bool-cases (is_checked req)) [
    | inr p ↦
        (λ q. cc (enforce_unchecked req body n p, q), λ h. cc (p, (is_checked-Checked req).1 h.0))
    | inl p ↦
        let same = enforce_checked req body n p ∙ ap (λ o. check_parsed o (model_of body) n) v in
        let access = (check_model_access_iff to_lowercase policy m).0 in
        let parsed = check_parsed_iff policy (model_of body) m n e in
        (
          λ q.
              let (blocked, unlisted) = access.0 (parsed.0 (sym same ∙ q)) in
              ((is_checked-Checked req).0 p, blocked, unlisted),
          λ (c, blocked, unlisted). same ∙ parsed.1 (access.1 (blocked, unlisted)),
        )
  ]
