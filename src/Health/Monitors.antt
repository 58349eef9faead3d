-- ===== src/Health/Monitors.antt =====
-- The four monitors: one pass over the targets of a router. A provider monitor removes and restores
-- one key at a time; a model monitor does so for all models of the provider at once.
use aiephant_ai_gateway.Common.{
  Bool, true, false, not, ◌&&◌, Option, none, some, List, [], ◌∷◌, Result, ok, err, ◌>>=◌,
  if◌then◌else◌, ok_or, select, ite,
}
use aiephant_ai_gateway.Common.Sets.{contains}
use aiephant_ai_gateway.Provider.{InferenceProvider, EndpointType, InferenceProvider-discrete}
use aiephant_ai_gateway.Fallback
use aiephant_ai_gateway.Fallback.{Decimals}
use aiephant_ai_gateway.Balance.{
  removed, BalanceConfig, provider_weighted, balanced_latency, model_weighted, model_latency,
  WeightedProvider, WeightedModel, ProviderKey, ProviderWeightedKey, ModelKey, ModelWeightedKey,
  ProviderKey-discrete, ProviderWeightedKey-discrete, ModelKey-discrete, ModelWeightedKey-discrete,
}
use aiephant_ai_gateway.Health.{
  down, up, RuntimeError, internal, invalid_weight, model_id_not_recognized, Environment, Monitor,
  Outcome, and_then, with_value, checks_made,
}
use aiephant_ai_gateway.Health.Check.{
  send, publish, decide, add_unhealthy, drop_unhealthy, record_health, check_health, insert_service,
}

-- `m.model.inference_provider().as_ref() == Some(&provider)`.
unfoldable pub serves : InferenceProvider → Option InferenceProvider → Bool
serves p none = false
serves p (some q) = ite (InferenceProvider-discrete q p) true false

unfoldable pub siblings :
    {R M : Type 0} {d : Decimals} (env : Environment R M d) {A : Type 0}
    → (A → M)
    → InferenceProvider
    → List A
    → List A
unfolding serves
siblings env model_of p = select (λ a. serves p (env.inference_provider (model_of a)))

module _ {R M : Type 0} {d : Decimals} (env : Environment R M d) {K : Type 0}
    (dec : Discrete K) where
  module _ (key : K) (p : InferenceProvider) where
    unfoldable pub provider_down : Monitor K → Monitor K
    unfolding send publish decide add_unhealthy
    provider_down m = publish p down (
        add_unhealthy dec key
          (send (removed key) (decide env.config.fallback_policy Fallback.removed p m)))

    unfoldable pub provider_up : Monitor K → Outcome K
    unfolding publish decide drop_unhealthy insert_service
    provider_up m =
        and_then (insert_service env key p (drop_unhealthy dec key m))
          λ m'. (ok tt, publish p up (decide env.config.fallback_policy Fallback.restored p m'))

    unfoldable pub provider_change : Bool → Bool → Monitor K → Outcome K
    unfolding provider_down provider_up
    provider_change is_healthy was_unhealthy m =
        if not is_healthy && not was_unhealthy
        then (ok tt, provider_down m)
        else if is_healthy && was_unhealthy
        then provider_up m
        else (ok tt, m)

    -- The body of the loops over providers, once the key is known.
    unfoldable pub provider_target : Monitor K → Outcome K
    unfolding provider_change record_health
    provider_target m = with_value (check_health env (checks_made m) p) m λ is_healthy.
        and_then (provider_change is_healthy (contains dec key m.unhealthy_keys) m)
          λ m'. (ok tt, record_health p is_healthy m')

  module _ {A : Type 0} (key_of : A → Result RuntimeError (K × InferenceProvider)) where
    unfoldable pub provider_targets : List A → Monitor K → Outcome K
    provider_targets [] m = (ok tt, m)
    provider_targets (t ∷ ts) m =
        with_value (key_of t) m λ kp. and_then (provider_target kp.0 kp.1 m) (provider_targets ts)

  module _ {A : Type 0} (model_of : A → M)
      (key_of : InferenceProvider → A → Result RuntimeError K) where
    -- The keys are marked in order; the removals are sent by concurrent tasks, here last to first,
    -- and by none if a key fails, as dropping the `JoinSet` aborts them.
    unfoldable pub siblings_down : InferenceProvider → List A → Monitor K → Outcome K
    siblings_down p [] m = (ok tt, m)
    siblings_down p (a ∷ rest) m = with_value (key_of p a) m λ key.
        and_then (siblings_down p rest (add_unhealthy dec key m))
          λ m'. (ok tt, send (removed key) m')

    unfoldable pub siblings_up : InferenceProvider → List A → Monitor K → Outcome K
    siblings_up p [] m = (ok tt, m)
    siblings_up p (a ∷ rest) m =
        with_value (key_of p a) m λ key. and_then (insert_service env key p m) (siblings_up p rest)

    unfoldable pub model_down : InferenceProvider → List A → Monitor K → Outcome K
    unfolding decide publish
    model_down p all m =
        and_then
          (siblings_down p (siblings env model_of p all)
            (decide env.config.fallback_policy Fallback.removed p m))
          λ m'. (ok tt, publish p down m')

    unfoldable pub model_up : K → InferenceProvider → List A → Monitor K → Outcome K
    unfolding decide publish drop_unhealthy
    model_up key p all m =
        and_then
          (siblings_up p (siblings env model_of p all)
            (drop_unhealthy dec key (decide env.config.fallback_policy Fallback.restored p m)))
          λ m'. (ok tt, publish p up m')

    unfoldable pub model_change :
        K → InferenceProvider → List A → Bool → Bool → Monitor K → Outcome K
    unfolding model_down model_up
    model_change key p all is_healthy was_unhealthy m =
        if not is_healthy && not was_unhealthy
        then model_down p all m
        else if is_healthy && was_unhealthy
        then model_up key p all m
        else (ok tt, m)

    -- The body of the loops over models.
    unfoldable pub model_target : List A → A → Monitor K → Outcome K
    unfolding model_change record_health
    model_target all a m =
        with_value (ok_or (env.inference_provider (model_of a)) model_id_not_recognized) m λ p.
          with_value (key_of p a) m λ key.
            with_value (check_health env (checks_made m) p) m λ is_healthy.
              and_then (model_change key p all is_healthy (contains dec key m.unhealthy_keys) m)
                λ m'. (ok tt, record_health p is_healthy m')

    unfoldable pub model_targets : List A → List A → Monitor K → Outcome K
    unfolding model_target
    model_targets all [] m = (ok tt, m)
    model_targets all (a ∷ rest) m = and_then (model_target all a m) (model_targets all rest)

module _ {R M : Type 0} {d : Decimals} (env : Environment R M d) where
  open d use {Decimal}

  unfoldable pub weighted_key :
      EndpointType
      → WeightedProvider Decimal
      → Result RuntimeError (ProviderWeightedKey × InferenceProvider)
  weighted_key et t = ok_or (env.to_weight t.weight) (invalid_weight t.provider) >>= λ w.
      ok (record { provider = t.provider; endpoint_type = et; weight = w }, t.provider)

  unfoldable pub latency_key :
      EndpointType → InferenceProvider → Result RuntimeError (ProviderKey × InferenceProvider)
  latency_key et p = ok (record { provider = p; endpoint_type = et }, p)

  unfoldable pub check_provider_weighted_monitor :
      BalanceConfig Decimal M → Monitor ProviderWeightedKey → Outcome ProviderWeightedKey
  unfolding provider_targets weighted_key
  check_provider_weighted_monitor [] m = (ok tt, m)
  check_provider_weighted_monitor ((et, provider_weighted ts) ∷ rest) m =
      and_then (provider_targets env ProviderWeightedKey-discrete (weighted_key et) ts m)
        (check_provider_weighted_monitor rest)
  check_provider_weighted_monitor ((et, model_weighted ts) ∷ rest) m = (err internal, m)
  check_provider_weighted_monitor ((et, balanced_latency ts) ∷ rest) m = (err internal, m)
  check_provider_weighted_monitor ((et, model_latency ts) ∷ rest) m = (err internal, m)

  unfoldable pub check_provider_latency_monitor :
      BalanceConfig Decimal M → Monitor ProviderKey → Outcome ProviderKey
  unfolding provider_targets latency_key
  check_provider_latency_monitor [] m = (ok tt, m)
  check_provider_latency_monitor ((et, balanced_latency ps) ∷ rest) m =
      and_then (provider_targets env ProviderKey-discrete (latency_key et) ps m)
        (check_provider_latency_monitor rest)
  check_provider_latency_monitor ((et, model_weighted ts) ∷ rest) m = (err internal, m)
  check_provider_latency_monitor ((et, provider_weighted ts) ∷ rest) m = (err internal, m)
  check_provider_latency_monitor ((et, model_latency ts) ∷ rest) m = (err internal, m)

  unfoldable pub weighted_model_key :
      EndpointType
      → InferenceProvider
      → WeightedModel Decimal M
      → Result RuntimeError (ModelWeightedKey M)
  weighted_model_key et p t = ok_or (env.to_weight t.weight) (invalid_weight p) >>= λ w.
      ok (record { model_id = t.model; endpoint_type = et; weight = w })

  unfoldable pub latency_model_key :
      EndpointType → InferenceProvider → M → Result RuntimeError (ModelKey M)
  latency_model_key et p model = ok (record { model_id = model; endpoint_type = et })

module _ {R M : Type 0} {d : Decimals} (env : Environment R M d) (dec : Discrete M) where
  open d use {Decimal}

  unfoldable pub check_model_weighted_monitor :
      BalanceConfig Decimal M → Monitor (ModelWeightedKey M) → Outcome (ModelWeightedKey M)
  unfolding model_targets weighted_model_key
  check_model_weighted_monitor [] m = (ok tt, m)
  check_model_weighted_monitor ((et, model_weighted ts) ∷ rest) m =
      and_then
        (model_targets env (ModelWeightedKey-discrete dec) (λ t. t.model)
          (weighted_model_key env et) ts ts m)
        (check_model_weighted_monitor rest)
  check_model_weighted_monitor ((et, provider_weighted ts) ∷ rest) m = (err internal, m)
  check_model_weighted_monitor ((et, balanced_latency ts) ∷ rest) m = (err internal, m)
  check_model_weighted_monitor ((et, model_latency ts) ∷ rest) m = (err internal, m)

  unfoldable pub check_model_latency_monitor :
      BalanceConfig Decimal M → Monitor (ModelKey M) → Outcome (ModelKey M)
  unfolding model_targets latency_model_key
  check_model_latency_monitor [] m = (ok tt, m)
  check_model_latency_monitor ((et, model_latency ms) ∷ rest) m =
      and_then
        (model_targets env (ModelKey-discrete dec) (λ model. model) (latency_model_key env et) ms ms
          m)
        (check_model_latency_monitor rest)
  check_model_latency_monitor ((et, model_weighted ts) ∷ rest) m = (err internal, m)
  check_model_latency_monitor ((et, provider_weighted ts) ∷ rest) m = (err internal, m)
  check_model_latency_monitor ((et, balanced_latency ts) ∷ rest) m = (err internal, m)
