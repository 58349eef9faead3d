-- ===== src/RateLimit/Keys.antt =====
-- The keys under which the four monitors file an event.
use aiephant_ai_gateway.Common.{
  Option, none, some, List, [], ◌∷◌, Result, ok, err, ◌>>=◌, ok_or, ite,
}
use aiephant_ai_gateway.Provider.{
  InferenceProvider, EndpointType, provider, endpoint_type, InferenceProvider-discrete,
  EndpointType-discrete,
}
use aiephant_ai_gateway.Fallback.{Decimals}
use aiephant_ai_gateway.Balance.{
  BalanceConfig, BalanceConfigInner, provider_weighted, balanced_latency, model_weighted,
  model_latency, WeightedProvider, WeightedModel, ProviderKey, ProviderWeightedKey, ModelKey,
  ModelWeightedKey,
}
use aiephant_ai_gateway.Health.{RuntimeError, internal, Environment}
use aiephant_ai_gateway.RateLimit.{RateLimitEvent}

-- `load_balance.0.get(&endpoint_type)`.
unfoldable pub balance_of :
    {D M : Type 0} → EndpointType → BalanceConfig D M → Option (BalanceConfigInner D M)
balance_of et [] = none
balance_of et ((et', inner) ∷ rest) =
    ite (EndpointType-discrete et' et) (some inner) (balance_of et rest)

-- The first target of the provider.
unfoldable pub find_provider :
    {D : Type 0} → InferenceProvider → List (WeightedProvider D) → Option (WeightedProvider D)
find_provider p [] = none
find_provider p (t ∷ ts) =
    ite (InferenceProvider-discrete t.provider p) (some t) (find_provider p ts)

unfoldable pub find_model :
    {D M : Type 0} → Discrete M → M → List (WeightedModel D M) → Option (WeightedModel D M)
find_model dec model [] = none
find_model dec model (t ∷ ts) = ite (dec t.model model) (some t) (find_model dec model ts)

module _ {M : Type 0} where
  -- `create_key_for_endpoint` of the latency monitor.
  unfoldable pub provider_latency_key : RateLimitEvent M → Result RuntimeError ProviderKey
  provider_latency_key e =
      ok (record {
        provider = provider e.api_endpoint;
        endpoint_type = endpoint_type e.api_endpoint;
      })

  -- `create_model_latency_key`.
  unfoldable pub model_latency_key : RateLimitEvent M → Result RuntimeError (ModelKey M)
  model_latency_key e = ok_or e.model_id internal >>= λ model.
      ok (record { model_id = model; endpoint_type = endpoint_type e.api_endpoint })

module _ {R M : Type 0} {d : Decimals} (env : Environment R M d) where
  open d use {Decimal}

  unfoldable pub provider_target_of :
      InferenceProvider
      → Option (BalanceConfigInner Decimal M)
      → Result RuntimeError (WeightedProvider Decimal)
  unfolding find_provider
  provider_target_of p none = err internal
  provider_target_of p (some (provider_weighted ts)) = ok_or (find_provider p ts) internal
  provider_target_of p (some (balanced_latency ps)) = err internal
  provider_target_of p (some (model_weighted ts)) = err internal
  provider_target_of p (some (model_latency ms)) = err internal

  -- `create_key_for_endpoint` of the weighted monitor.
  unfoldable pub provider_weighted_key :
      BalanceConfig Decimal M → RateLimitEvent M → Result RuntimeError ProviderWeightedKey
  unfolding provider_target_of balance_of
  provider_weighted_key lb e =
      provider_target_of (provider e.api_endpoint) (balance_of (endpoint_type e.api_endpoint) lb)
      >>= λ t. ok_or (env.to_weight t.weight) internal >>= λ w. ok (record {
        provider = provider e.api_endpoint;
        endpoint_type = endpoint_type e.api_endpoint;
        weight = w;
      })

  module _ (dec : Discrete M) where
    unfoldable pub model_target_of :
        M → Option (BalanceConfigInner Decimal M) → Result RuntimeError (WeightedModel Decimal M)
    unfolding find_model
    model_target_of model none = err internal
    model_target_of model (some (model_weighted ts)) = ok_or (find_model dec model ts) internal
    model_target_of model (some (provider_weighted ts)) = err internal
    model_target_of model (some (balanced_latency ps)) = err internal
    model_target_of model (some (model_latency ms)) = err internal

    -- `create_model_weighted_key`.
    unfoldable pub model_weighted_key :
        BalanceConfig Decimal M → RateLimitEvent M → Result RuntimeError (ModelWeightedKey M)
    unfolding model_target_of balance_of
    model_weighted_key lb e = ok_or e.model_id internal >>= λ model.
        model_target_of model (balance_of (endpoint_type e.api_endpoint) lb) >>= λ t.
        ok_or (env.to_weight t.weight) internal >>= λ w.
        ok (record { model_id = model; endpoint_type = endpoint_type e.api_endpoint; weight = w })
