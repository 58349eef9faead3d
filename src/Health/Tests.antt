-- ===== src/Health/Tests.antt =====
-- A small gateway whose open_ai endpoints fail, and runs of the theorems on it.
use aiephant_ai_gateway.Common.{ℕ, ◌*◌, ◌≡◌, refl, true, Option, none, some, [], ◌∷◌, ok, ltb, All}
use aiephant_ai_gateway.Common.Sets.{contains, insert, remove}
use aiephant_ai_gateway.Provider.{
  InferenceProvider, open_ai, anthropic, EndpointType, ApiEndpoint, open_ai_endpoint, endpoints,
  InferenceProvider-discrete, EndpointType-discrete,
}
use aiephant_ai_gateway.Fallback.{requests, from_secs, log_decision}
use aiephant_ai_gateway.Fallback.Bridge.{Config, error_threshold, resolved_health_monitor_config}
use aiephant_ai_gateway.Fallback.Tests.{hundredths, policy}
use aiephant_ai_gateway.Balance.{
  BalanceConfig, provider_weighted, balanced_latency, model_weighted, model_latency, present,
  ProviderKey, ProviderWeightedKey, ModelKey, ModelWeightedKey, ProviderKey-discrete,
  ProviderWeightedKey-discrete, ModelKey-discrete, ModelWeightedKey-discrete,
}
use aiephant_ai_gateway.Health.{Environment, Monitor, Outcome}
use aiephant_ai_gateway.Health.Check.{
  send, publish, decide, add_unhealthy, drop_unhealthy, record_health, below_grace,
  endpoint_healthy, endpoints_healthy, check_health, insert_service,
}
use aiephant_ai_gateway.Health.Monitors.{
  provider_targets, weighted_key, latency_key, weighted_model_key, latency_model_key,
  provider_target, provider_change, provider_down, provider_up, serves, siblings, siblings_down,
  siblings_up, model_down, model_up, model_change, model_target, model_targets,
  check_provider_weighted_monitor, check_provider_latency_monitor, check_model_weighted_monitor,
  check_model_latency_monitor,
}
use aiephant_ai_gateway.Health.ProviderLaws.{Synced}
use aiephant_ai_gateway.Health.ProviderPass.{
  WeightedSettled, LatencySettled, check_provider_weighted_monitor-Settled,
  check_provider_latency_monitor-Settled,
}
use aiephant_ai_gateway.Health.ModelWhole
use aiephant_ai_gateway.Health.ModelWhole.{
  check_model_weighted_monitor-Settled, check_model_latency_monitor-Settled,
}

abbrev pub config : Config ℕ ℕ
config = record {
  fallback_policy = policy;
  monitor = record {
    ratio = 15;
    window = from_secs 60;
    buckets = 10;
    interval = from_secs 5;
    grace_period = requests 20;
  };
  global_retries = none;
  unified_api_retries = none;
  routers = [];
}

abbrev failing_metrics : ℕ → ApiEndpoint → Option (ℕ × ℕ)
failing_metrics now (open_ai_endpoint e) = some (100, 90)
failing_metrics _ _ = some (100, 0)

-- A model is here the provider that serves it.
abbrev pub gateway : Environment ℕ InferenceProvider hundredths
gateway = record {
  config = config;
  inference_provider = λ m. some m;
  to_weight = λ w. some w;
  health_metrics = failing_metrics;
  ratio_exceeds = λ errors total t. ltb (t * total) (errors * 100);
  new_dispatcher = λ p. true;
}

abbrev fresh : {K : Type 0} → Monitor K
fresh = record {
  receiving = true;
  changes = [];
  unhealthy_keys = [];
  broadcasts = true;
  published = [];
  provider_health = [];
  decisions = [];
}

fresh-Synced : {K : Type 0} (dec : Discrete K) (k : K) → Synced dec k fresh
unfolding present contains
fresh-Synced dec k = refl

abbrev weighted : BalanceConfig ℕ InferenceProvider
weighted =
    (
      EndpointType.chat,
      provider_weighted (
          record { provider = open_ai; weight = 30 }
          ∷ record { provider = anthropic; weight = 70 }
          ∷ []),
    )
    ∷ []

abbrev weighted_end : Outcome (ProviderWeightedKey)
weighted_end = check_provider_weighted_monitor gateway weighted fresh

weighted_runs : check_provider_weighted_monitor gateway weighted fresh ≡ (ok tt, weighted_end.1)
unfolding check_provider_weighted_monitor provider_targets weighted_key provider_target
    provider_change provider_down provider_up check_health endpoints_healthy endpoint_healthy
    below_grace resolved_health_monitor_config error_threshold endpoints contains insert remove
    ProviderWeightedKey-discrete InferenceProvider-discrete EndpointType-discrete publish decide
    send add_unhealthy drop_unhealthy insert_service record_health log_decision
weighted_runs = refl

check_provider_weighted_monitor-Settled_example :
    ((k : ProviderWeightedKey) → Synced ProviderWeightedKey-discrete k weighted_end.1)
    × All (WeightedSettled gateway weighted_end.1) weighted
check_provider_weighted_monitor-Settled_example =
    check_provider_weighted_monitor-Settled gateway weighted fresh weighted_end.1 refl
      (fresh-Synced ProviderWeightedKey-discrete) weighted_runs

abbrev latency : BalanceConfig ℕ InferenceProvider
latency = (EndpointType.chat, balanced_latency (open_ai ∷ anthropic ∷ [])) ∷ []

abbrev latency_end : Outcome (ProviderKey)
latency_end = check_provider_latency_monitor gateway latency fresh

latency_runs : check_provider_latency_monitor gateway latency fresh ≡ (ok tt, latency_end.1)
unfolding check_provider_latency_monitor provider_targets latency_key provider_target
    provider_change provider_down provider_up check_health endpoints_healthy endpoint_healthy
    below_grace resolved_health_monitor_config error_threshold endpoints contains insert remove
    ProviderKey-discrete InferenceProvider-discrete EndpointType-discrete publish decide send
    add_unhealthy drop_unhealthy insert_service record_health log_decision
latency_runs = refl

check_provider_latency_monitor-Settled_example :
    ((k : ProviderKey) → Synced ProviderKey-discrete k latency_end.1)
    × All (LatencySettled gateway latency_end.1) latency
check_provider_latency_monitor-Settled_example =
    check_provider_latency_monitor-Settled gateway latency fresh latency_end.1 refl
      (fresh-Synced ProviderKey-discrete) latency_runs

abbrev weighted_models : BalanceConfig ℕ InferenceProvider
weighted_models =
    (
      EndpointType.chat,
      model_weighted (
          record { model = open_ai; weight = 30 } ∷ record { model = anthropic; weight = 70 } ∷ []),
    )
    ∷ []

abbrev weighted_models_end : Outcome (ModelWeightedKey InferenceProvider)
weighted_models_end =
    check_model_weighted_monitor gateway InferenceProvider-discrete weighted_models fresh

weighted_models_runs :
    check_model_weighted_monitor gateway InferenceProvider-discrete weighted_models fresh
    ≡ (ok tt, weighted_models_end.1)
unfolding check_model_weighted_monitor model_targets weighted_model_key model_target model_change
    model_down model_up siblings siblings_down siblings_up serves check_health endpoints_healthy
    endpoint_healthy below_grace resolved_health_monitor_config error_threshold endpoints contains
    insert remove ModelWeightedKey-discrete InferenceProvider-discrete EndpointType-discrete publish
    decide send add_unhealthy drop_unhealthy insert_service record_health log_decision
weighted_models_runs = refl

check_model_weighted_monitor-Settled_example :
    All
      (ModelWhole.WeightedSettled gateway InferenceProvider-discrete weighted_models_end.1)
      weighted_models
check_model_weighted_monitor-Settled_example =
    check_model_weighted_monitor-Settled gateway InferenceProvider-discrete weighted_models fresh
      weighted_models_end.1 refl
      (fresh-Synced (ModelWeightedKey-discrete InferenceProvider-discrete)) weighted_models_runs

abbrev latency_models : BalanceConfig ℕ InferenceProvider
latency_models = (EndpointType.chat, model_latency (open_ai ∷ anthropic ∷ [])) ∷ []

abbrev latency_models_end : Outcome (ModelKey InferenceProvider)
latency_models_end =
    check_model_latency_monitor gateway InferenceProvider-discrete latency_models fresh

latency_models_runs :
    check_model_latency_monitor gateway InferenceProvider-discrete latency_models fresh
    ≡ (ok tt, latency_models_end.1)
unfolding check_model_latency_monitor model_targets latency_model_key model_target model_change
    model_down model_up siblings siblings_down siblings_up serves check_health endpoints_healthy
    endpoint_healthy below_grace resolved_health_monitor_config error_threshold endpoints contains
    insert remove ModelKey-discrete InferenceProvider-discrete EndpointType-discrete publish decide
    send add_unhealthy drop_unhealthy insert_service record_health log_decision
latency_models_runs = refl

check_model_latency_monitor-Settled_example :
    All
      (ModelWhole.LatencySettled gateway InferenceProvider-discrete latency_models_end.1)
      latency_models
check_model_latency_monitor-Settled_example =
    check_model_latency_monitor-Settled gateway InferenceProvider-discrete latency_models fresh
      latency_models_end.1 refl (fresh-Synced (ModelKey-discrete InferenceProvider-discrete))
      latency_models_runs
