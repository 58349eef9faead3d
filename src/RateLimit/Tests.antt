-- ===== src/RateLimit/Tests.antt =====
-- A run of a rate-limit monitor: an event for OpenAI at time 0, and its restoration.
use aiephant_ai_gateway.Common.{
  ℕ, ◌≡◌, refl, ◌⊎◌, true, false, Option, none, some, List, [], ◌∷◌, Result, ok,
}
use aiephant_ai_gateway.Common.Sets.{contains, insert, remove}
use aiephant_ai_gateway.Provider.{
  InferenceProvider, open_ai, EndpointType, ApiEndpoint, open_ai_endpoint, chat_completions,
  provider, endpoint_type, InferenceProvider-discrete, EndpointType-discrete,
}
use aiephant_ai_gateway.Fallback.{
  rate_limit, should_remove, source_enabled, restore_after, add_duration, log_decision,
}
use aiephant_ai_gateway.Fallback.Bridge.{resolved_rate_limit_restore_after}
use aiephant_ai_gateway.Fallback.Tests.{policy, hundredths}
use aiephant_ai_gateway.Fallback
use aiephant_ai_gateway.Balance.{
  BalanceConfig, provider_weighted, model_weighted, WeightedModel, inserted, removed, ProviderKey,
  ProviderKey-discrete, ProviderWeightedKey, ModelWeightedKey, ModelKey, ModelKey-discrete,
  ModelWeightedKey-discrete,
}
use aiephant_ai_gateway.Health.{Environment, RuntimeError, internal}
use aiephant_ai_gateway.Health.Tests.{gateway}
use aiephant_ai_gateway.Health.ModelLaws.{Among, here}
use aiephant_ai_gateway.Health.Monitors.{weighted_model_key}
use aiephant_ai_gateway.RateLimit.{
  RateLimitEvent, new_event, ProviderRestore, Limits, next, fails, on_event, on_restore,
  is_rate_limit_failover_enabled, with_key, limit, schedule, send,
}
use aiephant_ai_gateway.RateLimit.Keys.{
  balance_of, find_provider, find_model, provider_target_of, model_target_of, provider_latency_key,
  provider_weighted_key, model_weighted_key, model_latency_key,
}
use aiephant_ai_gateway.RateLimit.Machine.{start, Step, receives, Reach, starts, goes}
use aiephant_ai_gateway.RateLimit.Invariant.{Holds, Reach-Holds}
use aiephant_ai_gateway.RateLimit.Recovery.{limited-returns, Reach-disabled}
use aiephant_ai_gateway.RateLimit.KeyLaws.{model_weighted_key-target}
use aiephant_ai_gateway.RateLimit.Dispatch.{
  Reports, handle_error_and_rate_limiting, report_all, report_all-fails, too_many_requests-limits,
  key_of_endpoint, count_error, send_event,
}

abbrev key_of : RateLimitEvent InferenceProvider → Result RuntimeError ProviderKey
key_of = provider_latency_key

abbrev chat : ApiEndpoint
chat = open_ai_endpoint chat_completions

abbrev event : RateLimitEvent InferenceProvider
event = record { api_endpoint = chat; model_id = none; retry_after_seconds = some 5 }

-- 5 seconds and the buffer of 30.
abbrev restore : ProviderRestore ProviderKey
restore = record { key = key_of_endpoint chat; api_endpoint = chat; deadline = 35_000_000_000 }

abbrev limited : Limits ProviderKey
limited = record {
  receiving = true;
  changes = removed (key_of_endpoint chat) ∷ [];
  rate_limited_providers = key_of_endpoint chat ∷ [];
  pending_restores = restore ∷ [];
  decisions =
      record { decision = Fallback.removed; failover_source = some rate_limit; provider = open_ai }
      ∷ [];
}

abbrev restored : Limits ProviderKey
restored = record {
  receiving = true;
  changes = inserted (key_of_endpoint chat) open_ai ∷ limited.changes;
  rate_limited_providers = [];
  pending_restores = [];
  decisions =
      record { decision = Fallback.removed; failover_source = some rate_limit; provider = open_ai }
      ∷ record {
        decision = Fallback.restored;
        failover_source = some rate_limit;
        provider = open_ai;
      }
      ∷ [];
}

limits : on_event gateway ProviderKey-discrete key_of 0 event start ≡ next limited
unfolding on_event is_rate_limit_failover_enabled with_key limit schedule send log_decision
    should_remove source_enabled resolved_rate_limit_restore_after restore_after add_duration
    provider_latency_key provider endpoint_type contains insert
limits = refl

restoring :
    on_restore gateway ProviderKey-discrete restore (record limited { pending_restores = [] })
    ≡ next restored
unfolding on_restore log_decision remove provider endpoint_type ProviderKey-discrete
    InferenceProvider-discrete EndpointType-discrete
restoring = refl

abbrev limited_reach : Reach gateway ProviderKey-discrete key_of (0, limited)
limited_reach = goes starts (receives event limits)

Reach-Holds_example : Holds gateway ProviderKey-discrete (key_of_endpoint chat) limited
Reach-Holds_example =
    Reach-Holds gateway ProviderKey-discrete key_of 0 limited limited_reach (key_of_endpoint chat)

limited_contains :
    contains ProviderKey-discrete (key_of_endpoint chat) limited.rate_limited_providers ≡ true
unfolding contains provider endpoint_type ProviderKey-discrete InferenceProvider-discrete
    EndpointType-discrete
limited_contains = refl

limited-returns_example :
    (later_ : ℕ) × (s' : Limits ProviderKey) × (p : InferenceProvider) × Step gateway
      ProviderKey-discrete key_of
      (0, limited)
      (later_, limited)
    × Step gateway ProviderKey-discrete key_of (later_, limited) (later_, s')
    × (s'.changes ≡ inserted (key_of_endpoint chat) p ∷ limited.changes)
    × (contains ProviderKey-discrete (key_of_endpoint chat) s'.rate_limited_providers ≡ false)
limited-returns_example =
    limited-returns gateway ProviderKey-discrete key_of (λ p. refl) 0 limited limited_reach refl
      (key_of_endpoint chat) limited_contains

abbrev lenient : Environment ℕ InferenceProvider hundredths
lenient = record gateway {
  config = record gateway.config { fallback_policy = record policy { enabled = false } };
}

lenient_off : should_remove lenient.config.fallback_policy rate_limit ≡ false
unfolding should_remove
lenient_off = refl

lenient_ignores : on_event lenient ProviderKey-discrete key_of 0 event start ≡ next start
unfolding on_event is_rate_limit_failover_enabled should_remove
lenient_ignores = refl

abbrev idle : Limits ProviderKey
idle = start

Reach-disabled_example :
    (idle.changes ≡ []) × (idle.rate_limited_providers ≡ []) × (idle.pending_restores ≡ [])
Reach-disabled_example =
    Reach-disabled lenient ProviderKey-discrete key_of lenient_off 0 start
      (goes starts (receives event lenient_ignores))

same_key : key_of event ≡ key_of (new_event chat none)
unfolding provider_latency_key new_event
same_key = refl

abbrev table : BalanceConfig ℕ InferenceProvider
table =
    (EndpointType.chat, provider_weighted (record { provider = open_ai; weight = 30 } ∷ [])) ∷ []

abbrev weighted_event_key : ProviderWeightedKey
weighted_event_key = record { provider = open_ai; endpoint_type = EndpointType.chat; weight = 30 }

weighted_event : provider_weighted_key gateway table event ≡ ok weighted_event_key
unfolding provider_weighted_key provider_target_of balance_of find_provider provider endpoint_type
    InferenceProvider-discrete EndpointType-discrete
weighted_event = refl

abbrev model_table : BalanceConfig ℕ InferenceProvider
model_table =
    (EndpointType.chat, model_weighted (record { model = open_ai; weight = 30 } ∷ [])) ∷ []

abbrev named_event : RateLimitEvent InferenceProvider
named_event = record event { model_id = some open_ai }

abbrev model_event_key : ModelWeightedKey InferenceProvider
model_event_key = record { model_id = open_ai; endpoint_type = EndpointType.chat; weight = 30 }

model_event :
    model_weighted_key gateway InferenceProvider-discrete model_table named_event
    ≡ ok model_event_key
unfolding model_weighted_key model_target_of balance_of find_model provider endpoint_type
    InferenceProvider-discrete EndpointType-discrete
model_event = refl

model_weighted_key-target_example :
    (ts : List (WeightedModel ℕ InferenceProvider)) × (balance_of (endpoint_type chat) model_table
      ≡ some (model_weighted ts))
    × (t : WeightedModel ℕ InferenceProvider) × Among t ts
    × (named_event.model_id ≡ some t.model)
    × ((p : InferenceProvider)
        → weighted_model_key gateway (endpoint_type chat) p t ≡ ok model_event_key)
model_weighted_key-target_example =
    model_weighted_key-target gateway InferenceProvider-discrete model_table named_event
      model_event_key model_event

abbrev quiet : Reports InferenceProvider
quiet = record {
  known = λ e. true;
  remote_internal_errors = [];
  rate_limit_tx = true;
  listening = true;
  events = [];
}

-- A success, a server error and a 429.
abbrev responses : List (ℕ × Option ℕ × Option ApiEndpoint)
responses = (200, none, some chat) ∷ (503, none, some chat) ∷ (429, some 5, some chat) ∷ []

reported : Among event (report_all responses quiet).events
unfolding handle_error_and_rate_limiting count_error send_event new_event
reported = here

policy_removes : should_remove policy rate_limit ≡ true
unfolding should_remove source_enabled
policy_removes = refl

report_all-fails_example :
    ((now : ℕ) (s : Limits (ModelWeightedKey InferenceProvider))
      → on_event gateway
          (ModelWeightedKey-discrete InferenceProvider-discrete)
          (model_weighted_key gateway InferenceProvider-discrete model_table)
          now
          event
          s
        ≡ fails internal)
    × ((now : ℕ) (s : Limits (ModelKey InferenceProvider))
        → on_event gateway
            (ModelKey-discrete InferenceProvider-discrete)
            model_latency_key
            now
            event
            s
          ≡ fails internal)
report_all-fails_example =
    report_all-fails gateway InferenceProvider-discrete model_table responses quiet refl
      policy_removes event reported

abbrev empty : Limits ProviderKey
empty = start

new_limits :
    on_event gateway ProviderKey-discrete key_of 0 (new_event chat (some 5)) start ≡ next limited
unfolding new_event
new_limits = limits

too_many_requests-limits_example :
    ((handle_error_and_rate_limiting 429 (some 5) (some chat) quiet).1.events
      ≡ new_event chat (some 5) ∷ quiet.events)
    × (contains ProviderKey-discrete (key_of_endpoint chat) limited.rate_limited_providers ≡ true)
    × (((contains ProviderKey-discrete (key_of_endpoint chat) empty.rate_limited_providers ≡ true)
          × (limited ≡ empty))
        ⊎ ((contains ProviderKey-discrete (key_of_endpoint chat) empty.rate_limited_providers
              ≡ false)
            × ((limited.receiving ≡ false)
                ⊎ (limited.changes ≡ removed (key_of_endpoint chat) ∷ empty.changes))))
too_many_requests-limits_example =
    too_many_requests-limits gateway chat (some 5) quiet 0 empty limited refl policy_removes
      new_limits
