-- ===== src/RateLimit.antt =====
-- types/rate_limit.rs and discover/monitor/rate_limit/provider.rs: what a rate-limit monitor does with
-- an event of the dispatcher and with a restoration whose timer has run out.
pub mod Keys
pub mod Machine
pub mod Invariant
pub mod Recovery
pub mod KeyLaws
pub mod Dispatch
pub mod Tests
use aiephant_ai_gateway.Common.{
  ℕ, ◌+◌, Bool, true, false, not, Option, none, some, List, [], ◌∷◌, Result, ok, err, if◌then◌else◌,
  ite,
}
use aiephant_ai_gateway.Common.Sets.{contains, insert, remove}
use aiephant_ai_gateway.Provider.{InferenceProvider, ApiEndpoint, provider}
use aiephant_ai_gateway.Fallback.{
  Decimals, Decision, DecisionKind, FailoverSource, rate_limit, should_remove, log_decision,
}
use aiephant_ai_gateway.Fallback
use aiephant_ai_gateway.Fallback.Bridge.{resolved_rate_limit_restore_after}
use aiephant_ai_gateway.Balance.{Change, inserted, removed}
use aiephant_ai_gateway.Health.{RuntimeError, dispatcher_failed, channel_send_failed, Environment}

pub record RateLimitEvent (M : Type 0) : Type 0 where
  pub api_endpoint : ApiEndpoint
  pub model_id : Option M
  pub retry_after_seconds : Option ℕ

module _ {M : Type 0} where
  -- `RateLimitEvent::new`.
  unfoldable pub new_event : ApiEndpoint → Option ℕ → RateLimitEvent M
  new_event e secs = record { api_endpoint = e; model_id = none; retry_after_seconds = secs }

  unfoldable pub with_model_id : RateLimitEvent M → M → RateLimitEvent M
  with_model_id e model = record e { model_id = some model }

-- `ProviderRestore`, with the time at which its timer runs out.
pub record ProviderRestore (K : Type 0) : Type 0 where
  pub key : K
  pub api_endpoint : ApiEndpoint
  pub deadline : ℕ

-- The variables of `monitor`, with what it has sent and logged.
pub record Limits (K : Type 0) : Type 0 where
  -- The receiver of `tx` is alive.
  pub receiving : Bool
  pub changes : List (Change K)
  pub rate_limited_providers : List K
  pub pending_restores : List (ProviderRestore K)
  pub decisions : List Decision

-- One turn of the loop: the next state, a return with an error, or a panic.
pub data Turn (K : Type 0) : Type 0 where
  next : Limits K → Turn K
  fails : RuntimeError → Turn K
  panics : Turn K

module _ {R M : Type 0} {d : Decimals} (env : Environment R M d) where
  unfoldable pub is_rate_limit_failover_enabled : Bool
  is_rate_limit_failover_enabled = should_remove env.config.fallback_policy rate_limit

  module _ {K : Type 0} (dec : Discrete K) where
    unfoldable pub send : Change K → Limits K → Limits K
    send c s = if s.receiving then record s { changes = c ∷ s.changes } else s

    -- The removal and its timer; `none` is an overflow of the duration.
    unfoldable pub schedule : ℕ → K → RateLimitEvent M → Option ℕ → Limits K → Turn K
    schedule now key e none s = panics
    schedule now key e (some wait) s = next (record s {
      rate_limited_providers = insert dec key s.rate_limited_providers;
      pending_restores =
          record { key = key; api_endpoint = e.api_endpoint; deadline = now + wait }
          ∷ s.pending_restores;
    })

    unfoldable pub limit : ℕ → K → RateLimitEvent M → Limits K → Turn K
    unfolding schedule send log_decision
    limit now key e s =
        if contains dec key s.rate_limited_providers
        then next s
        else schedule now key e (resolved_rate_limit_restore_after env.config e.retry_after_seconds)
            (send (removed key) (record s {
              decisions =
                  log_decision env.config.fallback_policy Fallback.removed (some rate_limit)
                    (provider e.api_endpoint) s.decisions;
            }))

    unfoldable pub with_key : ℕ → RateLimitEvent M → Limits K → Result RuntimeError K → Turn K
    unfolding limit
    with_key now e s (ok key) = limit now key e s
    with_key now e s (err x) = fails x

    -- The branch of `rx.recv()`.
    unfoldable pub on_event :
        (RateLimitEvent M → Result RuntimeError K) → ℕ → RateLimitEvent M → Limits K → Turn K
    unfolding is_rate_limit_failover_enabled with_key
    on_event key_of now e s =
        if not is_rate_limit_failover_enabled then next s else with_key now e s (key_of e)

    -- The branch of `pending_restores.next()`; the restoration has left `pending_restores`.
    unfoldable pub on_restore : ProviderRestore K → Limits K → Turn K
    unfolding log_decision
    on_restore r s =
        if not (env.new_dispatcher (provider r.api_endpoint))
        then fails (dispatcher_failed (provider r.api_endpoint))
        else if not s.receiving
        then fails channel_send_failed
        else next (record s {
          decisions =
              log_decision env.config.fallback_policy Fallback.restored (some rate_limit)
                (provider r.api_endpoint) s.decisions;
          changes = inserted r.key (provider r.api_endpoint) ∷ s.changes;
          rate_limited_providers = remove dec r.key s.rate_limited_providers;
        })
