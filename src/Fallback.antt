-- ===== src/Fallback.antt =====
-- config/fallback_policy.rs, config/retry.rs, config/monitor.rs, fallback/evaluator.rs,
-- fallback/observability.rs and config/fallback_bridge.rs: the unified failover and retry policy.
-- A `Duration` is its number of nanoseconds. `rust_decimal::Decimal` and `f64` are parameters.
pub mod Bridge
pub mod Validate
pub mod Policy
pub mod Tests
use Prim.Native.String.{String}
use aiephant_ai_gateway.Common.{
  ℕ, ◌+◌, ◌*◌, ◌^◌, ◌≡◌, refl, Bool, true, false, not, ◌&&◌, ◌||◌, Option, none, some, List, [],
  ◌∷◌, ◌++◌, ltb, leb, ◌==◌, if◌then◌else◌, is_some, unwrap_or, Result, ok, err, ◌>>=◌, ◌>>◌,
  fail_if,
}
use aiephant_ai_gateway.Common.Text.{Text, is_empty, trim}
use aiephant_ai_gateway.Provider.{InferenceProvider}

-- `rust_decimal::Decimal`, with `Ord`, and its conversion to `f64`.
pub record Decimals : Type 1 where
  pub Decimal : Type 0
  pub F64 : Type 0
  pub discrete : Discrete Decimal
  pub zero : Decimal
  pub one : Decimal
  pub lt : Decimal → Decimal → Bool
  pub to_f64 : Decimal → Option F64
  -- The literals 0.1 and 0.15.
  pub tenth : F64
  pub fifteen_hundredths : F64

pub data GracePeriod : Type 0 where
  requests : (min_requests : ℕ) → GracePeriod

pub data FallbackMode : Type 0 where
  compat unified : FallbackMode

pub data RetryConfig (D : Type 0) : Type 0 where
  exponential : (min_delay max_delay max_retries : ℕ) (factor : D) → RetryConfig D
  constant : (delay max_retries : ℕ) → RetryConfig D

pub record HealthPolicy (D : Type 0) : Type 0 where
  pub enabled : Bool
  pub error_ratio_threshold : D
  pub interval : ℕ
  pub grace_period : GracePeriod

pub record RateLimitPolicy : Type 0 where
  pub enabled : Bool
  pub default_retry_after_seconds : ℕ
  pub restore_buffer : ℕ

pub record FailoverPolicyBlock (D : Type 0) : Type 0 where
  pub health : HealthPolicy D
  pub rate_limit : RateLimitPolicy

pub record ObservabilityPolicy : Type 0 where
  pub emit_decision_log : Bool
  pub metrics_prefix : Text

pub record FallbackPolicyConfig (D : Type 0) : Type 0 where
  pub enabled : Bool
  pub mode : FallbackMode
  pub retry : RetryConfig D
  pub provider_failover : FailoverPolicyBlock D
  pub observability : ObservabilityPolicy

-- The variant of `InitError` that the policy raises.
pub data InitError : Type 0 where
  invalid_fallback_policy : String → InitError

module _ (d : Decimals) where
  open d use {Decimal, zero, one, lt, discrete}

  -- `Ord::clamp`.
  unfoldable clamp : Decimal → Decimal → Decimal → Decimal
  clamp lo hi t = if lt t lo then lo else if lt hi t then hi else t

  unfoldable same : Decimal → Decimal → Bool
  same a b = elim (discrete a b) [ yes _ ↦ true | no _ ↦ false ]

  unfoldable min_requests_is_zero : GracePeriod → Bool
  min_requests_is_zero (requests n) = n == 0

  unfoldable validate_health : HealthPolicy Decimal → Result InitError (Unit {0})
  unfolding clamp same min_requests_is_zero
  validate_health h =
      if h.enabled
      then (do
        fail_if (h.interval == 0) (invalid_fallback_policy "health.interval must be positive")
        let t = clamp zero one h.error_ratio_threshold
        fail_if (not (same t h.error_ratio_threshold))
            (invalid_fallback_policy "error-ratio-threshold must be between 0 and 1 inclusive")
        fail_if (min_requests_is_zero h.grace_period)
            (invalid_fallback_policy "min-requests must be > 0"))
      else ok tt

  unfoldable validate_rate_limit : RateLimitPolicy → Result InitError (Unit {0})
  validate_rate_limit r =
      if r.enabled
      then (do
        fail_if (r.default_retry_after_seconds == 0)
            (invalid_fallback_policy "default-retry-after-seconds must be > 0")
        fail_if (r.restore_buffer == 0) (invalid_fallback_policy "restore-buffer must be positive"))
      else ok tt

  unfoldable validate_retry : RetryConfig Decimal → Result InitError (Unit {0})
  validate_retry (exponential min_delay max_delay max_retries factor) =
      fail_if (ltb max_delay min_delay)
        (invalid_fallback_policy "retry.min-delay must be <= max-delay")
  validate_retry (constant delay max_retries) = ok tt

  -- `FallbackPolicyConfig::validate`.
  unfoldable pub validate : FallbackPolicyConfig Decimal → Result InitError (Unit {0})
  unfolding validate_health validate_rate_limit validate_retry
  validate c = do
    validate_health c.provider_failover.health
    validate_rate_limit c.provider_failover.rate_limit
    validate_retry c.retry
    fail_if (is_empty (trim c.observability.metrics_prefix))
        (invalid_fallback_policy "observability.metrics-prefix must be non-empty")

-- fallback/evaluator.rs
pub data ErrorClass : Type 0 where
  upstream_5xx connection_error stream_retryable non_retryable : ErrorClass

pub data FailoverSource : Type 0 where
  health rate_limit : FailoverSource

abbrev retryable_class : ErrorClass → Bool
retryable_class upstream_5xx = true
retryable_class connection_error = true
retryable_class stream_retryable = true
retryable_class non_retryable = false

pub data DecisionKind : Type 0 where
  retry cross_provider_fallback removed restored provider_denied : DecisionKind

-- One emitted line of the decision log.
pub record Decision : Type 0 where
  pub decision : DecisionKind
  pub failover_source : Option FailoverSource
  pub provider : InferenceProvider

-- `Duration::from_secs`: a second is 10^9 nanoseconds.
abbrev pub from_secs : ℕ → ℕ
from_secs s = s * 1_000_000_000

-- The largest `Duration` is u64::MAX seconds and 999,999,999 nanoseconds.
abbrev pub duration_end : ℕ
duration_end = 2 ^ 64 * 1_000_000_000

-- `Duration + Duration`, which panics on overflow.
unfoldable pub add_duration : ℕ → ℕ → Option ℕ
add_duration a b = if ltb (a + b) duration_end then some (a + b) else none

retryable_in : FallbackMode → ErrorClass → Bool
retryable_in compat e = retryable_class e
retryable_in unified e = retryable_class e

module _ {D : Type 0} where
  pub should_retry : FallbackPolicyConfig D → ErrorClass → Bool
  unfolding retryable_in
  should_retry policy e = if not policy.enabled then false else retryable_in policy.mode e

  unfoldable pub source_enabled : FallbackPolicyConfig D → FailoverSource → Bool
  source_enabled policy health = policy.provider_failover.health.enabled
  source_enabled policy rate_limit = policy.provider_failover.rate_limit.enabled

  unfoldable pub should_remove : FallbackPolicyConfig D → FailoverSource → Bool
  unfolding source_enabled
  should_remove policy source = if not policy.enabled then false else source_enabled policy source

  -- `none` is the panic of the addition.
  unfoldable pub restore_after : FallbackPolicyConfig D → Option ℕ → Option ℕ
  unfolding add_duration
  restore_after policy header =
      let base =
        from_secs
          (unwrap_or header policy.provider_failover.rate_limit.default_retry_after_seconds) in
      add_duration base policy.provider_failover.rate_limit.restore_buffer

  -- The log grows at its end.
  unfoldable pub log_decision :
      FallbackPolicyConfig D
      → DecisionKind
      → Option FailoverSource
      → InferenceProvider
      → List Decision
      → List Decision
  log_decision policy kind source p log =
      if not policy.observability.emit_decision_log
      then log
      else log ++ record { decision = kind; failover_source = source; provider = p } ∷ []
