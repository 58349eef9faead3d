-- ===== src/Fallback/Validate.antt =====
-- What `FallbackPolicyConfig::validate` accepts.
use aiephant_ai_gateway.Common.{◌≤◌, ◌<◌, ◌≡◌, ◌↔◌, ◌⊎◌, true, false, ok, arith}
use aiephant_ai_gateway.Common.Text.{is_empty, trim}
use aiephant_ai_gateway.Fallback.{
  Decimals, GracePeriod, requests, RetryConfig, exponential, constant, HealthPolicy,
  RateLimitPolicy, FallbackPolicyConfig, clamp, same, min_requests_is_zero, validate_health,
  validate_rate_limit, validate_retry, validate,
}

module _ (d : Decimals) where
  open d use {Decimal, zero, one, lt, discrete}

  abbrev MinRequestsPositive : GracePeriod → Type 0
  MinRequestsPositive (requests n) = 0 < n

  -- The health block needs a positive interval and sample, and a threshold in [0, 1].
  abbrev HealthIsValid : HealthPolicy Decimal → Type 0
  HealthIsValid h =
      (0 < h.interval)
      × (lt h.error_ratio_threshold zero ≡ false)
      × (lt one h.error_ratio_threshold ≡ false)
      × MinRequestsPositive h.grace_period

  abbrev RateLimitIsValid : RateLimitPolicy → Type 0
  RateLimitIsValid r = (0 < r.default_retry_after_seconds) × (0 < r.restore_buffer)

  abbrev RetryIsValid : RetryConfig Decimal → Type 0
  RetryIsValid (exponential min_delay max_delay max_retries factor) = min_delay ≤ max_delay
  RetryIsValid (constant delay max_retries) = Unit {0}

  -- A disabled block is not looked at.
  abbrev pub IsValid : FallbackPolicyConfig Decimal → Type 0
  IsValid c =
      ((c.provider_failover.health.enabled ≡ false) ⊎ HealthIsValid c.provider_failover.health)
      × ((c.provider_failover.rate_limit.enabled ≡ false)
          ⊎ RateLimitIsValid c.provider_failover.rate_limit)
      × RetryIsValid c.retry
      × (is_empty (trim c.observability.metrics_prefix) ≡ false)

  abbrev Irreflexive : Type 0
  Irreflexive = (t : Decimal) → lt t t ≡ false

  same-clamp :
      Irreflexive
      → (t : Decimal)
      → (same d (clamp d zero one t) t ≡ true) ↔ ((lt t zero ≡ false) × (lt one t ≡ false))
  unfolding same clamp
  same-clamp irr t = ground (arith, irr t)

  validate_health_iff :
      Irreflexive
      → (h : HealthPolicy Decimal)
      → (validate_health d h ≡ ok tt) ↔ ((h.enabled ≡ false) ⊎ HealthIsValid h)
  unfolding validate_health min_requests_is_zero
  validate_health_iff irr h = ground (arith, same-clamp irr h.error_ratio_threshold)

  validate_rate_limit_iff :
      (r : RateLimitPolicy)
      → (validate_rate_limit d r ≡ ok tt) ↔ ((r.enabled ≡ false) ⊎ RateLimitIsValid r)
  unfolding validate_rate_limit
  validate_rate_limit_iff r = ground arith

  validate_retry_iff : (r : RetryConfig Decimal) → (validate_retry d r ≡ ok tt) ↔ RetryIsValid r
  unfolding validate_retry
  validate_retry_iff r = ground arith

  -- `FallbackPolicyConfig::validate` accepts a policy exactly when each enabled block is in range:
  -- a positive interval, a threshold between 0 and 1 and a positive sample for health, a positive
  -- default and buffer for rate limits; and the retry delays are in order and the metrics prefix
  -- is not blank. The order of `Decimal` is taken to be irreflexive.
  pub validate_iff :
      Irreflexive → (c : FallbackPolicyConfig Decimal) → (validate d c ≡ ok tt) ↔ IsValid c
  unfolding validate
  validate_iff irr c = ground (
    arith,
    validate_health_iff irr c.provider_failover.health,
    validate_rate_limit_iff c.provider_failover.rate_limit,
    validate_retry_iff c.retry,
  )
