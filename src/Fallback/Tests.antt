-- ===== src/Fallback/Tests.antt =====
-- Test data for the policy, and runs of its theorems.
use aiephant_ai_gateway.Common.{
  ℕ, ◌≤◌, ◌<◌, ◌+◌, unwrap_or, ◌≡◌, refl, ◌↔◌, ◌⊎◌, true, none, some, [], ◌∷◌, ltb, arith, ok,
  ℕ_discrete,
}
use aiephant_ai_gateway.Common.Text.{trim, is_whitespace}
use aiephant_ai_gateway.Fallback.{
  Decimals, requests, FallbackMode, RetryConfig, FallbackPolicyConfig, validate, from_secs,
  duration_end, restore_after, should_remove, source_enabled, validate_health, validate_rate_limit,
  validate_retry, clamp, same, min_requests_is_zero, FailoverSource,
}
use aiephant_ai_gateway.Fallback.Policy.{restore_after-validate}
use aiephant_ai_gateway.Fallback.Validate.{IsValid, validate_iff}

-- Decimals in hundredths.
abbrev pub hundredths : Decimals
hundredths = record {
  Decimal = ℕ;
  F64 = ℕ;
  discrete = ℕ_discrete;
  zero = 0;
  one = 100;
  lt = ltb;
  to_f64 = λ t. some t;
  tenth = 10;
  fifteen_hundredths = 15;
}

-- The defaults of the policy, switched on.
abbrev pub policy : FallbackPolicyConfig ℕ
policy = record {
  enabled = true;
  mode = FallbackMode.unified;
  retry = RetryConfig.exponential (from_secs 1) (from_secs 30) 2 200;
  provider_failover = record {
    health = record {
      enabled = true;
      error_ratio_threshold = 10;
      interval = from_secs 5;
      grace_period = requests 20;
    };
    rate_limit = record {
      enabled = true;
      default_retry_after_seconds = 60;
      restore_buffer = from_secs 30;
    };
  };
  observability = record { emit_decision_log = true; metrics_prefix = 102 ∷ [] };
}

policy_accepted : validate hundredths policy ≡ ok tt
unfolding validate validate_health validate_rate_limit validate_retry clamp same
    min_requests_is_zero ℕ_discrete trim is_whitespace
policy_accepted = refl

policy_removes : should_remove policy FailoverSource.rate_limit ≡ true
unfolding should_remove source_enabled
policy_removes = refl

validate_iff_example : (validate hundredths policy ≡ ok tt) ↔ IsValid hundredths policy
validate_iff_example = validate_iff hundredths (λ t. ground arith) policy

restore_after-validate_example :
    ((restore_after policy (some 5) ≡ none)
      × (duration_end
          ≤ from_secs
              (unwrap_or (some 5) policy.provider_failover.rate_limit.default_retry_after_seconds)
            + policy.provider_failover.rate_limit.restore_buffer))
    ⊎ ((t : ℕ) × (restore_after policy (some 5) ≡ some t)
        × (from_secs
              (unwrap_or (some 5) policy.provider_failover.rate_limit.default_retry_after_seconds)
            < t)
        × (t < duration_end))
restore_after-validate_example =
    restore_after-validate hundredths (λ t. ground arith) policy policy_accepted policy_removes
      (some 5)
