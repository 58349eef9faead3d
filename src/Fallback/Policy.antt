-- ===== src/Fallback/Policy.antt =====
-- The waits that `restore_after` of fallback/evaluator.rs gives.
use aiephant_ai_gateway.Common.{
  ℕ, ◌+◌, ◌≤◌, ◌<◌, ◌≡◌, ◌⊎◌, inl, inr, true, false, ok, arith, Option, some, none, unwrap_or, ltb,
  Bool-cases,
}
use aiephant_ai_gateway.Fallback.{
  Decimals, FallbackPolicyConfig, rate_limit, validate, from_secs, duration_end, add_duration,
  restore_after, should_remove, source_enabled,
}
use aiephant_ai_gateway.Fallback.Validate.{validate_iff}

rate_limit_buffer :
    (d : Decimals)
    → ((t : d.Decimal) → d.lt t t ≡ false)
    → (c : FallbackPolicyConfig d.Decimal) → validate d c ≡ ok tt
    → should_remove c rate_limit ≡ true
    → 0 < c.provider_failover.rate_limit.restore_buffer
unfolding should_remove source_enabled
rate_limit_buffer d irr c e on = ground (arith, (validate_iff d irr c).0 e)

-- A wait under an accepted policy with its rate-limit failover on ends strictly after the provider's
-- `Retry-After`, or after the default where the provider sent none; and the wait is computed unless
-- it overflows a `Duration`.
pub restore_after-validate :
    (d : Decimals)
    → ((t : d.Decimal) → d.lt t t ≡ false)
    → (c : FallbackPolicyConfig d.Decimal) → validate d c ≡ ok tt
    → should_remove c rate_limit ≡ true
    → (header : Option ℕ)
    → ((restore_after c header ≡ none)
        × (duration_end
            ≤ from_secs
                (unwrap_or header c.provider_failover.rate_limit.default_retry_after_seconds)
              + c.provider_failover.rate_limit.restore_buffer))
      ⊎ ((t : ℕ) × (restore_after c header ≡ some t)
          × (from_secs (unwrap_or header c.provider_failover.rate_limit.default_retry_after_seconds)
              < t)
          × (t < duration_end))
unfolding restore_after add_duration should_remove source_enabled
restore_after-validate d irr c e on header =
    let buffer : 0 < c.provider_failover.rate_limit.restore_buffer =
      rate_limit_buffer d irr c e on in
    let base =
      from_secs (unwrap_or header c.provider_failover.rate_limit.default_retry_after_seconds) in
    let fits = ltb (base + c.provider_failover.rate_limit.restore_buffer) duration_end in
    elim (Bool-cases fits) [
      | inl yes_ ↦ inr (
        base + c.provider_failover.rate_limit.restore_buffer,
        ground arith,
        ground arith,
        ground arith,
      )
      | inr no_ ↦ inl (ground arith)
    ]
