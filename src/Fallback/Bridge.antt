-- ===== src/Fallback/Bridge.antt =====
-- config/fallback_bridge.rs: which of the unified policy and the legacy blocks is in force.
use aiephant_ai_gateway.Common.{
  ℕ, ◌&&◌, Option, some, List, [], ◌∷◌, ◌++◌, if◌then◌else◌, is_some, unwrap_or,
}
use aiephant_ai_gateway.Fallback.{
  Decimals, GracePeriod, RetryConfig, FallbackPolicyConfig, restore_after,
}

-- `HealthMonitorConfig`, which has the one variant `ErrorRatio`.
pub record HealthMonitorConfig (D : Type 0) : Type 0 where
  pub ratio : D
  pub window : ℕ
  pub buckets : ℕ
  pub interval : ℕ
  pub grace_period : GracePeriod

-- The part of `RouterConfig` that the bridge reads, under its `RouterId`.
pub record RouterRetries (R D : Type 0) : Type 0 where
  pub router_id : R
  pub retries : Option (RetryConfig D)

-- The part of `Config` that the bridge reads; `monitor` is `discover.monitor.health`.
pub record Config (R D : Type 0) : Type 0 where
  pub fallback_policy : FallbackPolicyConfig D
  pub monitor : HealthMonitorConfig D
  pub global_retries : Option (RetryConfig D)
  pub unified_api_retries : Option (RetryConfig D)
  pub routers : List (RouterRetries R D)

pub record HealthMonitorParams (F : Type 0) : Type 0 where
  pub error_threshold : F
  pub interval : ℕ
  pub grace_period : GracePeriod

pub data DeprecatedRetryLocation (R : Type 0) : Type 0 where
  unified_api : DeprecatedRetryLocation R
  router : R → DeprecatedRetryLocation R

-- `MonitorConfig::error_threshold`.
unfoldable pub error_threshold : (d : Decimals) → HealthMonitorConfig d.Decimal → d.F64
error_threshold d m = unwrap_or (d.to_f64 m.ratio) d.fifteen_hundredths

module _ {R : Type 0} (d : Decimals) where
  open d use {Decimal, F64, to_f64, tenth}

  unfoldable pub resolved_health_monitor_config : Config R Decimal → HealthMonitorParams F64
  unfolding error_threshold
  resolved_health_monitor_config config =
      let fp = config.fallback_policy in
      let h = fp.provider_failover.health in
      if fp.enabled && h.enabled
      then record {
        error_threshold = unwrap_or (to_f64 h.error_ratio_threshold) tenth;
        interval = h.interval;
        grace_period = h.grace_period;
      }
      else record {
        error_threshold = error_threshold d config.monitor;
        interval = config.monitor.interval;
        grace_period = config.monitor.grace_period;
      }

module _ {R D : Type 0} where
  unfoldable pub resolved_rate_limit_restore_after : Config R D → Option ℕ → Option ℕ
  unfolding restore_after
  resolved_rate_limit_restore_after config secs = restore_after config.fallback_policy secs

  unfoldable pub resolved_global_retry : Config R D → Option (RetryConfig D)
  resolved_global_retry config =
      if config.fallback_policy.enabled
      then some config.fallback_policy.retry
      else config.global_retries

  deprecated_routers : List (RouterRetries R D) → List (DeprecatedRetryLocation R)
  deprecated_routers [] = []
  deprecated_routers (r ∷ rs) =
      (if is_some r.retries then router r.router_id ∷ [] else []) ++ deprecated_routers rs

  pub deprecated_per_path_retries : Config R D → List (DeprecatedRetryLocation R)
  unfolding deprecated_routers
  deprecated_per_path_retries config =
      (if is_some config.unified_api_retries then unified_api ∷ [] else [])
      ++ deprecated_routers config.routers
