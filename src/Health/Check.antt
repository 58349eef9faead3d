-- ===== src/Health/Check.antt =====
-- One target of a health check: its health, and what is done when that has changed.
use aiephant_ai_gateway.Common.{
  ℕ, Bool, true, not, ◌&&◌, some, List, [], ◌∷◌, Result, ok, err, ◌>>=◌, if◌then◌else◌, ltb, ok_or,
}
use aiephant_ai_gateway.Common.Sets.{insert, remove}
use aiephant_ai_gateway.Provider.{InferenceProvider, custom, ApiEndpoint, endpoints}
use aiephant_ai_gateway.Fallback.{
  Decimals, GracePeriod, requests, FallbackPolicyConfig, DecisionKind, FailoverSource, log_decision,
}
use aiephant_ai_gateway.Fallback
use aiephant_ai_gateway.Fallback.Bridge.{HealthMonitorParams, resolved_health_monitor_config}
use aiephant_ai_gateway.Balance.{Change, inserted}
use aiephant_ai_gateway.Health.{
  HealthStatus, RuntimeError, internal, dispatcher_failed, Environment, Monitor, Outcome,
}

module _ {K : Type 0} where
  -- `tx.send(..).await`; a closed channel is logged only.
  unfoldable pub send : Change K → Monitor K → Monitor K
  send c m = if m.receiving then record m { changes = c ∷ m.changes } else m

  unfoldable pub publish : InferenceProvider → HealthStatus → Monitor K → Monitor K
  publish p status m =
      if m.broadcasts then record m { published = (p, status) ∷ m.published } else m

  unfoldable pub decide :
      {D : Type 0}
      → FallbackPolicyConfig D
      → DecisionKind
      → InferenceProvider
      → Monitor K
      → Monitor K
  unfolding log_decision
  decide policy kind p m = record m {
    decisions = log_decision policy kind (some Fallback.health) p m.decisions;
  }

  unfoldable pub add_unhealthy : Discrete K → K → Monitor K → Monitor K
  add_unhealthy dec key m = record m { unhealthy_keys = insert dec key m.unhealthy_keys }

  unfoldable pub drop_unhealthy : Discrete K → K → Monitor K → Monitor K
  drop_unhealthy dec key m = record m { unhealthy_keys = remove dec key m.unhealthy_keys }

  unfoldable pub record_health : InferenceProvider → Bool → Monitor K → Monitor K
  record_health p healthy m = record m { provider_health = (p, healthy) ∷ m.provider_health }

module _ {R M : Type 0} {d : Decimals} (env : Environment R M d) where
  unfoldable pub below_grace : GracePeriod → ℕ → Bool
  below_grace (requests n) r = ltb r n

  -- One endpoint with enough requests is unhealthy if its error ratio exceeds the threshold.
  unfoldable pub endpoint_healthy : HealthMonitorParams d.F64 → ℕ × ℕ → Bool
  unfolding below_grace
  endpoint_healthy params (total, errors) =
      if below_grace params.grace_period total
      then true
      else not (env.ratio_exceeds errors total params.error_threshold)

  unfoldable pub endpoints_healthy :
      ℕ → HealthMonitorParams d.F64 → List ApiEndpoint → Bool → Result RuntimeError Bool
  endpoints_healthy now params [] all_healthy = ok all_healthy
  endpoints_healthy now params (e ∷ es) all_healthy =
      ok_or (env.health_metrics now e) internal >>= λ counts.
      endpoints_healthy now params es (endpoint_healthy params counts && all_healthy)

  -- The check that the monitor makes as that of the given number.
  unfoldable pub check_health : ℕ → InferenceProvider → Result RuntimeError Bool
  unfolding endpoints_healthy endpoint_healthy resolved_health_monitor_config endpoints
  check_health now custom = ok true
  check_health now p =
      endpoints_healthy now (resolved_health_monitor_config d env.config) (endpoints p) true

  module _ {K : Type 0} where
    -- `Dispatcher::new` and the insertion that follows it.
    unfoldable pub insert_service : K → InferenceProvider → Monitor K → Outcome K
    unfolding send
    insert_service key p m =
        if env.new_dispatcher p
        then (ok tt, send (inserted key p) m)
        else (err (dispatcher_failed p), m)
