-- ===== src/Health.antt =====
-- discover/monitor/health/provider.rs: the state of a health monitor and its parts.
pub mod Check
pub mod Monitors
pub mod ProviderLaws
pub mod ProviderPass
pub mod ModelLaws
pub mod ModelTarget
pub mod ModelPass
pub mod ModelWhole
pub mod Tests
use aiephant_ai_gateway.Common.{
  ℕ, length, Bool, true, false, Option, none, some, List, [], ◌∷◌, Result, ok, err, if◌then◌else◌,
  ◌≡◌, refl, ap,
}
use aiephant_ai_gateway.Provider.{InferenceProvider, ApiEndpoint}
use aiephant_ai_gateway.Fallback.{
  Decimals, FallbackPolicyConfig, DecisionKind, FailoverSource, Decision, log_decision,
}
use aiephant_ai_gateway.Fallback.Bridge.{Config}
use aiephant_ai_gateway.Balance.{Change}

pub data HealthStatus : Type 0 where
  down up : HealthStatus

-- The errors that end a check.
pub data RuntimeError : Type 0 where
  internal : RuntimeError
  invalid_weight : InferenceProvider → RuntimeError
  model_id_not_recognized : RuntimeError
  dispatcher_failed : InferenceProvider → RuntimeError
  channel_send_failed : RuntimeError

-- What the monitors take from the rest of the gateway and from outside.
pub record Environment (R M : Type 0) (d : Decimals) : Type 0 where
  pub config : Config R d.Decimal
  pub inference_provider : M → Option InferenceProvider
  -- `Decimal::to_f64` and then `Weight::from`.
  pub to_weight : d.Decimal → Option ℕ
  -- Requests and remote errors of the endpoint in the window, as they stand when the monitor makes the
  -- check of that number: requests are served meanwhile. `none` is a failed lookup.
  pub health_metrics : ℕ → ApiEndpoint → Option (ℕ × ℕ)
  -- `f64::from(errors) / f64::from(requests) > threshold`.
  pub ratio_exceeds : ℕ → ℕ → d.F64 → Bool
  -- Whether `Dispatcher::new` succeeds for the provider.
  pub new_dispatcher : InferenceProvider → Bool

-- `ProviderMonitorInner`, with what it has sent, published and recorded, the newest first.
pub record Monitor (K : Type 0) : Type 0 where
  -- The receiver of `tx` is alive.
  pub receiving : Bool
  pub changes : List (Change K)
  pub unhealthy_keys : List K
  -- `health_broadcaster.is_some()`.
  pub broadcasts : Bool
  pub published : List (InferenceProvider × HealthStatus)
  pub provider_health : List (InferenceProvider × Bool)
  pub decisions : List Decision

-- How many checks the monitor has made before.
abbrev pub checks_made : {K : Type 0} → Monitor K → ℕ
checks_made m = length m.provider_health

abbrev pub Outcome : Type 0 → Type 0
Outcome K = Result RuntimeError (Unit {0}) × Monitor K

-- `?` on a step, with the state that the step leaves.
abbrev pub and_then : {K : Type 0} → Outcome K → (Monitor K → Outcome K) → Outcome K
and_then (ok u, m) k = k m
and_then (err e, m) k = (err e, m)

-- Inversion of a successful sequence and of a successful `?`.
pub and_then-eq-ok :
    {K : Type 0} (r : Outcome K) (k : Monitor K → Outcome K) {m' : Monitor K}
    → and_then r k ≡ (ok tt, m')
    → (m : Monitor K) × (r ≡ (ok tt, m)) × (k m ≡ (ok tt, m'))
and_then-eq-ok (ok u, m) k e = (m, refl, e)
and_then-eq-ok (err x, m) k e = cc (ap (λ o. o.0) e)

abbrev pub with_value :
    {A K : Type 0} → Result RuntimeError A → Monitor K → (A → Outcome K) → Outcome K
with_value (ok a) m k = k a
with_value (err e) m k = (err e, m)

pub with_value-eq-ok :
    {A K : Type 0} (r : Result RuntimeError A) (m : Monitor K) (k : A → Outcome K) {m' : Monitor K}
    → with_value r m k ≡ (ok tt, m')
    → (a : A) × (r ≡ ok a) × (k a ≡ (ok tt, m'))
with_value-eq-ok (ok a) m k e = (a, refl, e)
with_value-eq-ok (err x) m k e = cc (ap (λ o. o.0) e)
