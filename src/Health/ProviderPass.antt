-- ===== src/Health/ProviderPass.antt =====
-- A whole pass of the two provider monitors.
use mathlib.Core.Path.{◌≡◌, ap}
use aiephant_ai_gateway.Common.{true, [], ◌∷◌, ok, arith, All}
use aiephant_ai_gateway.Provider.{InferenceProvider, EndpointType}
use aiephant_ai_gateway.Fallback.{Decimals}
use aiephant_ai_gateway.Balance.{
  BalanceConfig, BalanceConfigInner, provider_weighted, balanced_latency, model_weighted,
  model_latency, WeightedProvider, ProviderKey, ProviderWeightedKey, ProviderKey-discrete,
  ProviderWeightedKey-discrete,
}
use aiephant_ai_gateway.Health.{Environment, Monitor, and_then-eq-ok}
use aiephant_ai_gateway.Health.Monitors.{
  provider_targets, weighted_key, latency_key, check_provider_weighted_monitor,
  check_provider_latency_monitor,
}
use aiephant_ai_gateway.Health.ProviderLaws.{
  Synced, Kept, Kept-refl, Kept-trans, TargetSettled, Settled-Kept, provider_targets-Kept,
}

module _ {R M : Type 0} {d : Decimals} (env : Environment R M d) where
  open d use {Decimal}

  weighted_key_lem :
      (et : EndpointType) (t : WeightedProvider Decimal)
      (kp : ProviderWeightedKey × InferenceProvider)
      → weighted_key env et t ≡ ok kp
      → kp.1 ≡ kp.0.provider
  unfolding weighted_key
  weighted_key_lem et t kp e = ground arith

  latency_key_lem :
      (et : EndpointType) (p : InferenceProvider) (kp : ProviderKey × InferenceProvider)
      → latency_key env et p ≡ ok kp
      → kp.1 ≡ kp.0.provider
  unfolding latency_key
  latency_key_lem et p kp e = ground arith

  abbrev WeightedKept : Monitor ProviderWeightedKey → Monitor ProviderWeightedKey → Type 0
  WeightedKept = Kept env ProviderWeightedKey-discrete (λ k. k.provider)

  -- Every target of the entry is settled by the health of its provider.
  abbrev pub WeightedSettled :
      Monitor ProviderWeightedKey → EndpointType × BalanceConfigInner Decimal M → Type 0
  WeightedSettled m' (et, provider_weighted ts) =
      All
        (TargetSettled env ProviderWeightedKey-discrete (λ k. k.provider) (weighted_key env et) m')
        ts
  WeightedSettled m' (et, balanced_latency _) = ⊥
  WeightedSettled m' (et, model_weighted _) = ⊥
  WeightedSettled m' (et, model_latency _) = ⊥

  weighted_pass :
      (lb : BalanceConfig Decimal M) (m m' : Monitor ProviderWeightedKey)
      → m.receiving ≡ true
      → ((k : ProviderWeightedKey) → Synced ProviderWeightedKey-discrete k m)
      → check_provider_weighted_monitor env lb m ≡ (ok tt, m')
      → WeightedKept m m' × All (WeightedSettled m') lb
  unfolding check_provider_weighted_monitor
  weighted_pass [] m m' r s e =
      (Kept-refl env ProviderWeightedKey-discrete _ r s (ap (λ o. o.1) e), tt)
  weighted_pass ((et, provider_weighted ts) ∷ rest) m m' r s e =
      let (m₁, e₁, e₂) =
        and_then-eq-ok
          (provider_targets env ProviderWeightedKey-discrete (weighted_key env et) ts m)
          (check_provider_weighted_monitor env rest) e in
      let (first, done) =
        provider_targets-Kept env ProviderWeightedKey-discrete (λ k. k.provider)
          (weighted_key env et) (weighted_key_lem et) ts m m₁ r s e₁ in
      let (later, all) = weighted_pass rest m₁ m' first.open_ first.synced e₂ in
      (
        Kept-trans env ProviderWeightedKey-discrete _ first later,
        (
          Settled-Kept env ProviderWeightedKey-discrete (λ k. k.provider) (weighted_key env et) ts
              m₁ m' later done,
          all,
        ),
      )
  weighted_pass ((et, balanced_latency _) ∷ rest) m m' r s e = cc (ap (λ o. o.0) e)
  weighted_pass ((et, model_weighted _) ∷ rest) m m' r s e = cc (ap (λ o. o.0) e)
  weighted_pass ((et, model_latency _) ∷ rest) m m' r s e = cc (ap (λ o. o.0) e)

  abbrev LatencyKept : Monitor ProviderKey → Monitor ProviderKey → Type 0
  LatencyKept = Kept env ProviderKey-discrete (λ k. k.provider)

  -- Every target of the entry is settled by the health of its provider.
  abbrev pub LatencySettled :
      Monitor ProviderKey → EndpointType × BalanceConfigInner Decimal M → Type 0
  LatencySettled m' (et, balanced_latency ts) =
      All (TargetSettled env ProviderKey-discrete (λ k. k.provider) (latency_key env et) m') ts
  LatencySettled m' (et, provider_weighted _) = ⊥
  LatencySettled m' (et, model_weighted _) = ⊥
  LatencySettled m' (et, model_latency _) = ⊥

  latency_pass :
      (lb : BalanceConfig Decimal M) (m m' : Monitor ProviderKey)
      → m.receiving ≡ true
      → ((k : ProviderKey) → Synced ProviderKey-discrete k m)
      → check_provider_latency_monitor env lb m ≡ (ok tt, m')
      → LatencyKept m m' × All (LatencySettled m') lb
  unfolding check_provider_latency_monitor
  latency_pass [] m m' r s e = (Kept-refl env ProviderKey-discrete _ r s (ap (λ o. o.1) e), tt)
  latency_pass ((et, balanced_latency ts) ∷ rest) m m' r s e =
      let (m₁, e₁, e₂) =
        and_then-eq-ok (provider_targets env ProviderKey-discrete (latency_key env et) ts m)
          (check_provider_latency_monitor env rest) e in
      let (first, done) =
        provider_targets-Kept env ProviderKey-discrete (λ k. k.provider) (latency_key env et)
          (latency_key_lem et) ts m m₁ r s e₁ in
      let (later, all) = latency_pass rest m₁ m' first.open_ first.synced e₂ in
      (
        Kept-trans env ProviderKey-discrete _ first later,
        (
          Settled-Kept env ProviderKey-discrete (λ k. k.provider) (latency_key env et) ts m₁ m'
              later done,
          all,
        ),
      )
  latency_pass ((et, provider_weighted _) ∷ rest) m m' r s e = cc (ap (λ o. o.0) e)
  latency_pass ((et, model_weighted _) ∷ rest) m m' r s e = cc (ap (λ o. o.0) e)
  latency_pass ((et, model_latency _) ∷ rest) m m' r s e = cc (ap (λ o. o.0) e)

  -- A pass of the weighted provider monitor that ends without an error, from a state whose set of
  -- unhealthy keys agrees with the events that it sent and with the receiver alive, checks every
  -- configured provider, and leaves it, if every check of it has the same result, in the balancer, as
  -- far as the events of this monitor go, exactly if that is a pass, and marked unhealthy exactly if it
  -- is a failure; and, whatever the checks find, the set still agrees with the events for every key.
  pub check_provider_weighted_monitor-Settled :
      (lb : BalanceConfig Decimal M) (m m' : Monitor ProviderWeightedKey)
      → m.receiving ≡ true
      → ((k : ProviderWeightedKey) → Synced ProviderWeightedKey-discrete k m)
      → check_provider_weighted_monitor env lb m ≡ (ok tt, m')
      → ((k : ProviderWeightedKey) → Synced ProviderWeightedKey-discrete k m')
        × All (WeightedSettled m') lb
  check_provider_weighted_monitor-Settled lb m m' r s e =
      let (kept, done) = weighted_pass lb m m' r s e in (kept.synced, done)

  -- The same of the latency provider monitor.
  pub check_provider_latency_monitor-Settled :
      (lb : BalanceConfig Decimal M) (m m' : Monitor ProviderKey)
      → m.receiving ≡ true
      → ((k : ProviderKey) → Synced ProviderKey-discrete k m)
      → check_provider_latency_monitor env lb m ≡ (ok tt, m')
      → ((k : ProviderKey) → Synced ProviderKey-discrete k m') × All (LatencySettled m') lb
  check_provider_latency_monitor-Settled lb m m' r s e =
      let (kept, done) = latency_pass lb m m' r s e in (kept.synced, done)
