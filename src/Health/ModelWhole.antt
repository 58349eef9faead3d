-- ===== src/Health/ModelWhole.antt =====
-- A whole pass of the two model monitors.
use mathlib.Core.Path.{◌≡◌, ap, subst, ◌∙◌}
use aiephant_ai_gateway.Common.{
  Bool, true, List, [], ◌∷◌, Result, ok, arith, All, inl, inr, Option, Bool-cases,
}
use aiephant_ai_gateway.Common.Sets.{contains}
use aiephant_ai_gateway.Provider.{InferenceProvider, EndpointType}
use aiephant_ai_gateway.Fallback.{Decimals}
use aiephant_ai_gateway.Balance.{
  BalanceConfig, BalanceConfigInner, provider_weighted, balanced_latency, model_weighted,
  model_latency, WeightedModel, ModelKey, ModelWeightedKey, ModelKey-discrete,
  ModelWeightedKey-discrete,
}
use aiephant_ai_gateway.Health.{RuntimeError, Environment, Monitor, and_then-eq-ok}
use aiephant_ai_gateway.Health.Monitors.{
  model_targets, weighted_model_key, latency_model_key, check_model_weighted_monitor,
  check_model_latency_monitor,
}
use aiephant_ai_gateway.Health.ProviderLaws.{Synced}
use aiephant_ai_gateway.Health.ModelPass.{
  HealthIs, Sound, Kept, TargetSettled, model_targets-Settled,
}

module _ {R M : Type 0} {d : Decimals} (env : Environment R M d) {K : Type 0} (dec : Discrete K)
    (provider_of : K → Option InferenceProvider) where
  -- A key in step with the events is sound at any health.
  Synced-Sound :
      (k : K) (h : Bool) (m : Monitor K) → Synced dec k m → Sound env dec provider_of k h m
  Synced-Sound k h m s = elim (Bool-cases (contains dec k m.unhealthy_keys)) [
    | inl was ↦ ground arith
    | inr fresh ↦ ground arith
  ]

module _ {R M : Type 0} {d : Decimals} (env : Environment R M d) {K : Type 0} (dec : Discrete K)
    (provider_of : K → Option InferenceProvider) {A : Type 0} (model_of : A → M)
    (key_of : InferenceProvider → A → Result RuntimeError K)
    (key_of_lem : (p : InferenceProvider) (a : A) (k : K)
      → key_of p a ≡ ok k
      → provider_of k ≡ env.inference_provider (model_of a)) where
  EachSettled : Monitor K → List A → Type 0
  EachSettled m' = All (TargetSettled env dec provider_of model_of key_of key_of_lem m')

  EachSettled-Kept :
      (ts : List A) (m m' : Monitor K)
      → Kept env dec provider_of m m'
      → EachSettled m ts
      → EachSettled m' ts
  unfolding EachSettled
  EachSettled-Kept [] m m' kept done = tt
  EachSettled-Kept (t ∷ ts) m m' kept ((p, served, key, ek, now, h, c, st), done) = (
    (
      p,
      served,
      key,
      ek,
      now,
      h,
      c,
      λ all_. kept.settled key h (p, key_of_lem p t key ek ∙ served, all_) (st all_),
    ),
    EachSettled-Kept ts m m' kept done,
  )

module _ {R M : Type 0} {d : Decimals} (env : Environment R M d) (dec : Discrete M) where
  open d use {Decimal}

  abbrev pub weighted_provider : ModelWeightedKey M → Option InferenceProvider
  weighted_provider k = env.inference_provider k.model_id

  pub weighted_model_key_lem :
      (et : EndpointType) (p : InferenceProvider) (t : WeightedModel Decimal M)
      (k : ModelWeightedKey M)
      → weighted_model_key env et p t ≡ ok k
      → weighted_provider k ≡ env.inference_provider t.model
  unfolding weighted_model_key
  weighted_model_key_lem et p t k e = ground arith

  -- Every model of the entry is settled by the health of its provider.
  abbrev pub WeightedSettled :
      Monitor (ModelWeightedKey M) → EndpointType × BalanceConfigInner Decimal M → Type 0
  WeightedSettled m' (et, model_weighted ts) =
      All
        (TargetSettled env (ModelWeightedKey-discrete dec) weighted_provider (λ t. t.model)
          (weighted_model_key env et) (weighted_model_key_lem et) m')
        ts
  WeightedSettled m' (et, provider_weighted _) = ⊥
  WeightedSettled m' (et, balanced_latency _) = ⊥
  WeightedSettled m' (et, model_latency _) = ⊥

  weighted_pass :
      (lb : BalanceConfig Decimal M) (m m' : Monitor (ModelWeightedKey M))
      → m.receiving ≡ true
      → ((k : ModelWeightedKey M) (h : Bool)
          → HealthIs env (ModelWeightedKey-discrete dec) weighted_provider k h
          → Sound env (ModelWeightedKey-discrete dec) weighted_provider k h m)
      → check_model_weighted_monitor env dec lb m ≡ (ok tt, m')
      → Kept env (ModelWeightedKey-discrete dec) weighted_provider m m'
        × All (WeightedSettled m') lb
  unfolding check_model_weighted_monitor EachSettled
  weighted_pass [] m m' r s e =
      let same : Kept env (ModelWeightedKey-discrete dec) weighted_provider m m = record {
        open_ = r;
        sound = λ k h hk sk. sk;
        settled = λ k h hk st. st;
      } in
      (
        subst (Kept env (ModelWeightedKey-discrete dec) weighted_provider m) (ap (λ o. o.1) e) same,
        tt,
      )
  weighted_pass ((et, model_weighted ts) ∷ rest) m m' r s e =
      let (m₁, e₁, e₂) =
        and_then-eq-ok
          (model_targets env (ModelWeightedKey-discrete dec) (λ t. t.model)
            (weighted_model_key env et) ts ts m)
          (check_model_weighted_monitor env dec rest) e in
      let (first, done) =
        model_targets-Settled env (ModelWeightedKey-discrete dec) weighted_provider (λ t. t.model)
          (weighted_model_key env et) (weighted_model_key_lem et) ts ts m m₁ (λ a q. q) r s e₁ in
      let (later, all) =
        weighted_pass rest m₁ m' first.open_ (λ k h hk. first.sound k h hk (s k h hk)) e₂ in
      (
        record {
          open_ = later.open_;
          sound = λ k h hk sk. later.sound k h hk (first.sound k h hk sk);
          settled = λ k h hk st. later.settled k h hk (first.settled k h hk st);
        },
        (
          EachSettled-Kept env (ModelWeightedKey-discrete dec) weighted_provider (λ t. t.model)
              (weighted_model_key env et) (weighted_model_key_lem et) ts m₁ m' later done,
          all,
        ),
      )
  weighted_pass ((et, provider_weighted _) ∷ rest) m m' r s e = cc (ap (λ o. o.0) e)
  weighted_pass ((et, balanced_latency _) ∷ rest) m m' r s e = cc (ap (λ o. o.0) e)
  weighted_pass ((et, model_latency _) ∷ rest) m m' r s e = cc (ap (λ o. o.0) e)

  -- A pass of the weighted model monitor that ends without an error, from a state whose set of unhealthy
  -- keys agrees with the events that it sent and with the receiver alive, checks the provider of every
  -- configured model, and leaves the model, if every check of that provider has the same result, in
  -- the balancer, as far as the events of this monitor go, exactly if that is a pass, and marked
  -- unhealthy exactly if it is a failure. The counters of other providers may change meanwhile.
  pub check_model_weighted_monitor-Settled :
      (lb : BalanceConfig Decimal M) (m m' : Monitor (ModelWeightedKey M))
      → m.receiving ≡ true
      → ((k : ModelWeightedKey M) → Synced (ModelWeightedKey-discrete dec) k m)
      → check_model_weighted_monitor env dec lb m ≡ (ok tt, m')
      → All (WeightedSettled m') lb
  check_model_weighted_monitor-Settled lb m m' r s e =
      (weighted_pass lb m m' r
        (λ k h hk. Synced-Sound env (ModelWeightedKey-discrete dec) weighted_provider k h m (s k))
        e).1

module _ {R M : Type 0} {d : Decimals} (env : Environment R M d) (dec : Discrete M) where
  open d use {Decimal}

  abbrev pub latency_provider : ModelKey M → Option InferenceProvider
  latency_provider k = env.inference_provider k.model_id

  pub latency_model_key_lem :
      (et : EndpointType) (p : InferenceProvider) (t : M) (k : ModelKey M)
      → latency_model_key env et p t ≡ ok k
      → latency_provider k ≡ env.inference_provider t
  unfolding latency_model_key
  latency_model_key_lem et p t k e = ground arith

  -- Every model of the entry is settled by the health of its provider.
  abbrev pub LatencySettled :
      Monitor (ModelKey M) → EndpointType × BalanceConfigInner Decimal M → Type 0
  LatencySettled m' (et, model_latency ts) =
      All
        (TargetSettled env (ModelKey-discrete dec) latency_provider (λ t. t)
          (latency_model_key env et) (latency_model_key_lem et) m')
        ts
  LatencySettled m' (et, provider_weighted _) = ⊥
  LatencySettled m' (et, balanced_latency _) = ⊥
  LatencySettled m' (et, model_weighted _) = ⊥

  latency_pass :
      (lb : BalanceConfig Decimal M) (m m' : Monitor (ModelKey M))
      → m.receiving ≡ true
      → ((k : ModelKey M) (h : Bool)
          → HealthIs env (ModelKey-discrete dec) latency_provider k h
          → Sound env (ModelKey-discrete dec) latency_provider k h m)
      → check_model_latency_monitor env dec lb m ≡ (ok tt, m')
      → Kept env (ModelKey-discrete dec) latency_provider m m' × All (LatencySettled m') lb
  unfolding check_model_latency_monitor EachSettled
  latency_pass [] m m' r s e =
      let same : Kept env (ModelKey-discrete dec) latency_provider m m = record {
        open_ = r;
        sound = λ k h hk sk. sk;
        settled = λ k h hk st. st;
      } in
      (subst (Kept env (ModelKey-discrete dec) latency_provider m) (ap (λ o. o.1) e) same, tt)
  latency_pass ((et, model_latency ts) ∷ rest) m m' r s e =
      let (m₁, e₁, e₂) =
        and_then-eq-ok
          (model_targets env (ModelKey-discrete dec) (λ t. t) (latency_model_key env et) ts ts m)
          (check_model_latency_monitor env dec rest) e in
      let (first, done) =
        model_targets-Settled env (ModelKey-discrete dec) latency_provider (λ t. t)
          (latency_model_key env et) (latency_model_key_lem et) ts ts m m₁ (λ a q. q) r s e₁ in
      let (later, all) =
        latency_pass rest m₁ m' first.open_ (λ k h hk. first.sound k h hk (s k h hk)) e₂ in
      (
        record {
          open_ = later.open_;
          sound = λ k h hk sk. later.sound k h hk (first.sound k h hk sk);
          settled = λ k h hk st. later.settled k h hk (first.settled k h hk st);
        },
        (
          EachSettled-Kept env (ModelKey-discrete dec) latency_provider (λ t. t)
              (latency_model_key env et) (latency_model_key_lem et) ts m₁ m' later done,
          all,
        ),
      )
  latency_pass ((et, provider_weighted _) ∷ rest) m m' r s e = cc (ap (λ o. o.0) e)
  latency_pass ((et, balanced_latency _) ∷ rest) m m' r s e = cc (ap (λ o. o.0) e)
  latency_pass ((et, model_weighted _) ∷ rest) m m' r s e = cc (ap (λ o. o.0) e)

  -- A pass of the latency model monitor that ends without an error, from a state whose set of unhealthy
  -- keys agrees with the events that it sent and with the receiver alive, checks the provider of every
  -- configured model, and leaves the model, if every check of that provider has the same result, in
  -- the balancer, as far as the events of this monitor go, exactly if that is a pass, and marked
  -- unhealthy exactly if it is a failure. The counters of other providers may change meanwhile.
  pub check_model_latency_monitor-Settled :
      (lb : BalanceConfig Decimal M) (m m' : Monitor (ModelKey M))
      → m.receiving ≡ true
      → ((k : ModelKey M) → Synced (ModelKey-discrete dec) k m)
      → check_model_latency_monitor env dec lb m ≡ (ok tt, m')
      → All (LatencySettled m') lb
  check_model_latency_monitor-Settled lb m m' r s e =
      (latency_pass lb m m' r
        (λ k h hk. Synced-Sound env (ModelKey-discrete dec) latency_provider k h m (s k)) e).1
