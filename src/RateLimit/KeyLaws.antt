-- ===== src/RateLimit/KeyLaws.antt =====
-- The rate-limit monitors and the health monitors name the same services.
use aiephant_ai_gateway.Common.{
  Option, none, some, List, [], ◌∷◌, ok, ok_or, ◌≡◌, refl, subst, Option-cases, Result-cases, arith,
  inl, inr,
}
use aiephant_ai_gateway.Provider.{
  InferenceProvider, provider, endpoint_type, InferenceProvider-discrete,
}
use aiephant_ai_gateway.Fallback.{Decimals}
use aiephant_ai_gateway.Balance.{
  BalanceConfig, BalanceConfigInner, provider_weighted, model_weighted, WeightedProvider,
  WeightedModel, ProviderWeightedKey, ModelWeightedKey,
}
use aiephant_ai_gateway.Health.{Environment}
use aiephant_ai_gateway.Health.Monitors.{weighted_key, weighted_model_key}
use aiephant_ai_gateway.Health.ModelLaws.{Among, here, there}
use aiephant_ai_gateway.RateLimit.{RateLimitEvent}
use aiephant_ai_gateway.RateLimit.Keys.{
  balance_of, find_provider, find_model, provider_target_of, provider_weighted_key, model_target_of,
  model_weighted_key,
}

ok_or-eq-ok : {E A : Type 0} (o : Option A) (x : E) {a : A} → ok_or o x ≡ ok a → o ≡ some a
ok_or-eq-ok none x e = cc e
ok_or-eq-ok (some a) x e = cc e

find_provider-Among :
    {D : Type 0} (p : InferenceProvider) (ts : List (WeightedProvider D)) {t : WeightedProvider D}
    → find_provider p ts ≡ some t
    → Among t ts × (t.provider ≡ p)
unfolding find_provider
find_provider-Among p [] e = cc e
find_provider-Among p (x ∷ ts) {t} e = elim (InferenceProvider-discrete x.provider p) [
  | yes same ↦
      let it : x ≡ t = ground arith in (subst (λ y. Among y (x ∷ ts)) it here, rw (← it) same)
  | no differs ↦ let (among, same) = find_provider-Among p ts (ground arith) in (there among, same)
]

find_model-Among :
    {D M : Type 0} (dec : Discrete M) (m : M) (ts : List (WeightedModel D M))
    {t : WeightedModel D M}
    → find_model dec m ts ≡ some t
    → Among t ts × (t.model ≡ m)
unfolding find_model
find_model-Among dec m [] e = cc e
find_model-Among dec m (x ∷ ts) {t} e = elim (dec x.model m) [
  | yes same ↦
      let it : x ≡ t = ground arith in (subst (λ y. Among y (x ∷ ts)) it here, rw (← it) same)
  | no differs ↦ let (among, same) = find_model-Among dec m ts (ground arith) in (there among, same)
]

module _ {R M : Type 0} {d : Decimals} (env : Environment R M d) where
  open d use {Decimal}

  provider_target_of-eq-ok :
      (p : InferenceProvider) (o : Option (BalanceConfigInner Decimal M))
      {t : WeightedProvider Decimal}
      → provider_target_of env p o ≡ ok t
      → (ts : List (WeightedProvider Decimal)) × (o ≡ some (provider_weighted ts))
        × Among t ts
        × (t.provider ≡ p)
  unfolding provider_target_of
  provider_target_of-eq-ok p (some (provider_weighted ts)) e =
      let (among, same) = find_provider-Among p ts (ok_or-eq-ok _ _ e) in (ts, refl, among, same)
  provider_target_of-eq-ok p _ e = cc e

  -- The weighted provider monitor files an event under a key only if the router's table for the
  -- endpoint type of the event has a target for its provider; and then the key is the one under which
  -- the health monitor keeps that target.
  pub provider_weighted_key-target :
      (lb : BalanceConfig Decimal M) (e : RateLimitEvent M) (key : ProviderWeightedKey)
      → provider_weighted_key env lb e ≡ ok key
      → (ts : List (WeightedProvider Decimal)) × (balance_of (endpoint_type e.api_endpoint) lb
          ≡ some (provider_weighted ts))
        × (t : WeightedProvider Decimal) × Among t ts
        × (weighted_key env (endpoint_type e.api_endpoint) t ≡ ok (key, provider e.api_endpoint))
  unfolding provider_weighted_key weighted_key
  provider_weighted_key-target lb e key q =
      let p = provider e.api_endpoint in
      let found_in = balance_of (endpoint_type e.api_endpoint) lb in
      elim (Result-cases (provider_target_of env p found_in)) [
        | inl (t, q₁) ↦
            let (ts, found, among, same) = provider_target_of-eq-ok p found_in q₁ in
            (ts, found, t, among, ground arith)
        | inr (x, q₁) ↦ absurd (ground arith)
      ]

  module _ (dec : Discrete M) where
    model_target_of-eq-ok :
        (model : M) (o : Option (BalanceConfigInner Decimal M)) {t : WeightedModel Decimal M}
        → model_target_of env dec model o ≡ ok t
        → (ts : List (WeightedModel Decimal M)) × (o ≡ some (model_weighted ts))
          × Among t ts
          × (t.model ≡ model)
    unfolding model_target_of
    model_target_of-eq-ok model (some (model_weighted ts)) e =
        let (among, same) = find_model-Among dec model ts (ok_or-eq-ok _ _ e) in
        (ts, refl, among, same)
    model_target_of-eq-ok model _ e = cc e

    -- The weighted model monitor files an event under a key only if the event names a model that the
    -- router's table for its endpoint type has; and then the key is the one under which the health
    -- monitor keeps that target.
    pub model_weighted_key-target :
        (lb : BalanceConfig Decimal M) (e : RateLimitEvent M) (key : ModelWeightedKey M)
        → model_weighted_key env dec lb e ≡ ok key
        → (ts : List (WeightedModel Decimal M)) × (balance_of (endpoint_type e.api_endpoint) lb
            ≡ some (model_weighted ts))
          × (t : WeightedModel Decimal M) × Among t ts
          × (e.model_id ≡ some t.model)
          × ((p : InferenceProvider)
              → weighted_model_key env (endpoint_type e.api_endpoint) p t ≡ ok key)
    unfolding model_weighted_key weighted_model_key
    model_weighted_key-target lb e key q = elim (Option-cases e.model_id) [
      | inl none_ ↦ absurd (ground arith)
      | inr (model, named) ↦
          let found_in = balance_of (endpoint_type e.api_endpoint) lb in
          elim (Result-cases (model_target_of env dec model found_in)) [
            | inl (t, q₁) ↦
                let (ts, found, among, same) = model_target_of-eq-ok model found_in q₁ in
                (ts, found, t, among, ground arith, λ p. ground arith)
            | inr (x, q₁) ↦ absurd (ground arith)
          ]
    ]
