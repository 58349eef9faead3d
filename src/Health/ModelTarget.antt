-- ===== src/Health/ModelTarget.antt =====
-- One target of a model monitor.
use mathlib.Core.Path.{◌≡◌, refl, ap}
use aiephant_ai_gateway.Common.{
  Bool, true, false, List, [], ◌∷◌, Result, ok, arith, ◌⊎◌, inl, inr, Option, some, Bool-cases,
  if_pos,
}
use aiephant_ai_gateway.Common.Sets.{contains, contains-remove}
use aiephant_ai_gateway.Provider.{InferenceProvider}
use aiephant_ai_gateway.Fallback
use aiephant_ai_gateway.Fallback.{Decimals}
use aiephant_ai_gateway.Balance.{present}
use aiephant_ai_gateway.Health.{RuntimeError, Environment, Monitor, and_then-eq-ok}
use aiephant_ai_gateway.Health.Check.{drop_unhealthy, decide}
use aiephant_ai_gateway.Health.Monitors.{
  serves, siblings, siblings_down, siblings_up, model_down, model_up,
}
use aiephant_ai_gateway.Health.ProviderLaws.{Settled}
use aiephant_ai_gateway.Health.ModelLaws.{
  Among, here, there, Same, siblings-OfProvider, siblings_down_effect, siblings_up_effect,
  siblings_up-present, siblings_down_marked,
}

module _ {R M : Type 0} {d : Decimals} (env : Environment R M d) {A : Type 0}
    (model_of : A → M) where
  Among-siblings :
      (p : InferenceProvider) (a : A) (xs : List A)
      → env.inference_provider (model_of a) ≡ some p
      → Among a xs
      → Among a (siblings env model_of p xs)
  unfolding siblings
  Among-siblings p a [] e q = elim q [ ]
  Among-siblings p a (_ ∷ xs) e here = rw (e, if_pos _ refl) here
  Among-siblings p a (b ∷ xs) e (there q) =
      elim (Bool-cases (serves p (env.inference_provider (model_of b)))) [
        | inl same ↦ rw same (there (Among-siblings p a xs e q))
        | inr other ↦ rw other (Among-siblings p a xs e q)
      ]

module _ {R M : Type 0} {d : Decimals} (env : Environment R M d) {K : Type 0} (dec : Discrete K)
    (provider_of : K → Option InferenceProvider) {A : Type 0} (model_of : A → M)
    (key_of : InferenceProvider → A → Result RuntimeError K)
    (key_of_lem : (p : InferenceProvider) (a : A) (k : K)
      → key_of p a ≡ ok k
      → provider_of k ≡ env.inference_provider (model_of a)) where
  -- What a change for the provider does to a key: nothing, it settles it, or it inserts its service
  -- early, before the monitor has taken the key off its set.
  abbrev pub Touch : InferenceProvider → Bool → K → Monitor K → Monitor K → Type 0
  Touch p h k m m' =
      Same env dec provider_of model_of key_of key_of_lem k m m'
      ⊎ ((provider_of k ≡ some p) × Settled dec k h m')
      ⊎ ((provider_of k ≡ some p)
          × (h ≡ true)
          × (contains dec k m'.unhealthy_keys ≡ contains dec k m.unhealthy_keys)
          × (present dec k m'.changes ≡ true))

  module _ (p : InferenceProvider) (all : List A) (a : A) (key : K)
      (served : env.inference_provider (model_of a) ≡ some p) (among : Among a all)
      (keyed : key_of p a ≡ ok key) where
    pub model_down_effect :
        (m m' : Monitor K)
        → m.receiving ≡ true
        → model_down env dec model_of key_of p all m ≡ (ok tt, m')
        → (m'.receiving ≡ true) × Settled dec key false m' × ((k : K) → Touch p false k m m')
    unfolding model_down
    model_down_effect m m' r e =
        let m₀ : Monitor K = decide env.config.fallback_policy Fallback.removed p m in
        let sibs = siblings env model_of p all in
        let (m₁, e₁, e₂) = and_then-eq-ok (siblings_down env dec model_of key_of p sibs m₀) _ e in
        let of_p = siblings-OfProvider env dec provider_of model_of key_of key_of_lem p all in
        let (r₁, eff) =
          siblings_down_effect env dec provider_of model_of key_of key_of_lem p sibs m₀ m₁ of_p r
            e₁ in
        let marked =
          siblings_down_marked env dec provider_of model_of key_of key_of_lem p sibs a key m₀ m₁
            of_p r (Among-siblings env model_of p a all served among) keyed e₁ in
        (
          ground (arith, r₁, ap (λ o. o.1) e₂),
          ground (arith, marked, ap (λ o. o.1) e₂),
          λ k. ground (arith, eff k, ap (λ o. o.1) e₂),
        )

    pub model_up_effect :
        (m m' : Monitor K)
        → m.receiving ≡ true
        → model_up env dec model_of key_of key p all m ≡ (ok tt, m')
        → (m'.receiving ≡ true) × Settled dec key true m' × ((k : K) → Touch p true k m m')
    unfolding model_up
    model_up_effect m m' r e =
        let m₀ : Monitor K =
          drop_unhealthy dec key (decide env.config.fallback_policy Fallback.restored p m) in
        let sibs = siblings env model_of p all in
        let (m₁, e₁, e₂) = and_then-eq-ok (siblings_up env dec model_of key_of p sibs m₀) _ e in
        let of_p = siblings-OfProvider env dec provider_of model_of key_of key_of_lem p all in
        let (r₁, eff) =
          siblings_up_effect env dec provider_of model_of key_of key_of_lem p sibs m₀ m₁ of_p r
            e₁ in
        let shown =
          siblings_up-present env dec provider_of model_of key_of key_of_lem p sibs a key m₀ m₁ of_p
            r (Among-siblings env model_of p a all served among) keyed e₁ in
        let st : Settled dec key true m' =
          ground (
            arith,
            shown,
            eff key,
            contains-remove dec key key m.unhealthy_keys,
            ap (λ o. o.1) e₂,
          ) in
        (
          ground (arith, r₁, ap (λ o. o.1) e₂),
          st,
          λ k. ground (
            arith,
            eff k,
            contains-remove dec key k m.unhealthy_keys,
            st,
            ap (λ o. o.1) e₂,
            key_of_lem p a key keyed,
            served,
          ),
        )
