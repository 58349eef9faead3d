-- ===== src/Balance.antt =====
-- config/balance.rs and discover/: load-balancing targets, the keys of the balancers' services and
-- the change events by which monitors add and remove services.
-- `ModelId` and `rust_decimal::Decimal` are parameters here.
use aiephant_ai_gateway.Common.{ℕ, List, Bool, true, false, ite, ℕ_discrete, [], ◌∷◌}
use aiephant_ai_gateway.Provider.{
  InferenceProvider, EndpointType, InferenceProvider-discrete, EndpointType-discrete,
}

pub record WeightedProvider (D : Type 0) : Type 0 where
  pub provider : InferenceProvider
  pub weight : D

pub record WeightedModel (D M : Type 0) : Type 0 where
  pub model : M
  pub weight : D

-- A `NESet` is its list of elements, in the order of iteration.
pub data BalanceConfigInner (D M : Type 0) : Type 0 where
  provider_weighted : List (WeightedProvider D) → BalanceConfigInner D M
  balanced_latency : List InferenceProvider → BalanceConfigInner D M
  model_weighted : List (WeightedModel D M) → BalanceConfigInner D M
  model_latency : List M → BalanceConfigInner D M

-- A `HashMap` by endpoint type, in the order of iteration.
abbrev pub BalanceConfig : Type 0 → Type 0 → Type 0
BalanceConfig D M = List (EndpointType × BalanceConfigInner D M)

pub record ProviderKey : Type 0 where
  pub provider : InferenceProvider
  pub endpoint_type : EndpointType

pub record ProviderWeightedKey : Type 0 where
  pub provider : InferenceProvider
  pub endpoint_type : EndpointType
  pub weight : ℕ

pub record ModelKey (M : Type 0) : Type 0 where
  pub model_id : M
  pub endpoint_type : EndpointType

pub record ModelWeightedKey (M : Type 0) : Type 0 where
  pub model_id : M
  pub endpoint_type : EndpointType
  pub weight : ℕ

unfoldable pub ProviderKey-discrete : Discrete ProviderKey
unfolding InferenceProvider-discrete EndpointType-discrete
ProviderKey-discrete = hlevel (InferenceProvider-discrete, EndpointType-discrete)

unfoldable pub ProviderWeightedKey-discrete : Discrete ProviderWeightedKey
unfolding InferenceProvider-discrete EndpointType-discrete
ProviderWeightedKey-discrete =
    hlevel (InferenceProvider-discrete, EndpointType-discrete, ℕ_discrete)

module _ {M : Type 0} (dec : Discrete M) where
  unfoldable pub ModelKey-discrete : Discrete (ModelKey M)
  unfolding EndpointType-discrete
  ModelKey-discrete = hlevel (dec, EndpointType-discrete)

  unfoldable pub ModelWeightedKey-discrete : Discrete (ModelWeightedKey M)
  unfolding EndpointType-discrete
  ModelWeightedKey-discrete = hlevel (dec, EndpointType-discrete, ℕ_discrete)

-- `tower::discover::Change`; the service of an insertion is the provider that it dispatches to.
pub data Change (K : Type 0) : Type 0 where
  inserted : K → InferenceProvider → Change K
  removed : K → Change K

-- Whether a balancer holds a service for the key after the events, the newest first. A balancer starts
-- with a service for every key. Of the events of one sender it says what that sender last made of the
-- key.
module _ {K : Type 0} (dec : Discrete K) where
  unfoldable pub present : K → List (Change K) → Bool
  present k [] = true
  present k (inserted j p ∷ es) = ite (dec j k) true (present k es)
  present k (removed j ∷ es) = ite (dec j k) false (present k es)
