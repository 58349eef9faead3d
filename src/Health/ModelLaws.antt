-- ===== src/Health/ModelLaws.antt =====
-- The model monitors: what the removal and the restoration of a provider's models do to each key.
use mathlib.Core.Path.{◌≡◌, ap}
use aiephant_ai_gateway.Common.{
  true, false, List, [], ◌∷◌, Result, ok, ite, arith, ◌⊎◌, inl, Option, some, All,
}
use aiephant_ai_gateway.Common.Sets.{contains, contains-insert}
use aiephant_ai_gateway.Provider.{InferenceProvider}
use aiephant_ai_gateway.Fallback.{Decimals}
use aiephant_ai_gateway.Balance.{present}
use aiephant_ai_gateway.Health.{
  RuntimeError, Environment, Monitor, and_then-eq-ok, with_value-eq-ok,
}
use aiephant_ai_gateway.Health.Check.{insert_service, add_unhealthy, send}
use aiephant_ai_gateway.Health.Monitors.{siblings, siblings_down, siblings_up}

-- Membership, kept with its place.
pub data Among {A : Type 0} (a : A) : List A → Type 0 where
  here : {xs : List A} → Among a (a ∷ xs)
  there : {b : A} {xs : List A} → Among a xs → Among a (b ∷ xs)

module _ {R M : Type 0} {d : Decimals} (env : Environment R M d) {K : Type 0} (dec : Discrete K)
    (provider_of : K → Option InferenceProvider) {A : Type 0} (model_of : A → M)
    (key_of : InferenceProvider → A → Result RuntimeError K)
    (key_of_lem : (p : InferenceProvider) (a : A) (k : K)
      → key_of p a ≡ ok k
      → provider_of k ≡ env.inference_provider (model_of a)) where
  abbrev pub Same : K → Monitor K → Monitor K → Type 0
  Same k m m' =
      (contains dec k m'.unhealthy_keys ≡ contains dec k m.unhealthy_keys)
      × (present dec k m'.changes ≡ present dec k m.changes)

  abbrev pub Down : K → Monitor K → Type 0
  Down k m' = (contains dec k m'.unhealthy_keys ≡ true) × (present dec k m'.changes ≡ false)

  -- All of the list are models of the provider.
  abbrev pub OfProvider : InferenceProvider → List A → Type 0
  OfProvider p = All (λ a. env.inference_provider (model_of a) ≡ some p)

  pub siblings-OfProvider :
      (p : InferenceProvider) (xs : List A) → OfProvider p (siblings env model_of p xs)
  unfolding siblings
  siblings-OfProvider p [] = tt
  siblings-OfProvider p (x ∷ xs) = ground (arith, siblings-OfProvider p xs)

  pub siblings_down_effect :
      (p : InferenceProvider) (xs : List A) (m m' : Monitor K)
      → OfProvider p xs
      → m.receiving ≡ true
      → siblings_down env dec model_of key_of p xs m ≡ (ok tt, m')
      → (m'.receiving ≡ true) × ((k : K) → Same k m m' ⊎ (Down k m' × (provider_of k ≡ some p)))
  unfolding siblings_down add_unhealthy send present
  siblings_down_effect p [] m m' o r e =
      let q : m ≡ m' = ap (λ o. o.1) e in (ground arith, λ k. inl (ground arith))
  siblings_down_effect p (a ∷ rest) m m' o r e =
      let (key, ek, e₁) = with_value-eq-ok (key_of p a) m _ e in
      let (m₁, e₂, e₃) =
        and_then-eq-ok (siblings_down env dec model_of key_of p rest (add_unhealthy dec key m)) _
          e₁ in
      let (r₁, eff) = siblings_down_effect p rest (add_unhealthy dec key m) m₁ o.1 r e₂ in
      (
        ground (arith, ap (λ o. o.1) e₃),
        λ k. ground (
          arith,
          eff k,
          contains-insert dec key k m.unhealthy_keys,
          key_of_lem p a key ek,
          o.0,
          ap (λ o. o.1) e₃,
        ),
      )

  -- The services of the siblings are inserted; the set of unhealthy keys is left alone.
  abbrev pub Up : InferenceProvider → K → Monitor K → Monitor K → Type 0
  Up p k m m' =
      (contains dec k m'.unhealthy_keys ≡ contains dec k m.unhealthy_keys)
      × ((present dec k m'.changes ≡ present dec k m.changes)
          ⊎ ((present dec k m'.changes ≡ true) × (provider_of k ≡ some p)))

  pub insert_service_effect :
      (key k : K) (p : InferenceProvider) (m m' : Monitor K)
      → m.receiving ≡ true
      → insert_service env key p m ≡ (ok tt, m')
      → (m'.receiving ≡ true)
        × (contains dec k m'.unhealthy_keys ≡ contains dec k m.unhealthy_keys)
        × (present dec k m'.changes ≡ ite (dec key k) true (present dec k m.changes))
  unfolding insert_service send present
  insert_service_effect key k p m m' r e = ground arith

  pub siblings_up_effect :
      (p : InferenceProvider) (xs : List A) (m m' : Monitor K)
      → OfProvider p xs
      → m.receiving ≡ true
      → siblings_up env dec model_of key_of p xs m ≡ (ok tt, m')
      → (m'.receiving ≡ true) × ((k : K) → Up p k m m')
  unfolding siblings_up
  siblings_up_effect p [] m m' o r e =
      let q : m ≡ m' = ap (λ o. o.1) e in (ground arith, λ k. (ground arith, inl (ground arith)))
  siblings_up_effect p (a ∷ rest) m m' o r e =
      let (key, ek, e₁) = with_value-eq-ok (key_of p a) m _ e in
      let (m₁, e₂, e₃) =
        and_then-eq-ok (insert_service env key p m) (siblings_up env dec model_of key_of p rest)
          e₁ in
      let (r', eff) =
        siblings_up_effect p rest m₁ m' o.1 (insert_service_effect key key p m m₁ r e₂).0 e₃ in
      (
        r',
        λ k.
            ground
              (arith, eff k, insert_service_effect key k p m m₁ r e₂, key_of_lem p a key ek, o.0),
      )

  pub siblings_up-present :
      (p : InferenceProvider) (xs : List A) (a : A) (key : K) (m m' : Monitor K)
      → OfProvider p xs
      → m.receiving ≡ true
      → Among a xs
      → key_of p a ≡ ok key
      → siblings_up env dec model_of key_of p xs m ≡ (ok tt, m')
      → present dec key m'.changes ≡ true
  unfolding siblings_up
  siblings_up-present p [] a key m m' o r among ek e = elim among [ ]
  siblings_up-present p (a ∷ rest) _ key m m' o r here ek e =
      let (key_b, eb, e₁) = with_value-eq-ok (key_of p a) m _ e in
      let (m₁, e₂, e₃) =
        and_then-eq-ok (insert_service env key_b p m) (siblings_up env dec model_of key_of p rest)
          e₁ in
      let eff = insert_service_effect key_b key p m m₁ r e₂ in
      let (r', later) = siblings_up_effect p rest m₁ m' o.1 eff.0 e₃ in
      ground (arith, later key, eff, eb, ek)
  siblings_up-present p (b ∷ rest) a key m m' o r (there q) ek e =
      let (key_b, eb, e₁) = with_value-eq-ok (key_of p b) m _ e in
      let (m₁, e₂, e₃) =
        and_then-eq-ok (insert_service env key_b p m) (siblings_up env dec model_of key_of p rest)
          e₁ in
      siblings_up-present p rest a key m₁ m' o.1 (insert_service_effect key_b key p m m₁ r e₂).0 q
        ek e₃

  pub siblings_down_marked :
      (p : InferenceProvider) (xs : List A) (a : A) (key : K) (m m' : Monitor K)
      → OfProvider p xs
      → m.receiving ≡ true
      → Among a xs
      → key_of p a ≡ ok key
      → siblings_down env dec model_of key_of p xs m ≡ (ok tt, m')
      → Down key m'
  unfolding siblings_down add_unhealthy send present
  siblings_down_marked p [] a key m m' o r among ek e = elim among [ ]
  siblings_down_marked p (a ∷ rest) _ key m m' o r here ek e =
      let (key_b, eb, e₁) = with_value-eq-ok (key_of p a) m _ e in
      let (m₁, e₂, e₃) =
        and_then-eq-ok (siblings_down env dec model_of key_of p rest (add_unhealthy dec key_b m)) _
          e₁ in
      let (r₁, eff) = siblings_down_effect p rest (add_unhealthy dec key_b m) m₁ o.1 r e₂ in
      ground
        (arith, eff key, eb, ek, contains-insert dec key_b key m.unhealthy_keys, ap (λ o. o.1) e₃)
  siblings_down_marked p (b ∷ rest) a key m m' o r (there q) ek e =
      let (key_b, eb, e₁) = with_value-eq-ok (key_of p b) m _ e in
      let (m₁, e₂, e₃) =
        and_then-eq-ok (siblings_down env dec model_of key_of p rest (add_unhealthy dec key_b m)) _
          e₁ in
      let (r₁, eff) = siblings_down_effect p rest (add_unhealthy dec key_b m) m₁ o.1 r e₂ in
      let ih = siblings_down_marked p rest a key (add_unhealthy dec key_b m) m₁ o.1 r q ek e₂ in
      ground (arith, ih, r₁, ap (λ o. o.1) e₃)
