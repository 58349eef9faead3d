-- ===== src/Health/ModelPass.antt =====
-- A whole pass over the targets of one endpoint type of a model monitor.
use mathlib.Core.Path.{◌≡◌, ap, subst, ◌∙◌}
use aiephant_ai_gateway.Common.{
  ℕ, Bool, true, false, List, [], ◌∷◌, Result, ok, arith, ◌⊎◌, inl, inr, Option, some, Bool-cases,
  ok_or, All,
}
use aiephant_ai_gateway.Common.Sets.{contains}
use aiephant_ai_gateway.Provider.{InferenceProvider}
use aiephant_ai_gateway.Fallback.{Decimals}
use aiephant_ai_gateway.Balance.{present}
use aiephant_ai_gateway.Health.{
  RuntimeError, model_id_not_recognized, Environment, Monitor, checks_made, and_then-eq-ok,
  with_value-eq-ok,
}
use aiephant_ai_gateway.Health.Check.{check_health, record_health}
use aiephant_ai_gateway.Health.Monitors.{model_change, model_target, model_targets}
use aiephant_ai_gateway.Health.ProviderLaws.{Settled}
use aiephant_ai_gateway.Health.ModelLaws.{Among, here, there}
use aiephant_ai_gateway.Health.ModelTarget.{Touch, model_down_effect, model_up_effect}

pub Among-All {κ} :
    {A : Type 0} (P : A → Type κ) (xs : List A) → ((a : A) → Among a xs → P a) → All P xs
Among-All P [] f = tt
Among-All P (x ∷ xs) f = (f x here, Among-All P xs (λ a q. f a (there q)))

module _ {R M : Type 0} {d : Decimals} (env : Environment R M d) {K : Type 0} (dec : Discrete K)
    (provider_of : K → Option InferenceProvider) where
  -- The result of every check of the key's provider.
  abbrev pub HealthIs : K → Bool → Type 0
  HealthIs k h =
      (p : InferenceProvider) × (provider_of k ≡ some p)
      × ((now : ℕ) → check_health env now p ≡ ok h)

  -- What holds of a key in the middle of a pass.
  abbrev pub Sound : K → Bool → Monitor K → Type 0
  Sound k h m =
      ((contains dec k m.unhealthy_keys ≡ true) ⊎ (present dec k m.changes ≡ true))
      × ((h ≡ true) ⊎ (contains dec k m.unhealthy_keys ≡ false) ⊎ (present dec k m.changes ≡ false))

  pub record Kept (m m' : Monitor K) : Type 0 where
    pub open_ : m'.receiving ≡ true
    pub sound : (k : K) (h : Bool) → HealthIs k h → Sound k h m → Sound k h m'
    pub settled : (k : K) (h : Bool) → HealthIs k h → Settled dec k h m → Settled dec k h m'

  one_health :
      (now : ℕ) (p : InferenceProvider) (h : Bool) (k : K) (h' : Bool)
      → check_health env now p ≡ ok h
      → HealthIs k h'
      → provider_of k ≡ some p
      → h ≡ h'
  one_health now p h k h' c (q, ek, c') e =
      let same : p ≡ q = cc in ground (arith, c' now, ap (check_health env now) same)

module _ {R M : Type 0} {d : Decimals} (env : Environment R M d) {K : Type 0} (dec : Discrete K)
    (provider_of : K → Option InferenceProvider) {A : Type 0} (model_of : A → M)
    (key_of : InferenceProvider → A → Result RuntimeError K)
    (key_of_lem : (p : InferenceProvider) (a : A) (k : K)
      → key_of p a ≡ ok k
      → provider_of k ≡ env.inference_provider (model_of a)) where
  model_change_effect :
      (p : InferenceProvider) (all : List A) (a : A) (key : K)
      → env.inference_provider (model_of a) ≡ some p
      → Among a all
      → key_of p a ≡ ok key
      → (h : Bool) (m m' : Monitor K) → m.receiving ≡ true
      → model_change env dec model_of key_of key p all h (contains dec key m.unhealthy_keys) m
        ≡ (ok tt, m')
      → (m'.receiving ≡ true)
        × (Sound env dec provider_of key h m → Settled dec key h m')
        × ((k : K) → Touch env dec provider_of model_of key_of key_of_lem p h k m m')
  unfolding model_change
  model_change_effect p all a key served among keyed true m m' r e =
      elim (Bool-cases (contains dec key m.unhealthy_keys)) [
        | inl was ↦
            let (open_, settled, touched) =
              model_up_effect env dec provider_of model_of key_of key_of_lem p all a key served
                among keyed m m' r (rw was at e) in
            (open_, λ s. settled, touched)
        | inr fresh ↦
            let q : m ≡ m' = ap (λ o. o.1) (rw fresh at e) in
            (ground arith, λ s. ground arith, λ k. inl (ground arith))
      ]
  model_change_effect p all a key served among keyed false m m' r e =
      elim (Bool-cases (contains dec key m.unhealthy_keys)) [
        | inl was ↦
            let q : m ≡ m' = ap (λ o. o.1) (rw was at e) in
            (ground arith, λ s. ground arith, λ k. inl (ground arith))
        | inr fresh ↦
            let (open_, settled, touched) =
              model_down_effect env dec provider_of model_of key_of key_of_lem p all a key served
                among keyed m m' r (rw fresh at e) in
            (open_, λ s. settled, touched)
      ]

  -- A change for a provider keeps every key sound, and settled if it was.
  Touch-keeps :
      (now : ℕ) (p : InferenceProvider) (h : Bool) (k : K) (h' : Bool) (m m' : Monitor K)
      → check_health env now p ≡ ok h
      → HealthIs env dec provider_of k h'
      → Touch env dec provider_of model_of key_of key_of_lem p h k m m'
      → (Sound env dec provider_of k h' m → Sound env dec provider_of k h' m')
        × (Settled dec k h' m → Settled dec k h' m')
  Touch-keeps now p h k h' m m' c hk (inl same) = (λ s. ground arith, λ s. ground arith)
  Touch-keeps now p h k h' m m' c hk (inr (inl (e, st))) =
      let q = one_health env dec provider_of now p h k h' c hk e in
      (λ s. ground arith, λ s. ground arith)
  Touch-keeps now p h k h' m m' c hk (inr (inr (e, h_true, kept, shown))) =
      let q = one_health env dec provider_of now p h k h' c hk e in
      (λ s. ground arith, λ s. ground arith)

  -- The provider of the target was checked, and if every check of it has that result, the target's key
  -- is settled by it.
  abbrev pub TargetSettled : Monitor K → A → Type 0
  TargetSettled m' a =
      (p : InferenceProvider) × (env.inference_provider (model_of a) ≡ some p)
      × (key : K) × (key_of p a ≡ ok key)
      × (now : ℕ) × (h : Bool) × (check_health env now p ≡ ok h)
      × (((time : ℕ) → check_health env time p ≡ ok h) → Settled dec key h m')

  model_target_effect :
      (all : List A) (a : A) (m m' : Monitor K)
      → Among a all
      → m.receiving ≡ true
      → ((k : K) (h : Bool) → HealthIs env dec provider_of k h → Sound env dec provider_of k h m)
      → model_target env dec model_of key_of all a m ≡ (ok tt, m')
      → Kept env dec provider_of m m' × TargetSettled m' a
  unfolding model_target record_health
  model_target_effect all a m m' among r s e =
      let (p, ep, e₁) =
        with_value-eq-ok (ok_or (env.inference_provider (model_of a)) model_id_not_recognized) m _
          e in
      let served : env.inference_provider (model_of a) ≡ some p = ground arith in
      let (key, ek, e₂) = with_value-eq-ok (key_of p a) m _ e₁ in
      let (h, c, e₃) = with_value-eq-ok (check_health env (checks_made m) p) m _ e₂ in
      let was = contains dec key m.unhealthy_keys in
      let (m₁, e₄, e₅) =
        and_then-eq-ok (model_change env dec model_of key_of key p all h was m) _ e₃ in
      let (r', st, eff) = model_change_effect p all a key served among ek h m m₁ r e₄ in
      let st' : ((time : ℕ) → check_health env time p ≡ ok h) → Settled dec key h m' = λ all_.
        let settled = st (s key h (p, key_of_lem p a key ek ∙ served, all_)) in
        ground (arith, settled, ap (λ o. o.1) e₅) in
      (
        record {
          open_ = ground (arith, r', ap (λ o. o.1) e₅);
          sound = λ k h' hk' sk.
              let s₁ = (Touch-keeps (checks_made m) p h k h' m m₁ c hk' (eff k)).0 sk in
              ground (arith, s₁, ap (λ o. o.1) e₅);
          settled = λ k h' hk' sk.
              let s₁ = (Touch-keeps (checks_made m) p h k h' m m₁ c hk' (eff k)).1 sk in
              ground (arith, s₁, ap (λ o. o.1) e₅);
        },
        (p, served, key, ek, checks_made m, h, c, st'),
      )

  pub model_targets-Settled :
      (all some_of : List A) (m m' : Monitor K)
      → ((a : A) → Among a some_of → Among a all)
      → m.receiving ≡ true
      → ((k : K) (h : Bool) → HealthIs env dec provider_of k h → Sound env dec provider_of k h m)
      → model_targets env dec model_of key_of all some_of m ≡ (ok tt, m')
      → Kept env dec provider_of m m' × All (TargetSettled m') some_of
  unfolding model_targets
  model_targets-Settled all [] m m' sub r s e =
      let same : Kept env dec provider_of m m = record {
        open_ = r;
        sound = λ k h hk sk. sk;
        settled = λ k h hk st. st;
      } in
      (subst (Kept env dec provider_of m) (ap (λ o. o.1) e) same, tt)
  model_targets-Settled all (a ∷ rest) m m' sub r s e =
      let (m₁, e₁, e₂) =
        and_then-eq-ok (model_target env dec model_of key_of all a m)
          (model_targets env dec model_of key_of all rest) e in
      let (first, (p, served, key, ek, now, h, c, st)) =
        model_target_effect all a m m₁ (sub a here) r s e₁ in
      let (later, done) =
        model_targets-Settled all rest m₁ m' (λ b q. sub b (there q)) first.open_
          (λ k h' hk. first.sound k h' hk (s k h' hk)) e₂ in
      (
        record {
          open_ = later.open_;
          sound = λ k h' hk' sk. later.sound k h' hk' (first.sound k h' hk' sk);
          settled = λ k h' hk' sk. later.settled k h' hk' (first.settled k h' hk' sk);
        },
        (
          (
            p,
            served,
            key,
            ek,
            now,
            h,
            c,
            λ all_. later.settled key h (p, key_of_lem p a key ek ∙ served, all_) (st all_),
          ),
          done,
        ),
      )
