-- ===== src/Health/ProviderLaws.antt =====
-- The provider monitors: after a pass the balancer holds exactly the healthy providers.
use mathlib.Core.Path.{◌≡◌, ap, subst}
use aiephant_ai_gateway.Common.{ℕ, Bool, true, not, List, [], ◌∷◌, Result, ok, ite, arith, All}
use aiephant_ai_gateway.Common.Sets.{contains, contains-insert, contains-remove}
use aiephant_ai_gateway.Provider.{InferenceProvider}
use aiephant_ai_gateway.Fallback.{Decimals}
use aiephant_ai_gateway.Balance.{present}
use aiephant_ai_gateway.Health.{
  RuntimeError, Environment, Monitor, checks_made, and_then-eq-ok, with_value-eq-ok,
}
use aiephant_ai_gateway.Health.Check.{check_health, record_health}
use aiephant_ai_gateway.Health.Monitors.{provider_change, provider_target, provider_targets}

module _ {K : Type 0} (dec : Discrete K) where
  -- The events sent for the key agree with the monitor's own set.
  abbrev pub Synced : K → Monitor K → Type 0
  Synced k m = present dec k m.changes ≡ not (contains dec k m.unhealthy_keys)

  -- The key is in the balancer if it is healthy, and marked if it is not.
  abbrev pub Settled : K → Bool → Monitor K → Type 0
  Settled k h m = (contains dec k m.unhealthy_keys ≡ not h) × (present dec k m.changes ≡ h)

module _ {R M : Type 0} {d : Decimals} (env : Environment R M d) {K : Type 0}
    (dec : Discrete K) where
  abbrev Effect : K → K → Bool → Monitor K → Monitor K → Type 0
  Effect key k h m m' =
      (m'.receiving ≡ true)
      × (contains dec k m'.unhealthy_keys
          ≡ ite (dec key k) (not h) (contains dec k m.unhealthy_keys))
      × (present dec k m'.changes ≡ ite (dec key k) h (present dec k m.changes))

  provider_change-Effect :
      (key k : K) (p : InferenceProvider) (h : Bool) (m m' : Monitor K)
      → m.receiving ≡ true
      → Synced dec key m
      → provider_change env dec key p h (contains dec key m.unhealthy_keys) m ≡ (ok tt, m')
      → Effect key k h m m'
  unfolding provider_change present
  provider_change-Effect key k p h m m' r s e = ground (
    arith,
    contains-insert dec key k m.unhealthy_keys,
    contains-remove dec key k m.unhealthy_keys,
  )

  -- A target that is checked without an error settles its key, and leaves the others alone.
  provider_target-Effect :
      (key : K) (p : InferenceProvider) (m m' : Monitor K)
      → m.receiving ≡ true
      → Synced dec key m
      → provider_target env dec key p m ≡ (ok tt, m')
      → (h : Bool) × (check_health env (checks_made m) p ≡ ok h) × ((k : K) → Effect key k h m m')
  unfolding provider_target record_health
  provider_target-Effect key p m m' r s e =
      let (h, c, e₁) = with_value-eq-ok (check_health env (checks_made m) p) m _ e in
      let (m₁, e₂, e₃) =
        and_then-eq-ok (provider_change env dec key p h (contains dec key m.unhealthy_keys) m) _
          e₁ in
      (h, c, λ k. ground (arith, provider_change-Effect key k p h m m₁ r s e₂, ap (λ o. o.1) e₃))

  module _ (provider_of : K → InferenceProvider) where
    -- The channel stays open, every key stays in step, and a settled key stays settled.
    pub record Kept (m m' : Monitor K) : Type 0 where
      pub open_ : m'.receiving ≡ true
      pub synced : (k : K) → Synced dec k m'
      pub settled :
          (k : K) (h : Bool)
          → ((now : ℕ) → check_health env now (provider_of k) ≡ ok h)
          → Settled dec k h m
          → Settled dec k h m'

    pub Kept-refl :
        {m m' : Monitor K} → m.receiving ≡ true → ((k : K) → Synced dec k m) → m ≡ m' → Kept m m'
    Kept-refl {m} r s e =
        subst (Kept m) e (record { open_ = r; synced = s; settled = λ k h c st. st })

    pub Kept-trans : {m₁ m₂ m₃ : Monitor K} → Kept m₁ m₂ → Kept m₂ m₃ → Kept m₁ m₃
    Kept-trans a b = record {
      open_ = b.open_;
      synced = b.synced;
      settled = λ k h c st. b.settled k h c (a.settled k h c st);
    }

    Effect-Settled :
        (now : ℕ) (key k : K) (h h₂ : Bool) (m m' : Monitor K)
        → check_health env now (provider_of key) ≡ ok h
        → ((time : ℕ) → check_health env time (provider_of k) ≡ ok h₂)
        → Effect key k h m m'
        → Settled dec k h₂ m
        → Settled dec k h₂ m'
    Effect-Settled now key k h h₂ m m' c c₂ eff st = elim (dec key k) [
      | yes same ↦ ground (arith, c₂ now, ap (λ x. check_health env now (provider_of x)) same)
      | no differs ↦ ground arith
    ]

    -- The provider of the target was checked, and if every check of it has that result, the target's
    -- key is settled by it.
    abbrev pub TargetSettled :
        {A : Type 0} → (A → Result RuntimeError (K × InferenceProvider)) → Monitor K → A → Type 0
    TargetSettled {A} key_of m' t =
        (kp : K × InferenceProvider) × (key_of t ≡ ok kp)
        × (kp.1 ≡ provider_of kp.0)
        × (now : ℕ) × (h : Bool) × (check_health env now kp.1 ≡ ok h)
        × (((time : ℕ) → check_health env time kp.1 ≡ ok h) → Settled dec kp.0 h m')

    pub Settled-Kept :
        {A : Type 0} (key_of : A → Result RuntimeError (K × InferenceProvider)) (ts : List A)
        (m m' : Monitor K)
        → Kept m m'
        → All (TargetSettled key_of m) ts
        → All (TargetSettled key_of m') ts
    Settled-Kept key_of [] m m' kept done = tt
    Settled-Kept key_of (t ∷ ts) m m' kept ((kp, ek, ep, now, h, c, st), done) = (
      (
        kp,
        ek,
        ep,
        now,
        h,
        c,
        λ all_. kept.settled kp.0 h (λ time. rw (← ep) (all_ time)) (st all_),
      ),
      Settled-Kept key_of ts m m' kept done,
    )

    module _ {A : Type 0} (key_of : A → Result RuntimeError (K × InferenceProvider))
        (key_of_lem : (a : A) (kp : K × InferenceProvider)
          → key_of a ≡ ok kp
          → kp.1 ≡ provider_of kp.0) where
      pub provider_targets-Kept :
          (ts : List A) (m m' : Monitor K)
          → m.receiving ≡ true
          → ((k : K) → Synced dec k m)
          → provider_targets env dec key_of ts m ≡ (ok tt, m')
          → Kept m m' × All (TargetSettled key_of m') ts
      unfolding provider_targets
      provider_targets-Kept [] m m' r s e = (Kept-refl r s (ap (λ o. o.1) e), tt)
      provider_targets-Kept (t ∷ ts) m m' r s e =
          let (kp, ek, e₁) = with_value-eq-ok (key_of t) m _ e in
          let (m₁, e₂, e₃) =
            and_then-eq-ok (provider_target env dec kp.0 kp.1 m)
              (provider_targets env dec key_of ts) e₁ in
          let (h, c, eff) = provider_target-Effect kp.0 kp.1 m m₁ r (s kp.0) e₂ in
          let c' : check_health env (checks_made m) (provider_of kp.0) ≡ ok h =
            rw (← key_of_lem t kp ek) c in
          let first : Kept m m₁ = record {
            open_ = (eff kp.0).0;
            synced = λ k. ground (arith, eff k, s k, s kp.0);
            settled =
                λ k h₂ c₂ st. Effect-Settled (checks_made m) kp.0 k h h₂ m m₁ c' c₂ (eff k) st;
          } in
          let (later, done) = provider_targets-Kept ts m₁ m' first.open_ first.synced e₃ in
          let st : Settled dec kp.0 h m₁ = ground (arith, eff kp.0) in
          (
            Kept-trans first later,
            (
              (
                kp,
                ek,
                key_of_lem t kp ek,
                checks_made m,
                h,
                c,
                λ all_. later.settled kp.0 h (λ time. rw (← key_of_lem t kp ek) (all_ time)) st,
              ),
              done,
            ),
          )
