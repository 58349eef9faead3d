-- ===== src/RateLimit/Recovery.antt =====
-- How limited keys are restored, and what the policy switches off.
use aiephant_ai_gateway.Common.{
  ℕ, max, ◌≡◌, refl, ◌≢◌, ◌⊎◌, inl, inr, true, false, some, List, [], ◌∷◌, Result, ok, err, arith,
  Bool-cases,
}
use aiephant_ai_gateway.Common.Sets.{contains, insert, remove, contains-remove}
use aiephant_ai_gateway.Provider.{provider, InferenceProvider}
use aiephant_ai_gateway.Fallback.{Decimals, should_remove, rate_limit, log_decision}
use aiephant_ai_gateway.Fallback
use aiephant_ai_gateway.Balance.{inserted, removed}
use aiephant_ai_gateway.Health.{RuntimeError, Environment}
use aiephant_ai_gateway.RateLimit.{
  RateLimitEvent, ProviderRestore, Limits, next, on_event, on_restore,
  is_rate_limit_failover_enabled, with_key, limit, schedule, send,
}
use aiephant_ai_gateway.RateLimit.Machine.{
  Picks, first, later, Step, passes, hangs_up, receives, restores, Reach, starts, goes,
  pending_count,
}
use aiephant_ai_gateway.RateLimit.Invariant.{Reach-Holds}

module _ {R M : Type 0} {d : Decimals} (env : Environment R M d) {K : Type 0}
    (dec : Discrete K) where
  -- A counted restoration can be picked.
  pending_count-picks :
      (k : K) (rs : List (ProviderRestore K))
      → 0 ≢ pending_count dec k rs
      → (r : ProviderRestore K) × (rest : List (ProviderRestore K)) × (r.key ≡ k) × Picks r rs rest
  unfolding pending_count
  pending_count-picks k [] h = absurd (h refl)
  pending_count-picks k (r ∷ rs) h = elim (dec r.key k) [
    | yes same ↦ (r, rs, same, first)
    | no differs ↦
        let (r', rest, e, p) = pending_count-picks k rs (λ e. h (ground (arith, e))) in
        (r', r ∷ rest, e, later p)
  ]

  Picks-nonempty : {A : Type 0} {r : A} {xs ys : List A} → Picks r xs ys → xs ≢ []
  Picks-nonempty first e = cc e
  Picks-nonempty (later p) e = cc e

  on_restore-succeeds :
      (r : ProviderRestore K) (s : Limits K)
      → env.new_dispatcher (provider r.api_endpoint) ≡ true
      → s.receiving ≡ true
      → (s' : Limits K) × (on_restore env dec r s ≡ next s')
        × (s'.changes ≡ inserted r.key (provider r.api_endpoint) ∷ s.changes)
        × (contains dec r.key s'.rate_limited_providers ≡ false)
  unfolding on_restore
  on_restore-succeeds r s builds open_ =
      let s' : Limits K = record s {
        decisions =
            log_decision env.config.fallback_policy Fallback.restored (some rate_limit)
              (provider r.api_endpoint) s.decisions;
        changes = inserted r.key (provider r.api_endpoint) ∷ s.changes;
        rate_limited_providers = remove dec r.key s.rate_limited_providers;
      } in
      (
        s',
        rw (builds, open_) refl,
        refl,
        ground (arith, contains-remove dec r.key r.key s.rate_limited_providers),
      )

  -- A key that was not limited is removed, if the receiver lives.
  pub limit-removes :
      (now : ℕ) (key : K) (e : RateLimitEvent M) (s s' : Limits K)
      → limit env dec now key e s ≡ next s'
      → ((contains dec key s.rate_limited_providers ≡ true) × (s' ≡ s))
        ⊎ ((contains dec key s.rate_limited_providers ≡ false)
            × ((s'.receiving ≡ false) ⊎ (s'.changes ≡ removed key ∷ s.changes)))
  unfolding limit schedule send
  limit-removes now key e s s' q = ground arith

  pub limit-marks :
      (now : ℕ) (key : K) (e : RateLimitEvent M) (s s' : Limits K)
      → limit env dec now key e s ≡ next s'
      → contains dec key s'.rate_limited_providers ≡ true
  unfolding limit schedule contains insert
  limit-marks now key e s s' q = ground arith

  limit-marked :
      (now : ℕ) (key : K) (e : RateLimitEvent M) (s : Limits K)
      → contains dec key s.rate_limited_providers ≡ true
      → limit env dec now key e s ≡ next s
  unfolding limit
  limit-marked now key e s was = rw was refl

  with_key-again :
      (now now₂ : ℕ) (e e₂ : RateLimitEvent M) (s s' : Limits K) (key : Result RuntimeError K)
      → with_key env dec now e s key ≡ next s'
      → with_key env dec now₂ e₂ s' key ≡ next s'
  unfolding with_key
  with_key-again now now₂ e e₂ s s' (ok key) q =
      limit-marked now₂ key e₂ s' (limit-marks now key e s s' q)
  with_key-again now now₂ e e₂ s s' (err x) q = ground arith

  module _ (key_of : RateLimitEvent M → Result RuntimeError K) where
    -- In a reachable state a limited key is restored: if dispatchers can be built and the receiver of
    -- changes lives, time can pass and one restoration can run, by which the monitor sends an insertion
    -- for the key, after all that it sent before, and the key is not limited any more.
    pub limited-returns :
        ((p : InferenceProvider) → env.new_dispatcher p ≡ true)
        → (now : ℕ) (s : Limits K) → Reach env dec key_of (now, s)
        → s.receiving ≡ true
        → (k : K) → contains dec k s.rate_limited_providers ≡ true
        → (later_ : ℕ) × (s' : Limits K) × (p : InferenceProvider) × Step env dec key_of
            (now, s)
            (later_, s)
          × Step env dec key_of (later_, s) (later_, s')
          × (s'.changes ≡ inserted k p ∷ s.changes)
          × (contains dec k s'.rate_limited_providers ≡ false)
    limited-returns builds now s reach open_ k is_limited =
        let holds = Reach-Holds env dec key_of now s reach k in
        let (r, rest, same, p) = pending_count-picks k s.pending_restores (ground arith) in
        let (s', e, back, freed) =
          on_restore-succeeds r (record s { pending_restores = rest })
            (builds (provider r.api_endpoint)) open_ in
        (
          max now r.deadline,
          s',
          provider r.api_endpoint,
          passes (omega arith),
          restores {r = r} {rest = rest} p (omega arith) e,
          rw (← same) back,
          rw (← same) freed,
        )

    abbrev Untouched : Limits K → Type 0
    Untouched s = (s.changes ≡ []) × (s.rate_limited_providers ≡ []) × (s.pending_restores ≡ [])

    Step-disabled :
        should_remove env.config.fallback_policy rate_limit ≡ false
        → (a b : ℕ × Limits K) → Step env dec key_of a b
        → Untouched a.1
        → Untouched b.1
    unfolding on_event is_rate_limit_failover_enabled
    Step-disabled off a b (passes _) u = u
    Step-disabled off a b hangs_up u = u
    Step-disabled off a b (receives e q) u = let same = rw off at q in ground (arith, u)
    Step-disabled off a b (restores {s = s} {s'} {r} {rest} p due q) u =
        absurd (Picks-nonempty p u.2)

    -- While the policy has rate-limit failover off, a monitor ignores every event: no state that it
    -- reaches has sent a change or limits a key.
    pub Reach-disabled :
        should_remove env.config.fallback_policy rate_limit ≡ false
        → (now : ℕ) (s : Limits K) → Reach env dec key_of (now, s)
        → (s.changes ≡ []) × (s.rate_limited_providers ≡ []) × (s.pending_restores ≡ [])
    unfolding on_event is_rate_limit_failover_enabled
    Reach-disabled off now s starts = (refl, refl, refl)
    Reach-disabled off now s (goes {a} reach step) =
        Step-disabled off a (now, s) step (Reach-disabled off a.0 a.1 reach)

    -- A second event for a key that a first one has limited changes nothing, whatever its endpoint,
    -- its `Retry-After` and its time.
    pub on_event-again :
        (now now₂ : ℕ) (e e₂ : RateLimitEvent M) (s s' : Limits K)
        → key_of e ≡ key_of e₂
        → on_event env dec key_of now e s ≡ next s'
        → on_event env dec key_of now₂ e₂ s' ≡ next s'
    unfolding on_event is_rate_limit_failover_enabled with_key limit schedule
    on_event-again now now₂ e e₂ s s' same q =
        elim (Bool-cases (is_rate_limit_failover_enabled env)) [
          | inl on ↦ rw (on, ← same) (with_key-again now now₂ e e₂ s s' (key_of e) (rw on at q))
          | inr off ↦ rw off refl
        ]
