-- ===== src/RateLimit/Invariant.antt =====
-- What holds in every state of a rate-limit monitor.
use aiephant_ai_gateway.Common.{
  ℕ, ◌+◌, ◌≡◌, refl, ap, ◌⊎◌, inl, inr, false, not, Option, none, some, List, Result, ok, err,
  arith, ite, Bool-cases, if◌then◌else◌,
}
use aiephant_ai_gateway.Common.Sets.{contains, contains-insert, contains-remove}
use aiephant_ai_gateway.Fallback.{Decimals}
use aiephant_ai_gateway.Balance.{present}
use aiephant_ai_gateway.Health.{RuntimeError, Environment}
use aiephant_ai_gateway.RateLimit.{
  RateLimitEvent, ProviderRestore, Limits, next, on_event, on_restore, limit, schedule, send,
  with_key, is_rate_limit_failover_enabled,
}
use aiephant_ai_gateway.RateLimit.Machine.{
  Picks, first, later, Step, passes, hangs_up, receives, restores, Reach, starts, goes,
  pending_count,
}

module _ {R M : Type 0} {d : Decimals} (env : Environment R M d) {K : Type 0}
    (dec : Discrete K) where
  -- The key has one pending restoration if it is limited and none otherwise, and while the receiver
  -- lives the last change that this monitor sent for it is a removal exactly if it is limited.
  abbrev pub Holds : K → Limits K → Type 0
  Holds k s =
      (pending_count dec k s.pending_restores
        ≡ (if contains dec k s.rate_limited_providers then 1 else 0))
      × ((s.receiving ≡ false)
          ⊎ (present dec k s.changes ≡ not (contains dec k s.rate_limited_providers)))

  pending_count-Picks :
      {r : ProviderRestore K} {xs ys : List (ProviderRestore K)} (k : K)
      → Picks r xs ys
      → pending_count dec k xs ≡ ite (dec r.key k) 1 0 + pending_count dec k ys
  unfolding pending_count
  pending_count-Picks k first = refl
  pending_count-Picks k (later p) = ground (arith, pending_count-Picks k p)

  schedule-Holds :
      (now : ℕ) (key k : K) (e : RateLimitEvent M) (wait : Option ℕ) (s s' : Limits K)
      → contains dec key s.rate_limited_providers ≡ false
      → pending_count dec k s.pending_restores
        ≡ (if contains dec k s.rate_limited_providers then 1 else 0)
      → ((s.receiving ≡ false)
          ⊎ (present dec k s.changes
              ≡ ite (dec key k) false (not (contains dec k s.rate_limited_providers))))
      → schedule env dec now key e wait s ≡ next s'
      → Holds k s'
  unfolding schedule pending_count
  schedule-Holds now key k e none s s' fresh c h q = ground arith
  schedule-Holds now key k e (some w) s s' fresh c h q =
      ground (arith, contains-insert dec key k s.rate_limited_providers, ap (contains dec k))

  limit-Holds :
      (now : ℕ) (key k : K) (e : RateLimitEvent M) (s s' : Limits K)
      → Holds k s
      → limit env dec now key e s ≡ next s'
      → Holds k s'
  unfolding limit send present
  limit-Holds now key k e s s' h q = elim (Bool-cases (contains dec key s.rate_limited_providers)) [
    | inl was ↦ ground arith
    | inr fresh ↦ elim (Bool-cases s.receiving) [
      | inl open_ ↦
          schedule-Holds now key k e _ _ s' fresh h.0 (ground arith) (rw (fresh, open_) at q)
      | inr shut ↦ schedule-Holds now key k e _ _ s' fresh h.0 (inl refl) (rw (fresh, shut) at q)
    ]
  ]

  with_key-Holds :
      (now : ℕ) (k : K) (e : RateLimitEvent M) (s s' : Limits K) (key : Result RuntimeError K)
      → Holds k s
      → with_key env dec now e s key ≡ next s'
      → Holds k s'
  unfolding with_key
  with_key-Holds now k e s s' (ok key) h q = limit-Holds now key k e s s' h q
  with_key-Holds now k e s s' (err x) h q = ground arith

  on_restore-Holds :
      (r : ProviderRestore K) (rest : List (ProviderRestore K)) (k : K) (s s' : Limits K)
      → Picks r s.pending_restores rest
      → Holds k s
      → on_restore env dec r (record s { pending_restores = rest }) ≡ next s'
      → Holds k s'
  unfolding on_restore present
  on_restore-Holds r rest k s s' p h q =
      ground (arith, pending_count-Picks k p, contains-remove dec r.key k s.rate_limited_providers)

  module _ (key_of : RateLimitEvent M → Result RuntimeError K) where
    Step-Holds :
        (a b : ℕ × Limits K)
        → Step env dec key_of a b
        → ((k : K) → Holds k a.1)
        → (k : K) → Holds k b.1
    unfolding on_event is_rate_limit_failover_enabled with_key
    Step-Holds a b (passes _) h k = h k
    Step-Holds a b hangs_up h k = ((h k).0, inl refl)
    Step-Holds a b (receives {now = now} {s} {s'} e q) h k =
        elim (Bool-cases (is_rate_limit_failover_enabled env)) [
          | inl on ↦ with_key-Holds now k e s s' (key_of e) (h k) (rw on at q)
          | inr off ↦ ground (arith, h k)
        ]
    Step-Holds a b (restores {s = s} {s'} {r} {rest} p due q) h k =
        on_restore-Holds r rest k s s' p (h k) q

    -- In every state of a rate-limit monitor a key is limited exactly if one restoration of it is
    -- pending, and no key has two; and as long as the receiver of changes lives, the last change that
    -- this monitor itself sent for a key is a removal if the key is limited, and an insertion, or none
    -- was sent, if it is not. What others send on the same channel is not counted.
    pub Reach-Holds : (now : ℕ) (s : Limits K) → Reach env dec key_of (now, s) → (k : K) → Holds k s
    unfolding present contains pending_count
    Reach-Holds now s starts k = (refl, inr refl)
    Reach-Holds now s (goes {a} reach step) k =
        Step-Holds a (now, s) step (Reach-Holds a.0 a.1 reach) k
