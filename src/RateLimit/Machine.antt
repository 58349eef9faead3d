-- ===== src/RateLimit/Machine.antt =====
-- The loop of `monitor` as a step relation: events, timers in any order, time, and a receiver that
-- goes away. The health monitor of the router sends on the same channel of changes; `changes` holds
-- what this monitor sends itself, and neither sender reads the channel.
use aiephant_ai_gateway.Common.{ℕ, ◌≤◌, ◌≡◌, true, false, List, [], ◌∷◌, Result, ite, ◌+◌}
use aiephant_ai_gateway.Fallback.{Decimals}
use aiephant_ai_gateway.Health.{RuntimeError, Environment}
use aiephant_ai_gateway.RateLimit.{
  RateLimitEvent, ProviderRestore, Limits, next, on_event, on_restore,
}

-- Taking one element out of a list.
pub data Picks {A : Type 0} (r : A) : List A → List A → Type 0 where
  first : {xs : List A} → Picks r (r ∷ xs) xs
  later : {x : A} {xs ys : List A} → Picks r xs ys → Picks r (x ∷ xs) (x ∷ ys)

-- The state in which `monitor` enters its loop.
abbrev pub start : {K : Type 0} → Limits K
start = record {
  receiving = true;
  changes = [];
  rate_limited_providers = [];
  pending_restores = [];
  decisions = [];
}

module _ {R M : Type 0} {d : Decimals} (env : Environment R M d) {K : Type 0} (dec : Discrete K)
    (key_of : RateLimitEvent M → Result RuntimeError K) where
  pub data Step : ℕ × Limits K → ℕ × Limits K → Type 0 where
    passes : {now later_ : ℕ} {s : Limits K} → now ≤ later_ → Step (now, s) (later_, s)
    hangs_up : {now : ℕ} {s : Limits K} → Step (now, s) (now, record s { receiving = false })
    receives :
        {now : ℕ} {s s' : Limits K} (e : RateLimitEvent M)
        → on_event env dec key_of now e s ≡ next s'
        → Step (now, s) (now, s')
    restores :
        {now : ℕ} {s s' : Limits K} {r : ProviderRestore K} {rest : List (ProviderRestore K)}
        → Picks r s.pending_restores rest
        → r.deadline ≤ now
        → on_restore env dec r (record s { pending_restores = rest }) ≡ next s'
        → Step (now, s) (now, s')

  -- The states of the loop.
  pub data Reach : ℕ × Limits K → Type 0 where
    starts : {now : ℕ} → Reach (now, start)
    goes : {a b : ℕ × Limits K} → Reach a → Step a b → Reach b

module _ {K : Type 0} (dec : Discrete K) where
  -- How many restorations of the key are pending.
  unfoldable pub pending_count : K → List (ProviderRestore K) → ℕ
  pending_count k [] = 0
  pending_count k (r ∷ rs) = ite (dec r.key k) 1 0 + pending_count k rs
