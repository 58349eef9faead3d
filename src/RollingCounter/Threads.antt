-- ===== src/RollingCounter/Threads.antt =====
-- metrics/rolling_counter.rs: increments of one bucket by threads at the same time, in the order in
-- which their atomic operations take effect.
use aiephant_ai_gateway.Common.{
  ℕ, suc, ◌+◌, ◌%◌, ◌^◌, ◌≤◌, ◌<◌, ◌≡◌, ◌≢◌, ◌⊎◌, Bool, true, false, not, ◌==◌, arith,
  if◌then◌else◌,
}
use aiephant_ai_gateway.RollingCounter.{Bucket, incr_bucket}

unfoldable pub compare_exchange : (last_lap lap : ℕ) → Bucket → Bool × Bucket
compare_exchange last_lap lap b =
    if b.lap == last_lap then (true, record b { lap = lap }) else (false, b)

unfoldable pub store_zero : Bucket → Bucket
store_zero b = record b { counter = 0 }

unfoldable pub fetch_add : Bucket → Bucket
fetch_add b = record b { counter = (b.counter + 1) % 2 ^ 32 }

unfoldable pub after_exchange : Bool × Bucket → Bucket
unfolding store_zero fetch_add
after_exchange (won, b) = if won then fetch_add (store_zero b) else fetch_add b

-- The operations of one increment with none of another between them.
unfoldable pub incr_alone : ℕ → Bucket → Bucket
unfolding after_exchange compare_exchange fetch_add
incr_alone lap b =
    if not (b.lap == lap) then after_exchange (compare_exchange b.lap lap b) else fetch_add b

incr_alone-incr_bucket :
    (lap : ℕ) (b : Bucket)
    → ((incr_alone lap b).counter ≡ (incr_bucket lap b).counter)
      × ((incr_alone lap b).lap ≡ (incr_bucket lap b).lap)
unfolding incr_alone incr_bucket after_exchange compare_exchange store_zero fetch_add
incr_alone-incr_bucket lap b = ground arith

-- The bucket, the threads that saw the lap before, that are about to reset the bucket, and that are
-- about to add; the increments that are done, and those of them that a reset has undone.
pub record Run : Type 0 where
  pub bucket : Bucket
  pub stale : ℕ
  pub resetting : ℕ
  pub adding : ℕ
  pub incremented : ℕ
  pub undone : ℕ

-- All threads increment in one lap, and the bucket is of that lap or of the last one.
module _ (last_lap lap : ℕ) where
  pub data Step : Run → Run → Type 0 where
    sees_lap :
        {b : Bucket} {s r a n u : ℕ}
        → b.lap == lap ≡ true
        → Step
            (record {
              bucket = b;
              stale = s;
              resetting = r;
              adding = a;
              incremented = n;
              undone = u;
            })
            (record {
              bucket = b;
              stale = s;
              resetting = r;
              adding = suc a;
              incremented = n;
              undone = u;
            })
    sees_last_lap :
        {b : Bucket} {s r a n u : ℕ}
        → b.lap == lap ≡ false
        → Step
            (record {
              bucket = b;
              stale = s;
              resetting = r;
              adding = a;
              incremented = n;
              undone = u;
            })
            (record {
              bucket = b;
              stale = suc s;
              resetting = r;
              adding = a;
              incremented = n;
              undone = u;
            })
    wins :
        {b b' : Bucket} {s r a n u : ℕ}
        → compare_exchange last_lap lap b ≡ (true, b')
        → Step
            (record {
              bucket = b;
              stale = suc s;
              resetting = r;
              adding = a;
              incremented = n;
              undone = u;
            })
            (record {
              bucket = b';
              stale = s;
              resetting = suc r;
              adding = a;
              incremented = n;
              undone = u;
            })
    loses :
        {b b' : Bucket} {s r a n u : ℕ}
        → compare_exchange last_lap lap b ≡ (false, b')
        → Step
            (record {
              bucket = b;
              stale = suc s;
              resetting = r;
              adding = a;
              incremented = n;
              undone = u;
            })
            (record {
              bucket = b';
              stale = s;
              resetting = r;
              adding = suc a;
              incremented = n;
              undone = u;
            })
    resets :
        {b : Bucket} {s r a n u : ℕ}
        → Step
            (record {
              bucket = b;
              stale = s;
              resetting = suc r;
              adding = a;
              incremented = n;
              undone = u;
            })
            (record {
              bucket = store_zero b;
              stale = s;
              resetting = r;
              adding = suc a;
              incremented = n;
              undone = n;
            })
    adds :
        {b : Bucket} {s r a n u : ℕ}
        → Step
            (record {
              bucket = b;
              stale = s;
              resetting = r;
              adding = suc a;
              incremented = n;
              undone = u;
            })
            (record {
              bucket = fetch_add b;
              stale = s;
              resetting = r;
              adding = a;
              incremented = suc n;
              undone = u;
            })

  pub data Reach : Run → Type 0 where
    starts :
        {b : Bucket}
        → b.lap ≡ last_lap
        → b.counter < 2 ^ 32
        → Reach (record {
          bucket = b;
          stale = 0;
          resetting = 0;
          adding = 0;
          incremented = 0;
          undone = 0;
        })
    goes : {a b : Run} → Reach a → Step a b → Reach b

  -- Before the lap of the bucket is exchanged, between that and the reset, and after it.
  abbrev Phase : Bucket → (resetting adding incremented undone : ℕ) → Type 0
  Phase b r a n u =
      ((b.lap ≡ last_lap) × (r ≡ 0) × (a ≡ 0) × (n ≡ 0) × (u ≡ 0))
      ⊎ (((b.lap ≡ lap) × (r ≡ 1) × (u ≡ 0))
          ⊎ ((b.lap ≡ lap) × (r ≡ 0) × (u ≤ n) × (n < 2 ^ 32 → b.counter + u ≡ n)))

  abbrev InPhase : Run → Type 0
  InPhase a = Phase a.bucket a.resetting a.adding a.incremented a.undone

  exchange-won :
      (b b' : Bucket)
      → compare_exchange last_lap lap b ≡ (true, b')
      → (b.lap ≡ last_lap) × (b'.lap ≡ lap)
  unfolding compare_exchange
  exchange-won b b' e = ground (arith, e)

  exchange-lost :
      (b b' : Bucket)
      → compare_exchange last_lap lap b ≡ (false, b')
      → (b.lap ≢ last_lap) × (b'.lap ≡ b.lap) × (b'.counter ≡ b.counter)
  unfolding compare_exchange
  exchange-lost b b' e = ground (arith, e)

  Step-InPhase : last_lap < lap → (a b : Run) → Step a b → InPhase a → InPhase b
  unfolding store_zero fetch_add
  Step-InPhase l a b (sees_lap e) p = ground (arith, e, p)
  Step-InPhase l a b (sees_last_lap e) p = p
  Step-InPhase l a b (wins {b = c} {b' = c'} e) p = ground (arith, exchange-won c c' e, p)
  Step-InPhase l a b (loses {b = c} {b' = c'} e) p = ground (arith, exchange-lost c c' e, p)
  Step-InPhase l a b resets p = ground (arith, p)
  Step-InPhase l a b adds p = ground (arith, p)

  Reach-InPhase : last_lap < lap → (a : Run) → Reach a → InPhase a
  Reach-InPhase l a (starts e c) = ground (arith, e)
  Reach-InPhase l b (goes {a = a} reach step) = Step-InPhase l a b step (Reach-InPhase l a reach)

  -- When threads increment a bucket in a later lap, in any order of their atomic operations, and the
  -- bucket is of that lap and no thread is about to reset it, its counter and the increments that
  -- the reset has undone are together the increments that are done, if these are fewer than 2^32.
  pub counter-undone :
      last_lap < lap
      → (a : Run) → Reach a
      → a.bucket.lap ≡ lap
      → a.resetting ≡ 0
      → a.incremented < 2 ^ 32
      → a.bucket.counter + a.undone ≡ a.incremented
  counter-undone l a reach e r n = ground (arith, Reach-InPhase l a reach, e, r, n)
