-- ===== src/RollingCounter.antt =====
-- metrics/rolling_counter.rs: counts of events in the current lap of a window of buckets.
pub mod Total
pub mod Threads
pub mod Tests
use aiephant_ai_gateway.Common.{
  ℕ, zero, suc, ◌+◌, ◌%◌, ◌^◌, Bool, true, false, not, List, [], ◌∷◌, ◌==◌, if◌then◌else◌,
}

-- A bucket is its counter, an `AtomicU32`, with its lap: the vectors of both have one length.
pub record Bucket : Type 0 where
  pub counter : ℕ
  pub lap : ℕ

pub record RollingCounter : Type 0 where
  pub buckets : ℕ
  pub cells : List Bucket

unfoldable pub empty_buckets : ℕ → List Bucket
empty_buckets zero = []
empty_buckets (suc n) = record { counter = 0; lap = 0 } ∷ empty_buckets n

-- `assert!(buckets > 0)` is left to the callers.
unfoldable pub new_counter : ℕ → RollingCounter
unfolding empty_buckets
new_counter buckets = record { buckets = buckets; cells = empty_buckets buckets }

-- The first increment of a lap resets the bucket.
unfoldable pub incr_bucket : ℕ → Bucket → Bucket
incr_bucket lap b =
    let counter = if not (b.lap == lap) then 0 else b.counter in
    record { counter = (counter + 1) % 2 ^ 32; lap = lap }

unfoldable pub incr_at : ℕ → ℕ → List Bucket → List Bucket
unfolding incr_bucket
incr_at idx lap [] = []
incr_at zero lap (b ∷ bs) = incr_bucket lap b ∷ bs
incr_at (suc idx) lap (b ∷ bs) = b ∷ incr_at idx lap bs

-- The sum of the counters of the lap, which is not reduced to 32 bits.
unfoldable pub total_at : ℕ → List Bucket → ℕ
total_at now_lap [] = 0
total_at now_lap (b ∷ bs) = (if b.lap == now_lap then b.counter else 0) + total_at now_lap bs

-- The parameters are the f64 quotients of the elapsed time by the length of a bucket and by that of
-- all buckets, rounded down.
module _ (bucket_of lap_of : ℕ → ℕ) where
  unfoldable pub get_index_and_lap : RollingCounter → ℕ → ℕ × ℕ
  get_index_and_lap c elapsed = (bucket_of elapsed % c.buckets, lap_of elapsed)

  -- One increment, without others at the same time.
  unfoldable pub incr : RollingCounter → ℕ → RollingCounter
  unfolding get_index_and_lap incr_at
  incr c elapsed =
      let (idx, lap) = get_index_and_lap c elapsed in record c { cells = incr_at idx lap c.cells }

  unfoldable pub total : RollingCounter → ℕ → ℕ
  unfolding get_index_and_lap total_at
  total c elapsed = total_at (get_index_and_lap c elapsed).1 c.cells

  -- Increments at the given times.
  unfoldable pub incr_all : List ℕ → RollingCounter → RollingCounter
  unfolding incr
  incr_all [] c = c
  incr_all (t ∷ ts) c = incr_all ts (incr c t)
