-- ===== src/RollingCounter/Total.antt =====
-- What the total of a rolling counter counts.
use aiephant_ai_gateway.Common.{
  ℕ, zero, suc, ◌+◌, ◌%◌, ◌^◌, ◌<◌, ◌≤◌, ◌≡◌, refl, ◌∙◌, List, [], ◌∷◌, length, ◌==◌, if◌then◌else◌,
  arith, Ascending, last_time,
}
use aiephant_ai_gateway.RollingCounter.{
  Bucket, RollingCounter, empty_buckets, new_counter, incr_bucket, incr_at, total_at, incr, total,
  incr_all, get_index_and_lap,
}
use native.Mathlib.Nat.{mod-lt}

-- No bucket is of a lap after the given one or counts more than `n`.
abbrev Old : ℕ → ℕ → List Bucket → Type 0
Old lap n [] = Unit
Old lap n (b ∷ bs) = (b.lap ≤ lap) × (b.counter ≤ n) × Old lap n bs

Old-later :
    (lap later n m : ℕ) (bs : List Bucket) → lap ≤ later → n ≤ m → Old lap n bs → Old later m bs
Old-later lap later n m [] h k o = tt
Old-later lap later n m (b ∷ bs) h k (l, c, o) =
    (omega arith, omega arith, Old-later lap later n m bs h k o)

incr_bucket-Old :
    (lap n : ℕ) (b : Bucket)
    → n + 1 < 2 ^ 32
    → b.counter ≤ n
    → ((incr_bucket lap b).lap ≤ lap) × ((incr_bucket lap b).counter ≤ suc n)
unfolding incr_bucket
incr_bucket-Old lap n b small c = ground arith

incr_at-Old :
    (idx lap n : ℕ) (bs : List Bucket)
    → n + 1 < 2 ^ 32
    → Old lap n bs
    → Old lap (suc n) (incr_at idx lap bs)
unfolding incr_at
incr_at-Old idx lap n [] small o = tt
incr_at-Old zero lap n (b ∷ bs) small (l, c, o) =
    let (l', c') = incr_bucket-Old lap n b small c in
    (l', c', Old-later lap lap n (suc n) bs (omega arith) (omega arith) o)
incr_at-Old (suc idx) lap n (b ∷ bs) small (l, c, o) =
    (l, omega arith, incr_at-Old idx lap n bs small o)

length-incr_at : (idx lap : ℕ) (bs : List Bucket) → length (incr_at idx lap bs) ≡ length bs
unfolding incr_at
length-incr_at idx lap [] = refl
length-incr_at zero lap (b ∷ bs) = refl
length-incr_at (suc idx) lap (b ∷ bs) = omega (arith, length-incr_at idx lap bs)

-- What one event in the lap counts for.
abbrev one_in : ℕ → ℕ → ℕ
one_in now_lap lap = if lap == now_lap then 1 else 0

incr_bucket-total :
    (lap now_lap n : ℕ) (b : Bucket)
    → n + 1 < 2 ^ 32
    → b.lap ≤ lap
    → b.counter ≤ n
    → lap ≤ now_lap
    → (if (incr_bucket lap b).lap == now_lap then (incr_bucket lap b).counter else 0)
      ≡ (if b.lap == now_lap then b.counter else 0) + one_in now_lap lap
unfolding incr_bucket
incr_bucket-total lap now_lap n b small l c h = ground arith

total_at-incr_at :
    (idx lap now_lap n : ℕ) (bs : List Bucket)
    → n + 1 < 2 ^ 32
    → idx < length bs
    → Old lap n bs
    → lap ≤ now_lap
    → total_at now_lap (incr_at idx lap bs) ≡ total_at now_lap bs + one_in now_lap lap
unfolding incr_at total_at
total_at-incr_at idx lap now_lap n [] small i o h = omega arith
total_at-incr_at zero lap now_lap n (b ∷ bs) small i (l, c, o) h =
    omega (arith, incr_bucket-total lap now_lap n b small l c h)
total_at-incr_at (suc idx) lap now_lap n (b ∷ bs) small i (l, c, o) h =
    omega (arith, total_at-incr_at idx lap now_lap n bs small (omega arith) o h)

empty_buckets-Old :
    (lap n : ℕ)
    → Old lap 0 (empty_buckets n)
      × (length (empty_buckets n) ≡ n)
      × ((l : ℕ) → total_at l (empty_buckets n) ≡ 0)
unfolding empty_buckets total_at
empty_buckets-Old lap zero = (tt, refl, λ l. refl)
empty_buckets-Old lap (suc n) =
    let (o, len, none_) = empty_buckets-Old lap n in
    ((omega arith, omega arith, o), omega (arith, len), λ l. ground (arith, none_ l))

module _ (bucket_of lap_of : ℕ → ℕ) where
  -- How many of the times are in the lap.
  unfoldable pub in_lap : ℕ → List ℕ → ℕ
  in_lap now_lap [] = 0
  in_lap now_lap (t ∷ ts) = one_in now_lap (lap_of t) + in_lap now_lap ts

  -- `f64` division and rounding down keep the order.
  abbrev pub KeepsOrder : Type 0
  KeepsOrder = (s t : ℕ) → s ≤ t → lap_of s ≤ lap_of t

  Ascending-last_time : (t : ℕ) (ts : List ℕ) → Ascending t ts → t ≤ last_time t ts
  Ascending-last_time t [] a = omega arith
  Ascending-last_time t (s ∷ ts) (h, a) = omega (arith, Ascending-last_time s ts a)

  total_at-incr_all :
      (before now n : ℕ) (ts : List ℕ) (c : RollingCounter)
      → KeepsOrder
      → 0 < c.buckets
      → length c.cells ≡ c.buckets
      → Old (lap_of before) n c.cells
      → n + length ts < 2 ^ 32
      → Ascending before ts
      → last_time before ts ≤ now
      → total_at (lap_of now) (incr_all bucket_of lap_of ts c).cells
        ≡ total_at (lap_of now) c.cells + in_lap (lap_of now) ts
  unfolding incr_all incr get_index_and_lap in_lap
  total_at-incr_all before now n [] c keeps some_ len o small a l = omega arith
  total_at-incr_all before now n (t ∷ ts) c keeps some_ len o small (h, a) l =
      let idx : ℕ = bucket_of t % c.buckets in
      let inside : idx < c.buckets = mod-lt (bucket_of t) some_ in
      let here = Ascending-last_time t ts a in
      let old =
        Old-later (lap_of before) (lap_of t) n n c.cells (keeps before t h) (omega arith) o in
      let rest =
        total_at-incr_all t now (suc n) ts (record c { cells = incr_at idx (lap_of t) c.cells })
          keeps some_ (length-incr_at idx (lap_of t) c.cells ∙ len)
          (incr_at-Old idx (lap_of t) n c.cells (omega arith) old) (omega arith) a l in
      let step =
        total_at-incr_at idx (lap_of t) (lap_of now) n c.cells (omega arith) (omega arith) old
          (keeps t now (omega arith)) in
      omega (arith, rest, step)

  -- After fewer than 2^32 increments at times that do not go back, one after the other, the total at a
  -- later time is the number of those whose time is in the same lap of the whole window, whatever the
  -- buckets: provided that the quotient of f64 keeps the order of times.
  pub total-incr_all :
      (buckets now : ℕ) (times : List ℕ)
      → KeepsOrder
      → 0 < buckets
      → length times < 2 ^ 32
      → Ascending 0 times
      → last_time 0 times ≤ now
      → total bucket_of lap_of (incr_all bucket_of lap_of times (new_counter buckets)) now
        ≡ in_lap (lap_of now) times
  unfolding total get_index_and_lap new_counter
  total-incr_all buckets now times keeps some_ small a l =
      let (old, len, none_) = empty_buckets-Old (lap_of 0) buckets in
      omega (
        arith,
        total_at-incr_all 0 now 0 times (new_counter buckets) keeps some_ len old (omega arith) a l,
        none_ (lap_of now),
      )
