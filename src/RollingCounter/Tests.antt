-- ===== src/RollingCounter/Tests.antt =====
-- A window of 60 seconds in 10 buckets: three requests late in the first lap are not in the total a
-- second after the second lap began.
use aiephant_ai_gateway.RollingCounter.Threads.{
  Run, Reach, starts, goes, sees_lap, sees_last_lap, wins, adds, resets, compare_exchange,
  store_zero, fetch_add, counter-undone,
}
use aiephant_ai_gateway.Common.{ℕ, ◌/◌, ◌+◌, ◌^◌, ◌<◌, ◌≡◌, refl, List, [], ◌∷◌, arith}
use aiephant_ai_gateway.RollingCounter.{Bucket, new_counter, incr_all, total}
use aiephant_ai_gateway.RollingCounter.Total.{KeepsOrder, in_lap, total-incr_all}

-- In seconds.
abbrev bucket_of : ℕ → ℕ
bucket_of t = t / 6

abbrev lap_of : ℕ → ℕ
lap_of t = t / 60

abbrev times : List ℕ
times = 57 ∷ 58 ∷ 59 ∷ 61 ∷ []

forgets : total bucket_of lap_of (incr_all bucket_of lap_of times (new_counter 10)) 62 ≡ 1
unfolding total incr_all new_counter
forgets = refl

keeps : KeepsOrder bucket_of lap_of
keeps s t h = omega arith

total-incr_all_example :
    total bucket_of lap_of (incr_all bucket_of lap_of times (new_counter 10)) 62
    ≡ in_lap bucket_of lap_of (lap_of 62) times
total-incr_all_example =
    total-incr_all bucket_of lap_of 10 62 times keeps (omega arith) (omega arith) (ground arith)
      (omega arith)

abbrev old_bucket : Bucket
old_bucket = record { counter = 9; lap = 3 }

abbrev new_bucket : Bucket
new_bucket = record { counter = 1; lap = 4 }

-- A second thread adds between the exchange and the reset of the first.
abbrev after_both : Run
after_both = record {
  bucket = new_bucket;
  stale = 0;
  resetting = 0;
  adding = 0;
  incremented = 2;
  undone = 1;
}

after_both-Reach : Reach 3 4 after_both
unfolding compare_exchange store_zero fetch_add
after_both-Reach =
    goes
      (goes
        (goes
          (goes
            (goes (goes (starts {b = old_bucket} refl (omega arith)) (sees_last_lap refl))
              (wins refl))
            (sees_lap refl))
          adds)
        resets)
      adds

three_four : 3 < 4
three_four = omega arith

two_few : 2 < 2 ^ 32
two_few = omega arith

counter-undone_example : after_both.bucket.counter + after_both.undone ≡ after_both.incremented
counter-undone_example = counter-undone 3 4 three_four after_both after_both-Reach refl refl two_few
