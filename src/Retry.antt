-- ===== src/Retry.antt =====
-- utils/retry.rs: a future that runs another one again while its result is retryable and its backoff
-- has delays left.
pub mod Poll
pub mod Dispatch
pub mod Laws
pub mod Tests
use aiephant_ai_gateway.Common.{
  ℕ, zero, suc, Bool, true, false, not, Option, none, some, List, [], ◌∷◌, ◌++◌, if◌then◌else◌,
}

-- An attempt is known by its number; a delay by its length.
pub data State : Type 0 where
  idle : State
  polling : ℕ → State
  sleeping : ℕ → State

-- `RetryWithResult`; the backoff is the delays that it has yet to give, and the log holds the calls of
-- `notify_fn`, in order.
pub record RetryWithResult (T : Type 0) : Type 0 where
  pub backoff : List ℕ
  pub state : State
  pub started : ℕ
  pub notified : List (T × ℕ)

pub data Turn (T : Type 0) : Type 0 where
  again : RetryWithResult T → Turn T
  pending : RetryWithResult T → Turn T
  ready : T → List (T × ℕ) → Turn T

abbrev next_delay : List ℕ → Option ℕ × List ℕ
next_delay [] = (none, [])
next_delay (d ∷ ds) = (some d, ds)

abbrev pub go_on : {T : Type 0} → (RetryWithResult T → Turn T) → Turn T → Turn T
go_on k (again m) = k m
go_on k (pending m) = k m
go_on k (ready result log) = ready result log

-- The results of the attempts, `retryable_fn` and `adjust_fn`.
module _ {T : Type 0} (result_of : ℕ → T) (retryable : T → Bool)
    (adjust : T → Option ℕ → Option ℕ) where
  after_backoff : RetryWithResult T → T → Option ℕ → List ℕ → Turn T
  after_backoff m result none ds = ready result m.notified
  after_backoff m result (some d) ds =
      again
        (record m { backoff = ds; state = sleeping d; notified = m.notified ++ (result, d) ∷ [] })

  after_attempt : RetryWithResult T → T → Turn T
  unfolding after_backoff
  after_attempt m result =
      let (delay, ds) = next_delay m.backoff in
      if not (retryable result)
      then ready result m.notified
      else after_backoff m result (adjust result delay) ds

  -- One turn of the loop of `poll`, told whether what it polls is ready.
  turn_of : Bool → RetryWithResult T → State → Turn T
  unfolding after_attempt
  turn_of is_ready m idle = again (record m { state = polling m.started; started = suc m.started })
  turn_of false m (polling n) = pending m
  turn_of true m (polling n) = after_attempt m (result_of n)
  turn_of false m (sleeping d) = pending m
  turn_of true m (sleeping d) = again (record m { state = idle })

  unfoldable pub turn : Bool → RetryWithResult T → Turn T
  unfolding turn_of
  turn is_ready m = turn_of is_ready m m.state

  -- Polled until it is ready, or the readiness given is used up.
  unfoldable pub drive : List Bool → RetryWithResult T → Turn T
  drive [] m = pending m
  drive (b ∷ bs) m = go_on (drive bs) (turn b m)

-- `RetryWithResult::new`.
abbrev pub new_retry : {T : Type 0} → List ℕ → RetryWithResult T
new_retry ds = record { backoff = ds; state = idle; started = 0; notified = [] }

-- What the loop comes to when nothing is polled in vain: the last result, and the retried ones with
-- their delays.
module _ {T : Type 0} (result_of : ℕ → T) (retryable : T → Bool) where
  unfoldable pub run : List ℕ → ℕ → T × List (T × ℕ)
  run [] n = (result_of n, [])
  run (d ∷ ds) n =
      let rest = run ds (suc n) in
      if retryable (result_of n) then (rest.0, (result_of n, d) ∷ rest.1) else (result_of n, [])
