-- ===== src/Retry/Poll.antt =====
-- However the retrying future of utils/retry.rs is polled, it comes to the same result.
use aiephant_ai_gateway.Common.{
  ℕ, suc, ◌+◌, ◌*◌, ◌<◌, ◌≤◌, ◌≡◌, refl, ap, ◌∙◌, inl, inr, Bool, true, false, Option, List, [],
  ◌∷◌, ◌++◌, length, arith, Bool-cases,
}
use aiephant_ai_gateway.Retry.{
  State, idle, polling, sleeping, RetryWithResult, Turn, again, pending, ready, turn, turn_of,
  after_attempt, after_backoff, drive, go_on, new_retry, run,
}

module _ {T : Type 0} (result_of : ℕ → T) (retryable : T → Bool) where
  abbrev pub unadjusted : T → Option ℕ → Option ℕ
  unadjusted result delay = delay

  -- The attempt that a machine is at or comes to next.
  abbrev attempt_of : ℕ → State → ℕ
  attempt_of started idle = started
  attempt_of started (polling n) = n
  attempt_of started (sleeping d) = started

  -- The number of a running attempt is that of the last one started.
  abbrev Counts : ℕ → State → Type 0
  Counts started idle = Unit
  Counts started (polling n) = started ≡ suc n
  Counts started (sleeping d) = Unit

  -- What is left for a machine to come to.
  outcome_of : RetryWithResult T → T × List (T × ℕ)
  outcome_of m =
      let rest = run result_of retryable m.backoff (attempt_of m.started m.state) in
      (rest.0, m.notified ++ rest.1)

  -- An upper bound on the ready turns left.
  abbrev stage : State → ℕ
  stage idle = 2
  stage (polling n) = 1
  stage (sleeping d) = 3

  abbrev turns_left : RetryWithResult T → ℕ
  turns_left m = 3 * length m.backoff + stage m.state

  abbrev Goes : Bool → RetryWithResult T → Turn T → Type 0
  Goes b m (again m') =
      Counts m'.started m'.state × (outcome_of m' ≡ outcome_of m) × (turns_left m' < turns_left m)
  Goes b m (pending m') = (m' ≡ m) × (b ≡ false)
  Goes b m (ready result log) = (result, log) ≡ outcome_of m

  append_assoc : (xs ys zs : List (T × ℕ)) → (xs ++ ys) ++ zs ≡ xs ++ (ys ++ zs)
  append_assoc [] ys zs = refl
  append_assoc (x ∷ xs) ys zs = ap (λ l. x ∷ l) (append_assoc xs ys zs)

  append_nil : (xs : List (T × ℕ)) → xs ≡ xs ++ []
  append_nil [] = refl
  append_nil (x ∷ xs) = ap (λ l. x ∷ l) (append_nil xs)

  abbrev at : List ℕ → State → ℕ → List (T × ℕ) → RetryWithResult T
  at ds st n log = record { backoff = ds; state = st; started = n; notified = log }

  run-retried :
      (d : ℕ) (ds : List ℕ) (n : ℕ)
      → retryable (result_of n) ≡ true
      → (let rest = run result_of retryable ds (suc n) in (rest.0, (result_of n, d) ∷ rest.1))
        ≡ run result_of retryable (d ∷ ds) n
  unfolding run
  run-retried d ds n e = rw e refl

  run-done :
      (ds : List ℕ) (n : ℕ)
      → retryable (result_of n) ≡ false
      → (result_of n, []) ≡ run result_of retryable ds n
  unfolding run
  run-done [] n e = refl
  run-done (d ∷ ds) n e = rw e refl

  run-last : (n : ℕ) → (result_of n, []) ≡ run result_of retryable [] n
  unfolding run
  run-last n = refl

  done-outcome :
      (ds : List ℕ) (n : ℕ) (log : List (T × ℕ))
      → (result_of n, []) ≡ run result_of retryable ds n
      → (result_of n, log) ≡ outcome_of (at ds (polling n) (suc n) log)
  unfolding outcome_of
  done-outcome ds n log e =
      ap (λ l. (result_of n, l)) (append_nil log) ∙ ap (λ r. (r.0, log ++ r.1)) e

  retried-outcome :
      (d : ℕ) (ds : List ℕ) (n : ℕ) (log : List (T × ℕ))
      → retryable (result_of n) ≡ true
      → outcome_of (at ds (sleeping d) (suc n) (log ++ (result_of n, d) ∷ []))
        ≡ outcome_of (at (d ∷ ds) (polling n) (suc n) log)
  unfolding outcome_of
  retried-outcome d ds n log e =
      ap (λ l. ((run result_of retryable ds (suc n)).0, l))
        (append_assoc log ((result_of n, d) ∷ []) (run result_of retryable ds (suc n)).1)
      ∙ ap (λ r. (r.0, log ++ r.1)) (run-retried d ds n e)

  after_attempt-Goes :
      (ds : List ℕ) (n : ℕ) (log : List (T × ℕ))
      → Goes true (at ds (polling n) (suc n) log) (
          after_attempt result_of retryable unadjusted
            (at ds (polling n) (suc n) log)
            (result_of n))
  unfolding after_attempt after_backoff
  after_attempt-Goes [] n log = elim (Bool-cases (retryable (result_of n))) [
    | inl again_ ↦ rw again_ (done-outcome [] n log (run-last n))
    | inr done ↦ rw done (done-outcome [] n log (run-last n))
  ]
  after_attempt-Goes (d ∷ ds) n log = elim (Bool-cases (retryable (result_of n))) [
    | inl again_ ↦ rw again_ (tt, retried-outcome d ds n log again_, omega arith)
    | inr done ↦ rw done (done-outcome (d ∷ ds) n log (run-done (d ∷ ds) n done))
  ]

  polled-Goes :
      (ds : List ℕ) (n started : ℕ) (log : List (T × ℕ))
      → started ≡ suc n
      → Goes true (at ds (polling n) started log) (
          after_attempt result_of retryable unadjusted
            (at ds (polling n) started log)
            (result_of n))
  polled-Goes ds n started log e = rw e (after_attempt-Goes ds n log)

  turn-Goes :
      (b : Bool) (ds : List ℕ) (st : State) (started : ℕ) (log : List (T × ℕ))
      → Counts started st
      → Goes b (at ds st started log) (turn result_of retryable unadjusted b (at ds st started log))
  unfolding turn turn_of outcome_of
  turn-Goes b ds idle started log c = (refl, refl, omega arith)
  turn-Goes false ds (polling n) started log c = (refl, refl)
  turn-Goes true ds (polling n) started log c = polled-Goes ds n started log c
  turn-Goes false ds (sleeping d) started log c = (refl, refl)
  turn-Goes true ds (sleeping d) started log c = (tt, refl, omega arith)

  abbrev pub ready_turns : List Bool → ℕ
  ready_turns [] = 0
  ready_turns (true ∷ bs) = suc (ready_turns bs)
  ready_turns (false ∷ bs) = ready_turns bs

  abbrev Comes : RetryWithResult T → Turn T → Type 0
  Comes m (again m') = ⊥
  Comes m (pending m') = ⊥
  Comes m (ready result log) = (result, log) ≡ outcome_of m

  Comes-outcome :
      (m m' : RetryWithResult T) (t : Turn T)
      → outcome_of m' ≡ outcome_of m
      → Comes m' t
      → Comes m t
  Comes-outcome m m' (again x) e c = c
  Comes-outcome m m' (pending x) e c = c
  Comes-outcome m m' (ready result log) e c = c ∙ e

  stage_positive : (st : State) → 0 < stage st
  stage_positive idle = omega arith
  stage_positive (polling n) = omega arith
  stage_positive (sleeping d) = omega arith

  -- Each turn leaves the bound for the others.
  turns-left :
      (b : Bool) (bs : List Bool) (k k' : ℕ)
      → k ≤ ready_turns (b ∷ bs)
      → k' < k
      → k' ≤ ready_turns bs
  turns-left true bs k k' e l = omega arith
  turns-left false bs k k' e l = omega arith

  go_on-Comes :
      (b : Bool) (bs : List Bool) (m : RetryWithResult T) (t : Turn T)
      → ((m' : RetryWithResult T)
          → Counts m'.started m'.state
          → turns_left m' ≤ ready_turns bs
          → Comes m' (drive result_of retryable unadjusted bs m'))
      → Counts m.started m.state
      → turns_left m ≤ ready_turns (b ∷ bs)
      → Goes b m t
      → Comes m (go_on (drive result_of retryable unadjusted bs) t)
  go_on-Comes b bs m (again m') ih c e (c', same, less) =
      Comes-outcome m m' _ same (ih m' c' (turns-left b bs (turns_left m) (turns_left m') e less))
  go_on-Comes true bs m (pending m') ih c e (same, off) = cc off
  go_on-Comes false bs m (pending m') ih c e (same, off) = rw same (ih m c e)
  go_on-Comes b bs m (ready result log) ih c e g = g

  drive-Comes :
      (bs : List Bool) (m : RetryWithResult T)
      → Counts m.started m.state
      → turns_left m ≤ ready_turns bs
      → Comes m (drive result_of retryable unadjusted bs m)
  unfolding drive
  drive-Comes [] m c e = absurd (ground (arith, stage_positive m.state))
  drive-Comes (b ∷ bs) m c e =
      go_on-Comes b bs m (turn result_of retryable unadjusted b m) (drive-Comes bs) c e
        (turn-Goes b m.backoff m.state m.started m.notified c)

  Comes-ready :
      (m : RetryWithResult T) (t : Turn T) → Comes m t → t ≡ ready (outcome_of m).0 (outcome_of m).1
  Comes-ready m (again x) c = absurd c
  Comes-ready m (pending x) c = absurd c
  Comes-ready m (ready result log) c = ap (λ o. ready o.0 o.1) c

  -- However the readiness of the attempts and the sleeps is spread over its turns, a retrying future
  -- without an adjustment is done after as many ready turns as three for each delay of the backoff and
  -- two more, and its result and its notifications are those of `run`.
  pub drive-run :
      (ds : List ℕ) (bs : List Bool)
      → 3 * length ds + 2 ≤ ready_turns bs
      → drive result_of retryable unadjusted bs (new_retry ds)
        ≡ ready (run result_of retryable ds 0).0 (run result_of retryable ds 0).1
  unfolding outcome_of
  drive-run ds bs e =
      Comes-ready (new_retry ds) (drive result_of retryable unadjusted bs (new_retry ds))
        (drive-Comes bs (new_retry ds) tt e)
