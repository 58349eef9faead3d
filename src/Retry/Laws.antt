-- ===== src/Retry/Laws.antt =====
-- What the retries of a request amount to.
use aiephant_ai_gateway.Common.{
  ℕ, zero, suc, ◌+◌, ◌≤◌, ◌<◌, ◌≡◌, refl, ap, subst, ◌∙◌, length-append, ◌⊎◌, if◌then◌else◌, inl,
  inr, Bool, true, false, Option, none, some, List, [], ◌∷◌, length, arith, Bool-cases, Result, ok,
  err,
}
use aiephant_ai_gateway.Common.Text.{Text}
use aiephant_ai_gateway.Fallback.{RetryConfig, exponential, constant, Decision, log_decision}
use aiephant_ai_gateway.Fallback.Bridge.{Config}
use aiephant_ai_gateway.Fallback
use aiephant_ai_gateway.Retry.{run}
use aiephant_ai_gateway.Retry.Dispatch.{
  RequestKind, router, unified_api, direct_proxy, custom_provider, SyncResult, Backoffs, Bounded,
  Outcome, of_provider, of_fallback, Call, sync_dispatch_result_is_retryable, get_retry_config,
  retry_config_allows_retry_attempts, backoff_of, with_retries, log_retries, allows_retries,
  fall_back, dispatch_sync_with_retry, should_attempt_cross_provider_default_model_fallback,
}

module _ {T : Type 0} (result_of : ℕ → T) (retryable : T → Bool) where
  run_step :
      (d : ℕ) (ds : List ℕ) (n : ℕ)
      → retryable (result_of n) ≡ true
      → run result_of retryable (d ∷ ds) n
        ≡ (let rest = run result_of retryable ds (suc n) in (rest.0, (result_of n, d) ∷ rest.1))
  unfolding run
  run_step d ds n e = rw e refl

  run_stop :
      (ds : List ℕ) (n : ℕ)
      → retryable (result_of n) ≡ false
      → run result_of retryable ds n ≡ (result_of n, [])
  unfolding run
  run_stop [] n e = refl
  run_stop (d ∷ ds) n e = rw e refl

  add_zero : (n : ℕ) → n ≡ n + 0
  add_zero n = omega arith

  add_suc : (n m : ℕ) → suc n + m ≡ n + suc m
  add_suc n m = omega arith

  retried_below :
      (n m : ℕ)
      → retryable (result_of n) ≡ true
      → ((i : ℕ) → i < m → retryable (result_of (suc n + i)) ≡ true)
      → (i : ℕ) → i < suc m
      → retryable (result_of (n + i)) ≡ true
  retried_below n m e ih zero l = rw (← add_zero n) e
  retried_below n m e ih (suc i) l = rw (← add_suc n i) (ih i (omega arith))

  -- What a run of the loop from attempt n has done.
  abbrev pub RunFrom : List ℕ → ℕ → T × List (T × ℕ) → Type 0
  RunFrom ds n r =
      (r.0 ≡ result_of (n + length r.1))
      × ((i : ℕ) → i < length r.1 → retryable (result_of (n + i)) ≡ true)
      × (length r.1 ≤ length ds)
      × ((retryable r.0 ≡ false) ⊎ (length r.1 ≡ length ds))

  -- The loop returns the result of the attempt after the retried ones, which were all retryable and
  -- no more than the delays; and a result that is still retryable is returned only when every delay
  -- has been used.
  pub run-attempts : (ds : List ℕ) (n : ℕ) → RunFrom ds n (run result_of retryable ds n)
  unfolding run
  run-attempts [] n =
      (ap result_of (add_zero n), λ i l. absurd (omega arith), omega arith, inr refl)
  run-attempts (d ∷ ds) n = elim (Bool-cases (retryable (result_of n))) [
    | inl again ↦
        let (same, all, short, last) = run-attempts ds (suc n) in
        let count = length (run result_of retryable ds (suc n)).1 in
        rw (run_step d ds n again) (
          same ∙ ap result_of (add_suc n count),
          retried_below n count again all,
          omega arith,
          ground (arith, last),
        )
    | inr done ↦
        rw (run_stop (d ∷ ds) n done)
          (ap result_of (add_zero n), λ i l. absurd (omega arith), omega arith, inl done)
  ]

zero_add : (n : ℕ) → 0 + n ≡ n
zero_add n = omega arith

module _ {R D B E : Type 0} (b : Backoffs D) (config : Config R D) (call : Call B E) where
  abbrev pub max_retries_of : Option (RetryConfig D) → ℕ
  max_retries_of none = 0
  max_retries_of (some (exponential lo hi n f)) = n
  max_retries_of (some (constant delay n)) = n

  length-backoff_of :
      Bounded b
      → (retry : RetryConfig D) → length (backoff_of b retry) ≡ max_retries_of (some retry)
  unfolding backoff_of
  length-backoff_of h (exponential lo hi n f) = h.exponential_length lo hi n _
  length-backoff_of h (constant delay n) = h.constant_length delay n

  -- What n retries within the bound come to.
  abbrev Retried : ℕ → SyncResult B E × List (SyncResult B E × ℕ) → Type 0
  Retried bound r =
      (r.0 ≡ call.attempt (length r.1))
      × ((i : ℕ) → i < length r.1 → sync_dispatch_result_is_retryable (call.attempt i) ≡ true)
      × (length r.1 ≤ bound)
      × ((sync_dispatch_result_is_retryable r.0 ≡ false) ⊎ (length r.1 ≡ bound))

  with_retries-Retried :
      Bounded b
      → (retry : Option (RetryConfig D))
      → Retried (max_retries_of retry) (with_retries b config call retry)
  unfolding with_retries
  with_retries-Retried h none = (refl, λ i l. absurd (omega arith), omega arith, inr refl)
  with_retries-Retried h (some retry) =
      let (same, all, short, last) =
        run-attempts call.attempt sync_dispatch_result_is_retryable (backoff_of b retry) 0 in
      let bound = length-backoff_of h retry in
      (
        same ∙ ap call.attempt (zero_add _),
        λ i l.
            subst (λ k. sync_dispatch_result_is_retryable (call.attempt k) ≡ true) (zero_add i)
              (all i l),
        rw (← bound) short,
        rw (← bound) last,
      )

  length-log_decision :
      config.fallback_policy.observability.emit_decision_log ≡ true
      → (log : List Decision)
      → length (log_decision config.fallback_policy Fallback.retry none call.provider log)
        ≡ length log + 1
  unfolding log_decision
  length-log_decision on log = rw on (length-append log _)

  length-log_retries :
      config.fallback_policy.observability.emit_decision_log ≡ true
      → (rs : List (SyncResult B E × ℕ)) (log : List Decision)
      → length (log_retries b config call rs log) ≡ length log + length rs
  unfolding log_retries
  length-log_retries on [] log = omega arith
  length-log_retries on (r ∷ rs) log = omega (
    arith,
    length-log_retries on rs
        (log_decision config.fallback_policy Fallback.retry none call.provider log),
    length-log_decision on log,
  )

  retries_logged :
      (rs : List (SyncResult B E × ℕ)) (log : List Decision)
      → (config.fallback_policy.observability.emit_decision_log ≡ false)
        ⊎ (length (log_retries b config call rs log) ≡ length log + length rs)
  retries_logged rs log = elim (Bool-cases config.fallback_policy.observability.emit_decision_log) [
    | inl on ↦ inr (length-log_retries on rs log)
    | inr off ↦ inl off
  ]

  -- Whose result ends a request that was retried n times within the bound.
  abbrev pub EndsWith : ℕ → ℕ → Outcome B E → Type 0
  EndsWith bound n o =
      (o ≡ of_provider (call.attempt n))
      ⊎ ((response : B) × (o ≡ of_fallback response)
          × (call.fallback ≡ ok (some response))
          × (call.kind ≡ unified_api)
          × (sync_dispatch_result_is_retryable (call.attempt n) ≡ true)
          × (n ≡ bound)
          × (0 < bound))

  allows_retries-max :
      (retry : Option (RetryConfig D))
      → allows_retries b config call retry ≡ true
      → 0 < max_retries_of retry
  unfolding allows_retries retry_config_allows_retry_attempts
  allows_retries-max (some (exponential lo hi n f)) e = ground arith
  allows_retries-max (some (constant delay n)) e = ground arith
  allows_retries-max none e = cc e

  fall_back-EndsWith :
      (bound n : ℕ) (result : SyncResult B E) (fallback : Result E (Option B))
      → call.fallback ≡ fallback
      → result ≡ call.attempt n
      → call.kind ≡ unified_api
      → sync_dispatch_result_is_retryable result ≡ true
      → n ≡ bound
      → 0 < bound
      → EndsWith bound n (fall_back b config call result fallback)
  unfolding fall_back
  fall_back-EndsWith bound n result (ok (some response)) f same kind retryable all some_ =
      inr (response, refl, f, kind, rw (← same) retryable, all, some_)
  fall_back-EndsWith bound n result (ok none) f same kind retryable all some_ =
      inl (ap of_provider same)
  fall_back-EndsWith bound n result (err e) f same kind retryable all some_ =
      inl (ap of_provider same)

  -- The decisions of a fallback say what it needs.
  should_attempt-needs :
      (exhausted : Bool) (kind : RequestKind) (path : Text) (has_ctx : Bool)
      (result : SyncResult B E)
      → should_attempt_cross_provider_default_model_fallback exhausted kind path has_ctx result
        ≡ true
      → (exhausted ≡ true)
        × (kind ≡ unified_api)
        × (sync_dispatch_result_is_retryable result ≡ true)
  unfolding should_attempt_cross_provider_default_model_fallback
  should_attempt-needs exhausted unified_api path has_ctx result e = ground arith
  should_attempt-needs exhausted router path has_ctx result e = ground arith
  should_attempt-needs exhausted direct_proxy path has_ctx result e = ground arith
  should_attempt-needs exhausted custom_provider path has_ctx result e = ground arith

  -- A request is retried some n times, at most `max_retries` of its retry configuration and not at
  -- all without one, each time after a retryable result; one decision is logged for each retry if the
  -- log is on; and it ends with the result of the last attempt, or, only for the unified API, with the
  -- response of a fallback, and then retries were configured, all of them were used and the last
  -- result was still retryable. The backoffs are taken to give `max_retries` delays.
  pub dispatch_sync_with_retry-EndsWith :
      Bounded b
      → (log : List Decision)
      → (n : ℕ) × (n ≤ max_retries_of (get_retry_config config call.kind))
        × ((i : ℕ) → i < n → sync_dispatch_result_is_retryable (call.attempt i) ≡ true)
        × EndsWith
            (max_retries_of (get_retry_config config call.kind))
            n
            (dispatch_sync_with_retry b config call log).0
        × ((config.fallback_policy.observability.emit_decision_log ≡ false)
            ⊎ (length (dispatch_sync_with_retry b config call log).1 ≡ length log + n))
  unfolding dispatch_sync_with_retry
  dispatch_sync_with_retry-EndsWith h log =
      let retry = get_retry_config config call.kind in
      let r = with_retries b config call retry in
      let (same, all, short, last) = with_retries-Retried h retry in
      let attempted =
        should_attempt_cross_provider_default_model_fallback (allows_retries b config call retry)
          call.kind call.path call.has_fallback_context r.0 in
      let ends : EndsWith (max_retries_of retry) (length r.1)
          (if attempted then fall_back b config call r.0 call.fallback else of_provider r.0) =
        elim (Bool-cases attempted) [
          | inl yes_ ↦
              let (exhausted, kind, retryable) =
                should_attempt-needs (allows_retries b config call retry) call.kind call.path
                  call.has_fallback_context r.0 yes_ in
              rw yes_ (
                fall_back-EndsWith (max_retries_of retry) (length r.1) r.0 call.fallback refl same
                  kind retryable (ground (arith, last)) (allows_retries-max retry exhausted))
          | inr no_ ↦ rw no_ (inl (ap of_provider same))
        ] in
      (length r.1, short, all, ends, retries_logged r.1 log)
