-- ===== src/Retry/Tests.antt =====
-- A request that meets a 503 twice and then succeeds, and one that falls back.
use aiephant_ai_gateway.Common.{
  ℕ, zero, suc, ◌+◌, ◌≤◌, ◌<◌, ◌≡◌, refl, ◌⊎◌, Bool, true, false, some, List, [], ◌∷◌, length, ok,
  arith,
}
use aiephant_ai_gateway.Common.Text.{codes}
use aiephant_ai_gateway.Provider.{open_ai}
use aiephant_ai_gateway.Health.Tests.{config}
use aiephant_ai_gateway.Retry.{ready, drive, new_retry, run}
use aiephant_ai_gateway.Retry.Poll.{unadjusted, drive-run}
use aiephant_ai_gateway.Retry.Dispatch.{
  SyncResult, responded, unified_api, Backoffs, Bounded, Call, sync_dispatch_result_is_retryable,
  get_retry_config, dispatch_sync_with_retry,
}
use aiephant_ai_gateway.Retry.Laws.{EndsWith, max_retries_of, dispatch_sync_with_retry-EndsWith}

abbrev delays : ℕ → List ℕ
delays zero = []
delays (suc n) = 5 ∷ delays n

length-delays : (n : ℕ) → length (delays n) ≡ n
length-delays zero = refl
length-delays (suc n) = omega (arith, length-delays n)

abbrev backoffs : Backoffs ℕ
backoffs = record {
  F32 = ℕ;
  to_f32 = λ f. some f;
  default_factor = 200;
  exponential_delays = λ lo hi n f. delays n;
  constant_delays = λ d n. delays n;
}

backoffs-Bounded : Bounded backoffs
backoffs-Bounded = record {
  exponential_length = λ lo hi n f. length-delays n;
  constant_length = λ d n. length-delays n;
}

abbrev attempts : ℕ → SyncResult ℕ ℕ
attempts zero = responded 503 0
attempts (suc zero) = responded 503 1
attempts (suc (suc n)) = responded 200 2

abbrev call : Call ℕ ℕ
call = record {
  kind = unified_api;
  path = codes "v1/chat/completions";
  has_fallback_context = true;
  provider = open_ai;
  attempt = attempts;
  fallback = ok (some 7);
}

dispatch_sync_with_retry-EndsWith_example :
    (n : ℕ) × (n ≤ max_retries_of backoffs config call (get_retry_config config unified_api))
    × ((i : ℕ) → i < n → sync_dispatch_result_is_retryable (attempts i) ≡ true)
    × EndsWith backoffs config call
        (max_retries_of backoffs config call (get_retry_config config unified_api))
        n
        (dispatch_sync_with_retry backoffs config call []).0
    × ((config.fallback_policy.observability.emit_decision_log ≡ false)
        ⊎ (length (dispatch_sync_with_retry backoffs config call []).1 ≡ 0 + n))
dispatch_sync_with_retry-EndsWith_example =
    dispatch_sync_with_retry-EndsWith backoffs config call backoffs-Bounded []

-- One attempt is waited for, then each turn is ready.
abbrev readiness : List Bool
readiness = true ∷ false ∷ true ∷ true ∷ true ∷ false ∷ true ∷ true ∷ true ∷ true ∷ []

drive-run_example :
    drive attempts sync_dispatch_result_is_retryable
      (unadjusted attempts sync_dispatch_result_is_retryable)
      readiness
      (new_retry (delays 2))
    ≡ ready
        (run attempts sync_dispatch_result_is_retryable (delays 2) 0).0
        (run attempts sync_dispatch_result_is_retryable (delays 2) 0).1
drive-run_example =
    drive-run attempts sync_dispatch_result_is_retryable (delays 2) readiness (ground arith)
