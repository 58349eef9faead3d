-- ===== src/Retry/Dispatch.antt =====
-- dispatcher/service.rs: when a request is retried, and when it falls back to the default model.
-- The backoffs are those of the backon crate.
use aiephant_ai_gateway.Common.{
  ℕ, ◌≡◌, Bool, true, false, ◌&&◌, ◌||◌, Option, none, some, List, [], ◌∷◌, length, ltb, leb,
  unwrap_or, if◌then◌else◌, Result, ok, err,
}
use aiephant_ai_gateway.Common.Text.{Text, codes, ends_with, split_first}
use aiephant_ai_gateway.Provider.{InferenceProvider}
use aiephant_ai_gateway.Fallback.{
  RetryConfig, exponential, constant, FallbackPolicyConfig, DecisionKind, Decision, log_decision,
}
use aiephant_ai_gateway.Fallback
use aiephant_ai_gateway.Fallback.Bridge.{Config, resolved_global_retry}
use aiephant_ai_gateway.Retry.{run}

pub data RequestKind : Type 0 where
  router unified_api direct_proxy custom_provider : RequestKind

-- `Result<SyncDispatchResponse, ApiError>`: the status of a response with the rest of it; or a
-- `ReqwestError`, of which `is_connect` and `status` are read; or another error.
pub data SyncResult (B E : Type 0) : Type 0 where
  responded : (status : ℕ) → B → SyncResult B E
  reqwest_error : (is_connect : Bool) (status : Option ℕ) → E → SyncResult B E
  failed : E → SyncResult B E

-- The delays that the builders of backon make, and the conversion of the factor.
pub record Backoffs (D : Type 0) : Type 1 where
  pub F32 : Type 0
  pub to_f32 : D → Option F32
  pub default_factor : F32
  pub exponential_delays : (min_delay max_delay max_times : ℕ) → F32 → List ℕ
  pub constant_delays : (delay max_times : ℕ) → List ℕ

-- `with_max_times` bounds the delays.
pub record Bounded {D : Type 0} (b : Backoffs D) : Type 0 where
  pub exponential_length : (lo hi n : ℕ) (f : b.F32) → length (b.exponential_delays lo hi n f) ≡ n
  pub constant_length : (d n : ℕ) → length (b.constant_delays d n) ≡ n

abbrev is_server_error : ℕ → Bool
is_server_error s = leb 500 s && ltb s 600

abbrev is_server_error_status : Option ℕ → Bool
is_server_error_status none = false
is_server_error_status (some s) = is_server_error s

module _ {B E : Type 0} where
  unfoldable pub sync_dispatch_result_is_retryable : SyncResult B E → Bool
  sync_dispatch_result_is_retryable (responded s b) = is_server_error s
  sync_dispatch_result_is_retryable (reqwest_error connect s e) =
      connect || is_server_error_status s
  sync_dispatch_result_is_retryable (failed e) = false

module _ {R D : Type 0} where
  unfoldable pub get_retry_config : Config R D → RequestKind → Option (RetryConfig D)
  unfolding resolved_global_retry
  get_retry_config config direct_proxy = none
  get_retry_config config custom_provider = none
  get_retry_config config router = resolved_global_retry config
  get_retry_config config unified_api = resolved_global_retry config

module _ {D : Type 0} where
  unfoldable pub retry_config_allows_retry_attempts : RetryConfig D → Bool
  retry_config_allows_retry_attempts (exponential lo hi max_retries f) = ltb 0 max_retries
  retry_config_allows_retry_attempts (constant delay max_retries) = ltb 0 max_retries

  unfoldable pub backoff_of : Backoffs D → RetryConfig D → List ℕ
  backoff_of b (exponential lo hi max_retries f) =
      b.exponential_delays lo hi max_retries (unwrap_or (b.to_f32 f) b.default_factor)
  backoff_of b (constant delay max_retries) = b.constant_delays delay max_retries

unfoldable pub unified_chat_completions_path : Text → Bool
unfolding ends_with split_first
unified_chat_completions_path path = ends_with (codes "chat/completions") (split_first b'?' path)

abbrev is_unified : RequestKind → Bool
is_unified unified_api = true
is_unified router = false
is_unified direct_proxy = false
is_unified custom_provider = false

unfoldable pub should_attempt_cross_provider_default_model_fallback :
    {B E : Type 0} → Bool → RequestKind → Text → Bool → SyncResult B E → Bool
unfolding unified_chat_completions_path sync_dispatch_result_is_retryable
should_attempt_cross_provider_default_model_fallback exhausted kind path has_ctx result =
    exhausted
    && is_unified kind
    && unified_chat_completions_path path
    && has_ctx
    && sync_dispatch_result_is_retryable result

-- Whose result a request ends with.
pub data Outcome (B E : Type 0) : Type 0 where
  of_provider : SyncResult B E → Outcome B E
  of_fallback : B → Outcome B E

-- What dispatch_sync_with_retry is given: the results of the attempts, and what the fallback to the
-- default model would come to, `ok none` if there is none.
pub record Call (B E : Type 0) : Type 0 where
  pub kind : RequestKind
  pub path : Text
  pub has_fallback_context : Bool
  pub provider : InferenceProvider
  pub attempt : ℕ → SyncResult B E
  pub fallback : Result E (Option B)

module _ {R D B E : Type 0} (b : Backoffs D) (config : Config R D) (call : Call B E) where
  -- The last result of the retry loop and the results that were retried.
  unfoldable pub with_retries : Option (RetryConfig D) → SyncResult B E × List (SyncResult B E × ℕ)
  unfolding run backoff_of
  with_retries none = (call.attempt 0, [])
  with_retries (some retry) =
      run call.attempt sync_dispatch_result_is_retryable (backoff_of b retry) 0

  -- One decision for each notification.
  unfoldable pub log_retries : List (SyncResult B E × ℕ) → List Decision → List Decision
  unfolding log_decision
  log_retries [] log = log
  log_retries (_ ∷ rest) log =
      log_retries rest (log_decision config.fallback_policy Fallback.retry none call.provider log)

  unfoldable pub allows_retries : Option (RetryConfig D) → Bool
  unfolding retry_config_allows_retry_attempts
  allows_retries none = false
  allows_retries (some retry) = retry_config_allows_retry_attempts retry

  unfoldable pub fall_back : SyncResult B E → Result E (Option B) → Outcome B E
  fall_back result (ok (some response)) = of_fallback response
  fall_back result (ok none) = of_provider result
  fall_back result (err e) = of_provider result

  unfoldable pub dispatch_sync_with_retry : List Decision → Outcome B E × List Decision
  unfolding with_retries log_retries allows_retries fall_back get_retry_config
      should_attempt_cross_provider_default_model_fallback
  dispatch_sync_with_retry log =
      let retry_config = get_retry_config config call.kind in
      let (result, retried) = with_retries retry_config in
      let attempted =
        should_attempt_cross_provider_default_model_fallback (allows_retries retry_config) call.kind
          call.path call.has_fallback_context result in
      (
        if attempted then fall_back result call.fallback else of_provider result,
        log_retries retried log,
      )
