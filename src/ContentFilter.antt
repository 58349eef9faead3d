-- ===== src/ContentFilter.antt =====
-- content_filter/evaluate.rs: what becomes of a request after the policy service has been asked. The
-- building of the request to the service, its estimates and the gRPC call are parameters.
pub mod Allowed
pub mod Tests
use aiephant_ai_gateway.Common.{
  ℕ, suc, Bool, true, false, not, ◌&&◌, ◌||◌, Option, none, some, List, [], ◌∷◌, ◌++◌, Result, ok,
  err, map_err, if◌then◌else◌,
}
use aiephant_ai_gateway.Common.Text.{Text, codes, is_empty, trim}

pub data OnUnavailable : Type 0 where
  deny allow : OnUnavailable

pub data ContentFilterForwardBody : Type 0 where
  use_original : ContentFilterForwardBody
  use_replaced : Text → ContentFilterForwardBody

pub record ContentFilterResult : Type 0 where
  pub forward_body : ContentFilterForwardBody
  pub change_model : Option Text

pub data FilterError : Type 0 where
  piicache_out_body_missing content_policy_denied content_filter_unavailable : Text → FilterError

-- The fields that the gateway acts on; the others are only logged.
pub record EvaluateResponse : Type 0 where
  pub allowed : Bool
  pub reason : Text
  pub reason_message : Text
  pub blocked_by : Text
  pub out_body : Text
  pub change_model : Text

-- What comes of the call: a response, an error of gRPC, or none in time.
pub data Answer : Type 0 where
  responds : EvaluateResponse → Answer
  fails : Text → Answer
  elapses : Answer

-- The counters of the metrics.
pub record Counters : Type 0 where
  pub content_filter_unavailable_count : ℕ
  pub content_filter_allowed : ℕ
  pub content_filter_denied : ℕ
  pub out_body_missing_400 : ℕ
  pub forward_replaced_with_out_body : ℕ

abbrev pub unchanged : ContentFilterResult
unchanged = record { forward_body = use_original; change_model = none }

-- The reason to show, trimmed, or the default.
unfoldable pub reason_or : Text → Text → Text → Text
unfolding trim
reason_or default reason_message reason =
    if not (is_empty (trim reason_message))
    then trim reason_message
    else if not (is_empty (trim reason))
    then trim reason
    else default

abbrev pub piicache_out_body_missing_default_msg : Text
piicache_out_body_missing_default_msg =
    codes "Policy did not return a rewritten request body for PII cache."

abbrev pub message_for_piicache_out_body_missing : Text → Text → Text
message_for_piicache_out_body_missing reason_message reason =
    reason_or piicache_out_body_missing_default_msg reason_message reason

unfoldable pub build_content_policy_denied_message : Text → Text → Text → Text
unfolding reason_or
build_content_policy_denied_message reason_message reason blocked_by =
    let message = reason_or (codes "Content policy denied this request.") reason_message reason in
    if not (is_empty blocked_by)
    then ((message ++ codes " (blocked_by: ") ++ blocked_by) ++ codes ")"
    else message

unfoldable pub forward_body_for_allowed_evaluate_response :
    Bool → Text → Text → Text → Result FilterError ContentFilterForwardBody
forward_body_for_allowed_evaluate_response active out_body reason_message reason =
    if not active
    then ok use_original
    else if is_empty out_body
    then err
        (piicache_out_body_missing (message_for_piicache_out_body_missing reason_message reason))
    else ok (use_replaced out_body)

unfoldable pub count_unavailable : Counters → Counters
count_unavailable m = record m {
  content_filter_unavailable_count = suc m.content_filter_unavailable_count;
}

-- What each operation returns, and the counters after it.
abbrev pub Outcome : Type 0
Outcome = Result FilterError ContentFilterResult × Counters

unfoldable pub unavailable_on_failure : OnUnavailable → Text → Counters → Outcome
unfolding count_unavailable
unavailable_on_failure allow message m = (ok unchanged, count_unavailable m)
unavailable_on_failure deny message m = (err (content_filter_unavailable message), m)

unfoldable pub change_model_of : Text → Option Text
unfolding trim
change_model_of change_model =
    if is_empty (trim change_model) then none else some (trim change_model)

unfoldable pub forwarded :
    Option Text → Result FilterError ContentFilterForwardBody → Counters → Outcome
forwarded change_model (err e) m =
    (err e, record m { out_body_missing_400 = suc m.out_body_missing_400 })
forwarded change_model (ok use_original) m = (
  ok (record { forward_body = use_original; change_model = change_model }),
  record m { content_filter_allowed = suc m.content_filter_allowed },
)
forwarded change_model (ok (use_replaced body)) m = (
  ok (record { forward_body = use_replaced body; change_model = change_model }),
  record m {
    forward_replaced_with_out_body = suc m.forward_replaced_with_out_body;
    content_filter_allowed = suc m.content_filter_allowed;
  },
)

unfoldable pub denied : EvaluateResponse → Counters → Outcome
unfolding build_content_policy_denied_message
denied r m = (
  err (
      content_policy_denied
        (build_content_policy_denied_message r.reason_message r.reason r.blocked_by)),
  record m { content_filter_denied = suc m.content_filter_denied },
)

-- The match on the answer; `active` says that the body was sent for the PII cache.
unfoldable pub on_answer : OnUnavailable → Bool → Answer → Counters → Outcome
unfolding forwarded change_model_of forward_body_for_allowed_evaluate_response denied
    unavailable_on_failure count_unavailable
on_answer on_unavailable active (responds r) m =
    if r.allowed
    then forwarded (change_model_of r.change_model)
        (forward_body_for_allowed_evaluate_response active r.out_body r.reason_message r.reason) m
    else denied r m
on_answer on_unavailable active (fails status) m =
    unavailable_on_failure on_unavailable status (count_unavailable m)
on_answer on_unavailable active elapses m =
    unavailable_on_failure on_unavailable (codes "content filter evaluate timed out")
      (count_unavailable m)

-- The configuration, and the request as far as the filter looks at it: whether a virtual key
-- authorised it, and what is to be sent to the service, none without a context or an authorisation.
pub record FilterInput (Request : Type 0) : Type 0 where
  pub enabled : Bool
  pub vk_auth_present : Bool
  pub client_ready : Bool
  pub on_unavailable : OnUnavailable
  pub grpc_req : Option Request

module _ {Request : Type 0} (body : Request → Text) (evaluate : Request → Answer) where
  unfoldable pub ask : OnUnavailable → Option Request → Counters → Outcome
  unfolding on_answer
  ask on_unavailable none m = (ok unchanged, m)
  ask on_unavailable (some req) m =
      on_answer on_unavailable (not (is_empty (body req))) (evaluate req) m

  unfoldable pub evaluate_for_vk_request : FilterInput Request → Counters → Outcome
  unfolding ask unavailable_on_failure
  evaluate_for_vk_request i m =
      if not i.enabled || not i.vk_auth_present
      then (ok unchanged, m)
      else if not i.client_ready
      then unavailable_on_failure i.on_unavailable (codes "content filter client not initialised") m
      else ask i.on_unavailable i.grpc_req m
