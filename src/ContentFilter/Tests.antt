-- ===== src/ContentFilter/Tests.antt =====
-- A request whose body went to the service and came back rewritten, with a cheaper model.
use aiephant_ai_gateway.Common.{◌≡◌, refl, ◌⊎◌, true, some, [], ok}
use aiephant_ai_gateway.Common.Text.{Text, codes, is_whitespace}
use aiephant_ai_gateway.ContentFilter.{
  allow, deny, use_replaced, ContentFilterResult, EvaluateResponse, Answer, responds, elapses,
  Counters, unchanged, FilterInput, evaluate_for_vk_request, build_content_policy_denied_message,
}
use aiephant_ai_gateway.ContentFilter.Allowed.{
  Unfiltered, Unavailable, Asked, evaluate_for_vk_request-Passes,
}

abbrev response : EvaluateResponse
response = record {
  allowed = true;
  reason = [];
  reason_message = [];
  blocked_by = [];
  out_body = codes "call me [NAME]";
  change_model = codes " gpt-4o-mini ";
}

-- The request is its body.
abbrev body : Text → Text
body t = t

abbrev evaluate : Text → Answer
evaluate t = responds response

abbrev input : FilterInput Text
input = record {
  enabled = true;
  vk_auth_present = true;
  client_ready = true;
  on_unavailable = deny;
  grpc_req = some (codes "call me Ann");
}

abbrev counters : Counters
counters = record {
  content_filter_unavailable_count = 0;
  content_filter_allowed = 0;
  content_filter_denied = 0;
  out_body_missing_400 = 0;
  forward_replaced_with_out_body = 0;
}

abbrev result : ContentFilterResult
result = record {
  forward_body = use_replaced (codes "call me [NAME]");
  change_model = some (codes "gpt-4o-mini");
}

passes : (evaluate_for_vk_request body evaluate input counters).0 ≡ ok result
unfolding evaluate_for_vk_request is_whitespace
passes = refl

-- A call that times out is counted twice if requests may pass without the service.
counts_twice :
    (evaluate_for_vk_request body
      (λ t. elapses)
      (record input { on_unavailable = allow })
      counters).1
    ≡ record counters { content_filter_unavailable_count = 2 }
unfolding evaluate_for_vk_request
counts_twice = refl

denial :
    build_content_policy_denied_message (codes " ") (codes " secrets ") (codes "dlp")
    ≡ codes "secrets (blocked_by: dlp)"
unfolding build_content_policy_denied_message is_whitespace
denial = refl

evaluate_for_vk_request-Passes_example :
    ((result ≡ unchanged)
      × (Unfiltered body evaluate input
          ⊎ ((input.on_unavailable ≡ allow) × Unavailable body evaluate input)))
    ⊎ ((input.enabled ≡ true) × Asked body evaluate input.grpc_req result)
evaluate_for_vk_request-Passes_example =
    evaluate_for_vk_request-Passes body evaluate input counters result passes
