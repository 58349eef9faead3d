-- ===== src/ContentFilter/Allowed.antt =====
-- When the content filter lets a request pass, and with which body.
use aiephant_ai_gateway.Common.{
  ◌≡◌, ◌≢◌, refl, ◌⊎◌, inl, inr, Bool, true, false, not, Option, none, some, [], ◌∷◌, Result, ok,
  err, arith, Bool-cases,
}
use aiephant_ai_gateway.Common.Text.{Text, codes, is_empty}
use aiephant_ai_gateway.ContentFilter.{
  OnUnavailable, deny, allow, ContentFilterForwardBody, use_original, use_replaced,
  ContentFilterResult, EvaluateResponse, Answer, responds, fails, elapses, Counters, unchanged,
  forward_body_for_allowed_evaluate_response, unavailable_on_failure, forwarded, denied,
  change_model_of, on_answer, FilterInput, ask, evaluate_for_vk_request,
}

-- The body to forward: the policy's own if one was sent to it, and the client's otherwise.
abbrev pub Forwards : Bool → Text → ContentFilterResult → Type 0
Forwards active out_body r =
    ((active ≡ false) × (r.forward_body ≡ use_original))
    ⊎ ((active ≡ true) × (out_body ≢ []) × (r.forward_body ≡ use_replaced out_body))

-- The service allowed the request.
abbrev pub AllowedBy : Bool → Answer → ContentFilterResult → Type 0
AllowedBy active answer r =
    (resp : EvaluateResponse) × (answer ≡ responds resp)
    × (resp.allowed ≡ true)
    × (r.change_model ≡ change_model_of resp.change_model)
    × Forwards active resp.out_body r

-- The call failed or took too long.
abbrev pub Unanswered : Answer → Type 0
Unanswered (responds resp) = ⊥
Unanswered (fails status) = Unit
Unanswered elapses = Unit

unavailable_on_failure-ok :
    (o : OnUnavailable) (message : Text) (m : Counters) (r : ContentFilterResult)
    → (unavailable_on_failure o message m).0 ≡ ok r
    → (o ≡ allow) × (r ≡ unchanged)
unfolding unavailable_on_failure
unavailable_on_failure-ok allow message m r e = ground arith
unavailable_on_failure-ok deny message m r e = cc e

forwarded-ok :
    (c : Option Text) (b : Result _ ContentFilterForwardBody) (m : Counters)
    (r : ContentFilterResult)
    → (forwarded c b m).0 ≡ ok r
    → (b ≡ ok r.forward_body) × (r.change_model ≡ c)
unfolding forwarded
forwarded-ok c (err x) m r e = cc e
forwarded-ok c (ok use_original) m r e = ground arith
forwarded-ok c (ok (use_replaced body)) m r e = ground arith

forward_body-Forwards :
    (active : Bool) (out_body reason_message reason : Text) (r : ContentFilterResult)
    → forward_body_for_allowed_evaluate_response active out_body reason_message reason
      ≡ ok r.forward_body
    → Forwards active out_body r
unfolding forward_body_for_allowed_evaluate_response
forward_body-Forwards false out_body reason_message reason r e = inl (refl, ground arith)
forward_body-Forwards true [] reason_message reason r e = cc e
forward_body-Forwards true (c ∷ s) reason_message reason r e = inr (refl, λ q. cc q, ground arith)

denied-fails :
    (resp : EvaluateResponse) (m : Counters) (r : ContentFilterResult) → (denied resp m).0 ≢ ok r
unfolding denied
denied-fails resp m r e = cc e

on_answer-ok :
    (o : OnUnavailable) (active : Bool) (answer : Answer) (m : Counters) (r : ContentFilterResult)
    → (on_answer o active answer m).0 ≡ ok r
    → ((o ≡ allow) × (r ≡ unchanged) × Unanswered answer) ⊎ AllowedBy active answer r
unfolding on_answer
on_answer-ok o active (fails status) m r e =
    let (lenient, same) = unavailable_on_failure-ok o status _ r e in inl (lenient, same, tt)
on_answer-ok o active elapses m r e =
    let (lenient, same) = unavailable_on_failure-ok o _ _ r e in inl (lenient, same, tt)
on_answer-ok o active (responds resp) m r e = elim (Bool-cases resp.allowed) [
  | inr no_ ↦ absurd (denied-fails resp m r (rw no_ at e))
  | inl yes_ ↦
      let (body, changed) =
        forwarded-ok (change_model_of resp.change_model)
          (forward_body_for_allowed_evaluate_response active resp.out_body resp.reason_message
            resp.reason)
          m r (rw yes_ at e) in
      inr (
        resp,
        refl,
        yes_,
        changed,
        forward_body-Forwards active resp.out_body resp.reason_message resp.reason r body,
      )
]

module _ {Request : Type 0} (body : Request → Text) (evaluate : Request → Answer) where
  -- The service allowed the request that was built.
  abbrev pub Asked : Option Request → ContentFilterResult → Type 0
  Asked none r = ⊥
  Asked (some req) r = AllowedBy (not (is_empty (body req))) (evaluate req) r

  -- Nothing is asked: the filter is off, no virtual key is there, or no request could be built.
  abbrev pub Unfiltered : FilterInput Request → Type 0
  Unfiltered i = (i.enabled ≡ false) ⊎ (i.vk_auth_present ≡ false) ⊎ (i.grpc_req ≡ none)

  -- The service cannot be asked, or does not answer.
  abbrev pub NoAnswer : Option Request → Type 0
  NoAnswer none = ⊥
  NoAnswer (some req) = Unanswered (evaluate req)

  abbrev pub Unavailable : FilterInput Request → Type 0
  Unavailable i = (i.client_ready ≡ false) ⊎ NoAnswer i.grpc_req

  ask-ok :
      (o : OnUnavailable) (req : Option Request) (m : Counters) (r : ContentFilterResult)
      → (ask body evaluate o req m).0 ≡ ok r
      → ((r ≡ unchanged) × (((o ≡ allow) × NoAnswer req) ⊎ (req ≡ none))) ⊎ Asked req r
  unfolding ask
  ask-ok o none m r e = inl (ground arith, inr refl)
  ask-ok o (some req) m r e =
      elim (on_answer-ok o (not (is_empty (body req))) (evaluate req) m r e) [
        | inl (lenient, same, silent) ↦ inl (same, inl (lenient, silent))
        | inr asked ↦ inr asked
      ]

  -- A request passes the filter only if nothing is asked about it, or the client of the service is not
  -- ready or the call failed or took too long and the gateway is configured to allow requests then, in
  -- which cases it goes on unchanged, or the service allowed it: then its model is replaced as the service says, and if its body was sent to the
  -- service, the non-empty body that came back is forwarded and never the original.
  pub evaluate_for_vk_request-Passes :
      (i : FilterInput Request) (m : Counters) (r : ContentFilterResult)
      → (evaluate_for_vk_request body evaluate i m).0 ≡ ok r
      → ((r ≡ unchanged) × (Unfiltered i ⊎ ((i.on_unavailable ≡ allow) × Unavailable i)))
        ⊎ ((i.enabled ≡ true) × Asked i.grpc_req r)
  unfolding evaluate_for_vk_request
  evaluate_for_vk_request-Passes i m r e = elim (Bool-cases i.enabled) [
    | inr off ↦ inl (ground (arith, rw off at e), inl (inl off))
    | inl on ↦ elim (Bool-cases i.vk_auth_present) [
      | inr off ↦ inl (ground (arith, rw (on, off) at e), inl (inr (inl off)))
      | inl vk ↦ elim (Bool-cases i.client_ready) [
        | inr off ↦
            let (lenient, same) =
              unavailable_on_failure-ok i.on_unavailable
                (codes "content filter client not initialised") m r (rw (on, vk, off) at e) in
            inl (same, inr (lenient, inl off))
        | inl ready ↦ elim (ask-ok i.on_unavailable i.grpc_req m r (rw (on, vk, ready) at e)) [
          | inl (same, inl (lenient, silent)) ↦ inl (same, inr (lenient, inr silent))
          | inl (same, inr missing) ↦ inl (same, inl (inr (inr missing)))
          | inr asked ↦ inr (on, asked)
        ]
      ]
    ]
  ]
