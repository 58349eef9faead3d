-- ===== src/MapperProfiles/Built.antt =====
-- Metadata that an entry gives, patched, is what the patched entry gives.
use aiephant_ai_gateway.Common.{◌≡◌, refl, Option, none, some, option_or, unwrap_or, arith}
use aiephant_ai_gateway.MapperProfiles.{
  ProviderProtocolFamily, MapperCapabilitiesPatch, RequestProfilePatch, ResponseProfilePatch,
  StreamProfilePatch, ProviderCapabilities, ProviderRuleSet, ResponseProfile,
  NonStreamFormatProfile, ResolvedMapperMetadata,
}
use aiephant_ai_gateway.MapperProfiles.Patches.{
  expect, finish_reason_mapping_from_mode, tool_call_mapping_from_mode, usage_mapping_from_mode,
  provider_capabilities_from_patch, provider_rules_from_patches, non_stream_profile_from_patches,
  apply_capabilities_patch, apply_request_patch, mapped, apply_response_patch, apply_stream_patch,
}
use aiephant_ai_gateway.Provider.{InferenceProvider}
use aiephant_ai_gateway.MapperProfiles.Merge.{
  merge_capabilities, merge_request, merge_response, merge_stream,
}

capabilities-filled :
    (p : InferenceProvider) (patch : MapperCapabilitiesPatch) (c : ProviderCapabilities)
    → provider_capabilities_from_patch p patch ≡ some c
    → (c.provider ≡ p)
      × (patch.openai_compatible ≡ some c.openai_compatible)
      × (patch.supports_response_format ≡ some c.supports_response_format)
      × (patch.supports_tool_choice ≡ some c.supports_tool_choice)
      × (patch.supports_parallel_tool_calls ≡ some c.supports_parallel_tool_calls)
      × (patch.supports_thinking ≡ some c.supports_thinking)
      × (patch.supports_streaming_reasoning ≡ some c.supports_streaming_reasoning)
unfolding provider_capabilities_from_patch expect
capabilities-filled p patch c e = ground (arith, e)

mapped-unwrap_or :
    {A B : Type 0} (f : A → B) (o : Option A) (a : A) → mapped f o (f a) ≡ f (unwrap_or o a)
unfolding mapped
mapped-unwrap_or f none a = refl
mapped-unwrap_or f (some b) a = refl

layered :
    {A : Type 0} (o base : Option A) (a : A)
    → base ≡ some a
    → option_or o base ≡ some (unwrap_or o a)
layered none base a e = e
layered (some b) base a e = refl

capabilities-merge :
    (p : InferenceProvider) (over patch : MapperCapabilitiesPatch) (c : ProviderCapabilities)
    → provider_capabilities_from_patch p patch ≡ some c
    → provider_capabilities_from_patch p (merge_capabilities over patch)
      ≡ some (apply_capabilities_patch over c)
unfolding provider_capabilities_from_patch expect merge_capabilities apply_capabilities_patch
capabilities-merge p over patch c e =
    let (own, f1, f2, f3, f4, f5, f6) = capabilities-filled p patch c e in
    rw
      (
        layered over.openai_compatible patch.openai_compatible c.openai_compatible f1,
        layered over.supports_response_format patch.supports_response_format
            c.supports_response_format f2,
        layered over.supports_tool_choice patch.supports_tool_choice c.supports_tool_choice f3,
        layered over.supports_parallel_tool_calls patch.supports_parallel_tool_calls
            c.supports_parallel_tool_calls f4,
        layered over.supports_thinking patch.supports_thinking c.supports_thinking f5,
        layered over.supports_streaming_reasoning patch.supports_streaming_reasoning
            c.supports_streaming_reasoning f6,
      )
      (cc own)

pub profile-filled :
    (p : InferenceProvider) (f : ProviderProtocolFamily) (rq : RequestProfilePatch)
    (rs : ResponseProfilePatch) (n : NonStreamFormatProfile)
    → non_stream_profile_from_patches p f rq rs ≡ some n
    → (n.provider ≡ p)
      × (n.family ≡ f)
      × (rq.system_handling ≡ some n.request.system_handling)
      × (rq.message_content_mode ≡ some n.request.message_content_mode)
      × (rq.tool_choice_mode ≡ some n.request.tool_choice_mode)
      × (rq.response_format_mode ≡ some n.request.response_format_mode)
      × (rq.reasoning_mode ≡ some n.request.reasoning_mode)
      × (rq.multimodal_mode ≡ some n.request.multimodal_mode)
      × (rs.content_mode ≡ some n.response.content_mode)
      × (rs.tool_call_mapping_mode ≡ some n.response.tool_call_mapping_mode)
      × (rs.finish_reason_mapping_mode ≡ some n.response.finish_reason_mapping_mode)
      × (rs.usage_mapping_mode ≡ some n.response.usage_mapping_mode)
unfolding non_stream_profile_from_patches expect
profile-filled p f rq rs n e = ground (arith, e)

pub rules-filled :
    (p : InferenceProvider) (f : ProviderProtocolFamily) (rq : RequestProfilePatch)
    (rs : ResponseProfilePatch) (st : StreamProfilePatch) (r : ProviderRuleSet)
    (n : ResponseProfile)
    → provider_rules_from_patches p f rq rs st ≡ some r
    → rs.finish_reason_mapping_mode ≡ some n.finish_reason_mapping_mode
    → rs.tool_call_mapping_mode ≡ some n.tool_call_mapping_mode
    → rs.usage_mapping_mode ≡ some n.usage_mapping_mode
    → (r.provider ≡ p)
      × (r.family ≡ f)
      × (rq.system_handling ≡ some r.request.system_handling)
      × (rq.tool_choice_mode ≡ some r.request.tool_choice_mode)
      × (rq.response_format_mode ≡ some r.request.response_format_mode)
      × (rq.reasoning_mode ≡ some r.request.reasoning_mode)
      × (rq.multimodal_mode ≡ some r.request.multimodal_mode)
      × (r.response.finish_reason_mapping
          ≡ finish_reason_mapping_from_mode n.finish_reason_mapping_mode)
      × (r.response.tool_call_mapping ≡ tool_call_mapping_from_mode n.tool_call_mapping_mode)
      × (r.response.usage_mapping ≡ usage_mapping_from_mode n.usage_mapping_mode)
      × (st.stream_mode ≡ some r.stream.stream_mode)
unfolding provider_rules_from_patches expect
rules-filled p f rq rs st r n e a b u = ground (arith, rw (a, b, u) at e)

-- The metadata is what the family's entry with these parts gives.
abbrev pub Built :
    InferenceProvider
    → ProviderProtocolFamily
    → MapperCapabilitiesPatch
    → RequestProfilePatch
    → ResponseProfilePatch
    → StreamProfilePatch
    → ResolvedMapperMetadata
    → Type 0
Built p f cp rq rs st m =
    (provider_capabilities_from_patch p cp ≡ some m.capabilities)
    × (provider_rules_from_patches p f rq rs st ≡ some m.rules)
    × (non_stream_profile_from_patches p f rq rs ≡ some m.non_stream_profile)

module _ (p : InferenceProvider) (f : ProviderProtocolFamily) (cp : MapperCapabilitiesPatch)
    (rq : RequestProfilePatch) (rs : ResponseProfilePatch) (st : StreamProfilePatch)
    (m : ResolvedMapperMetadata) where
  pub Built-capabilities :
      (over : MapperCapabilitiesPatch)
      → Built p f cp rq rs st m
      → Built p f
          (merge_capabilities over cp)
          rq
          rs
          st
          (record m { capabilities = apply_capabilities_patch over m.capabilities })
  Built-capabilities over (c, r, n) = (capabilities-merge p over cp m.capabilities c, r, n)

  pub Built-stream :
      (over : StreamProfilePatch)
      → Built p f cp rq rs st m
      → Built p f cp rq rs (merge_stream over st) (apply_stream_patch over m)
  unfolding merge_stream apply_stream_patch
  Built-stream over (c, r, n) =
      let (np, nf, q0, q1, q2, q3, q4, q5, s0, s1, s2, s3) =
        profile-filled p f rq rs m.non_stream_profile n in
      let (rp, rf, k0, k1, k2, k3, k4, x0, x1, x2, t) =
        rules-filled p f rq rs st m.rules m.non_stream_profile.response r s2 s1 s3 in
      (
        c,
        unfold provider_rules_from_patches expect in
            rw
              (
                layered over.stream_mode st.stream_mode m.rules.stream.stream_mode t,
                k0,
                k1,
                k2,
                k3,
                k4,
                s2,
                s1,
                s3,
              )
              (ground (arith, rp, rf, x0, x1, x2)),
        n,
      )

  pub Built-request :
      (over : RequestProfilePatch)
      → Built p f cp rq rs st m
      → Built p f cp (merge_request over rq) rs st (apply_request_patch over m)
  unfolding merge_request apply_request_patch
  Built-request over (c, r, n) =
      let (np, nf, q0, q1, q2, q3, q4, q5, s0, s1, s2, s3) =
        profile-filled p f rq rs m.non_stream_profile n in
      let (rp, rf, k0, k1, k2, k3, k4, x0, x1, x2, t) =
        rules-filled p f rq rs st m.rules m.non_stream_profile.response r s2 s1 s3 in
      (
        c,
        unfold provider_rules_from_patches expect in
            rw
              (
                layered over.system_handling rq.system_handling m.rules.request.system_handling k0,
                layered over.tool_choice_mode rq.tool_choice_mode m.rules.request.tool_choice_mode
                    k1,
                layered over.response_format_mode rq.response_format_mode
                    m.rules.request.response_format_mode k2,
                layered over.reasoning_mode rq.reasoning_mode m.rules.request.reasoning_mode k3,
                layered over.multimodal_mode rq.multimodal_mode m.rules.request.multimodal_mode k4,
                s2,
                s1,
                s3,
                t,
              )
              (ground (arith, rp, rf, x0, x1, x2)),
        unfold non_stream_profile_from_patches expect in
            rw
              (
                layered over.system_handling rq.system_handling
                    m.non_stream_profile.request.system_handling q0,
                layered over.message_content_mode rq.message_content_mode
                    m.non_stream_profile.request.message_content_mode q1,
                layered over.tool_choice_mode rq.tool_choice_mode
                    m.non_stream_profile.request.tool_choice_mode q2,
                layered over.response_format_mode rq.response_format_mode
                    m.non_stream_profile.request.response_format_mode q3,
                layered over.reasoning_mode rq.reasoning_mode
                    m.non_stream_profile.request.reasoning_mode q4,
                layered over.multimodal_mode rq.multimodal_mode
                    m.non_stream_profile.request.multimodal_mode q5,
                s0,
                s1,
                s2,
                s3,
              )
              (ground (arith, np, nf)),
      )

  pub Built-response :
      (over : ResponseProfilePatch)
      → Built p f cp rq rs st m
      → Built p f cp rq (merge_response over rs) st (apply_response_patch over m)
  unfolding merge_response apply_response_patch
  Built-response over (c, r, n) =
      let (np, nf, q0, q1, q2, q3, q4, q5, s0, s1, s2, s3) =
        profile-filled p f rq rs m.non_stream_profile n in
      let (rp, rf, k0, k1, k2, k3, k4, x0, x1, x2, t) =
        rules-filled p f rq rs st m.rules m.non_stream_profile.response r s2 s1 s3 in
      (
        c,
        unfold provider_rules_from_patches expect in
            rw
              (
                k0,
                k1,
                k2,
                k3,
                k4,
                layered over.finish_reason_mapping_mode rs.finish_reason_mapping_mode
                    m.non_stream_profile.response.finish_reason_mapping_mode s2,
                layered over.tool_call_mapping_mode rs.tool_call_mapping_mode
                    m.non_stream_profile.response.tool_call_mapping_mode s1,
                layered over.usage_mapping_mode rs.usage_mapping_mode
                    m.non_stream_profile.response.usage_mapping_mode s3,
                t,
              )
              (ground (
                arith,
                rp,
                rf,
                x0,
                x1,
                x2,
                mapped-unwrap_or finish_reason_mapping_from_mode over.finish_reason_mapping_mode
                    m.non_stream_profile.response.finish_reason_mapping_mode,
                mapped-unwrap_or tool_call_mapping_from_mode over.tool_call_mapping_mode
                    m.non_stream_profile.response.tool_call_mapping_mode,
                mapped-unwrap_or usage_mapping_from_mode over.usage_mapping_mode
                    m.non_stream_profile.response.usage_mapping_mode,
              )),
        unfold non_stream_profile_from_patches expect in
            rw
              (
                q0,
                q1,
                q2,
                q3,
                q4,
                q5,
                layered over.content_mode rs.content_mode m.non_stream_profile.response.content_mode
                    s0,
                layered over.tool_call_mapping_mode rs.tool_call_mapping_mode
                    m.non_stream_profile.response.tool_call_mapping_mode s1,
                layered over.finish_reason_mapping_mode rs.finish_reason_mapping_mode
                    m.non_stream_profile.response.finish_reason_mapping_mode s2,
                layered over.usage_mapping_mode rs.usage_mapping_mode
                    m.non_stream_profile.response.usage_mapping_mode s3,
              )
              (ground (arith, np, nf)),
      )
