-- ===== src/MapperProfiles/Patches.antt =====
-- middleware/mapper/profile_resolver.rs: metadata made of a family's entry, and patched.
use aiephant_ai_gateway.Common.{Option, none, some, unwrap_or}
use aiephant_ai_gateway.MapperProfiles.{
  ProviderProtocolFamily, FinishReasonMapping, ToolCallMapping, UsageMapping, ToolCallMappingMode,
  FinishReasonMappingMode, UsageMappingMode, MapperCapabilitiesPatch, RequestProfilePatch,
  ResponseProfilePatch, StreamProfilePatch, MapperProfileCatalogEntry, ProviderCapabilities,
  ProviderRuleSet, NonStreamFormatProfile, ResolvedMapperMetadata,
}
use aiephant_ai_gateway.Provider.{InferenceProvider}

-- `none` is a panic: an `expect` on what the family's baseline does not define.
unfoldable pub expect : {A B : Type 0} → Option A → (A → Option B) → Option B
expect none f = none
expect (some a) f = f a

infixl 5 ◌>>=◌
abbrev pub ◌>>=◌ : {A B : Type 0} → Option A → (A → Option B) → Option B
o >>= f = expect o f

unfoldable pub finish_reason_mapping_from_mode : FinishReasonMappingMode → FinishReasonMapping
finish_reason_mapping_from_mode FinishReasonMappingMode.passthrough =
    FinishReasonMapping.passthrough
finish_reason_mapping_from_mode FinishReasonMappingMode.provider_specific_helper =
    FinishReasonMapping.provider_specific

unfoldable pub tool_call_mapping_from_mode : ToolCallMappingMode → ToolCallMapping
tool_call_mapping_from_mode ToolCallMappingMode.native = ToolCallMapping.native
tool_call_mapping_from_mode ToolCallMappingMode.provider_specific_helper =
    ToolCallMapping.provider_specific

unfoldable pub usage_mapping_from_mode : UsageMappingMode → UsageMapping
usage_mapping_from_mode UsageMappingMode.passthrough = UsageMapping.passthrough
usage_mapping_from_mode UsageMappingMode.provider_specific_helper = UsageMapping.provider_specific

unfoldable pub provider_capabilities_from_patch :
    InferenceProvider → MapperCapabilitiesPatch → Option ProviderCapabilities
unfolding expect
provider_capabilities_from_patch provider patch = do
  openai_compatible ← patch.openai_compatible
  supports_response_format ← patch.supports_response_format
  supports_tool_choice ← patch.supports_tool_choice
  supports_parallel_tool_calls ← patch.supports_parallel_tool_calls
  supports_thinking ← patch.supports_thinking
  supports_streaming_reasoning ← patch.supports_streaming_reasoning
  some (record {
    provider = provider;
    openai_compatible = openai_compatible;
    supports_response_format = supports_response_format;
    supports_tool_choice = supports_tool_choice;
    supports_parallel_tool_calls = supports_parallel_tool_calls;
    supports_thinking = supports_thinking;
    supports_streaming_reasoning = supports_streaming_reasoning;
  })

-- The rules, of the fields of the request and the response that they have.
unfoldable pub provider_rules_from_patches :
    InferenceProvider
    → ProviderProtocolFamily
    → RequestProfilePatch
    → ResponseProfilePatch
    → StreamProfilePatch
    → Option ProviderRuleSet
unfolding expect finish_reason_mapping_from_mode tool_call_mapping_from_mode usage_mapping_from_mode
provider_rules_from_patches provider family request response stream = do
  system_handling ← request.system_handling
  tool_choice_mode ← request.tool_choice_mode
  response_format_mode ← request.response_format_mode
  reasoning_mode ← request.reasoning_mode
  multimodal_mode ← request.multimodal_mode
  finish_reason_mapping_mode ← response.finish_reason_mapping_mode
  tool_call_mapping_mode ← response.tool_call_mapping_mode
  usage_mapping_mode ← response.usage_mapping_mode
  stream_mode ← stream.stream_mode
  some (record {
    provider = provider;
    family = family;
    request = record {
      system_handling = system_handling;
      tool_choice_mode = tool_choice_mode;
      response_format_mode = response_format_mode;
      reasoning_mode = reasoning_mode;
      multimodal_mode = multimodal_mode;
    };
    response = record {
      finish_reason_mapping = finish_reason_mapping_from_mode finish_reason_mapping_mode;
      tool_call_mapping = tool_call_mapping_from_mode tool_call_mapping_mode;
      usage_mapping = usage_mapping_from_mode usage_mapping_mode;
    };
    stream = record { stream_mode = stream_mode };
  })

unfoldable pub non_stream_profile_from_patches :
    InferenceProvider
    → ProviderProtocolFamily
    → RequestProfilePatch
    → ResponseProfilePatch
    → Option NonStreamFormatProfile
unfolding expect
non_stream_profile_from_patches provider family request response = do
  system_handling ← request.system_handling
  message_content_mode ← request.message_content_mode
  tool_choice_mode ← request.tool_choice_mode
  response_format_mode ← request.response_format_mode
  reasoning_mode ← request.reasoning_mode
  multimodal_mode ← request.multimodal_mode
  content_mode ← response.content_mode
  tool_call_mapping_mode ← response.tool_call_mapping_mode
  finish_reason_mapping_mode ← response.finish_reason_mapping_mode
  usage_mapping_mode ← response.usage_mapping_mode
  some (record {
    provider = provider;
    family = family;
    request = record {
      system_handling = system_handling;
      message_content_mode = message_content_mode;
      tool_choice_mode = tool_choice_mode;
      response_format_mode = response_format_mode;
      reasoning_mode = reasoning_mode;
      multimodal_mode = multimodal_mode;
    };
    response = record {
      content_mode = content_mode;
      tool_call_mapping_mode = tool_call_mapping_mode;
      finish_reason_mapping_mode = finish_reason_mapping_mode;
      usage_mapping_mode = usage_mapping_mode;
    };
  })

unfoldable pub resolved_from_family_entry :
    InferenceProvider
    → ProviderProtocolFamily
    → MapperProfileCatalogEntry
    → Option ResolvedMapperMetadata
unfolding expect provider_capabilities_from_patch provider_rules_from_patches
    non_stream_profile_from_patches
resolved_from_family_entry provider family entry = expect entry.capabilities λ capabilities_patch.
    do
      request_patch ← entry.request
      response_patch ← entry.response
      stream_patch ← entry.stream
      capabilities ← (provider_capabilities_from_patch provider capabilities_patch)
      expect (provider_rules_from_patches provider family request_patch response_patch stream_patch)
          λ rules.
            expect (non_stream_profile_from_patches provider family request_patch response_patch)
              λ profile. some (record {
                capabilities = capabilities;
                rules = rules;
                non_stream_profile = profile;
              })

-- A field that the patch has is overwritten.
unfoldable pub apply_capabilities_patch :
    MapperCapabilitiesPatch → ProviderCapabilities → ProviderCapabilities
apply_capabilities_patch patch c = record {
  provider = c.provider;
  openai_compatible = unwrap_or patch.openai_compatible c.openai_compatible;
  supports_response_format = unwrap_or patch.supports_response_format c.supports_response_format;
  supports_tool_choice = unwrap_or patch.supports_tool_choice c.supports_tool_choice;
  supports_parallel_tool_calls =
      unwrap_or patch.supports_parallel_tool_calls c.supports_parallel_tool_calls;
  supports_thinking = unwrap_or patch.supports_thinking c.supports_thinking;
  supports_streaming_reasoning =
      unwrap_or patch.supports_streaming_reasoning c.supports_streaming_reasoning;
}

unfoldable pub apply_request_patch :
    RequestProfilePatch → ResolvedMapperMetadata → ResolvedMapperMetadata
apply_request_patch patch m =
    let rules = m.rules.request in
    let profile = m.non_stream_profile.request in
    record m {
      rules = record m.rules {
        request = record {
          system_handling = unwrap_or patch.system_handling rules.system_handling;
          tool_choice_mode = unwrap_or patch.tool_choice_mode rules.tool_choice_mode;
          response_format_mode = unwrap_or patch.response_format_mode rules.response_format_mode;
          reasoning_mode = unwrap_or patch.reasoning_mode rules.reasoning_mode;
          multimodal_mode = unwrap_or patch.multimodal_mode rules.multimodal_mode;
        };
      };
      non_stream_profile = record m.non_stream_profile {
        request = record {
          system_handling = unwrap_or patch.system_handling profile.system_handling;
          message_content_mode = unwrap_or patch.message_content_mode profile.message_content_mode;
          tool_choice_mode = unwrap_or patch.tool_choice_mode profile.tool_choice_mode;
          response_format_mode = unwrap_or patch.response_format_mode profile.response_format_mode;
          reasoning_mode = unwrap_or patch.reasoning_mode profile.reasoning_mode;
          multimodal_mode = unwrap_or patch.multimodal_mode profile.multimodal_mode;
        };
      };
    }

-- The mode of the patch as a mapping, or the mapping before.
unfoldable pub mapped : {A B : Type 0} → (A → B) → Option A → B → B
mapped f none b = b
mapped f (some a) b = f a

unfoldable pub apply_response_patch :
    ResponseProfilePatch → ResolvedMapperMetadata → ResolvedMapperMetadata
unfolding mapped finish_reason_mapping_from_mode tool_call_mapping_from_mode usage_mapping_from_mode
apply_response_patch patch m =
    let rules = m.rules.response in
    let profile = m.non_stream_profile.response in
    record m {
      rules = record m.rules {
        response = record {
          finish_reason_mapping =
              mapped finish_reason_mapping_from_mode patch.finish_reason_mapping_mode
                rules.finish_reason_mapping;
          tool_call_mapping =
              mapped tool_call_mapping_from_mode patch.tool_call_mapping_mode
                rules.tool_call_mapping;
          usage_mapping =
              mapped usage_mapping_from_mode patch.usage_mapping_mode rules.usage_mapping;
        };
      };
      non_stream_profile = record m.non_stream_profile {
        response = record {
          content_mode = unwrap_or patch.content_mode profile.content_mode;
          tool_call_mapping_mode =
              unwrap_or patch.tool_call_mapping_mode profile.tool_call_mapping_mode;
          finish_reason_mapping_mode =
              unwrap_or patch.finish_reason_mapping_mode profile.finish_reason_mapping_mode;
          usage_mapping_mode = unwrap_or patch.usage_mapping_mode profile.usage_mapping_mode;
        };
      };
    }

unfoldable pub apply_stream_patch :
    StreamProfilePatch → ResolvedMapperMetadata → ResolvedMapperMetadata
apply_stream_patch patch m = record m {
  rules = record m.rules {
    stream = record { stream_mode = unwrap_or patch.stream_mode m.rules.stream.stream_mode };
  };
}

-- `if let Some(patch)`.
unfoldable pub if_some :
    {A : Type 0}
    → (A → ResolvedMapperMetadata → ResolvedMapperMetadata)
    → Option A
    → ResolvedMapperMetadata
    → ResolvedMapperMetadata
if_some f none m = m
if_some f (some a) m = f a m

unfoldable pub apply_entry :
    MapperProfileCatalogEntry → ResolvedMapperMetadata → ResolvedMapperMetadata
unfolding if_some apply_capabilities_patch apply_request_patch apply_response_patch
    apply_stream_patch
apply_entry entry m = if_some apply_stream_patch entry.stream (
    if_some apply_response_patch entry.response (
      if_some apply_request_patch entry.request (
        if_some
          (λ patch n. record n { capabilities = apply_capabilities_patch patch n.capabilities })
          entry.capabilities m)))

unfoldable pub apply_catalog_entry :
    Option MapperProfileCatalogEntry → ResolvedMapperMetadata → ResolvedMapperMetadata
unfolding if_some apply_entry
apply_catalog_entry entry m = if_some apply_entry entry m
