-- ===== src/MapperProfiles/Tests.antt =====
-- One baseline for all families, a provider that has no tool choice, and a model that has thinking.
use aiephant_ai_gateway.Common.{◌≡◌, refl, true, false, none, some, [], ◌∷◌, err}
use aiephant_ai_gateway.MapperProfiles.{
  open_ai_compatible, anthropic_messages, bedrock_converse, gemini_open_ai_like, ollama_chat,
  SystemHandling, ToolChoiceMode, ResponseFormatMode, ReasoningMode, MultimodalMode, StreamMode,
  MessageContentMode, ResponseContentMode, ToolCallMappingMode, FinishReasonMappingMode,
  UsageMappingMode, MapperCapabilitiesPatch, RequestProfilePatch, MapperProfileCatalogEntry,
  MapperProfilesConfig,
}
use aiephant_ai_gateway.MapperProfiles.Resolve.{resolve_mapper_metadata}
use aiephant_ai_gateway.MapperProfiles.Validate.{tool_choice_capability_mismatch}
use aiephant_ai_gateway.Provider.{custom}

abbrev no_capabilities : MapperCapabilitiesPatch
no_capabilities = record {
  openai_compatible = none;
  supports_response_format = none;
  supports_tool_choice = none;
  supports_parallel_tool_calls = none;
  supports_thinking = none;
  supports_streaming_reasoning = none;
}

abbrev request : RequestProfilePatch
request = record {
  system_handling = some SystemHandling.ignore;
  message_content_mode = some MessageContentMode.open_ai_style;
  tool_choice_mode = some ToolChoiceMode.native;
  response_format_mode = some ResponseFormatMode.passthrough;
  reasoning_mode = some ReasoningMode.passthrough;
  multimodal_mode = some MultimodalMode.open_ai_style;
}

abbrev baseline : MapperProfileCatalogEntry
baseline = record {
  family = none;
  capabilities = some (record {
    openai_compatible = some true;
    supports_response_format = some true;
    supports_tool_choice = some true;
    supports_parallel_tool_calls = some true;
    supports_thinking = some false;
    supports_streaming_reasoning = some false;
  });
  request = some request;
  response = some (record {
    content_mode = some ResponseContentMode.passthrough;
    tool_call_mapping_mode = some ToolCallMappingMode.native;
    finish_reason_mapping_mode = some FinishReasonMappingMode.passthrough;
    usage_mapping_mode = some UsageMappingMode.passthrough;
  });
  stream = some (record { stream_mode = some StreamMode.open_ai_sse });
}

abbrev no_tools : MapperProfileCatalogEntry
no_tools = record {
  family = none;
  capabilities = some (record no_capabilities { supports_tool_choice = some false });
  request = none;
  response = none;
  stream = none;
}

abbrev config : MapperProfilesConfig
config = record {
  family_defaults =
      (open_ai_compatible, baseline)
      ∷ (anthropic_messages, baseline)
      ∷ (bedrock_converse, baseline)
      ∷ (gemini_open_ai_like, baseline)
      ∷ (ollama_chat, baseline)
      ∷ [];
  provider_defaults = (custom, no_tools) ∷ [];
  model_overrides = [];
}

-- The provider's patch makes its rules invalid.
refused :
    resolve_mapper_metadata config custom none
    ≡ some (err (tool_choice_capability_mismatch custom ToolChoiceMode.native))
unfolding resolve_mapper_metadata
refused = refl
