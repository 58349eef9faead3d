-- ===== src/MapperProfiles.antt =====
-- config/mapper_profiles.rs and middleware/mapper/{capabilities,families,rules,non_stream_profile}.rs:
-- how the mapper treats a provider and a model, laid out in three layers of patches.
pub mod Patches
pub mod Resolve
pub mod Validate
pub mod Merge
pub mod Complete
pub mod Built
pub mod Layers
pub mod Tests
use aiephant_ai_gateway.Common.{Bool, Option, List}
use aiephant_ai_gateway.Common.Text.{Text}
use aiephant_ai_gateway.Provider.{
  InferenceProvider, open_ai, anthropic, bedrock, ollama, google_gemini, custom, named,
}

pub data ProviderProtocolFamily : Type 0 where
  open_ai_compatible anthropic_messages bedrock_converse gemini_open_ai_like ollama_chat :
      ProviderProtocolFamily

pub data SystemHandling : Type 0 where
  ignore merge first_class_field : SystemHandling

pub data ToolChoiceMode : Type 0 where
  native map_to_any map_to_tool unsupported : ToolChoiceMode

pub data ResponseFormatMode : Type 0 where
  passthrough unsupported provider_specific_helper : ResponseFormatMode

pub data ReasoningMode : Type 0 where
  passthrough map_to_thinking map_to_additional_fields unsupported : ReasoningMode

pub data MultimodalMode : Type 0 where
  open_ai_style content_blocks images_only unsupported : MultimodalMode

pub data FinishReasonMapping : Type 0 where
  passthrough provider_specific : FinishReasonMapping

pub data ToolCallMapping : Type 0 where
  native provider_specific : ToolCallMapping

pub data UsageMapping : Type 0 where
  passthrough provider_specific : UsageMapping

pub data StreamMode : Type 0 where
  open_ai_sse anthropic_events bedrock_event_stream : StreamMode

pub data MessageContentMode : Type 0 where
  open_ai_style anthropic_blocks bedrock_content : MessageContentMode

pub data ResponseContentMode : Type 0 where
  passthrough anthropic_message_content bedrock_output_message : ResponseContentMode

pub data ToolCallMappingMode : Type 0 where
  native provider_specific_helper : ToolCallMappingMode

pub data FinishReasonMappingMode : Type 0 where
  passthrough provider_specific_helper : FinishReasonMappingMode

pub data UsageMappingMode : Type 0 where
  passthrough provider_specific_helper : UsageMappingMode

pub record MapperCapabilitiesPatch : Type 0 where
  pub openai_compatible : Option Bool
  pub supports_response_format : Option Bool
  pub supports_tool_choice : Option Bool
  pub supports_parallel_tool_calls : Option Bool
  pub supports_thinking : Option Bool
  pub supports_streaming_reasoning : Option Bool

pub record RequestProfilePatch : Type 0 where
  pub system_handling : Option SystemHandling
  pub message_content_mode : Option MessageContentMode
  pub tool_choice_mode : Option ToolChoiceMode
  pub response_format_mode : Option ResponseFormatMode
  pub reasoning_mode : Option ReasoningMode
  pub multimodal_mode : Option MultimodalMode

pub record ResponseProfilePatch : Type 0 where
  pub content_mode : Option ResponseContentMode
  pub tool_call_mapping_mode : Option ToolCallMappingMode
  pub finish_reason_mapping_mode : Option FinishReasonMappingMode
  pub usage_mapping_mode : Option UsageMappingMode

pub record StreamProfilePatch : Type 0 where
  pub stream_mode : Option StreamMode

pub record MapperProfileCatalogEntry : Type 0 where
  pub family : Option ProviderProtocolFamily
  pub capabilities : Option MapperCapabilitiesPatch
  pub request : Option RequestProfilePatch
  pub response : Option ResponseProfilePatch
  pub stream : Option StreamProfilePatch

-- The maps keep one entry for a key.
pub record MapperProfilesConfig : Type 0 where
  pub family_defaults : List (ProviderProtocolFamily × MapperProfileCatalogEntry)
  pub provider_defaults : List (InferenceProvider × MapperProfileCatalogEntry)
  pub model_overrides : List (Text × MapperProfileCatalogEntry)

pub record ProviderCapabilities : Type 0 where
  pub provider : InferenceProvider
  pub openai_compatible : Bool
  pub supports_response_format : Bool
  pub supports_tool_choice : Bool
  pub supports_parallel_tool_calls : Bool
  pub supports_thinking : Bool
  pub supports_streaming_reasoning : Bool

pub record ProviderRequestRuleSet : Type 0 where
  pub system_handling : SystemHandling
  pub tool_choice_mode : ToolChoiceMode
  pub response_format_mode : ResponseFormatMode
  pub reasoning_mode : ReasoningMode
  pub multimodal_mode : MultimodalMode

pub record ProviderResponseRuleSet : Type 0 where
  pub finish_reason_mapping : FinishReasonMapping
  pub tool_call_mapping : ToolCallMapping
  pub usage_mapping : UsageMapping

pub record ProviderStreamRuleSet : Type 0 where
  pub stream_mode : StreamMode

pub record ProviderRuleSet : Type 0 where
  pub provider : InferenceProvider
  pub family : ProviderProtocolFamily
  pub request : ProviderRequestRuleSet
  pub response : ProviderResponseRuleSet
  pub stream : ProviderStreamRuleSet

pub record RequestProfile : Type 0 where
  pub system_handling : SystemHandling
  pub message_content_mode : MessageContentMode
  pub tool_choice_mode : ToolChoiceMode
  pub response_format_mode : ResponseFormatMode
  pub reasoning_mode : ReasoningMode
  pub multimodal_mode : MultimodalMode

pub record ResponseProfile : Type 0 where
  pub content_mode : ResponseContentMode
  pub tool_call_mapping_mode : ToolCallMappingMode
  pub finish_reason_mapping_mode : FinishReasonMappingMode
  pub usage_mapping_mode : UsageMappingMode

pub record NonStreamFormatProfile : Type 0 where
  pub provider : InferenceProvider
  pub family : ProviderProtocolFamily
  pub request : RequestProfile
  pub response : ResponseProfile

pub record ResolvedMapperMetadata : Type 0 where
  pub capabilities : ProviderCapabilities
  pub rules : ProviderRuleSet
  pub non_stream_profile : NonStreamFormatProfile

unfoldable pub for_provider : InferenceProvider → ProviderProtocolFamily
for_provider open_ai = open_ai_compatible
for_provider custom = open_ai_compatible
for_provider (named name) = open_ai_compatible
for_provider anthropic = anthropic_messages
for_provider bedrock = bedrock_converse
for_provider google_gemini = gemini_open_ai_like
for_provider ollama = ollama_chat
