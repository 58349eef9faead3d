-- ===== src/MapperProfiles/Merge.antt =====
-- Patches and entries of the catalog merged, as a reference for patching one after the other.
use aiephant_ai_gateway.Common.{Option, none, some, option_or, unwrap_or}
use aiephant_ai_gateway.MapperProfiles.{
  MapperCapabilitiesPatch, RequestProfilePatch, ResponseProfilePatch, StreamProfilePatch,
  MapperProfileCatalogEntry, ProviderProtocolFamily,
}
use aiephant_ai_gateway.MapperProfiles.{for_provider}
use aiephant_ai_gateway.Provider.{InferenceProvider}

unfoldable pub merge_capabilities :
    MapperCapabilitiesPatch → MapperCapabilitiesPatch → MapperCapabilitiesPatch
merge_capabilities over base = record {
  openai_compatible = option_or over.openai_compatible base.openai_compatible;
  supports_response_format = option_or over.supports_response_format base.supports_response_format;
  supports_tool_choice = option_or over.supports_tool_choice base.supports_tool_choice;
  supports_parallel_tool_calls =
      option_or over.supports_parallel_tool_calls base.supports_parallel_tool_calls;
  supports_thinking = option_or over.supports_thinking base.supports_thinking;
  supports_streaming_reasoning =
      option_or over.supports_streaming_reasoning base.supports_streaming_reasoning;
}

unfoldable pub merge_request : RequestProfilePatch → RequestProfilePatch → RequestProfilePatch
merge_request over base = record {
  system_handling = option_or over.system_handling base.system_handling;
  message_content_mode = option_or over.message_content_mode base.message_content_mode;
  tool_choice_mode = option_or over.tool_choice_mode base.tool_choice_mode;
  response_format_mode = option_or over.response_format_mode base.response_format_mode;
  reasoning_mode = option_or over.reasoning_mode base.reasoning_mode;
  multimodal_mode = option_or over.multimodal_mode base.multimodal_mode;
}

unfoldable pub merge_response : ResponseProfilePatch → ResponseProfilePatch → ResponseProfilePatch
merge_response over base = record {
  content_mode = option_or over.content_mode base.content_mode;
  tool_call_mapping_mode = option_or over.tool_call_mapping_mode base.tool_call_mapping_mode;
  finish_reason_mapping_mode =
      option_or over.finish_reason_mapping_mode base.finish_reason_mapping_mode;
  usage_mapping_mode = option_or over.usage_mapping_mode base.usage_mapping_mode;
}

unfoldable pub merge_stream : StreamProfilePatch → StreamProfilePatch → StreamProfilePatch
merge_stream over base = record { stream_mode = option_or over.stream_mode base.stream_mode }

unfoldable pub merge_both : {A : Type 0} → (A → A → A) → Option A → Option A → Option A
merge_both f none base = base
merge_both f (some over) none = some over
merge_both f (some over) (some base) = some (f over base)

-- One entry from two: the fields of the first where it has them.
unfoldable pub merge_entry :
    MapperProfileCatalogEntry → MapperProfileCatalogEntry → MapperProfileCatalogEntry
unfolding merge_both merge_capabilities merge_request merge_response merge_stream
merge_entry over base = record {
  family = option_or over.family base.family;
  capabilities = merge_both merge_capabilities over.capabilities base.capabilities;
  request = merge_both merge_request over.request base.request;
  response = merge_both merge_response over.response base.response;
  stream = merge_both merge_stream over.stream base.stream;
}

unfoldable pub merged_over :
    Option MapperProfileCatalogEntry → MapperProfileCatalogEntry → MapperProfileCatalogEntry
unfolding merge_entry
merged_over none base = base
merged_over (some over) base = merge_entry over base

-- An entry that says nothing.
abbrev pub blank : MapperProfileCatalogEntry
blank = record {
  family = none;
  capabilities = none;
  request = none;
  response = none;
  stream = none;
}

-- The family of the model's entry over the provider's, or the one that the provider has by itself.
unfoldable pub merged_family :
    InferenceProvider
    → Option MapperProfileCatalogEntry
    → Option MapperProfileCatalogEntry
    → ProviderProtocolFamily
unfolding merged_over for_provider
merged_family provider provider_entry model_entry =
    let merged = merged_over model_entry (merged_over provider_entry blank) in
    unwrap_or merged.family (for_provider provider)
