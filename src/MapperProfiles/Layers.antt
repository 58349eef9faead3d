-- ===== src/MapperProfiles/Layers.antt =====
-- The layers of patches come to one patch.
use aiephant_ai_gateway.Common.{◌≡◌, Option, none, some, Result}
use aiephant_ai_gateway.Common.Text.{Text}
use aiephant_ai_gateway.MapperProfiles.{
  ProviderProtocolFamily, MapperProfileCatalogEntry, MapperProfilesConfig, ResolvedMapperMetadata,
}
use aiephant_ai_gateway.MapperProfiles.Patches.{
  expect, finish_reason_mapping_from_mode, tool_call_mapping_from_mode, usage_mapping_from_mode,
  resolved_from_family_entry,
}
use aiephant_ai_gateway.MapperProfiles.Resolve.{
  get, ProviderProtocolFamily-discrete, override_for, validated,
}
use aiephant_ai_gateway.MapperProfiles.Validate.{ProviderRuleValidationError}
use aiephant_ai_gateway.Provider.{InferenceProvider, InferenceProvider-discrete}
use aiephant_ai_gateway.MapperProfiles.Merge.{merged_over, merged_family}
use aiephant_ai_gateway.MapperProfiles.Complete.{IsComplete}
use aiephant_ai_gateway.MapperProfiles.Built.{Built}

-- A patch over one that is there.
abbrev onto : {A : Type 0} → (A → A → A) → Option A → A → A
onto f none base = base
onto f (some over) base = f over base

unfoldable pub merged_with :
    MapperProfilesConfig
    → InferenceProvider
    → Option MapperProfileCatalogEntry
    → Option MapperProfileCatalogEntry
    → ProviderProtocolFamily
    → Option (Result ProviderRuleValidationError ResolvedMapperMetadata)
unfolding merged_over
merged_with config provider provider_entry model_entry family =
    expect (get ProviderProtocolFamily-discrete family config.family_defaults) λ base. validated (
      resolved_from_family_entry provider family
        (merged_over model_entry (merged_over provider_entry base)))

-- The entry of the model, where it has a field, over the entry of the provider, over that of the
-- family.
unfoldable pub resolve_merged :
    MapperProfilesConfig
    → InferenceProvider
    → Option Text
    → Option (Result ProviderRuleValidationError ResolvedMapperMetadata)
unfolding merged_with
resolve_merged config provider model =
    let provider_entry = get InferenceProvider-discrete provider config.provider_defaults in
    let model_entry = override_for model config.model_overrides in
    merged_with config provider provider_entry model_entry
      (merged_family provider provider_entry model_entry)

-- The rules and the profile of the metadata say the same.
abbrev pub Agrees : ResolvedMapperMetadata → Type 0
Agrees m =
    (m.rules.family ≡ m.non_stream_profile.family)
    × (m.rules.request.system_handling ≡ m.non_stream_profile.request.system_handling)
    × (m.rules.request.tool_choice_mode ≡ m.non_stream_profile.request.tool_choice_mode)
    × (m.rules.request.response_format_mode ≡ m.non_stream_profile.request.response_format_mode)
    × (m.rules.request.reasoning_mode ≡ m.non_stream_profile.request.reasoning_mode)
    × (m.rules.request.multimodal_mode ≡ m.non_stream_profile.request.multimodal_mode)
    × (m.rules.response.finish_reason_mapping
        ≡ finish_reason_mapping_from_mode m.non_stream_profile.response.finish_reason_mapping_mode)
    × (m.rules.response.tool_call_mapping
        ≡ tool_call_mapping_from_mode m.non_stream_profile.response.tool_call_mapping_mode)
    × (m.rules.response.usage_mapping
        ≡ usage_mapping_from_mode m.non_stream_profile.response.usage_mapping_mode)

-- Every family has a baseline in which nothing is missing.
abbrev pub HasBaselines : MapperProfilesConfig → Type 0
HasBaselines config =
    (family : ProviderProtocolFamily)
    → (entry : MapperProfileCatalogEntry) × (get ProviderProtocolFamily-discrete family
          config.family_defaults
        ≡ some entry)
      × IsComplete entry
