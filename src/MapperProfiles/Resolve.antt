-- ===== src/MapperProfiles/Resolve.antt =====
-- middleware/mapper/profile_resolver.rs: the layers of a model, its provider and its family, resolved.
use aiephant_ai_gateway.Common.{
  Option, none, some, option_or, unwrap_or, List, [], ◌∷◌, Result, ok, ◌>>=◌, ite, ℕ_discrete,
}
use aiephant_ai_gateway.Common.Text.{Text}
use aiephant_ai_gateway.MapperProfiles.{
  ProviderProtocolFamily, MapperProfileCatalogEntry, MapperProfilesConfig, ResolvedMapperMetadata,
  for_provider,
}
use aiephant_ai_gateway.MapperProfiles.Validate.{
  ProviderRuleValidationError, validate_provider_rules,
}
use aiephant_ai_gateway.Provider.{InferenceProvider, InferenceProvider-discrete}
use aiephant_ai_gateway.MapperProfiles.Patches.{
  expect, resolved_from_family_entry, apply_catalog_entry,
}

module _ {K V : Type 0} (dec : Discrete K) where
  unfoldable pub get : K → List (K × V) → Option V
  get k [] = none
  get k ((j, v) ∷ rest) = ite (dec j k) (some v) (get k rest)

unfoldable pub family_of : Option MapperProfileCatalogEntry → Option ProviderProtocolFamily
family_of none = none
family_of (some entry) = entry.family

unfoldable pub ProviderProtocolFamily-discrete : Discrete ProviderProtocolFamily
ProviderProtocolFamily-discrete = hlevel

unfoldable pub Text-discrete : Discrete Text
Text-discrete = hlevel ℕ_discrete

unfoldable pub override_for :
    Option Text → List (Text × MapperProfileCatalogEntry) → Option MapperProfileCatalogEntry
unfolding get Text-discrete
override_for none overrides = none
override_for (some name) overrides = get Text-discrete name overrides

unfoldable pub validated :
    Option ResolvedMapperMetadata
    → Option (Result ProviderRuleValidationError ResolvedMapperMetadata)
unfolding expect validate_provider_rules
validated o = expect o λ m. some (validate_provider_rules m.capabilities m.rules >>= λ u. ok m)

unfoldable pub apply_both :
    Option MapperProfileCatalogEntry
    → Option MapperProfileCatalogEntry
    → Option ResolvedMapperMetadata
    → Option ResolvedMapperMetadata
unfolding expect apply_catalog_entry
apply_both provider_entry model_entry o =
    expect o λ m. some (apply_catalog_entry model_entry (apply_catalog_entry provider_entry m))

unfoldable pub resolve_with :
    MapperProfilesConfig
    → InferenceProvider
    → Option MapperProfileCatalogEntry
    → Option MapperProfileCatalogEntry
    → ProviderProtocolFamily
    → Option (Result ProviderRuleValidationError ResolvedMapperMetadata)
unfolding get resolved_from_family_entry apply_both validated expect ProviderProtocolFamily-discrete
resolve_with config provider provider_entry model_entry family =
    expect (get ProviderProtocolFamily-discrete family config.family_defaults) λ family_entry.
      validated (
        apply_both provider_entry model_entry
          (resolved_from_family_entry provider family family_entry))

-- The model's family, or the provider's, or the one that the provider has by itself.
unfoldable pub chosen_family :
    InferenceProvider
    → Option MapperProfileCatalogEntry
    → Option MapperProfileCatalogEntry
    → ProviderProtocolFamily
unfolding family_of for_provider
chosen_family provider provider_entry model_entry =
    unwrap_or (option_or (family_of model_entry) (family_of provider_entry)) (for_provider provider)

-- `resolve_mapper_metadata_from_config`.
unfoldable pub resolve_mapper_metadata :
    MapperProfilesConfig
    → InferenceProvider
    → Option Text
    → Option (Result ProviderRuleValidationError ResolvedMapperMetadata)
unfolding get override_for chosen_family resolve_with InferenceProvider-discrete
resolve_mapper_metadata config provider model =
    let provider_entry = get InferenceProvider-discrete provider config.provider_defaults in
    let model_entry = override_for model config.model_overrides in
    resolve_with config provider provider_entry model_entry
      (chosen_family provider provider_entry model_entry)
