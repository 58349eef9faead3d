-- ===== src/MapperProfiles/Complete.antt =====
-- Entries that define every field, which the baseline of a family has to be.
use aiephant_ai_gateway.Common.{◌≡◌, refl, Bool, true, ◌&&◌, Option, none, some, is_some, arith}
use aiephant_ai_gateway.MapperProfiles.{
  ProviderProtocolFamily, MapperCapabilitiesPatch, RequestProfilePatch, ResponseProfilePatch,
  StreamProfilePatch, MapperProfileCatalogEntry, ResolvedMapperMetadata,
}
use aiephant_ai_gateway.MapperProfiles.Patches.{
  expect, provider_capabilities_from_patch, provider_rules_from_patches,
  non_stream_profile_from_patches, resolved_from_family_entry,
}
use aiephant_ai_gateway.Provider.{InferenceProvider}

abbrev has_capabilities : MapperCapabilitiesPatch → Bool
has_capabilities patch =
    is_some patch.openai_compatible
    && is_some patch.supports_response_format
    && is_some patch.supports_tool_choice
    && is_some patch.supports_parallel_tool_calls
    && is_some patch.supports_thinking
    && is_some patch.supports_streaming_reasoning

abbrev has_request : RequestProfilePatch → Bool
has_request patch =
    is_some patch.system_handling
    && is_some patch.message_content_mode
    && is_some patch.tool_choice_mode
    && is_some patch.response_format_mode
    && is_some patch.reasoning_mode
    && is_some patch.multimodal_mode

abbrev has_response : ResponseProfilePatch → Bool
has_response patch =
    is_some patch.content_mode
    && is_some patch.tool_call_mapping_mode
    && is_some patch.finish_reason_mapping_mode
    && is_some patch.usage_mapping_mode

-- An entry with its four parts, each of which has all of its fields.
pub data IsComplete : MapperProfileCatalogEntry → Type 0 where
  complete :
      {family : Option ProviderProtocolFamily} {cp : MapperCapabilitiesPatch}
      {rq : RequestProfilePatch} {rs : ResponseProfilePatch} {st : StreamProfilePatch}
      → has_capabilities cp ≡ true
      → has_request rq ≡ true
      → has_response rs ≡ true
      → is_some st.stream_mode ≡ true
      → IsComplete (record {
        family = family;
        capabilities = some cp;
        request = some rq;
        response = some rs;
        stream = some st;
      })

has_capabilities-some :
    (p : InferenceProvider) (cp : MapperCapabilitiesPatch)
    → has_capabilities cp ≡ true
    → is_some (provider_capabilities_from_patch p cp) ≡ true
unfolding provider_capabilities_from_patch expect
has_capabilities-some p cp h = ground (arith, h)

rules_some :
    (p : InferenceProvider) (f : ProviderProtocolFamily) (rq : RequestProfilePatch)
    (rs : ResponseProfilePatch) (st : StreamProfilePatch)
    → has_request rq ≡ true
    → has_response rs ≡ true
    → is_some st.stream_mode ≡ true
    → is_some (provider_rules_from_patches p f rq rs st) ≡ true
unfolding provider_rules_from_patches expect
rules_some p f rq rs st h k l = ground (arith, h, k, l)

profile_some :
    (p : InferenceProvider) (f : ProviderProtocolFamily) (rq : RequestProfilePatch)
    (rs : ResponseProfilePatch)
    → has_request rq ≡ true
    → has_response rs ≡ true
    → is_some (non_stream_profile_from_patches p f rq rs) ≡ true
unfolding non_stream_profile_from_patches expect
profile_some p f rq rs h k = ground (arith, h, k)

pub is_some-value : {A : Type 0} (o : Option A) → is_some o ≡ true → (a : A) × (o ≡ some a)
is_some-value none e = cc e
is_some-value (some a) e = (a, refl)

-- A complete entry gives metadata: nothing that is looked for is missing.
pub IsComplete-resolved :
    (p : InferenceProvider) (f : ProviderProtocolFamily) (entry : MapperProfileCatalogEntry)
    → IsComplete entry
    → (m : ResolvedMapperMetadata) × (resolved_from_family_entry p f entry ≡ some m)
unfolding resolved_from_family_entry expect
IsComplete-resolved p f entry (complete {cp = cp} {rq} {rs} {st} c q r s) =
    let (capabilities, ec) =
      is_some-value (provider_capabilities_from_patch p cp) (has_capabilities-some p cp c) in
    let (rules, er) =
      is_some-value (provider_rules_from_patches p f rq rs st) (rules_some p f rq rs st q r s) in
    let (profile, en) =
      is_some-value (non_stream_profile_from_patches p f rq rs) (profile_some p f rq rs q r) in
    (
      record { capabilities = capabilities; rules = rules; non_stream_profile = profile },
      rw (ec, er, en) refl,
    )
