-- ===== src/ModelId/Print.antt =====
-- The `Display` implementations of model identifiers, and their serialization.
use aiephant_ai_gateway.Common.{Option, none, some, [], ◌∷◌, ◌++◌}
use aiephant_ai_gateway.Common.Text.{Text, codes}
use aiephant_ai_gateway.Provider.{InferenceProvider, bedrock, ollama}
use aiephant_ai_gateway.Provider.Codes.{as_ref}
use aiephant_ai_gateway.ModelId.{
  pattern_of, Chrono, Version, implicit_latest, latest, preview, date_versioned_preview, date,
  ModelIdWithVersion, OllamaModelId, BedrockModelId, ModelId, with_version, bedrock_model,
  ollama_model, unknown,
}

-- The provider that the serialization writes before the model.
unfoldable pub inference_provider : {D : Type 0} → ModelId D → Option InferenceProvider
inference_provider (with_version provider id) = some provider
inference_provider (bedrock_model id) = some bedrock
inference_provider (ollama_model id) = some ollama
inference_provider (unknown model) = none

unfoldable pub display_ollama : OllamaModelId → Text
display_ollama id = elim id.tag [ none ↦ id.model | some tag ↦ id.model ++ b':' ∷ tag ]

unfoldable pub after_dot : Option Text → Text → Text
after_dot none rest = rest
after_dot (some geo) rest = geo ++ b'.' ∷ rest

module _ {D : Type 0} (chrono : Chrono D) where
  unfoldable pub display_version : Version D → Text
  display_version implicit_latest = []
  display_version latest = codes "latest"
  display_version preview = codes "preview"
  display_version (date_versioned_preview d f) = codes "preview-" ++ chrono.format d (pattern_of f)
  display_version (date d f) = chrono.format d (pattern_of f)

  -- `{model}` or `{model}-{version}`.
  unfoldable pub with_suffix : Text → Version D → Text
  unfolding display_version
  with_suffix model implicit_latest = model
  with_suffix model v = model ++ b'-' ∷ display_version v

  unfoldable pub display_with_version : ModelIdWithVersion D → Text
  unfolding with_suffix
  display_with_version id = with_suffix id.model id.version

  -- `{provider}.{model}-{internal}` or `{provider}.{model}-{version}-{internal}`, after `{geo}.`.
  unfoldable pub display_bedrock : BedrockModelId D → Text
  unfolding with_suffix after_dot
  display_bedrock id = after_dot id.geo (
      id.provider ++ b'.' ∷ (with_suffix id.model id.version ++ b'-' ∷ id.bedrock_internal_version))

  unfoldable pub display : ModelId D → Text
  unfolding display_with_version display_bedrock display_ollama
  display (with_version provider id) = display_with_version id
  display (bedrock_model id) = display_bedrock id
  display (ollama_model id) = display_ollama id
  display (unknown model) = model

  -- `{provider}/{self}`, or `{self}` without a provider.
  unfoldable pub prefixed : Option InferenceProvider → Text → Text
  unfolding as_ref
  prefixed none text = text
  prefixed (some provider) text = as_ref provider ++ b'/' ∷ text

  unfoldable pub serialize : ModelId D → Text
  unfolding prefixed inference_provider display
  serialize m = prefixed (inference_provider m) (display m)
