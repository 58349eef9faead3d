-- ===== src/MapperProfiles/Validate.antt =====
-- middleware/mapper/rule_validator.rs: rules that the provider's capabilities do not carry are refused.
use aiephant_ai_gateway.Common.{Bool, true, false, not, ◌&&◌, Result, ◌>>◌, fail_if}
use aiephant_ai_gateway.MapperProfiles.{
  ProviderProtocolFamily, ToolChoiceMode, ResponseFormatMode, ReasoningMode, ProviderCapabilities,
  ProviderRuleSet, open_ai_compatible, anthropic_messages, bedrock_converse, gemini_open_ai_like,
  ollama_chat,
}
use aiephant_ai_gateway.Provider.{InferenceProvider, google_gemini, ollama}

pub data ProviderRuleValidationError : Type 0 where
  family_capability_mismatch :
      InferenceProvider → ProviderProtocolFamily → Bool → ProviderRuleValidationError
  reasoning_capability_mismatch : InferenceProvider → ReasoningMode → ProviderRuleValidationError
  response_format_capability_mismatch :
      InferenceProvider → ResponseFormatMode → ProviderRuleValidationError
  tool_choice_capability_mismatch : InferenceProvider → ToolChoiceMode → ProviderRuleValidationError

abbrev pub family_is_openai_compatible : ProviderProtocolFamily → Bool
family_is_openai_compatible open_ai_compatible = true
family_is_openai_compatible gemini_open_ai_like = true
family_is_openai_compatible ollama_chat = true
family_is_openai_compatible anthropic_messages = false
family_is_openai_compatible bedrock_converse = false

-- The two families that may go with their own provider whatever its capability says.
abbrev pub is_own_family : ProviderProtocolFamily → InferenceProvider → Bool
is_own_family gemini_open_ai_like google_gemini = true
is_own_family ollama_chat ollama = true
is_own_family _ _ = false

-- The modes that need thinking; `passthrough` is exempt.
abbrev pub needs_thinking : ReasoningMode → Bool
needs_thinking ReasoningMode.map_to_thinking = true
needs_thinking ReasoningMode.map_to_additional_fields = true
needs_thinking ReasoningMode.passthrough = false
needs_thinking ReasoningMode.unsupported = false

abbrev pub formats_responses : ResponseFormatMode → Bool
formats_responses ResponseFormatMode.unsupported = false
formats_responses ResponseFormatMode.passthrough = true
formats_responses ResponseFormatMode.provider_specific_helper = true

abbrev pub chooses_tools : ToolChoiceMode → Bool
chooses_tools ToolChoiceMode.unsupported = false
chooses_tools ToolChoiceMode.native = true
chooses_tools ToolChoiceMode.map_to_any = true
chooses_tools ToolChoiceMode.map_to_tool = true

abbrev pub differ : Bool → Bool → Bool
differ true b = not b
differ false b = b

unfoldable pub validate_provider_rules :
    ProviderCapabilities → ProviderRuleSet → Result ProviderRuleValidationError (Unit {0})
validate_provider_rules c rules =
    fail_if
      (differ (family_is_openai_compatible rules.family) c.openai_compatible
        && not (is_own_family rules.family c.provider))
      (family_capability_mismatch c.provider rules.family c.openai_compatible)
    >> fail_if (needs_thinking rules.request.reasoning_mode && not c.supports_thinking)
        (reasoning_capability_mismatch c.provider rules.request.reasoning_mode)
    >> fail_if
        (not c.supports_response_format && formats_responses rules.request.response_format_mode)
        (response_format_capability_mismatch c.provider rules.request.response_format_mode)
    >> fail_if (not c.supports_tool_choice && chooses_tools rules.request.tool_choice_mode)
        (tool_choice_capability_mismatch c.provider rules.request.tool_choice_mode)
