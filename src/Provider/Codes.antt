-- ===== src/Provider/Codes.antt =====
-- types/provider.rs: the names of inference providers and their parsing.
use aiephant_ai_gateway.Common.{
  Bool, Option, none, some, unwrap_or, List, [], ◌∷◌, any, if◌then◌else◌, ◌||◌,
}
use aiephant_ai_gateway.Common.Text.{Text, codes, text_eq, trim, to_ascii_lowercase}
use aiephant_ai_gateway.Provider.{
  InferenceProvider, open_ai, anthropic, bedrock, ollama, google_gemini, custom, named,
}

-- `as_ref`, and what `Display` prints.
unfoldable pub as_ref : InferenceProvider → Text
as_ref (named name) = name
as_ref open_ai = codes "openai"
as_ref anthropic = codes "anthropic"
as_ref bedrock = codes "bedrock"
as_ref ollama = codes "ollama"
as_ref google_gemini = codes "gemini"
as_ref custom = codes "custom"

unfoldable pub as_provider_code : InferenceProvider → Text
unfolding as_ref
as_provider_code google_gemini = codes "google"
as_provider_code p = as_ref p

-- The codes of the database that stand for themselves.
abbrev pub provider_codes : List Text
provider_codes =
    codes "ai21"
    ∷ codes "aion-labs"
    ∷ codes "alfredpros"
    ∷ codes "alibaba"
    ∷ codes "allenai"
    ∷ codes "alpindale"
    ∷ codes "anthracite-org"
    ∷ codes "arcee-ai"
    ∷ codes "baidu"
    ∷ codes "bytedance"
    ∷ codes "bytedance-seed"
    ∷ codes "cognitivecomputations"
    ∷ codes "cohere"
    ∷ codes "deepcogito"
    ∷ codes "deepseek"
    ∷ codes "eleutherai"
    ∷ codes "essentialai"
    ∷ codes "gryphe"
    ∷ codes "groq"
    ∷ codes "hyperbolic"
    ∷ codes "ibm-granite"
    ∷ codes "inception"
    ∷ codes "inflection"
    ∷ codes "kwaipilot"
    ∷ codes "liquid"
    ∷ codes "mancer"
    ∷ codes "meituan"
    ∷ codes "meta-llama"
    ∷ codes "microsoft"
    ∷ codes "minimax"
    ∷ codes "mistral"
    ∷ codes "mistralai"
    ∷ codes "moonshotai"
    ∷ codes "morph"
    ∷ codes "nex-agi"
    ∷ codes "nousresearch"
    ∷ codes "nvidia"
    ∷ codes "openrouter"
    ∷ codes "perplexity"
    ∷ codes "prime-intellect"
    ∷ codes "qwen"
    ∷ codes "reka"
    ∷ codes "rekaai"
    ∷ codes "relace"
    ∷ codes "sao10k"
    ∷ codes "stepfun"
    ∷ codes "switchpoint"
    ∷ codes "tencent"
    ∷ codes "thedrummer"
    ∷ codes "tngtech"
    ∷ codes "undi95"
    ∷ codes "upstage"
    ∷ codes "writer"
    ∷ codes "x-ai"
    ∷ codes "xiaomi"
    ∷ codes "z-ai"
    ∷ []

-- The first arm of a match whose test holds, or what the last arm gives.
unfoldable pub first_arm :
    List (Bool × InferenceProvider) → Option InferenceProvider → Option InferenceProvider
first_arm [] otherwise = otherwise
first_arm ((test, p) ∷ arms) otherwise = if test then some p else first_arm arms otherwise

-- The codes with a provider of their own, and the aliases.
abbrev pub code_arms : Text → List (Bool × InferenceProvider)
code_arms n =
    (text_eq n (codes "openai"), open_ai)
    ∷ (text_eq n (codes "anthropic"), anthropic)
    ∷ (
      text_eq n (codes "aws bedrock") || text_eq n (codes "bedrock") || text_eq n (codes "amazon"),
      bedrock,
    )
    ∷ (text_eq n (codes "ollama"), ollama)
    ∷ (
      text_eq n (codes "google")
          || text_eq n (codes "google ai (gemini)")
          || text_eq n (codes "gemini"),
      google_gemini,
    )
    ∷ (text_eq n (codes "custom"), custom)
    ∷ (text_eq n (codes "mistral ai"), named (codes "mistral"))
    ∷ (text_eq n (codes "zai"), named (codes "z-ai"))
    ∷ (text_eq n (codes "x.ai (grok)") || text_eq n (codes "xai"), named (codes "x-ai"))
    ∷ []

unfoldable pub provider_of_code : Text → Option InferenceProvider
unfolding first_arm
provider_of_code n =
    first_arm (code_arms n) (if any (text_eq n) provider_codes then some (named n) else none)

-- `none` is the error `InvalidProviderName`.
unfoldable pub from_provider_code : Text → Option InferenceProvider
unfolding provider_of_code trim to_ascii_lowercase
from_provider_code provider_name = provider_of_code (to_ascii_lowercase (trim provider_name))

-- `FromStr`, which never fails.
unfoldable pub from_str : Text → InferenceProvider
unfolding from_provider_code trim
from_str s = unwrap_or (from_provider_code (trim s)) (named (trim s))
