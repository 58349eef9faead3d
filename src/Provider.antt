-- ===== src/Provider.antt =====
-- types/provider.rs and endpoints/: inference providers, API endpoints and endpoint types.
-- The single-variant endpoint enums (Anthropic::Messages and the like) are constructors of
-- `ApiEndpoint` directly.
pub mod Codes
pub mod CodeLaws
use aiephant_ai_gateway.Common.{List, [], ◌∷◌, map, ◌≡◌, All, ℕ_discrete, arith}
use aiephant_ai_gateway.Common.Text.{Text}

pub data InferenceProvider : Type 0 where
  open_ai anthropic bedrock ollama google_gemini custom : InferenceProvider
  named : Text → InferenceProvider

unfoldable pub InferenceProvider-discrete : Discrete InferenceProvider
InferenceProvider-discrete = hlevel ℕ_discrete

pub data EndpointType : Type 0 where
  chat embeddings image audio : EndpointType

unfoldable pub EndpointType-discrete : Discrete EndpointType
EndpointType-discrete = hlevel

pub data OpenAi : Type 0 where
  chat_completions completions embeddings_endpoint image_generations responses : OpenAi

pub data ApiEndpoint : Type 0 where
  open_ai_endpoint : OpenAi → ApiEndpoint
  anthropic_messages google_generate_contents ollama_chat bedrock_converse : ApiEndpoint
  open_ai_compatible : InferenceProvider → OpenAi → ApiEndpoint

-- `OpenAI::iter()` of strum: the variants in declaration order.
abbrev pub open_ai_iter : List OpenAi
open_ai_iter =
    chat_completions ∷ completions ∷ embeddings_endpoint ∷ image_generations ∷ responses ∷ []

unfoldable pub endpoints : InferenceProvider → List ApiEndpoint
endpoints open_ai = map open_ai_endpoint open_ai_iter
endpoints anthropic = anthropic_messages ∷ []
endpoints ollama = ollama_chat ∷ []
endpoints bedrock = bedrock_converse ∷ []
endpoints google_gemini = google_generate_contents ∷ []
endpoints custom = map (open_ai_compatible custom) open_ai_iter
endpoints (named name) = map (open_ai_compatible (named name)) open_ai_iter

unfoldable pub provider : ApiEndpoint → InferenceProvider
provider (open_ai_endpoint e) = open_ai
provider anthropic_messages = anthropic
provider google_generate_contents = google_gemini
provider ollama_chat = ollama
provider bedrock_converse = bedrock
provider (open_ai_compatible p e) = p

open_ai_endpoint_type : OpenAi → EndpointType
open_ai_endpoint_type chat_completions = chat
open_ai_endpoint_type completions = chat
open_ai_endpoint_type responses = chat
open_ai_endpoint_type embeddings_endpoint = embeddings
open_ai_endpoint_type image_generations = image

unfoldable pub endpoint_type : ApiEndpoint → EndpointType
unfolding open_ai_endpoint_type
endpoint_type (open_ai_endpoint e) = open_ai_endpoint_type e
endpoint_type (open_ai_compatible p e) = open_ai_endpoint_type e
endpoint_type anthropic_messages = chat
endpoint_type google_generate_contents = chat
endpoint_type ollama_chat = chat
endpoint_type bedrock_converse = chat

-- Every endpoint of a provider leads back to that provider.
pub provider-endpoints : (p : InferenceProvider) → All (λ e. provider e ≡ p) (endpoints p)
unfolding endpoints provider
provider-endpoints open_ai = ground arith
provider-endpoints _ = ground arith
