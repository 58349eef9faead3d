-- ===== src/LargeContext.antt =====
-- middleware/large_context/: chat requests that are too long for their model.
pub mod Shorten
pub mod ShortenLaws
pub mod Budgets
pub mod Headers
pub mod Models
pub mod Parse
pub mod Apply
pub mod ApplyLaws
pub mod Transform
pub mod TransformLaws
pub mod Tests
use aiephant_ai_gateway.Common.{ℕ, Bool, Option, List}
use aiephant_ai_gateway.Common.Text.{Text}

pub record ChatMessageTextRef : Type 0 where
  pub index : ℕ
  pub role : Option Text
  pub content : Text

-- `ChatCompletionsPayload`; V is `serde_json::Value`.
pub record ChatCompletionsPayload (V : Type 0) : Type 0 where
  pub raw : V
  pub model : Option Text
  pub messages : List ChatMessageTextRef
  pub has_non_text_message_content : Bool
  pub tools : Option V
  pub requested_completion_tokens : Option ℕ
