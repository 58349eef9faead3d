-- ===== src/ModelId.antt =====
-- types/model_id.rs: model names with their versions, parsed and printed in the style of each provider.
pub mod Parse
pub mod Print
pub mod Shown
pub mod RoundTrip
pub mod Key
pub mod Tests
use aiephant_ai_gateway.Common.{ℕ, Option, List}
use aiephant_ai_gateway.Common.Text.{Text, codes}
use aiephant_ai_gateway.Provider.{InferenceProvider}

-- The formats of chrono in which dates are tried.
pub data DateFormat : Type 0 where
  year_month_day_dashed year_month_day month_day_dashed month_day : DateFormat

abbrev pub pattern_of : DateFormat → Text
pattern_of year_month_day_dashed = codes "%Y-%m-%d"
pattern_of year_month_day = codes "%Y%m%d"
pattern_of month_day_dashed = codes "%m-%d"
pattern_of month_day = codes "%m%d"

-- The dates of chrono: `NaiveDate::parse_from_str`, `format`, and the current year as it prints.
pub record Chrono (D : Type 0) : Type 0 where
  pub parse_from_str : Text → Text → Option D
  pub format : D → Text → Text
  pub current_year : Text

pub data Version (D : Type 0) : Type 0 where
  implicit_latest latest preview : Version D
  date_versioned_preview date : D → DateFormat → Version D

pub data MapperError : Type 0 where
  invalid_model_name provider_not_supported : Text → MapperError

pub record ModelIdWithVersion (D : Type 0) : Type 0 where
  pub model : Text
  pub version : Version D

pub record OllamaModelId : Type 0 where
  pub model : Text
  pub tag : Option Text

pub record BedrockModelId (D : Type 0) : Type 0 where
  pub geo : Option Text
  pub provider : Text
  pub model : Text
  pub version : Version D
  pub bedrock_internal_version : Text

pub data ModelId (D : Type 0) : Type 0 where
  with_version : InferenceProvider → ModelIdWithVersion D → ModelId D
  bedrock_model : BedrockModelId D → ModelId D
  ollama_model : OllamaModelId → ModelId D
  unknown : Text → ModelId D
