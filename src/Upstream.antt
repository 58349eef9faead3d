-- ===== src/Upstream.antt =====
-- dispatcher/service.rs: where a request goes upstream and which of its headers go with it. The
-- url crate is a parameter.
pub mod Headers
pub mod Paths
pub mod Same
pub mod Target
pub mod Tests
use aiephant_ai_gateway.Common.{Option}
use aiephant_ai_gateway.Common.Text.{Text}

-- The methods of `url::Url`; `parse` and `join` may fail.
pub record Urls (Url : Type 0) : Type 0 where
  pub parse : Text → Option Url
  pub path : Url → Text
  pub set_path : Url → Text → Url
  pub join : Url → Text → Option Url
