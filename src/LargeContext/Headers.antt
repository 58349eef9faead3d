-- ===== src/LargeContext/Headers.antt =====
-- middleware/large_context/headers.rs and model_limits.rs.
use aiephant_ai_gateway.Common.{
  ℕ, ◌≡◌, refl, Option, none, some, unwrap_or, [], ◌∷◌, Result, ok, err, ◌>>=◌, ◌==◌, if◌then◌else◌,
}
use aiephant_ai_gateway.Common.Text.{
  Text, codes, trim, is_whitespace, is_empty, to_ascii_lowercase, starts_with, text_eq,
}

pub data TokenLimitExceptionHandler : Type 0 where
  truncate middle_out fallback : TokenLimitExceptionHandler

unfoldable pub as_str : TokenLimitExceptionHandler → Text
as_str truncate = codes "truncate"
as_str middle_out = codes "middle-out"
as_str fallback = codes "fallback"

-- A header value, which `to_str` may refuse.
pub data HeaderValue : Type 0 where
  text : Text → HeaderValue
  opaque : HeaderValue

pub data InvalidRequestError : Type 0 where
  invalid_request_header : InvalidRequestError
  invalid_large_context_handler : Text → InvalidRequestError
  invalid_request_body : InvalidRequestError

pub record LargeContextHeaders : Type 0 where
  pub handler : Option TokenLimitExceptionHandler
  pub model_override : Option Text

unfoldable pub parse_header_string : Option HeaderValue → Result InvalidRequestError (Option Text)
unfolding trim
parse_header_string none = ok none
parse_header_string (some opaque) = err invalid_request_header
parse_header_string (some (text s)) = ok (if is_empty (trim s) then none else some (trim s))

unfoldable pub parse_handler_value : Text → Result InvalidRequestError TokenLimitExceptionHandler
unfolding trim to_ascii_lowercase
parse_handler_value value =
    let name = to_ascii_lowercase (trim value) in
    if text_eq name (codes "truncate")
    then ok truncate
    else if text_eq name (codes "middle-out")
    then ok middle_out
    else if text_eq name (codes "fallback")
    then ok fallback
    else err (invalid_large_context_handler value)

handler_of : Option Text → Result InvalidRequestError (Option TokenLimitExceptionHandler)
handler_of none = ok none
handler_of (some value) = parse_handler_value value >>= λ h. ok (some h)

-- The values of `Alephant-Token-Limit-Exception-Handler` and of `Alephant-Model-Override`.
unfoldable pub parse_large_context_headers :
    Option HeaderValue → Option HeaderValue → Result InvalidRequestError LargeContextHeaders
unfolding parse_header_string handler_of parse_handler_value
parse_large_context_headers handler_header override_header =
    parse_header_string handler_header >>= λ value. handler_of value >>= λ handler.
    parse_header_string override_header >>= λ model_override.
    ok (record { handler = handler; model_override = model_override })

-- `StaticModelContextLimitResolver`.
model_suffix : Text → Option Text
model_suffix [] = none
model_suffix (c ∷ s) = if c == b'/' then some s else model_suffix s

unfoldable pub resolve : Text → Option ℕ
unfolding model_suffix trim to_ascii_lowercase starts_with
resolve model =
    let normalized = to_ascii_lowercase (trim model) in
    let suffix = unwrap_or (model_suffix normalized) normalized in
    if starts_with (codes "gpt-4o-mini") suffix
    then some 128_000
    else if starts_with (codes "gpt-4o") suffix
    then some 128_000
    else none

-- A handler's own name is read back as the handler.
pub parse_handler_value-as_str :
    (h : TokenLimitExceptionHandler) → parse_handler_value (as_str h) ≡ ok h
unfolding parse_handler_value as_str is_whitespace
parse_handler_value-as_str truncate = refl
parse_handler_value-as_str middle_out = refl
parse_handler_value-as_str fallback = refl
