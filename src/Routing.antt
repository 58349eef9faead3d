-- ===== src/Routing.antt =====
-- router/router_details.rs: which of the services a request is for, by its path. The two regular
-- expressions are written out as functions.
pub mod RoundTrip
pub mod Tests
use aiephant_ai_gateway.Common.{
  ℕ, Bool, true, false, not, ◌&&◌, ◌||◌, Option, none, some, [], ◌∷◌, any, length, leb, ◌==◌,
  Result, ok, err, if◌then◌else◌,
}
use aiephant_ai_gateway.Common.Text.{Text, codes, is_digit, text_eq}
use aiephant_ai_gateway.Common.Text.Cuts.{strip_prefix}
use aiephant_ai_gateway.Provider.{InferenceProvider}
use aiephant_ai_gateway.Provider.Codes.{from_str}
use aiephant_ai_gateway.Upstream.Paths.{trim_start_slashes}

pub data RouteType : Type 0 where
  router : (id path : Text) → RouteType
  unified_api : (path : Text) → RouteType
  direct_proxy : (provider : InferenceProvider) (path : Text) → RouteType

pub data InvalidRequestError : Type 0 where
  not_found : Text → InvalidRequestError

unfoldable pub prepend : ℕ → Text × Text → Text × Text
prepend c (a, b) = (c ∷ a, b)

-- `[^/?]+` and what follows.
unfoldable pub take_segment : Text → Text × Text
unfolding prepend
take_segment [] = ([], [])
take_segment (c ∷ s) =
    let rest = prepend c (take_segment s) in if c == b'/' || c == b'?' then ([], c ∷ s) else rest

-- `[^?]*` and what follows.
unfoldable pub take_path : Text → Text × Text
unfolding prepend
take_path [] = ([], [])
take_path (c ∷ s) = let rest = prepend c (take_path s) in if c == b'?' then ([], c ∷ s) else rest

-- `(?P<query>\?.*)?$` on an end of a path, which is empty or starts with a question mark.
unfoldable pub query_matches : Text → Bool
query_matches [] = true
query_matches (c ∷ s) = not (any (λ d. d == b'\n') s)

unfoldable pub captured : Text → Text × Text → Option (Text × Text)
unfolding query_matches
captured first (rest, query) = if query_matches query then some (first, rest) else none

unfoldable pub first_captured : Text × Text → Option (Text × Text)
unfolding captured take_path
first_captured ([], s) = none
first_captured (c ∷ first, s) = captured (c ∷ first) (take_path s)

-- UNIFIED_URL_REGEX: the first segment, and the rest from its slash on.
unfoldable pub unified_captures : Text → Option (Text × Text)
unfolding first_captured take_segment
unified_captures [] = none
unified_captures (c ∷ s) = if c == b'/' then first_captured (take_segment s) else none

unfoldable pub is_id_char : ℕ → Bool
is_id_char c =
    (leb b'A' c && leb c b'Z') || (leb b'a' c && leb c b'z') || is_digit c || c == b'_' || c == b'-'

-- `[A-Za-z0-9_-]` as often as it goes, and what follows.
unfoldable pub take_id : Text → Text × Text
unfolding prepend is_id_char
take_id [] = ([], [])
take_id (c ∷ s) = let rest = prepend c (take_id s) in if is_id_char c then rest else ([], c ∷ s)

unfoldable pub ends_segment : Text → Bool
ends_segment [] = true
ends_segment (c ∷ s) = c == b'/' || c == b'?'

unfoldable pub id_captured : Text × Text → Option (Text × Text)
unfolding ends_segment captured take_path
id_captured (id, s) =
    if leb 1 (length id) && leb (length id) 12 && ends_segment s
    then captured id (take_path s)
    else none

unfoldable pub after_router : Option Text → Option (Text × Text)
unfolding id_captured take_id
after_router none = none
after_router (some s) = id_captured (take_id s)

-- ROUTER_URL_REGEX: the id, and the path from its slash on.
unfoldable pub router_captures : Text → Option (Text × Text)
unfolding after_router strip_prefix
router_captures path = after_router (strip_prefix (codes "/router/") path)

unfoldable pub router_route : Text → Option (Text × Text) → Result InvalidRequestError RouteType
unfolding trim_start_slashes
router_route path none = err (not_found path)
router_route path (some (id, extracted_api_path)) =
    ok (router id (trim_start_slashes extracted_api_path))

unfoldable pub extract_router_id_and_path : Text → Result InvalidRequestError RouteType
unfolding router_route router_captures
extract_router_id_and_path path = router_route path (router_captures path)

unfoldable pub is_router_request : Text → Bool
is_router_request first_segment = text_eq first_segment (codes "router")

unfoldable pub is_unified_api_request : Text → Bool
is_unified_api_request first_segment =
    text_eq first_segment (codes "ai") || text_eq first_segment (codes "v1")

unfoldable pub unforced_route : Text → Text → Text → Result InvalidRequestError RouteType
unfolding is_router_request is_unified_api_request extract_router_id_and_path trim_start_slashes
    from_str
unforced_route path first_segment rest_path =
    if is_router_request first_segment
    then extract_router_id_and_path path
    else if is_unified_api_request first_segment
    then ok (unified_api (trim_start_slashes rest_path))
    else ok (direct_proxy (from_str first_segment) (trim_start_slashes rest_path))

-- The header that forces a route counts if it is text.
unfoldable pub route :
    Option Text → Text → Option (Text × Text) → Result InvalidRequestError RouteType
unfolding unforced_route
route forced_routing path none = err (not_found path)
route none path (some (first_segment, rest_path)) = unforced_route path first_segment rest_path
route (some forced_routing) path (some (first_segment, rest_path)) =
    if is_router_request first_segment || is_unified_api_request first_segment
    then ok (direct_proxy (from_str forced_routing) (trim_start_slashes rest_path))
    else unforced_route path first_segment rest_path

unfoldable pub parse_route : Option Text → Text → Result InvalidRequestError RouteType
unfolding route unified_captures
parse_route forced_routing path = route forced_routing path (unified_captures path)
