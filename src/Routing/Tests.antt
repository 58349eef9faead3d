-- ===== src/Routing/Tests.antt =====
-- A provider whose name is read back, and paths of each service.
use aiephant_ai_gateway.Common.{◌≡◌, refl, none, some, ok, err, arith}
use aiephant_ai_gateway.Common.Text.{codes, is_whitespace, lower}
use aiephant_ai_gateway.Provider.{open_ai, named}
use aiephant_ai_gateway.Provider.Codes.{from_str, as_ref}
use aiephant_ai_gateway.Routing.{
  RouteType, direct_proxy, not_found, parse_route, is_router_request, is_unified_api_request,
}
use aiephant_ai_gateway.Routing.RoundTrip.{written, IsRoute, parse_route-written}

forced :
    parse_route (some (codes "openai")) (codes "/v1/chat/completions")
    ≡ ok (direct_proxy open_ai (codes "chat/completions"))
unfolding parse_route from_str is_whitespace lower
forced = refl

too_long :
    parse_route none (codes "/router/much-too-long-an-id/x")
    ≡ err (not_found (codes "/router/much-too-long-an-id/x"))
unfolding parse_route
too_long = refl

abbrev direct : RouteType
direct = direct_proxy (named (codes "mistral")) (codes "v1/models")

is_route : IsRoute direct
unfolding from_str as_ref is_router_request is_unified_api_request is_whitespace lower
is_route = ground arith

parse_route-written_example : parse_route none (written direct) ≡ ok direct
parse_route-written_example = parse_route-written direct is_route
