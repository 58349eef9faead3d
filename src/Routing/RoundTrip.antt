-- ===== src/Routing/RoundTrip.antt =====
-- router/router_details.rs: the paths that routes are written as are parsed to these routes.
use aiephant_ai_gateway.Common.{
  ◌≡◌, refl, ap, sym, subst, ◌∙◌, Bool, true, false, ◌&&◌, ◌||◌, none, some, [], ◌∷◌, ◌++◌, length,
  leb, ◌==◌, arith, All, ok, if_true,
}
use aiephant_ai_gateway.Common.Text.{Text, codes, is_empty}
use aiephant_ai_gateway.Common.Text.Cuts.{Lacks, strip_prefix}
use aiephant_ai_gateway.Provider.Codes.{from_str, as_ref}
use aiephant_ai_gateway.Routing.{
  RouteType, router, unified_api, direct_proxy, prepend, take_segment, take_path, query_matches,
  captured, first_captured, unified_captures, is_id_char, take_id, ends_segment, id_captured,
  after_router, router_captures, router_route, extract_router_id_and_path, is_router_request,
  is_unified_api_request, unforced_route, route, parse_route,
}
use aiephant_ai_gateway.Upstream.Paths.{trim_start_slashes}

-- A path after a slash, and no slash without a path.
unfoldable pub slash : Text → Text
slash [] = []
slash (c ∷ path) = b'/' ∷ c ∷ path

-- The path that a route is written as.
unfoldable pub written : RouteType → Text
unfolding slash as_ref
written (router id path) = codes "/router/" ++ id ++ slash path
written (unified_api path) = codes "/ai" ++ slash path
written (direct_proxy provider path) = b'/' ∷ as_ref provider ++ slash path

-- A path without a query that does not start with a slash.
abbrev pub IsPath : Text → Type 0
IsPath [] = Unit
IsPath (c ∷ path) = (c == b'/' ≡ false) × Lacks b'?' (c ∷ path)

-- An id of the length and the characters of one; a provider whose name is a segment that stands for
-- nothing else and is read back.
abbrev pub IsRoute : RouteType → Type 0
IsRoute (router id path) =
    All (λ c. is_id_char c ≡ true) id
    × (leb 1 (length id) && leb (length id) 12 ≡ true)
    × IsPath path
IsRoute (unified_api path) = IsPath path
IsRoute (direct_proxy provider path) =
    (from_str (as_ref provider) ≡ provider)
    × All (λ c. c == b'/' || c == b'?' ≡ false) (as_ref provider)
    × (is_empty (as_ref provider) ≡ false)
    × (is_router_request (as_ref provider) ≡ false)
    × (is_unified_api_request (as_ref provider) ≡ false)
    × IsPath path

-- What may follow a segment of a path without a query.
abbrev IsRest : Text → Type 0
IsRest [] = Unit
IsRest (c ∷ s) = (c ≡ b'/') × Lacks b'?' (c ∷ s)

slash-IsRest : (path : Text) → IsPath path → IsRest (slash path)
unfolding slash
slash-IsRest [] p = tt
slash-IsRest (c ∷ path) (p, l) = (refl, (refl, l))

trim_start_slashes-slash : (path : Text) → IsPath path → trim_start_slashes (slash path) ≡ path
unfolding trim_start_slashes slash
trim_start_slashes-slash [] p = refl
trim_start_slashes-slash (c ∷ path) (p, l) = rw p refl

take_path-Lacks : (s : Text) → Lacks b'?' s → take_path s ≡ (s, [])
unfolding take_path prepend
take_path-Lacks [] l = refl
take_path-Lacks (c ∷ s) (h, l) = rw (h, take_path-Lacks s l) refl

IsRest-take_path : (s : Text) → IsRest s → take_path s ≡ (s, [])
unfolding take_path
IsRest-take_path [] r = refl
IsRest-take_path (c ∷ s) (e, l) = take_path-Lacks (c ∷ s) l

take_segment-rest : (s : Text) → IsRest s → take_segment s ≡ ([], s)
unfolding take_segment
take_segment-rest [] r = refl
take_segment-rest (c ∷ s) (e, l) = subst (λ d. take_segment (d ∷ s) ≡ ([], d ∷ s)) (sym e) refl

take_segment-append :
    (a s : Text)
    → All (λ c. c == b'/' || c == b'?' ≡ false) a
    → IsRest s
    → take_segment (a ++ s) ≡ (a, s)
unfolding take_segment prepend
take_segment-append [] s p r = take_segment-rest s r
take_segment-append (c ∷ a) s (h, p) r = rw (h, take_segment-append a s p r) refl

unified_captures-append :
    (a s : Text)
    → All (λ c. c == b'/' || c == b'?' ≡ false) a
    → is_empty a ≡ false
    → IsRest s
    → unified_captures (b'/' ∷ a ++ s) ≡ some (a, s)
unfolding unified_captures first_captured captured query_matches
unified_captures-append [] s p n r = cc n
unified_captures-append (c ∷ a) s p n r =
    rw (take_segment-append (c ∷ a) s p r, IsRest-take_path s r) refl

take_id-rest : (s : Text) → IsRest s → take_id s ≡ ([], s)
unfolding take_id is_id_char
take_id-rest [] r = refl
take_id-rest (c ∷ s) (e, l) = subst (λ d. take_id (d ∷ s) ≡ ([], d ∷ s)) (sym e) refl

take_id-append :
    (id s : Text) → All (λ c. is_id_char c ≡ true) id → IsRest s → take_id (id ++ s) ≡ (id, s)
unfolding take_id prepend
take_id-append [] s p r = take_id-rest s r
take_id-append (c ∷ id) s (h, p) r = rw (h, take_id-append id s p r) refl

ends_segment-IsRest : (s : Text) → IsRest s → ends_segment s ≡ true
unfolding ends_segment
ends_segment-IsRest [] r = refl
ends_segment-IsRest (c ∷ s) (e, l) = ground (arith, e)

both : {a b : Bool} → a ≡ true → b ≡ true → a && b ≡ true
both p q = rw (p, q) refl

id_captured-IsRest :
    (id s : Text)
    → leb 1 (length id) && leb (length id) 12 ≡ true
    → IsRest s
    → id_captured (id, s) ≡ some (id, s)
unfolding id_captured captured query_matches
id_captured-IsRest id s p r =
    if_true (captured id (take_path s)) none (both p (ends_segment-IsRest s r))
    ∙ ap (captured id) (IsRest-take_path s r)

-- The path of a router is captured with its id.
router_captures-written :
    (id s : Text)
    → All (λ c. is_id_char c ≡ true) id
    → leb 1 (length id) && leb (length id) 12 ≡ true
    → IsRest s
    → router_captures (codes "/router/" ++ id ++ s) ≡ some (id, s)
unfolding router_captures after_router strip_prefix
router_captures-written id s p n r =
    ap id_captured (take_id-append id s p r) ∙ id_captured-IsRest id s n r

IsRest-Lacks : (s : Text) → IsRest s → Lacks b'?' s
IsRest-Lacks [] r = tt
IsRest-Lacks (c ∷ s) (e, l) = l

id-Lacks : (id s : Text) → All (λ c. is_id_char c ≡ true) id → Lacks b'?' s → Lacks b'?' (id ++ s)
unfolding is_id_char
id-Lacks [] s p l = l
id-Lacks (c ∷ id) s (h, p) l = (ground (arith, h), id-Lacks id s p l)

id-IsRest : (id s : Text) → All (λ c. is_id_char c ≡ true) id → IsRest s → IsRest (b'/' ∷ id ++ s)
id-IsRest id s p r = (refl, (refl, id-Lacks id s p (IsRest-Lacks s r)))

router-IsSegment : All (λ c. c == b'/' || c == b'?' ≡ false) (codes "router")
router-IsSegment = (refl, (refl, (refl, (refl, (refl, (refl, tt))))))

ai-IsSegment : All (λ c. c == b'/' || c == b'?' ≡ false) (codes "ai")
ai-IsSegment = (refl, (refl, tt))

unforced_direct :
    (path first rest : Text)
    → is_router_request first ≡ false
    → is_unified_api_request first ≡ false
    → unforced_route path first rest ≡ ok (direct_proxy (from_str first) (trim_start_slashes rest))
unfolding unforced_route
unforced_direct path first rest p q = rw (p, q) refl

-- A route that is written as a path is read back, unless a header forces another: provided that its
-- path holds no question mark and does not start with a slash, that the id of a router has 1 to 12
-- characters of its kind, and that the name of a provider is a segment of a path which is read back
-- and is none of the names that stand for the other services.
pub parse_route-written : (r : RouteType) → IsRoute r → parse_route none (written r) ≡ ok r
unfolding parse_route written route unforced_route extract_router_id_and_path router_route
parse_route-written (router id path) (p, n, q) =
    let r = slash-IsRest path q in
    let whole = codes "/router/" ++ id ++ slash path in
    ap (route none whole) (
      unified_captures-append (codes "router") (b'/' ∷ id ++ slash path) router-IsSegment refl
        (id-IsRest id (slash path) p r))
    ∙ ap (router_route whole) (router_captures-written id (slash path) p n r)
    ∙ ap (λ t. ok (router id t)) (trim_start_slashes-slash path q)
parse_route-written (unified_api path) q =
    ap (route none (codes "/ai" ++ slash path))
      (unified_captures-append (codes "ai") (slash path) ai-IsSegment refl (slash-IsRest path q))
    ∙ ap (λ t. ok (unified_api t)) (trim_start_slashes-slash path q)
parse_route-written (direct_proxy provider path) (back, p, n, not_router, not_unified, q) =
    let whole = b'/' ∷ as_ref provider ++ slash path in
    ap (route none whole)
      (unified_captures-append (as_ref provider) (slash path) p n (slash-IsRest path q))
    ∙ unforced_direct whole (as_ref provider) (slash path) not_router not_unified
    ∙ ap (λ t. ok (direct_proxy (from_str (as_ref provider)) t)) (trim_start_slashes-slash path q)
    ∙ ap (λ t. ok (direct_proxy t path)) back
