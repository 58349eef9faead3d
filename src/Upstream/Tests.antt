-- ===== src/Upstream/Tests.antt =====
-- A base URL with a version, and a request with a key of the gateway. URLs are texts, of which the
-- path starts at the first slash after the scheme and the host.
use aiephant_ai_gateway.Common.{
  ◌≡◌, refl, none, some, List, [], ◌∷◌, ◌++◌, ok, arith, if◌then◌else◌,
}
use aiephant_ai_gateway.Common.Text.{Text, codes, to_ascii_lowercase, lower, eq_ignore_ascii_case}
use aiephant_ai_gateway.Common.Text.Cuts.{Lacks}
use aiephant_ai_gateway.Provider.{open_ai}
use aiephant_ai_gateway.Upstream.{Urls}
use aiephant_ai_gateway.Upstream.Headers.{HeaderMap, sanitize_upstream_headers}
use aiephant_ai_gateway.Upstream.Paths.{with_query}
use aiephant_ai_gateway.Upstream.Same.{build_target_url-version}
use aiephant_ai_gateway.Upstream.Target.{Bases, build_target_url, effective_base}

-- A URL of one host, by its path; a path that does not end with a slash loses its last segment.
abbrev urls : Urls Text
urls = record {
  parse = λ s. none;
  path = λ url. url;
  set_path = λ url path. path;
  join = λ url path. some (url ++ path);
}

abbrev bases : Bases Text
bases = record {
  master_key_base_url = some (codes "not a url");
  router_providers = some (λ p. none);
  providers_config = λ p. some (codes "/api/paas/v4");
}

goes_to :
    build_target_url urls bases open_ai (codes "v1/chat/completions?a=1")
    ≡ some (ok (codes "/api/paas/v4/chat/completions?a=1"))
unfolding build_target_url
goes_to = refl

no_question_mark : Lacks b'?' (codes "chat/completions")
no_question_mark = ground arith

build_target_url-version_example :
    build_target_url urls bases open_ai
      (with_query (codes "v1/chat/completions") (some (codes "a=1")))
    ≡ build_target_url urls bases open_ai
        (with_query (codes "chat/completions") (some (codes "a=1")))
unfolding build_target_url effective_base
build_target_url-version_example =
    build_target_url-version urls bases open_ai (codes "/api/paas/v4") (codes "v1")
      (codes "chat/completions") (some (codes "a=1")) refl refl refl refl no_question_mark refl

-- A header map that keeps its headers in a list.
abbrev Pairs : Type 0
Pairs = List (Text × Text)

unfoldable get_all : Pairs → Text → List Text
get_all [] name = []
get_all ((k, v) ∷ hs) name =
    let rest = get_all hs name in if eq_ignore_ascii_case k name then v ∷ rest else rest

unfoldable remove : Pairs → Text → Pairs
remove [] name = []
remove ((k, v) ∷ hs) name =
    let rest = remove hs name in if eq_ignore_ascii_case k name then rest else (k, v) ∷ rest

abbrev pairs : HeaderMap Pairs
pairs = record {
  get_all = get_all;
  remove = remove;
  insert = λ hs name value. (name, value) ∷ remove hs name;
}

abbrev headers : Pairs
headers =
    (codes "host", codes "gateway")
    ∷ (codes "content-type", codes "application/json")
    ∷ (codes "alephant-api-key", codes "secret")
    ∷ []

sends :
    sanitize_upstream_headers pairs headers
    ≡ (codes "accept-encoding", codes "identity")
      ∷ (codes "content-type", codes "application/json")
      ∷ []
unfolding sanitize_upstream_headers remove lower to_ascii_lowercase
sends = refl
