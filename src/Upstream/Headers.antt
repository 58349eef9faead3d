-- ===== src/Upstream/Headers.antt =====
-- dispatcher/service.rs and session_headers.rs: the headers that go upstream. The header map is that of
-- the http crate: its operations are a parameter, and what is relied on are the values that they leave
-- under each name, in whatever order the map keeps the names.
use aiephant_ai_gateway.Common.{◌≡◌, List, [], ◌∷◌, if◌then◌else◌}
use aiephant_ai_gateway.Common.Text.{Text, codes, eq_ignore_ascii_case}

-- `http::HeaderMap`: `get_all`, `remove` and `insert`.
pub record HeaderMap (H : Type 0) : Type 0 where
  pub get_all : H → Text → List Text
  pub remove : H → Text → H
  pub insert : H → Text → Text → H

-- What the crate documents: a removal leaves no value under the name, and an insertion, of the one name
-- that is inserted here, that value alone; the values of other names stay. Names are compared without
-- ASCII case.
pub record HeaderMapLaws {H : Type 0} (m : HeaderMap H) : Type 0 where
  pub get_all-remove :
      (headers : H) (name other : Text)
      → m.get_all (m.remove headers name) other
        ≡ (if eq_ignore_ascii_case name other then [] else m.get_all headers other)
  pub get_all-insert :
      (headers : H) (value other : Text)
      → m.get_all (m.insert headers (codes "accept-encoding") value) other ≡ (
          if eq_ignore_ascii_case (codes "accept-encoding") other
          then value ∷ []
          else m.get_all headers other)

-- The names that do not leave the gateway, but for that of the encodings.
abbrev pub hidden : List Text
hidden =
    codes "host"
    ∷ codes "authorization"
    ∷ codes "content-length"
    ∷ codes "alephant-api-key"
    ∷ codes "Alephant-Embeddings-Key"
    ∷ codes "Alephant-Embeddings-Model"
    ∷ codes "Alephant-Cache-Semantic-Threshold"
    ∷ codes "Alephant-Cache-Ttl"
    ∷ codes "alephant-session-id"
    ∷ codes "alephant-session-path"
    ∷ codes "alephant-session-name"
    ∷ []

module _ {H : Type 0} (m : HeaderMap H) where
  unfoldable pub remove_internal_gateway_auth_headers : H → H
  remove_internal_gateway_auth_headers headers = m.remove headers (codes "alephant-api-key")

  unfoldable pub remove_session_headers : H → H
  remove_session_headers headers =
      let no_id = m.remove headers (codes "alephant-session-id") in
      let no_path = m.remove no_id (codes "alephant-session-path") in
      m.remove no_path (codes "alephant-session-name")

  unfoldable pub sanitize_upstream_headers : H → H
  unfolding remove_internal_gateway_auth_headers remove_session_headers
  sanitize_upstream_headers headers =
      let no_host = m.remove headers (codes "host") in
      let no_authorization = m.remove no_host (codes "authorization") in
      let no_length = m.remove no_authorization (codes "content-length") in
      let no_key = remove_internal_gateway_auth_headers no_length in
      let no_embeddings_key = m.remove no_key (codes "Alephant-Embeddings-Key") in
      let no_model = m.remove no_embeddings_key (codes "Alephant-Embeddings-Model") in
      let no_threshold = m.remove no_model (codes "Alephant-Cache-Semantic-Threshold") in
      let no_ttl = m.remove no_threshold (codes "Alephant-Cache-Ttl") in
      let no_session = remove_session_headers no_ttl in
      let no_encoding = m.remove no_session (codes "accept-encoding") in
      m.insert no_encoding (codes "accept-encoding") (codes "identity")

  unfoldable remove_all : List Text → H → H
  remove_all [] headers = headers
  remove_all (name ∷ names) headers = remove_all names (m.remove headers name)
