-- ===== src/Upstream/Paths.antt =====
-- dispatcher/service.rs: a path for a base URL that has a version already.
use aiephant_ai_gateway.Common.{
  Bool, true, false, not, ◌&&◌, ◌||◌, Option, none, some, [], ◌∷◌, ◌++◌, ◌==◌, option_or, unwrap_or,
  if◌then◌else◌,
}
use aiephant_ai_gateway.Common.Text.{Text, codes, is_empty, is_digit, ends_with}
use aiephant_ai_gateway.Common.Text.Cuts.{split_once}
use aiephant_ai_gateway.Upstream.{Urls}

-- `iter().all(u8::is_ascii_digit)`.
unfoldable pub all_digits : Text → Bool
all_digits [] = true
all_digits (c ∷ s) = is_digit c && all_digits s

unfoldable pub segment_is_v_digit_version : Text → Bool
unfolding all_digits
segment_is_v_digit_version [] = false
segment_is_v_digit_version (c ∷ []) = false
segment_is_v_digit_version (c ∷ d ∷ s) = (c == b'v' || c == b'V') && all_digits (d ∷ s)

unfoldable pub trim_start_slashes : Text → Text
trim_start_slashes [] = []
trim_start_slashes (c ∷ s) = let rest = trim_start_slashes s in if c == b'/' then rest else c ∷ s

unfoldable pub trim_end_slashes : Text → Text
trim_end_slashes [] = []
trim_end_slashes (c ∷ s) =
    let rest = trim_end_slashes s in if c == b'/' && is_empty rest then [] else c ∷ rest

-- The text after the last slash, if there is one.
unfoldable pub after_last_slash : Text → Option Text
after_last_slash [] = none
after_last_slash (c ∷ s) = option_or (after_last_slash s) (if c == b'/' then some s else none)

-- `trim_matches('/')`, and then `rsplit('/').next()`.
unfoldable pub last_segment : Text → Text
unfolding after_last_slash trim_end_slashes trim_start_slashes
last_segment path =
    let trimmed = trim_end_slashes (trim_start_slashes path) in
    unwrap_or (after_last_slash trimmed) trimmed

unfoldable pub stripped : Option (Text × Text) → Option Text
unfolding segment_is_v_digit_version
stripped none = none
stripped (some (first, rest)) =
    if is_empty rest then none else if segment_is_v_digit_version first then some rest else none

unfoldable pub strip_leading_numeric_v_revision_prefix : Text → Option Text
unfolding stripped split_once trim_start_slashes
strip_leading_numeric_v_revision_prefix path = stripped (split_once b'/' (trim_start_slashes path))

-- A path with its query, if it has one.
unfoldable pub with_query : Text → Option Text → Text
with_query path none = path
with_query path (some query) = path ++ b'?' ∷ query

unfoldable pub or_unchanged : Text → Option Text → Option Text → Text
unfolding with_query
or_unchanged path_and_query query none = path_and_query
or_unchanged path_and_query query (some path) = with_query path query

unfoldable pub adjusted : Text → Option (Text × Text) → Text
unfolding or_unchanged strip_leading_numeric_v_revision_prefix
adjusted path_and_query none =
    or_unchanged path_and_query none (strip_leading_numeric_v_revision_prefix path_and_query)
adjusted path_and_query (some (path_only, query)) =
    or_unchanged path_and_query (some query) (strip_leading_numeric_v_revision_prefix path_only)

module _ {Url : Type 0} (urls : Urls Url) where
  -- An empty path has no version, for which the last segment is empty too.
  unfoldable pub base_path_ends_with_v_version_segment : Url → Bool
  unfolding segment_is_v_digit_version last_segment
  base_path_ends_with_v_version_segment url =
      segment_is_v_digit_version (last_segment (urls.path url))

  unfoldable pub adjust_upstream_path_for_versioned_base : Url → Text → Text
  unfolding adjusted base_path_ends_with_v_version_segment split_once
  adjust_upstream_path_for_versioned_base base_url path_and_query =
      if base_path_ends_with_v_version_segment base_url
      then adjusted path_and_query (split_once b'?' path_and_query)
      else path_and_query

  unfoldable pub normalized_base : Url → Url
  unfolding base_path_ends_with_v_version_segment ends_with
  normalized_base base_url =
      if base_path_ends_with_v_version_segment base_url
        && not (ends_with (codes "/") (urls.path base_url))
      then urls.set_path base_url (urls.path base_url ++ b'/' ∷ [])
      else base_url

  -- Without a value where the function panics.
  unfoldable pub join_provider_upstream_url : Url → Text → Option Url
  unfolding adjust_upstream_path_for_versioned_base normalized_base
  join_provider_upstream_url base_url path_and_query =
      urls.join (normalized_base base_url)
        (adjust_upstream_path_for_versioned_base base_url path_and_query)
