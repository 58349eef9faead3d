-- ===== src/Upstream/Same.antt =====
-- dispatcher/service.rs: a revision in front of the path makes no difference for a base URL that
-- has one.
use aiephant_ai_gateway.Common.{
  ℕ, ◌≡◌, refl, ap, sym, ◌∙◌, ◌⊎◌, inl, inr, true, false, Option, none, some, [], ◌∷◌, ◌++◌, arith,
  if_true,
}
use aiephant_ai_gateway.Common.Text.{Text, is_empty}
use aiephant_ai_gateway.Common.Text.Cuts.{split_once, Lacks, Lacks-split_once, split_once-append}
use aiephant_ai_gateway.Provider.{InferenceProvider}
use aiephant_ai_gateway.Upstream.{Urls}
use aiephant_ai_gateway.Upstream.Paths.{
  all_digits, segment_is_v_digit_version, trim_start_slashes, stripped,
  strip_leading_numeric_v_revision_prefix, with_query, or_unchanged, adjusted,
  base_path_ends_with_v_version_segment, adjust_upstream_path_for_versioned_base, normalized_base,
  join_provider_upstream_url,
}
use aiephant_ai_gateway.Upstream.Target.{
  Bases, global_target, build_target_url, effective_base, build_target_url-effective_base,
}

-- A character that is no letter v and no digit is not in a revision.
abbrev IsMark : ℕ → Type 0
IsMark c = (c ≡ b'/') ⊎ (c ≡ b'?')

all_digits-Lacks : (c : ℕ) (s : Text) → IsMark c → all_digits s ≡ true → Lacks c s
unfolding all_digits
all_digits-Lacks c [] m p = tt
all_digits-Lacks c (d ∷ s) m p = (ground (arith, m, p), all_digits-Lacks c s m (ground (arith, p)))

version-Lacks : (c : ℕ) (v : Text) → IsMark c → segment_is_v_digit_version v ≡ true → Lacks c v
unfolding segment_is_v_digit_version
version-Lacks c [] m p = tt
version-Lacks c (a ∷ []) m p = cc p
version-Lacks c (a ∷ d ∷ s) m p =
    (ground (arith, m, p), all_digits-Lacks c (d ∷ s) m (ground (arith, p)))

Lacks-append : (c : ℕ) (s t : Text) → Lacks c s → Lacks c t → Lacks c (s ++ t)
Lacks-append c [] t p q = q
Lacks-append c (d ∷ s) t (h, p) q = (h, Lacks-append c s t p q)

trim_start_slashes-version :
    (v t : Text) → segment_is_v_digit_version v ≡ true → trim_start_slashes (v ++ t) ≡ v ++ t
unfolding segment_is_v_digit_version trim_start_slashes
trim_start_slashes-version [] t p = cc p
trim_start_slashes-version (a ∷ []) t p = cc p
trim_start_slashes-version (a ∷ d ∷ s) t p = ground (arith, p)

strip-version :
    (v rest : Text)
    → segment_is_v_digit_version v ≡ true
    → is_empty rest ≡ false
    → strip_leading_numeric_v_revision_prefix (v ++ b'/' ∷ rest) ≡ some rest
unfolding strip_leading_numeric_v_revision_prefix stripped
strip-version v rest p q =
    rw
      (
        trim_start_slashes-version v (b'/' ∷ rest) p,
        split_once-append b'/' v rest (version-Lacks b'/' v (inl refl) p),
        q,
        p,
      )
      refl

-- What the path becomes, whatever the query.
adjusted-with_query :
    (path : Text) (query : Option Text)
    → Lacks b'?' path
    → adjusted (with_query path query) (split_once b'?' (with_query path query))
      ≡ or_unchanged (with_query path query) query (strip_leading_numeric_v_revision_prefix path)
unfolding adjusted with_query
adjusted-with_query path none l = rw (Lacks-split_once b'?' path l) refl
adjusted-with_query path (some query) l = rw (split_once-append b'?' path query l) refl

-- The path with a revision in front, and the path without, are adjusted to the same.
adjusted-version :
    (v rest : Text) (query : Option Text)
    → segment_is_v_digit_version v ≡ true
    → is_empty rest ≡ false
    → Lacks b'?' rest
    → strip_leading_numeric_v_revision_prefix rest ≡ none
    → adjusted
        (with_query (v ++ b'/' ∷ rest) query)
        (split_once b'?' (with_query (v ++ b'/' ∷ rest) query))
      ≡ adjusted (with_query rest query) (split_once b'?' (with_query rest query))
unfolding or_unchanged
adjusted-version v rest query p q l e =
    adjusted-with_query (v ++ b'/' ∷ rest) query
      (Lacks-append b'?' v (b'/' ∷ rest) (version-Lacks b'?' v (inr refl) p) (refl, l))
    ∙ ap (or_unchanged (with_query (v ++ b'/' ∷ rest) query) query) (strip-version v rest p q)
    ∙ sym (ap (or_unchanged (with_query rest query) query) e)
    ∙ sym (adjusted-with_query rest query l)

module _ {Url : Type 0} (urls : Urls Url) where
  join-version :
      (base : Url) (v rest : Text) (query : Option Text)
      → base_path_ends_with_v_version_segment urls base ≡ true
      → segment_is_v_digit_version v ≡ true
      → is_empty rest ≡ false
      → Lacks b'?' rest
      → strip_leading_numeric_v_revision_prefix rest ≡ none
      → join_provider_upstream_url urls base (with_query (v ++ b'/' ∷ rest) query)
        ≡ join_provider_upstream_url urls base (with_query rest query)
  unfolding join_provider_upstream_url adjust_upstream_path_for_versioned_base
  join-version base v rest query b p q l e = ap (urls.join (normalized_base urls base)) (
      if_true
        (adjusted (with_query (v ++ b'/' ∷ rest) query)
          (split_once b'?' (with_query (v ++ b'/' ∷ rest) query)))
        (with_query (v ++ b'/' ∷ rest) query) b
      ∙ adjusted-version v rest query p q l e
      ∙ sym (
          if_true (adjusted (with_query rest query) (split_once b'?' (with_query rest query)))
            (with_query rest query) b))

  -- If the base URL that wins ends with a version, a path that starts with a revision, such as
  -- v1/chat/completions, goes to the same URL as the path without it, with any query: provided
  -- that the path without it is not empty, holds no question mark and starts with no revision.
  pub build_target_url-version :
      (bases : Bases Url) (target_provider : InferenceProvider) (base : Url) (v rest : Text)
      (query : Option Text)
      → effective_base urls bases target_provider ≡ some base
      → base_path_ends_with_v_version_segment urls base ≡ true
      → segment_is_v_digit_version v ≡ true
      → is_empty rest ≡ false
      → Lacks b'?' rest
      → strip_leading_numeric_v_revision_prefix rest ≡ none
      → build_target_url urls bases target_provider (with_query (v ++ b'/' ∷ rest) query)
        ≡ build_target_url urls bases target_provider (with_query rest query)
  unfolding global_target
  build_target_url-version bases target_provider base v rest query f b p q l e =
      build_target_url-effective_base urls bases target_provider
        (with_query (v ++ b'/' ∷ rest) query)
      ∙ rw (f, join-version base v rest query b p q l e) refl
      ∙ sym (build_target_url-effective_base urls bases target_provider (with_query rest query))
