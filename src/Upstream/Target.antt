-- ===== src/Upstream/Target.antt =====
-- dispatcher/service.rs: the URL of a request, from the base URL of the master key, of the router
-- or of the provider.
use aiephant_ai_gateway.Common.{◌≡◌, refl, Option, none, some, option_or, Result, ok, err}
use aiephant_ai_gateway.Common.Text.{Text}
use aiephant_ai_gateway.Common.Text.Cuts.{option_map}
use aiephant_ai_gateway.Provider.{InferenceProvider}
use aiephant_ai_gateway.Upstream.{Urls}
use aiephant_ai_gateway.Upstream.Paths.{join_provider_upstream_url}

pub data InternalError : Type 0 where
  provider_not_configured : InferenceProvider → InternalError

-- The base URLs that a request finds: `master_keys.base_url`, the providers of its router, and the
-- providers of the gateway.
pub record Bases (Url : Type 0) : Type 0 where
  pub master_key_base_url : Option Text
  pub router_providers : Option (InferenceProvider → Option Url)
  pub providers_config : InferenceProvider → Option Url

module _ {Url : Type 0} (urls : Urls Url) where
  -- `Err` of the parser falls through; the inner value is absent where joining panics.
  unfoldable pub joined_master : Option Url → Text → Option (Option Url)
  unfolding join_provider_upstream_url
  joined_master none extracted_path_and_query = none
  joined_master (some base_url) extracted_path_and_query =
      some (join_provider_upstream_url urls base_url extracted_path_and_query)

  unfoldable pub resolve_master_key_target_url : Option Text → Text → Option (Option Url)
  unfolding joined_master
  resolve_master_key_target_url none extracted_path_and_query = none
  resolve_master_key_target_url (some base_url_str) extracted_path_and_query =
      joined_master (urls.parse base_url_str) extracted_path_and_query

  unfoldable pub router_base :
      Option (InferenceProvider → Option Url) → InferenceProvider → Option Url
  router_base none target_provider = none
  router_base (some router_provider_config) target_provider = router_provider_config target_provider

  unfoldable pub joined : Option Url → Option (Result InternalError Url)
  unfolding option_map
  joined url = option_map ok url

  unfoldable pub global_target :
      InferenceProvider → Option Url → Text → Option (Result InternalError Url)
  unfolding joined join_provider_upstream_url
  global_target target_provider none path = some (err (provider_not_configured target_provider))
  global_target target_provider (some base_url) path =
      joined (join_provider_upstream_url urls base_url path)

  unfoldable pub router_target :
      Bases Url → InferenceProvider → Option Url → Text → Option (Result InternalError Url)
  unfolding global_target
  router_target bases target_provider none path =
      global_target target_provider (bases.providers_config target_provider) path
  router_target bases target_provider (some base_url) path =
      joined (join_provider_upstream_url urls base_url path)

  unfoldable pub master_target :
      Bases Url → InferenceProvider → Option (Option Url) → Text → Option (Result InternalError Url)
  unfolding router_target router_base
  master_target bases target_provider none path =
      router_target bases target_provider (router_base bases.router_providers target_provider) path
  master_target bases target_provider (some master_url) path = joined master_url

  -- Without a value where the function panics.
  unfoldable pub build_target_url :
      Bases Url → InferenceProvider → Text → Option (Result InternalError Url)
  unfolding master_target resolve_master_key_target_url
  build_target_url bases target_provider extracted_path_and_query =
      master_target bases target_provider
        (resolve_master_key_target_url bases.master_key_base_url extracted_path_and_query)
        extracted_path_and_query

  unfoldable master_base : Option Text → Option Url
  master_base none = none
  master_base (some base_url_str) = urls.parse base_url_str

  -- The base URL that wins.
  unfoldable pub effective_base : Bases Url → InferenceProvider → Option Url
  unfolding master_base router_base
  effective_base bases target_provider = option_or (master_base bases.master_key_base_url) (
      option_or (router_base bases.router_providers target_provider)
        (bases.providers_config target_provider))

  router_target-base :
      (bases : Bases Url) (p : InferenceProvider) (base : Option Url) (path : Text)
      → router_target bases p base path
        ≡ global_target p (option_or base (bases.providers_config p)) path
  unfolding router_target global_target
  router_target-base bases p none path = refl
  router_target-base bases p (some base) path = refl

  joined_master-base :
      (bases : Bases Url) (p : InferenceProvider) (base : Option Url) (path : Text)
      → master_target bases p (joined_master base path) path
        ≡ global_target p
            (option_or base
              (option_or (router_base bases.router_providers p) (bases.providers_config p)))
            path
  unfolding master_target global_target joined_master
  joined_master-base bases p none path =
      router_target-base bases p (router_base bases.router_providers p) path
  joined_master-base bases p (some base) path = refl

  master_target-base :
      (bases : Bases Url) (p : InferenceProvider) (base_url : Option Text) (path : Text)
      → master_target bases p (resolve_master_key_target_url base_url path) path
        ≡ global_target p
            (option_or
              (master_base base_url)
              (option_or (router_base bases.router_providers p) (bases.providers_config p)))
            path
  unfolding resolve_master_key_target_url master_base joined_master
  master_target-base bases p none path = joined_master-base bases p none path
  master_target-base bases p (some base_url) path =
      joined_master-base bases p (urls.parse base_url) path

  -- The URL is the one from the base URL that wins, or the provider is not configured.
  pub build_target_url-effective_base :
      (bases : Bases Url) (target_provider : InferenceProvider) (path : Text)
      → build_target_url bases target_provider path
        ≡ global_target target_provider (effective_base bases target_provider) path
  unfolding build_target_url effective_base
  build_target_url-effective_base bases target_provider path =
      master_target-base bases target_provider bases.master_key_base_url path
