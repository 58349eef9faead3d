-- ===== src/Lib.antt =====
-- Verification library of the AI gateway (the crate ai-gateway).
--
-- The gateway forwards requests to model providers. A router balances over services, one for each
-- provider or model; monitors take services out of the balancer and put them back; the dispatcher
-- sends a request, retries it and reports failures to the monitors. This library models these parts
-- and how they meet:
--
-- - Common: Boolean tests, lists, results, finite sets and texts, with the functions of Rust's
--   standard library that the code calls on them.
-- - Provider (ai-gateway/src/types/provider.rs, ai-gateway/src/endpoints/): providers and endpoints, and
--   the codes and names that Provider.Codes parses and prints.
-- - ModelId (ai-gateway/src/types/model_id.rs): ModelId.Parse and ModelId.Print have the FromStr and
--   Display implementations, with one function for each step of `parse_model_and_version`, and
--   ModelId.Key the equality of ModelIdWithoutVersion, with its quotient.
-- - MapperProfiles (ai-gateway/src/config/mapper_profiles.rs,
--   ai-gateway/src/middleware/mapper/profile_resolver.rs and rule_validator.rs): the layered profiles of
--   the mapper. MapperProfiles.Patches makes and patches metadata, MapperProfiles.Resolve looks up the
--   layers, and MapperProfiles.Merge is the reference that they are compared with, for baselines that are complete
--   (MapperProfiles.Complete).
-- - DefaultModel (ai-gateway/src/default_model/, ai-gateway/src/middleware/model_support/parse.rs,
--   ai-gateway/src/discover/router/bare_model_expand_index.rs): the model for a request without one.
--   DefaultModel.Lists reads the lists of policies, DefaultModel.Candidates expands them,
--   DefaultModel.Prices and DefaultModel.Greatest pick by price and name, and DefaultModel.Choose is
--   `choose_default_gateway_model`. A panic is the absence of a value.
-- - Fallback (ai-gateway/src/config/fallback_policy.rs, ai-gateway/src/config/fallback_bridge.rs,
--   ai-gateway/src/fallback/): the failover and retry policy. `validate`, `should_remove` and
--   `restore_after` are the functions of these names; Fallback.Bridge resolves the policy against the
--   legacy configuration blocks.
-- - Balance (ai-gateway/src/config/balance.rs, ai-gateway/src/discover/): the load-balancing tables,
--   the keys of services and the change events. `present` is the balancer's view of the events of one
--   sender. The health and the rate-limit monitor of a router share a channel, which neither reads: what
--   is said of the changes of a monitor is said of those that it sends itself.
-- - Health (ai-gateway/src/discover/monitor/health/provider.rs): `Monitor` is ProviderMonitorInner
--   with what it has sent, and one function stands for each of the four check functions. Health.Check
--   has one health check and the single effects, Health.Monitors the loops; the other modules prove
--   what a pass leaves behind. Each check reads the counters of the endpoints anew, by its number.
-- - RateLimit (ai-gateway/src/discover/monitor/rate_limit/provider.rs,
--   ai-gateway/src/types/rate_limit.rs): `on_event` and `on_restore` are the two branches of the loop
--   `monitor`, RateLimit.Machine is the loop as a step relation in which timers run out in any order
--   and the receiver may go away, RateLimit.Keys has the keys of the four monitors, and
--   RateLimit.Dispatch the reports of ai-gateway/src/dispatcher/service.rs.
-- - Retry (ai-gateway/src/utils/retry.rs, ai-gateway/src/dispatcher/service.rs): the retrying future,
--   polled turn by turn, and dispatch_sync_with_retry around it.
-- - Routing (ai-gateway/src/router/router_details.rs): `parse_route`, with its regular expressions
--   written out. Upstream (ai-gateway/src/dispatcher/service.rs): Upstream.Target has
--   `build_target_url`, Upstream.Paths the path for a base URL with a version, and Upstream.Headers
--   `sanitize_upstream_headers`.
-- - LargeContext (ai-gateway/src/middleware/large_context/): the handling of chat requests that are
--   too long for their model, from the headers to the new body.
-- - Limits (ai-gateway/src/middleware/gateway_in_flight_limit/memory.rs,
--   ai-gateway/src/middleware/client_ip_rate_limit/): the limiter of requests in flight, with
--   Limits.InFlight as its step relation, and the limiter of one client's requests in a second.
--   `check` is MemoryLimiter::check at a given time, and Limits.Served has its calls for many
--   addresses as a relation. Limits.Workspace has the count of a workspace in
--   Redis (ai-gateway/src/middleware/workspace_concurrency/, ai-gateway/src/middleware/counted_body.rs)
--   and Limits.Leaks its step relation, for requests in any order, calls that are dropped while they wait
--   and decrements that run later than the end of the body.
-- - RollingCounter (ai-gateway/src/metrics/rolling_counter.rs): the counters behind the health monitor's
--   ratios of errors, incremented by one thread at a time, and in RollingCounter.Threads by several.
-- - VirtualKey (ai-gateway/src/virtual_key/): which models a virtual key may use. VirtualKey.DirectProxy
--   has the check of ai-gateway/src/dispatcher/service.rs on direct-proxy requests.
-- - ContentFilter (ai-gateway/src/content_filter/evaluate.rs): what becomes of a request after the
--   policy service was asked; `on_answer` is the match on its answer, and each operation returns
--   its result with the counters of the metrics.
-- - KvCache (crates/alephant-llm-kv-cache/src/bucket.rs): the buckets of the response cache. The
--   operations of a call see one state of the store, which is passed on explicitly.
--
-- Numbers are natural numbers; a Duration is its nanoseconds, and the additions and products that can
-- overflow say so. Parameters of the model are the code from other crates: rust_decimal and f32/f64
-- (`Decimals`, `Floats`, `Doubles`), serde_json (`Json`), backon's delays (`Backoffs`, which are taken to be as
-- many as max_times), chrono's dates (`Chrono`), URLs (`Urls`), http's map of headers (`HeaderMap`, `HeaderMapLaws`), ipnetwork and the parser of addresses,
-- str::to_lowercase and the backend of the cache (`Backend`); and of the gateway's own code the metrics
-- of endpoints and the construction of a dispatcher (`Environment`), and the request to the policy
-- service with the answer it gets. No fuel is used: loops are recursions on lists, and `drive` is a
-- recursion on the readiness of its turns, of which Retry.Poll says how many are enough.
--
-- Not modelled: HTTP and streaming, the mapping between request formats, stores, the keys and values
-- of caches, logging and telemetry, which are input and output or conversions of third-party types.
pub mod Common
pub mod Provider
pub mod Fallback
pub mod Balance
pub mod Health
pub mod RateLimit
pub mod Retry
pub mod LargeContext
pub mod Limits
pub mod Upstream
pub mod Routing
pub mod VirtualKey
pub mod KvCache
pub mod ContentFilter
pub mod RollingCounter
pub mod ModelId
pub mod MapperProfiles
pub mod DefaultModel
