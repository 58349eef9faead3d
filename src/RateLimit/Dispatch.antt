-- ===== src/RateLimit/Dispatch.antt =====
-- dispatcher/service.rs: how the dispatcher reports a failed response, and what the monitors make of
-- its reports.
use aiephant_ai_gateway.Common.{
  ℕ, ◌-◌, ◌^◌, ◌≡◌, refl, ◌⊎◌, inl, inr, Bool, true, false, ◌&&◌, Option, none, some, List, [], ◌∷◌,
  Result, ok, err, if◌then◌else◌, ltb, leb, ◌==◌, arith, All, Bool-cases,
}
use aiephant_ai_gateway.Common.Sets.{contains}
use aiephant_ai_gateway.Common.Text.{Text, parse_unsigned}
use aiephant_ai_gateway.Provider.{ApiEndpoint, provider, endpoint_type}
use aiephant_ai_gateway.Fallback.{Decimals, should_remove, rate_limit}
use aiephant_ai_gateway.Balance.{
  BalanceConfig, removed, ProviderKey, ProviderKey-discrete, ModelKey, ModelWeightedKey,
  ModelKey-discrete, ModelWeightedKey-discrete,
}
use aiephant_ai_gateway.Health.{RuntimeError, internal, Environment}
use aiephant_ai_gateway.RateLimit.{
  RateLimitEvent, new_event, Limits, next, fails, on_event, is_rate_limit_failover_enabled,
  with_key, limit,
}
use aiephant_ai_gateway.RateLimit.Keys.{provider_latency_key, model_latency_key, model_weighted_key}
use aiephant_ai_gateway.RateLimit.Recovery.{limit-marks, limit-removes}
use aiephant_ai_gateway.Health.ModelLaws.{Among, here, there}

-- `DateTime::to_utc().timestamp()`, which is signed.
pub data Timestamp : Type 0 where
  before_epoch since_epoch : ℕ → Timestamp

-- `u64::try_from(..).unwrap_or(0)`.
abbrev target_seconds : Timestamp → ℕ
target_seconds (before_epoch n) = 0
target_seconds (since_epoch n) = n

-- The parser of HTTP dates is chrono's; `now` is in seconds since the epoch.
module _ (parse_date : Text → Option Timestamp) (now : ℕ) where
  until_date : Option Timestamp → Option ℕ
  until_date none = none
  until_date (some date) =
      let target = target_seconds date in if ltb now target then some (target - now) else none

  retry_seconds : Text → Option ℕ → Option ℕ
  unfolding until_date
  retry_seconds text (some seconds) = some seconds
  retry_seconds text none = until_date (parse_date text)

  -- The header is absent, or its value where that is text.
  unfoldable pub extract_retry_after : Option Text → Option ℕ
  unfolding retry_seconds parse_unsigned
  extract_retry_after none = none
  extract_retry_after (some text) = retry_seconds text (parse_unsigned (2 ^ 64) text)

-- What the dispatcher reports through: the metrics of the known endpoints and, on a router with
-- rate-limit monitors, a channel to them.
pub record Reports (M : Type 0) : Type 0 where
  pub known : ApiEndpoint → Bool
  pub remote_internal_errors : List ApiEndpoint
  pub rate_limit_tx : Bool
  pub listening : Bool
  pub events : List (RateLimitEvent M)

module _ {M : Type 0} where
  unfoldable pub count_error : ApiEndpoint → Reports M → Result RuntimeError (Unit {0}) × Reports M
  count_error e r =
      if r.known e
      then (ok tt, record r { remote_internal_errors = e ∷ r.remote_internal_errors })
      else (err internal, r)

  -- A channel that is closed is logged only.
  unfoldable pub send_event : RateLimitEvent M → Reports M → Reports M
  send_event e r = if r.rate_limit_tx && r.listening then record r { events = e ∷ r.events } else r

  unfoldable pub handle_error_and_rate_limiting :
      ℕ → Option ℕ → Option ApiEndpoint → Reports M → Result RuntimeError (Unit {0}) × Reports M
  unfolding count_error send_event new_event
  handle_error_and_rate_limiting status retry_after none r = (ok tt, r)
  handle_error_and_rate_limiting status retry_after (some e) r =
      if leb 500 status && ltb status 600
      then count_error e r
      else if status == 429
      then (ok tt, send_event (new_event e retry_after) r)
      else (ok tt, r)

  abbrev pub Unnamed : Reports M → Type 0
  Unnamed r = All (λ e. e.model_id ≡ none) r.events

  handle-Unnamed :
      (status : ℕ) (retry_after : Option ℕ) (e : Option ApiEndpoint) (r : Reports M)
      → Unnamed r
      → Unnamed ((handle_error_and_rate_limiting status retry_after e r).1)
  unfolding handle_error_and_rate_limiting count_error send_event new_event
  handle-Unnamed status retry_after none r u = u
  handle-Unnamed status retry_after (some e) r u = elim (Bool-cases (r.known e)) [
    | inl known ↦ ground (arith, u)
    | inr unknown ↦ ground (arith, u)
  ]

  -- A sequence of responses: status, `Retry-After` and endpoint of each.
  abbrev pub report_all : List (ℕ × Option ℕ × Option ApiEndpoint) → Reports M → Reports M
  report_all [] r = r
  report_all ((status, retry_after, e) ∷ rest) r =
      report_all rest ((handle_error_and_rate_limiting status retry_after e r).1)

  report_all-Unnamed :
      (responses : List (ℕ × Option ℕ × Option ApiEndpoint)) (r : Reports M)
      → Unnamed r
      → Unnamed (report_all responses r)
  report_all-Unnamed [] r u = u
  report_all-Unnamed ((status, retry_after, e) ∷ rest) r u =
      report_all-Unnamed rest _ (handle-Unnamed status retry_after e r u)

Among-All : {A : Type 0} (P : A → Type 0) {a : A} (xs : List A) → All P xs → Among a xs → P a
Among-All P [] h q = elim q [ ]
Among-All P (x ∷ xs) h here = h.0
Among-All P (x ∷ xs) h (there q) = Among-All P xs h.1 q

abbrev pub key_of_endpoint : ApiEndpoint → ProviderKey
key_of_endpoint e = record { provider = provider e; endpoint_type = endpoint_type e }

module _ {R M : Type 0} {d : Decimals} (env : Environment R M d) where
  open d use {Decimal}

  module _ (dec : Discrete M) where
    -- Whatever responses the dispatcher handles, with no event reported before them, every event that
    -- it reports ends a model monitor with an error, weighted or by latency, when rate-limit failover
    -- is on.
    pub report_all-fails :
        (lb : BalanceConfig Decimal M) (responses : List (ℕ × Option ℕ × Option ApiEndpoint))
        (r : Reports M)
        → r.events ≡ []
        → should_remove env.config.fallback_policy rate_limit ≡ true
        → (e : RateLimitEvent M) → Among e (report_all responses r).events
        → ((now : ℕ) (s : Limits (ModelWeightedKey M))
            → on_event env (ModelWeightedKey-discrete dec) (model_weighted_key env dec lb) now e s
              ≡ fails internal)
          × ((now : ℕ) (s : Limits (ModelKey M))
              → on_event env (ModelKey-discrete dec) model_latency_key now e s ≡ fails internal)
    unfolding on_event is_rate_limit_failover_enabled with_key model_weighted_key model_latency_key
    report_all-fails lb responses r none_yet on e among =
        let unnamed : e.model_id ≡ none =
          Among-All (λ x. x.model_id ≡ none) _ (report_all-Unnamed responses r (rw none_yet tt))
            among in
        (λ now s. rw (on, unnamed) refl, λ now s. rw (on, unnamed) refl)

  -- A 429 response from an endpoint becomes an event at the head of the channel, if there is one that
  -- is open. A latency provider monitor that takes it, with the failover on, then has the endpoint's
  -- provider limited: if it was limited before, nothing changes, the changes sent included; if not,
  -- and if the receiver of changes lives, a removal of the provider is what it sends.
  pub too_many_requests-limits :
      (e : ApiEndpoint) (retry_after : Option ℕ) (r : Reports M) (now : ℕ)
      (s s' : Limits ProviderKey)
      → r.rate_limit_tx && r.listening ≡ true
      → should_remove env.config.fallback_policy rate_limit ≡ true
      → on_event env ProviderKey-discrete provider_latency_key now (new_event e retry_after) s
        ≡ next s'
      → ((handle_error_and_rate_limiting 429 retry_after (some e) r).1.events
          ≡ new_event e retry_after ∷ r.events)
        × (contains ProviderKey-discrete (key_of_endpoint e) s'.rate_limited_providers ≡ true)
        × (((contains ProviderKey-discrete (key_of_endpoint e) s.rate_limited_providers ≡ true)
              × (s' ≡ s))
            ⊎ ((contains ProviderKey-discrete (key_of_endpoint e) s.rate_limited_providers ≡ false)
                × ((s'.receiving ≡ false)
                    ⊎ (s'.changes ≡ removed (key_of_endpoint e) ∷ s.changes))))
  unfolding handle_error_and_rate_limiting send_event on_event with_key
      is_rate_limit_failover_enabled provider_latency_key new_event
  too_many_requests-limits e retry_after r now s s' tx on q =
      let event : RateLimitEvent M = new_event e retry_after in
      let key = key_of_endpoint e in
      let q' : limit env ProviderKey-discrete now key event s ≡ next s' = rw on at q in
      (
        rw tx refl,
        limit-marks env ProviderKey-discrete now key event s s' q',
        limit-removes env ProviderKey-discrete now key event s s' q',
      )
