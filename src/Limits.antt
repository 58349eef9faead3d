-- ===== src/Limits.antt =====
-- middleware/gateway_in_flight_limit/, middleware/client_ip_rate_limit/ and
-- middleware/workspace_concurrency/: the in-process limiters of requests in flight and of requests of
-- one client address, how that address is found, and the count of a workspace in Redis.
pub mod InFlight
pub mod Window
pub mod Workspace
pub mod Leaks
pub mod Clients
pub mod Served
pub mod Tests
use aiephant_ai_gateway.Common.{
  ℕ, suc, ◌+◌, ◌-◌, ◌^◌, min, Bool, true, false, not, ◌&&◌, Option, none, some, unwrap_or, List, [],
  ◌∷◌, ◌++◌, length, any, is_some, ltb, leb, ◌==◌, if◌then◌else◌, ite,
}
use aiephant_ai_gateway.Common.Text.{Text, trim, split_first}

-- `MemoryInFlightLimiter`, with the number behind its mutex.
pub record InFlightLimiter : Type 0 where
  pub max : ℕ
  pub in_flight : ℕ

abbrev pub new_limiter : ℕ → InFlightLimiter
new_limiter max = record { max = max; in_flight = 0 }

-- `true` is `Ok(())`.
unfoldable pub try_acquire : InFlightLimiter → Bool × InFlightLimiter
try_acquire l =
    if l.max == 0
    then (true, l)
    else if leb l.max l.in_flight
    then (false, l)
    else (true, record l { in_flight = suc l.in_flight })

unfoldable pub release : InFlightLimiter → InFlightLimiter
release l = record l { in_flight = l.in_flight - 1 }

-- One second, in nanoseconds.
abbrev pub window : ℕ
window = 1_000_000_000

abbrev pub max_tracked_ips : ℕ
max_tracked_ips = 100_000

-- The requests of one address that were let through, the oldest first.
abbrev pub Deque : Type 0
Deque = List ℕ

-- `while deque.front().is_some_and(..) { deque.pop_front() }`.
unfoldable pub drop_old : ℕ → Deque → Deque
drop_old now [] = []
drop_old now (t ∷ ts) = let rest = drop_old now ts in if ltb window (now - t) then rest else t ∷ ts

-- What `check` does with the deque of the address.
unfoldable pub admit : ℕ → ℕ → Deque → Bool × Deque
unfolding drop_old
admit limit now deque =
    let recent = drop_old now deque in
    let active = min (length recent) (2 ^ 32 - 1) in
    if leb limit active then (false, recent) else (true, recent ++ now ∷ [])

module _ {Ip : Type 0} (dec : Discrete Ip) where
  unfoldable pub deque_of : Ip → List (Ip × Deque) → Option Deque
  deque_of ip [] = none
  deque_of ip ((k, d) ∷ rest) = ite (dec k ip) (some d) (deque_of ip rest)

  unfoldable pub set_deque : Ip → Deque → List (Ip × Deque) → List (Ip × Deque)
  set_deque ip d [] = (ip, d) ∷ []
  set_deque ip d ((k, e) ∷ rest) =
      let set_rest = set_deque ip d rest in ite (dec k ip) ((k, d) ∷ rest) ((k, e) ∷ set_rest)

  -- Any entry may go: the first stands for the one that the hash map happens to give.
  unfoldable pub evict : List (Ip × Deque) → List (Ip × Deque)
  evict [] = []
  evict (e ∷ rest) = rest

  unfoldable pub make_room : Ip → List (Ip × Deque) → List (Ip × Deque)
  unfolding evict
  make_room ip map =
      if leb max_tracked_ips (length map) && not (is_some (deque_of ip map)) then evict map else map

  -- `MemoryLimiter::check` at the time `now`.
  unfoldable pub check : ℕ → ℕ → Ip → List (Ip × Deque) → Bool × List (Ip × Deque)
  check limit now ip map =
      if limit == 0
      then (true, map)
      else (let roomy = make_room ip map in
          let (allowed, deque) = admit limit now (unwrap_or (deque_of ip roomy) []) in
          (allowed, set_deque ip deque roomy))

-- Networks and the parser of addresses are those of ipnetwork and std.
module _ {Ip Network : Type 0} (in_network : Network → Ip → Bool)
    (parse_ip : Text → Option Ip) where
  unfoldable pub forwarded_ip : Option Text → Option Ip
  unfolding trim split_first
  forwarded_ip none = none
  forwarded_ip (some raw) = parse_ip (trim (split_first b',' raw))

  unfoldable pub effective_client_ip : Ip → Option Text → List Network → Ip
  unfolding forwarded_ip
  effective_client_ip peer_ip x_forwarded_for trusted =
      if any (λ n. in_network n peer_ip) trusted
      then unwrap_or (forwarded_ip x_forwarded_for) peer_ip
      else peer_ip
