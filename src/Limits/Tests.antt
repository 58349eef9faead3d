-- ===== src/Limits/Tests.antt =====
-- Limiters at work: two slots, and three requests of two addresses within a second.
use aiephant_ai_gateway.Limits.Workspace.{Workspace, done, before_inner, after_inner}
use aiephant_ai_gateway.Limits.Leaks.{Run, total, Reach, starts, goes, enters, fails, Reach-Tracked}
use aiephant_ai_gateway.Common.{
  ℕ, ◌≤◌, ◌<◌, ◌≡◌, refl, ◌↔◌, ◌⊎◌, inl, Bool, true, false, Option, none, some, List, [], ◌∷◌, any,
  arith, ℕ_discrete, ◌==◌, ◌+◌, err,
}
use aiephant_ai_gateway.Common.Text.{
  Text, codes, trim, trim_start, trim_end, is_whitespace, split_first,
}
use aiephant_ai_gateway.Limits.{
  InFlightLimiter, new_limiter, try_acquire, Deque, admit, check, deque_of, drop_old, make_room,
  evict, set_deque, effective_client_ip, forwarded_ip,
}
use aiephant_ai_gateway.Limits.InFlight.{starts, goes, takes, Reach-try_acquire}
use aiephant_ai_gateway.Limits.Window.{recent_count}
use aiephant_ai_gateway.Limits.Served.{Served, nobody, checks, times_of, Served-recent_count}
use aiephant_ai_gateway.Limits.Clients.{effective_client_ip-trusted}

abbrev slots : ℕ
slots = 2

abbrev one_taken : InFlightLimiter
one_taken = record { max = 2; in_flight = 1 }

first_takes : try_acquire (new_limiter 2) ≡ (true, one_taken)
unfolding try_acquire
first_takes = refl

Reach-try_acquire_example :
    ((slots ≡ 0) ⊎ (1 ≤ slots)) × (((try_acquire one_taken).0 ≡ true) ↔ ((slots ≡ 0) ⊎ (1 < slots)))
Reach-try_acquire_example = Reach-try_acquire slots 1 one_taken (goes starts (takes first_takes))

-- Address 7 asks again within the second of its first request, after address 8.
abbrev both_known : List (ℕ × Deque)
both_known = (7, 100 ∷ []) ∷ (8, 200 ∷ []) ∷ []

abbrev let_through : List (ℕ × ℕ)
let_through = (200, 8) ∷ (100, 7) ∷ []

serves : Served ℕ_discrete 1 900 both_known let_through
unfolding check make_room evict deque_of set_deque admit drop_old ℕ_discrete
serves =
    checks {now = 900} {map' = both_known} {allowed = false} 7
      (checks {now = 200} {map' = both_known} {allowed = true} 8
        (checks {before = 100} {now = 100} {map' = (7, 100 ∷ []) ∷ []} {allowed = true} 7 nobody
          (ground arith) (inl (ground arith)) refl)
        (ground arith) (inl (ground arith)) refl)
      (ground arith) (inl (ground arith)) refl

Served-recent_count_example : recent_count 900 (times_of ℕ_discrete 7 let_through) ≤ 1
Served-recent_count_example =
    Served-recent_count ℕ_discrete 1 (ground arith) (ground arith) 900 both_known let_through serves
      7 900 (ground arith)

-- Addresses are numbers, networks single addresses, and an address is parsed to its first character.
abbrev belongs : ℕ → ℕ → Bool
belongs network ip = network == ip

abbrev parse : Text → Option ℕ
parse [] = none
parse (c ∷ s) = some c

abbrev nine : ℕ
nine = b'9'

abbrev forwarded : Text
forwarded = codes " 9, 1"

forwards : effective_client_ip belongs parse 7 (some forwarded) (7 ∷ []) ≡ nine
unfolding effective_client_ip forwarded_ip trim trim_start trim_end is_whitespace split_first
forwards = refl

effective_client_ip-trusted_example :
    (nine ≡ 7)
    ⊎ ((any (λ n. belongs n 7) (7 ∷ []) ≡ true)
        × (raw : Text) × (some forwarded ≡ some raw)
        × (parse (trim (split_first b',' raw)) ≡ some nine))
effective_client_ip-trusted_example =
    effective_client_ip-trusted belongs parse 7 nine (some forwarded) (7 ∷ []) forwards

abbrev idle : Workspace
idle = record { count = none; incr_ok = 0; incr_err = 0; decr_ok = 0; decr_err = 0 }

abbrev one_counted : Workspace
one_counted = record { count = some 1; incr_ok = 1; incr_err = 0; decr_ok = 0; decr_err = 0 }

-- A request fails in the inner service, and stays counted.
abbrev after_failure : Run
after_failure = record {
  workspace = one_counted;
  calls = 0;
  bodies = 0;
  decrements = 0;
  kept = 1;
  expiries = 0;
}

after_failure-Reach : Reach ℕ ℕ after_failure
unfolding before_inner after_inner
after_failure-Reach =
    goes (goes (starts {w = idle} refl) (enters done refl)) (fails (err 500) 500 refl)

Reach-Tracked_example :
    (total after_failure.workspace
      ≤ after_failure.calls + after_failure.bodies + after_failure.decrements + after_failure.kept)
    × (after_failure.expiries ≡ 0
        → total after_failure.workspace
          ≡ after_failure.calls + after_failure.bodies + after_failure.decrements
            + after_failure.kept)
Reach-Tracked_example = Reach-Tracked ℕ ℕ after_failure after_failure-Reach
