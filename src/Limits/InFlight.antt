-- ===== src/Limits/InFlight.antt =====
-- The limiter of requests in flight, with the requests that hold a slot.
use aiephant_ai_gateway.Common.{ℕ, suc, ◌≤◌, ◌<◌, ◌≡◌, ◌↔◌, ◌⊎◌, true, false, arith}
use aiephant_ai_gateway.Limits.{InFlightLimiter, new_limiter, try_acquire, release}

-- A request takes a slot, or is turned away, or ends and gives its slot back. The state is the limiter
-- and the number of requests that hold a slot.
pub data Step : InFlightLimiter × ℕ → InFlightLimiter × ℕ → Type 0 where
  takes :
      {l l' : InFlightLimiter} {held : ℕ}
      → try_acquire l ≡ (true, l')
      → Step (l, held) (l', suc held)
  turned_away :
      {l l' : InFlightLimiter} {held : ℕ} → try_acquire l ≡ (false, l') → Step (l, held) (l', held)
  gives_back : {l : InFlightLimiter} {held : ℕ} → Step (l, suc held) (release l, held)

pub data Reach (max : ℕ) : InFlightLimiter × ℕ → Type 0 where
  starts : Reach max (new_limiter max, 0)
  goes : {a b : InFlightLimiter × ℕ} → Reach max a → Step a b → Reach max b

abbrev Counted : ℕ → InFlightLimiter → ℕ → Type 0
Counted max l held =
    (l.max ≡ max)
    × (((max ≡ 0) × (l.in_flight ≡ 0)) ⊎ ((0 < max) × (l.in_flight ≡ held) × (held ≤ max)))

takes-Counted :
    (max held : ℕ) (l l' : InFlightLimiter)
    → Counted max l held
    → try_acquire l ≡ (true, l')
    → Counted max l' (suc held)
unfolding try_acquire
takes-Counted max held l l' c e = ground (arith, c)

turned_away-Counted :
    (max held : ℕ) (l l' : InFlightLimiter)
    → Counted max l held
    → try_acquire l ≡ (false, l')
    → Counted max l' held
unfolding try_acquire
turned_away-Counted max held l l' c e = ground (arith, c)

gives_back-Counted :
    (max held : ℕ) (l : InFlightLimiter) → Counted max l (suc held) → Counted max (release l) held
unfolding release
gives_back-Counted max held l c = ground (arith, c)

Step-Counted :
    (max : ℕ) (a b : InFlightLimiter × ℕ) → Step a b → Counted max a.0 a.1 → Counted max b.0 b.1
Step-Counted max a b (takes {l = l} {l' = l'} {held = held} e) c = takes-Counted max held l l' c e
Step-Counted max a b (turned_away {l = l} {l' = l'} {held = held} e) c =
    turned_away-Counted max held l l' c e
Step-Counted max a b (gives_back {l = l} {held = held}) c = gives_back-Counted max held l c

Reach-Counted : (max : ℕ) (a : InFlightLimiter × ℕ) → Reach max a → Counted max a.0 a.1
Reach-Counted max a starts = ground arith
Reach-Counted max b (goes {a = a} reach step) =
    Step-Counted max a b step (Reach-Counted max a reach)

-- However requests come and end, a positive limit bounds the requests that hold a slot, and a request
-- is let in exactly if a slot is free; with a limit of 0 every request is.
pub Reach-try_acquire :
    (max held : ℕ) (l : InFlightLimiter)
    → Reach max (l, held)
    → ((max ≡ 0) ⊎ (held ≤ max)) × (((try_acquire l).0 ≡ true) ↔ ((max ≡ 0) ⊎ (held < max)))
unfolding try_acquire
Reach-try_acquire max held l reach = ground (arith, Reach-Counted max (l, held) reach)
