-- ===== src/Limits/Served.antt =====
-- What the checks of many client addresses let through.
use aiephant_ai_gateway.Common.{
  ℕ, ◌^◌, ◌≤◌, ◌<◌, ◌≡◌, refl, ap, sym, ◌∙◌, ◌⊎◌, true, false, Bool, unwrap_or, some, is_some, List,
  [], ◌∷◌, length, if◌then◌else◌, ite, if_pos, if_neg, arith,
}
use aiephant_ai_gateway.Limits.{Deque, max_tracked_ips, admit, deque_of, check}
use aiephant_ai_gateway.Limits.Window.{recent_count, recent_count-length, Stands, admit-Stands}
use aiephant_ai_gateway.Limits.Clients.{check-deque_of}

module _ {Ip : Type 0} (dec : Discrete Ip) where
  -- The times at which requests of the address were let through.
  unfoldable pub times_of : Ip → List (ℕ × Ip) → List ℕ
  times_of k [] = []
  times_of k ((t, ip) ∷ granted) = let rest = times_of k granted in ite (dec ip k) (t ∷ rest) rest

  abbrev pub deque : Ip → List (Ip × Deque) → Deque
  deque k map = unwrap_or (deque_of dec k map) []

  times_of-granted :
      (k ip : Ip) (now : ℕ) (allowed : Bool) (earlier : List (ℕ × Ip))
      → times_of k (if allowed then (now, ip) ∷ earlier else earlier)
        ≡ ite
            (dec ip k)
            (if allowed then now ∷ times_of k earlier else times_of k earlier)
            (times_of k earlier)
  unfolding times_of
  times_of-granted k ip now true earlier = refl
  times_of-granted k ip now false earlier = ground arith

module _ {Ip : Type 0} (dec : Discrete Ip) (limit : ℕ) where
  -- The checks of a limiter that never had to evict an address: the time of the last one, the map, and
  -- the times and addresses that were let through, the newest first. Each check finds its address in
  -- the map or the map with room for it.
  pub data Served : ℕ → List (Ip × Deque) → List (ℕ × Ip) → Type 0 where
    nobody : {now : ℕ} → Served now [] []
    checks :
        {before now : ℕ} {map map' : List (Ip × Deque)} {granted : List (ℕ × Ip)} {allowed : Bool}
        (ip : Ip)
        → Served before map granted
        → before ≤ now
        → (length map < max_tracked_ips) ⊎ (is_some (deque_of dec ip map) ≡ true)
        → check dec limit now ip map ≡ (allowed, map')
        → Served now map' (if allowed then (now, ip) ∷ granted else granted)

  Stands-same :
      {now : ℕ} {d d' g g' : List ℕ}
      → d ≡ d'
      → g ≡ g'
      → Stands limit now d' g'
      → Stands limit now d g
  Stands-same {now} {d' = d'} {g = g} e f (short, same) =
      (rw e short, λ later l. rw (e, f) (same later l))

  check-Stands :
      (before now : ℕ) (ip k : Ip) (map map' : List (Ip × Deque)) (granted : List (ℕ × Ip))
      (allowed : Bool)
      → 0 < limit
      → limit < 2 ^ 32
      → before ≤ now
      → (length map < max_tracked_ips) ⊎ (is_some (deque_of dec ip map) ≡ true)
      → check dec limit now ip map ≡ (allowed, map')
      → Stands limit before (deque dec k map) (times_of dec k granted)
      → Stands limit now
          (deque dec k map')
          (times_of dec k (if allowed then (now, ip) ∷ granted else granted))
  check-Stands before now ip k map map' granted allowed positive small h room q st =
      let (answer, kept) = check-deque_of dec limit now ip map positive room in
      let allowed_ : allowed ≡ (admit limit now (deque dec ip map)).0 = cc (q, answer) in
      let left : deque_of dec k map'
          ≡ ite (dec ip k) (some (admit limit now (deque dec ip map)).1) (deque_of dec k map) =
        ap (λ c. deque_of dec k c.1) (sym q) ∙ kept k in
      let times = times_of-granted dec k ip now allowed granted in
      elim (dec ip k) [
        | yes same ↦
            Stands-same
              (ap (λ o. unwrap_or o [])
                  (left
                    ∙ if_pos (dec ip k) same (some (admit limit now (deque dec ip map)).1)
                        (deque_of dec k map))
                ∙ ap (λ i. (admit limit now (deque dec i map)).1) same)
              (times
                ∙ if_pos (dec ip k) same
                    (if allowed then now ∷ times_of dec k granted else times_of dec k granted)
                    (times_of dec k granted)
                ∙ ap (λ a. if a then now ∷ times_of dec k granted else times_of dec k granted)
                    (allowed_ ∙ ap (λ i. (admit limit now (deque dec i map)).0) same))
              (admit-Stands limit now before (deque dec k map) (times_of dec k granted) positive
                small h st)
        | no differs ↦
            Stands-same
              (ap (λ o. unwrap_or o [])
                (left
                  ∙ if_neg (dec ip k) differs (some (admit limit now (deque dec ip map)).1)
                      (deque_of dec k map)))
              (times
                ∙ if_neg (dec ip k) differs
                    (if allowed then now ∷ times_of dec k granted else times_of dec k granted)
                    (times_of dec k granted))
              (st.0, λ later l. st.1 later (omega (arith, h, l)))
      ]

  Served-Stands :
      0 < limit
      → limit < 2 ^ 32
      → (now : ℕ) (map : List (Ip × Deque)) (granted : List (ℕ × Ip)) → Served now map granted
      → (k : Ip) → Stands limit now (deque dec k map) (times_of dec k granted)
  unfolding times_of recent_count deque_of
  Served-Stands positive small now map granted nobody k = (ground arith, λ later l. refl)
  Served-Stands positive small now map granted
        (checks {before = before} {map = old} {granted = earlier} {allowed} ip served h room q) k =
      check-Stands before now ip k old map earlier allowed positive small h room q
        (Served-Stands positive small before old earlier served k)

  -- Whatever checks a limiter of addresses makes at times that do not go back, as long as none of them
  -- had to evict an address: at no time from the last check on are more of the requests that it let
  -- through for an address in the last second than the limit, which is positive and below 2^32.
  pub Served-recent_count :
      0 < limit
      → limit < 2 ^ 32
      → (last : ℕ) (map : List (Ip × Deque)) (granted : List (ℕ × Ip)) → Served last map granted
      → (k : Ip) (now : ℕ) → last ≤ now
      → recent_count now (times_of dec k granted) ≤ limit
  Served-recent_count positive small last map granted served k now l =
      let (short, same) = Served-Stands positive small last map granted served k in
      omega (arith, same now l, short, recent_count-length now (deque dec k map))
