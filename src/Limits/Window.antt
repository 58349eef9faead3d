-- ===== src/Limits/Window.antt =====
-- The sliding window of one client address.
use aiephant_ai_gateway.Common.{
  ℕ, ◌+◌, ◌-◌, ◌^◌, ◌≤◌, ◌<◌, ◌≡◌, refl, sym, ◌∙◌, inl, inr, min, List, [], ◌∷◌, ◌++◌, length, leb,
  if◌then◌else◌, arith, Bool-cases, length-append,
}
use aiephant_ai_gateway.Limits.{window, Deque, drop_old, admit}

-- How many of the times are in the window that ends at `now`.
unfoldable pub recent_count : ℕ → List ℕ → ℕ
recent_count now [] = 0
recent_count now (t ∷ ts) = (if leb now (t + window) then 1 else 0) + recent_count now ts

pub recent_count-length : (now : ℕ) (ts : List ℕ) → recent_count now ts ≤ length ts
unfolding recent_count
recent_count-length now [] = omega arith
recent_count-length now (t ∷ ts) = ground (arith, recent_count-length now ts)

recent_count-pair :
    (later now : ℕ) (xs ys : List ℕ)
    → recent_count later xs ≡ recent_count later ys
    → recent_count later (now ∷ xs) ≡ recent_count later ys + recent_count later (now ∷ [])
unfolding recent_count
recent_count-pair later now xs ys e = omega (arith, e)

recent_count-append :
    (now : ℕ) (xs ys : List ℕ)
    → recent_count now (xs ++ ys) ≡ recent_count now xs + recent_count now ys
unfolding recent_count
recent_count-append now [] ys = omega arith
recent_count-append now (x ∷ xs) ys = ground (arith, recent_count-append now xs ys)

recent_count-drop_old :
    (now later : ℕ) (ts : Deque)
    → now ≤ later
    → recent_count later (drop_old now ts) ≡ recent_count later ts
unfolding recent_count drop_old
recent_count-drop_old now later [] h = refl
recent_count-drop_old now later (t ∷ ts) h = ground (arith, recent_count-drop_old now later ts h)

length-drop_old : (now : ℕ) (ts : Deque) → length (drop_old now ts) ≤ length ts
unfolding drop_old
length-drop_old now [] = omega arith
length-drop_old now (t ∷ ts) = ground (arith, length-drop_old now ts)

-- The deque stands for what was let through, as seen from now on.
abbrev pub Stands : ℕ → ℕ → Deque → List ℕ → Type 0
Stands limit now deque granted =
    (length deque ≤ limit)
    × ((later : ℕ) → now ≤ later → recent_count later granted ≡ recent_count later deque)

pub admit-Stands :
    (limit now before : ℕ) (deque granted : List ℕ)
    → 0 < limit
    → limit < 2 ^ 32
    → before ≤ now
    → Stands limit before deque granted
    → Stands limit now
        ((admit limit now deque).1)
        (if (admit limit now deque).0 then now ∷ granted else granted)
unfolding admit
admit-Stands limit now before deque granted positive small h (short, same) =
    elim (Bool-cases (leb limit (min (length (drop_old now deque)) (2 ^ 32 - 1)))) [
      | inl full ↦ rw full (
        omega (arith, length-drop_old now deque, short),
        λ later l. omega (arith, same later (omega arith), recent_count-drop_old now later deque l),
      )
      | inr free ↦ rw free (
        ground (arith, length-append (drop_old now deque) (now ∷ [])),
        λ later l.
            recent_count-pair later now granted (drop_old now deque)
              (same later (omega arith) ∙ sym (recent_count-drop_old now later deque l))
            ∙ sym (recent_count-append later (drop_old now deque) (now ∷ [])),
      )
    ]
