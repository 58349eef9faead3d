-- ===== src/Limits/Workspace.antt =====
-- middleware/workspace_concurrency/ and middleware/counted_body.rs: the count in Redis of the
-- requests of a workspace that are in flight. The key expires on its own, and a command may fail
-- with its effect or without.
use aiephant_ai_gateway.Common.{
  ℕ, suc, ◌-◌, ◌≡◌, ◌⊎◌, Bool, true, false, Option, none, some, List, [], ◌∷◌, unwrap_or, ltb,
  arith, Result, ok, err, if◌then◌else◌,
}

-- `CountedBody`, with how often its callback has run.
pub record CountedBody : Type 0 where
  pub released : Bool
  pub releases : ℕ

-- What the inner body answers to a poll.
pub data Polled : Type 0 where
  pending frame ended failed : Polled

abbrev pub new_body : CountedBody
new_body = record { released = false; releases = 0 }

unfoldable pub fire_release : CountedBody → CountedBody
fire_release body =
    if body.released then body else record { released = true; releases = suc body.releases }

unfoldable pub poll_frame : Polled → CountedBody → CountedBody
unfolding fire_release
poll_frame pending body = body
poll_frame frame body = body
poll_frame ended body = fire_release body
poll_frame failed body = fire_release body

-- The polls of a body in turn, and its drop.
unfoldable pub lives : List Polled → CountedBody → CountedBody
unfolding poll_frame fire_release
lives [] body = fire_release body
lives (out ∷ outs) body = lives outs (poll_frame out body)

Once : CountedBody → Type 0
Once body =
    ((body.released ≡ false) × (body.releases ≡ 0)) ⊎ ((body.released ≡ true) × (body.releases ≡ 1))

poll_frame-Once : (out : Polled) (body : CountedBody) → Once body → Once (poll_frame out body)
unfolding poll_frame fire_release Once
poll_frame-Once pending body o = o
poll_frame-Once frame body o = o
poll_frame-Once ended body o = ground (arith, o)
poll_frame-Once failed body o = ground (arith, o)

-- However a body is read, its callback has run exactly once when the body is gone.
releases-lives :
    (outs : List Polled) (body : CountedBody) → Once body → (lives outs body).releases ≡ 1
unfolding lives fire_release Once
releases-lives [] body o = ground (arith, o)
releases-lives (out ∷ outs) body o =
    releases-lives outs (poll_frame out body) (poll_frame-Once out body o)

-- How a command ends: with its effect, without, or with the effect but an error.
pub data Redis : Type 0 where
  done lost done_but_failed : Redis

-- The key of the workspace, and the metrics of the commands.
pub record Workspace : Type 0 where
  pub count : Option ℕ
  pub incr_ok : ℕ
  pub incr_err : ℕ
  pub decr_ok : ℕ
  pub decr_err : ℕ

unfoldable pub incr : Option ℕ → Option ℕ
incr count = some (suc (unwrap_or count 0))

-- DECR_FLOOR.
unfoldable pub decr_floor : Option ℕ → Option ℕ
decr_floor none = none
decr_floor (some n) = if ltb 0 n then some (n - 1) else some n

-- The call up to the inner service, and whether the increment is known to be done.
unfoldable pub before_inner : Redis → Workspace → Bool × Workspace
unfolding incr
before_inner done w = (true, record w { count = incr w.count; incr_ok = suc w.incr_ok })
before_inner lost w = (false, record w { incr_err = suc w.incr_err })
before_inner done_but_failed w =
    (false, record w { count = incr w.count; incr_err = suc w.incr_err })

-- What the caller gets: a response whose body gives the count back, or one whose body does not.
pub data Outcome (Response Error : Type 0) : Type 0 where
  counted : Response → Outcome Response Error
  uncounted : Response → Outcome Response Error
  returned : Error → Outcome Response Error

unfoldable pub after_inner :
    {Response Error : Type 0} → Bool → Result Error Response → Outcome Response Error
after_inner incr_ok (err e) = returned e
after_inner true (ok response) = counted response
after_inner false (ok response) = uncounted response

unfoldable pub on_release : Redis → Workspace → Workspace
unfolding decr_floor
on_release done w = record w { count = decr_floor w.count; decr_ok = suc w.decr_ok }
on_release lost w = record w { decr_err = suc w.decr_err }
on_release done_but_failed w = record w { count = decr_floor w.count; decr_err = suc w.decr_err }
