-- ===== src/Limits/Leaks.antt =====
-- middleware/workspace_concurrency/service.rs: what the count of a workspace says of the requests
-- that are in flight.
use aiephant_ai_gateway.Common.{
  ℕ, suc, ◌+◌, ◌≤◌, ◌≡◌, true, false, none, some, unwrap_or, ◌-◌, arith, Result, Option,
}
use aiephant_ai_gateway.Limits.Workspace.{
  Redis, done, lost, done_but_failed, Workspace, before_inner, counted, returned, after_inner,
  on_release, decr_floor, incr,
}

-- The workspace, with the counted requests that are in the inner service, those whose bodies are
-- open, those whose bodies are gone while the decrement has not run, those that ended without a
-- decrement, and how often the key expired.
pub record Run : Type 0 where
  pub workspace : Workspace
  pub calls : ℕ
  pub bodies : ℕ
  pub decrements : ℕ
  pub kept : ℕ
  pub expiries : ℕ

abbrev pub total : Workspace → ℕ
total w = unwrap_or w.count 0

-- An increment that is done but not known to be is not given back.
abbrev pub unknown : Redis → ℕ
unknown done_but_failed = 1
unknown _ = 0

abbrev pub not_done : Redis → ℕ
not_done lost = 1
not_done _ = 0

module _ (Response Error : Type 0) where
  -- A request comes, or is dropped while its increment runs, with the increment done; it is answered,
  -- fails, or is dropped in the inner service; its body goes, and with it a task is spawned; the task
  -- decrements, or is aborted; or the key expires.
  pub data Step : Run → Run → Type 0 where
    enters :
        {w w' : Workspace} {c o q k x : ℕ} (r : Redis)
        → before_inner r w ≡ (true, w')
        → Step
            (record {
              workspace = w;
              calls = c;
              bodies = o;
              decrements = q;
              kept = k;
              expiries = x;
            })
            (record {
              workspace = w';
              calls = suc c;
              bodies = o;
              decrements = q;
              kept = k;
              expiries = x;
            })
    enters_uncounted :
        {w w' : Workspace} {c o q k x : ℕ} (r : Redis)
        → before_inner r w ≡ (false, w')
        → Step
            (record {
              workspace = w;
              calls = c;
              bodies = o;
              decrements = q;
              kept = k;
              expiries = x;
            })
            (record {
              workspace = w';
              calls = c;
              bodies = o;
              decrements = q;
              kept = k + unknown r;
              expiries = x;
            })
    answers :
        {w : Workspace} {c o q k x : ℕ} (result : Result Error Response) (response : Response)
        → after_inner true result ≡ counted response
        → Step
            (record {
              workspace = w;
              calls = suc c;
              bodies = o;
              decrements = q;
              kept = k;
              expiries = x;
            })
            (record {
              workspace = w;
              calls = c;
              bodies = suc o;
              decrements = q;
              kept = k;
              expiries = x;
            })
    fails :
        {w : Workspace} {c o q k x : ℕ} (result : Result Error Response) (e : Error)
        → after_inner true result ≡ returned e
        → Step
            (record {
              workspace = w;
              calls = suc c;
              bodies = o;
              decrements = q;
              kept = k;
              expiries = x;
            })
            (record {
              workspace = w;
              calls = c;
              bodies = o;
              decrements = q;
              kept = suc k;
              expiries = x;
            })
    leaves_incr :
        {w : Workspace} {c o q k x : ℕ}
        → Step
            (record {
              workspace = w;
              calls = c;
              bodies = o;
              decrements = q;
              kept = k;
              expiries = x;
            })
            (record {
              workspace = record w { count = incr w.count };
              calls = c;
              bodies = o;
              decrements = q;
              kept = suc k;
              expiries = x;
            })
    leaves_call :
        {w : Workspace} {c o q k x : ℕ}
        → Step
            (record {
              workspace = w;
              calls = suc c;
              bodies = o;
              decrements = q;
              kept = k;
              expiries = x;
            })
            (record {
              workspace = w;
              calls = c;
              bodies = o;
              decrements = q;
              kept = suc k;
              expiries = x;
            })
    body_goes :
        {w : Workspace} {c o q k x : ℕ}
        → Step
            (record {
              workspace = w;
              calls = c;
              bodies = suc o;
              decrements = q;
              kept = k;
              expiries = x;
            })
            (record {
              workspace = w;
              calls = c;
              bodies = o;
              decrements = suc q;
              kept = k;
              expiries = x;
            })
    releases :
        {w : Workspace} {c o q k x : ℕ} (r : Redis)
        → Step
            (record {
              workspace = w;
              calls = c;
              bodies = o;
              decrements = suc q;
              kept = k;
              expiries = x;
            })
            (record {
              workspace = on_release r w;
              calls = c;
              bodies = o;
              decrements = q;
              kept = k + not_done r;
              expiries = x;
            })
    aborts :
        {w : Workspace} {c o q k x : ℕ}
        → Step
            (record {
              workspace = w;
              calls = c;
              bodies = o;
              decrements = suc q;
              kept = k;
              expiries = x;
            })
            (record {
              workspace = w;
              calls = c;
              bodies = o;
              decrements = q;
              kept = suc k;
              expiries = x;
            })
    expires :
        {w : Workspace} {c o q k x : ℕ}
        → Step
            (record {
              workspace = w;
              calls = c;
              bodies = o;
              decrements = q;
              kept = k;
              expiries = x;
            })
            (record {
              workspace = record w { count = none };
              calls = c;
              bodies = o;
              decrements = q;
              kept = k;
              expiries = suc x;
            })

  pub data Reach : Run → Type 0 where
    starts :
        {w : Workspace}
        → w.count ≡ none
        → Reach (record {
          workspace = w;
          calls = 0;
          bodies = 0;
          decrements = 0;
          kept = 0;
          expiries = 0;
        })
    goes : {a b : Run} → Reach a → Step a b → Reach b

  abbrev Tracks : ℕ → ℕ → ℕ → ℕ → ℕ → ℕ → Type 0
  Tracks n c o q k x = (n ≤ c + o + q + k) × (x ≡ 0 → n ≡ c + o + q + k)

  enters-Tracks :
      (r : Redis) (w w' : Workspace) (c o q k x : ℕ)
      → before_inner r w ≡ (true, w')
      → Tracks (total w) c o q k x
      → Tracks (total w') (suc c) o q k x
  unfolding before_inner
  enters-Tracks done w w' c o q k x e t = ground (arith, e, t)
  enters-Tracks lost w w' c o q k x e t = ground (arith, e, t)
  enters-Tracks done_but_failed w w' c o q k x e t = ground (arith, e, t)

  uncounted-Tracks :
      (r : Redis) (w w' : Workspace) (c o q k x : ℕ)
      → before_inner r w ≡ (false, w')
      → Tracks (total w) c o q k x
      → Tracks (total w') c o q (k + unknown r) x
  unfolding before_inner
  uncounted-Tracks done w w' c o q k x e t = ground (arith, e, t)
  uncounted-Tracks lost w w' c o q k x e t = ground (arith, e, t)
  uncounted-Tracks done_but_failed w w' c o q k x e t = ground (arith, e, t)

  decr_floor-total : (count : Option ℕ) → unwrap_or (decr_floor count) 0 ≡ unwrap_or count 0 - 1
  unfolding decr_floor
  decr_floor-total none = omega arith
  decr_floor-total (some n) = ground arith

  releases-Tracks :
      (r : Redis) (w : Workspace) (c o q k x : ℕ)
      → Tracks (total w) c o (suc q) k x
      → Tracks (total (on_release r w)) c o q (k + not_done r) x
  unfolding on_release
  releases-Tracks done w c o q k x t = ground (arith, decr_floor-total w.count, t)
  releases-Tracks lost w c o q k x t = ground (arith, t)
  releases-Tracks done_but_failed w c o q k x t = ground (arith, decr_floor-total w.count, t)

  abbrev Tracked : Run → Type 0
  Tracked a = Tracks (total a.workspace) a.calls a.bodies a.decrements a.kept a.expiries

  Step-Tracked : (a b : Run) → Step a b → Tracked a → Tracked b
  Step-Tracked a b (enters {w = w} {w' = w'} {c = c} {o = o} {q = q} {k = k} {x = x} r e) t =
      enters-Tracks r w w' c o q k x e t
  Step-Tracked a b (enters_uncounted {w = w} {w' = w'} {c = c} {o = o} {q = q} {k = k} {x = x} r e)
        t =
      uncounted-Tracks r w w' c o q k x e t
  Step-Tracked a b (answers result response e) t = ground (arith, t)
  Step-Tracked a b (fails result e q) t = ground (arith, t)
  Step-Tracked a b (releases {w = w} {c = c} {o = o} {q = q} {k = k} {x = x} r) t =
      releases-Tracks r w c o q k x t
  Step-Tracked a b leaves_incr t = unfold incr in ground (arith, t)
  Step-Tracked a b leaves_call t = ground (arith, t)
  Step-Tracked a b body_goes t = ground (arith, t)
  Step-Tracked a b aborts t = ground (arith, t)
  Step-Tracked a b expires t = ground (arith, t)

  -- The count of a workspace is at most the counted requests in the inner service, the open bodies
  -- of counted responses, the decrements that have not run yet, and the requests that ended without a
  -- decrement, which are those that failed in the inner service, those that were dropped before their
  -- response, and those whose decrement was aborted or that a Redis error left counted; and if the key
  -- has not expired since it was missing, the count is exactly that many.
  pub Reach-Tracked :
      (a : Run)
      → Reach a
      → (total a.workspace ≤ a.calls + a.bodies + a.decrements + a.kept)
        × (a.expiries ≡ 0 → total a.workspace ≡ a.calls + a.bodies + a.decrements + a.kept)
  Reach-Tracked b (starts e) = ground (arith, e)
  Reach-Tracked b (goes {a = a} reach step) = Step-Tracked a b step (Reach-Tracked a reach)
