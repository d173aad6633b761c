-- ===== src/Uring/Errors.antt =====
-- When a worker of the io_uring server ends the process.
use upcalls.Prelude.{ℕ, ◌<◌, ◌≡◌, none, List, ◌∷◌, ◌++◌, arith, Outcome, done, exit}
use upcalls.Uring.{accept, Cqe, Sys, Env, on_cqe}
use upcalls.Uring.Run.{HasWorker, Reach}
use upcalls.Uring.Effects.{
  IsSock, Handled, Failed, accept_failed, no_newbie, no_cpu, no_value, no_caches, no_conn, Goes,
  goes, stops, on_cqe-Goes,
}
use upcalls.Uring.Served.{IsServed, cq-IsServed}
use upcalls.Uring.Safety.{Reach-IsServed}

-- A worker goes on, with an effect of the kind that the completion asks for, or it stops while it
-- accepts.
pub data Runs (size n : ℕ) (env : Env) (e : Cqe) (s : Sys) : Outcome Sys → Type 0 where
  runs : {t : Sys} → Handled size n e.req.ring e.req.io e.res s t → Runs size n env e s (done t)
  fails :
      {code : ℕ}
      → e.req.io ≡ accept
      → Failed env e.req.io e.res s code
      → Runs size n env e s (exit code)

-- The connection of a completion is there.
not-no_conn :
    {size n : ℕ} {s : Sys} (e : Cqe) (i : ℕ)
    → IsServed size n (record s { cq = e ∷ s.cq })
    → IsSock i e.req.io
    → ¬ (s.conns i ≡ none)
not-no_conn e i v h k = ground (arith, v.requests i)

Goes-Runs :
    {size n : ℕ} {env : Env} {s : Sys} (e : Cqe) {o : Outcome Sys}
    → IsServed size n (record s { cq = e ∷ s.cq })
    → Goes size n e.req.ring env e.req.io e.res s o
    → Runs size n env e s o
Goes-Runs e v (goes h) = runs h
Goes-Runs e v (stops (accept_failed k h l)) = fails h (accept_failed k h l)
Goes-Runs e v (stops (no_newbie h l)) = fails h (no_newbie h l)
Goes-Runs e v (stops (no_cpu h l)) = fails h (no_cpu h l)
Goes-Runs e v (stops (no_value h l)) = fails h (no_value h l)
Goes-Runs e v (stops (no_caches h l)) = fails h (no_caches h l)
Goes-Runs e v (stops (no_conn i h l)) = absurd (not-no_conn e i v h l)

-- In every reachable state, a worker that handles any completion there is either goes on, or it
-- was accepting a connection and the accept, an allocation or `getsockopt` failed: it exits with 1,
-- or crashes where the code does not test an allocation. So no completed read or write
-- of a connection, whatever its result, finds a null pointer in `conns`.
pub on_cqe-Runs :
    {size n : ℕ} {s : Sys} (before after : List Cqe) (e : Cqe) (env : Env)
    → 0 < size
    → Reach size n s
    → s.cq ≡ before ++ e ∷ after
    → HasWorker n env.incoming_cpu
    → Runs size n env e
        (record s { cq = before ++ after })
        (on_cqe size env e (record s { cq = before ++ after }))
on_cqe-Runs {size} {n} {s} before after e env z r h w =
    Goes-Runs e (cq-IsServed before after e h (Reach-IsServed z r))
      (on_cqe-Goes size n env e (record s { cq = before ++ after }) w)
