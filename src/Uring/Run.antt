-- ===== src/Uring/Run.antt =====
-- The rings run: the kernel completes requests in any order, and workers handle completions in any
-- order, interleaved.
use upcalls.Prelude.{
  ℕ, ◌+◌, ◌≤◌, ◌<◌, ◌≡◌, true, false, Option, none, some, List, ◌∷◌, ◌++◌, ℤ, pos, negsuc, done,
  assign,
}
use upcalls.Uring.{
  accept, sock_read, ev_read, sock_write, ev_write, Req, Cqe, Sys, Env, on_cqe, take_newbie, init,
}

-- The kernel moves no more bytes than it was asked to.
abbrev pub Moves : ℕ → ℤ → Type 0
Moves len (pos k) = k ≤ len
Moves len (negsuc k) = Unit {0}

-- What the kernel does to complete a request, and the result: a new descriptor was not open; a read
-- of an event descriptor waits until its value is positive, and sets it to 0; a write adds 1.
pub data Kernel (s : Sys) (r : Req) : ℤ → Sys → Type 0 where
  accepts :
      (fd : ℕ)
      → r.io ≡ accept
      → s.opened fd ≡ false
      → Kernel s r (pos fd) (record s { opened = assign s.opened fd true })
  accept_fails : (k : ℕ) → r.io ≡ accept → Kernel s r (negsuc k) s
  reads : (i : ℕ) (res : ℤ) → r.io ≡ sock_read i → Moves r.len res → Kernel s r res s
  writes : (i : ℕ) (res : ℤ) → r.io ≡ sock_write i → Moves r.len res → Kernel s r res s
  wakes :
      r.io ≡ ev_read
      → 0 < s.counter r.ring
      → Kernel s r (pos 8) (record s { counter = assign s.counter r.ring 0 })
  signals :
      (w : ℕ)
      → r.io ≡ ev_write w
      → Kernel s r (pos 8) (record s { counter = assign s.counter w (s.counter w + 1) })

-- The CPU of a connection is one that has a worker.
abbrev pub HasWorker : ℕ → Option ℕ → Type 0
HasWorker n none = Unit {0}
HasWorker n (some cpu) = cpu < n

-- One step, of `n` workers. A worker in its loop over new connections handles nothing else.
pub data Step (size n : ℕ) (s : Sys) : Sys → Type 0 where
  completes :
      {t : Sys} (before after : List Req) (r : Req) (res : ℤ)
      → s.flight ≡ before ++ r ∷ after
      → Kernel (record s { flight = before ++ after }) r res t
      → Step size n s (record t { cq = record { req = r; res = res } ∷ t.cq })
  handles :
      {t : Sys} (before after : List Cqe) (e : Cqe) (env : Env)
      → s.cq ≡ before ++ e ∷ after
      → e.req.ring < n
      → s.draining e.req.ring ≡ false
      → HasWorker n env.incoming_cpu
      → on_cqe size env e (record s { cq = before ++ after }) ≡ done t
      → Step size n s t
  takes :
      {t : Sys} (me : ℕ) (env : Env)
      → me < n
      → s.draining me ≡ true
      → take_newbie size me env s ≡ done t
      → Step size n s t

pub data Reach (size n : ℕ) : Sys → Type 0 where
  start : Reach size n (init n)
  later : {s t : Sys} → Reach size n s → Step size n s t → Reach size n t
