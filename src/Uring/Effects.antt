-- ===== src/Uring/Effects.antt =====
-- What a worker that goes on has done for a completion.
use upcalls.Prelude.{
  ℕ, zero, suc, ◌+◌, ◌-◌, ◌<◌, ◌≡◌, ◌≢◌, ◌⊎◌, inl, inr, refl, true, false, Option, none, some,
  arith, ℤ, pos, negsuc, Outcome, done, done_inj, exit, subst, ◌==◌, Bool-cases, if-cases, ne_of_==,
  assign,
}
use upcalls.Echo.{segv}
use upcalls.Uring.{
  Io, accept, sock_read, ev_read, sock_write, ev_write, Cqe, Connection, Sys, Env, submit,
  add_accept_request, on_close, connect, hand_over, give_owner, find_owner, on_accepted,
  move_cursor, have_read, have_written, unless_closed, on_io, on_cqe,
}
use upcalls.Uring.Run.{HasWorker}

-- A request for bytes of the connection `i`.
abbrev pub IsSock : ℕ → Io → Type 0
IsSock i io = (io ≡ sock_read i) ⊎ (io ≡ sock_write i)

module _ (size n me : ℕ) (io : Io) (res : ℤ) (s : Sys) where
  -- The new state, up to the counts of accepted and of handled connections.
  pub data Handled : Sys → Type 0 where
    connected :
        (fd : ℕ) (counts : ℕ → ℕ)
        → io ≡ accept
        → res ≡ pos fd
        → Handled (record (add_accept_request me (connect size me fd s)) { accept_count = counts })
    handed :
        (fd owner : ℕ) (counts : ℕ → ℕ)
        → io ≡ accept
        → res ≡ pos fd
        → owner < n
        → Handled
            (record (add_accept_request me (hand_over me owner fd s)) { accept_count = counts })
    closed : (i : ℕ) (c : Connection) → IsSock i io → s.conns i ≡ some c → Handled (on_close me c s)
    moved :
        (i : ℕ) (c : Connection) (m k len : ℕ) (next : Io) (counts : ℕ → ℕ)
        → IsSock i io
        → s.conns i ≡ some c
        → res ≡ pos (suc m)
        → (k ≡ 0) ⊎ ((k ≡ c.cursor + suc m) × (k ≢ size))
        → len ≡ size - k
        → IsSock c.fd next
        → Handled
            (record (submit
              (record { ring = me; io = next; at = k; len = len })
              (move_cursor k c s)) { conn_count = counts })
    drains : io ≡ ev_read → Handled (record s { draining = assign s.draining me true })
    freed : (w : ℕ) → io ≡ ev_write w → Handled s

-- Why a worker stops: a call failed, or there is no connection at the index.
pub data Failed (env : Env) (io : Io) (res : ℤ) (s : Sys) : ℕ → Type 0 where
  accept_failed : (k : ℕ) → io ≡ accept → res ≡ negsuc k → Failed env io res s 1
  no_newbie : io ≡ accept → env.newbie ≡ false → Failed env io res s 1
  no_cpu : io ≡ accept → env.incoming_cpu ≡ none → Failed env io res s 1
  no_value : io ≡ accept → env.event_value ≡ false → Failed env io res s segv
  no_caches : io ≡ accept → env.caches ≡ false → Failed env io res s segv
  no_conn : (i : ℕ) → IsSock i io → s.conns i ≡ none → Failed env io res s segv

pub data Goes (size n me : ℕ) (env : Env) (io : Io) (res : ℤ) (s : Sys) : Outcome Sys → Type 0 where
  goes : {t : Sys} → Handled size n me io res s t → Goes size n me env io res s (done t)
  stops : {code : ℕ} → Failed env io res s code → Goes size n me env io res s (exit code)

module _ (size n me : ℕ) (env : Env) (s : Sys) where
  give_owner-Goes :
      (owner fd : ℕ) (counts : ℕ → ℕ)
      → owner < n
      → Goes size n me env accept
          (pos fd)
          s
          (give_owner size me env owner fd (record s { accept_count = counts }))
  give_owner-Goes owner fd counts l =
      if-cases (Goes size n me env accept (pos fd) s) (owner == me)
        (λ b.
          if-cases (Goes size n me env accept (pos fd) s) env.caches
            (λ c. goes (connected fd counts refl refl)) (λ c. stops (no_caches refl c)))
        (λ b.
          if-cases (Goes size n me env accept (pos fd) s) env.event_value
            (λ c. goes (handed fd owner counts refl refl l)) (λ c. stops (no_value refl c)))

  find_owner-Goes :
      (cpu : Option ℕ) (fd : ℕ) (counts : ℕ → ℕ)
      → env.incoming_cpu ≡ cpu
      → HasWorker n cpu
      → Goes size n me env accept
          (pos fd)
          s
          (find_owner size me env cpu fd (record s { accept_count = counts }))
  find_owner-Goes none fd counts e h = stops (no_cpu refl e)
  find_owner-Goes (some cpu) fd counts e h = give_owner-Goes cpu fd counts h

  on_accepted-Goes :
      (res : ℤ)
      → HasWorker n env.incoming_cpu
      → Goes size n me env accept res s (on_accepted size me env res s)
  on_accepted-Goes (negsuc k) h = stops (accept_failed k refl refl)
  on_accepted-Goes (pos fd) h =
      if-cases (Goes size n me env accept (pos fd) s) env.newbie
        (λ b. find_owner-Goes env.incoming_cpu fd _ refl h) (λ b. stops (no_newbie refl b))

  read-Goes :
      (i m : ℕ) (c : Connection)
      → s.conns i ≡ some c
      → Goes size n me env (sock_read i) (pos (suc m)) s (done (have_read size me (suc m) c s))
  read-Goes i m c e = elim (Bool-cases (c.cursor + suc m == size)) [
    | inl b ↦ rw (b) (
        goes (
          moved i c m 0 size (sock_write c.fd) s.conn_count (inl refl) e refl (inl refl)
            (omega arith) (inr refl)))
    | inr b ↦ rw (b) (
        goes (
          moved i c m (c.cursor + suc m) _ (sock_read c.fd) s.conn_count (inl refl) e refl
            (inr (refl, ne_of_== _ _ b)) refl (inl refl)))
  ]

  written-Goes :
      (i m : ℕ) (c : Connection)
      → s.conns i ≡ some c
      → Goes size n me env (sock_write i) (pos (suc m)) s (done (have_written size me (suc m) c s))
  written-Goes i m c e = elim (Bool-cases (c.cursor + suc m == size)) [
    | inl b ↦ rw (b) (
        goes (
          moved i c m 0 size (sock_read c.fd) _ (inr refl) e refl (inl refl) (omega arith)
            (inl refl)))
    | inr b ↦ rw (b) (
        goes (
          moved i c m (c.cursor + suc m) _ (sock_write c.fd) s.conn_count (inr refl) e refl
            (inr (refl, ne_of_== _ _ b)) refl (inr refl)))
  ]

  sock_read-Goes :
      (i : ℕ) (res : ℤ) (oc : Option Connection)
      → s.conns i ≡ oc
      → Goes size n me env (sock_read i) res s (unless_closed me (have_read size me) res oc s)
  sock_read-Goes i (pos (suc m)) (some c) e = read-Goes i m c e
  sock_read-Goes i (pos (suc m)) none e = stops (no_conn i (inl refl) e)
  sock_read-Goes i (pos zero) none e = stops (no_conn i (inl refl) e)
  sock_read-Goes i (negsuc k) none e = stops (no_conn i (inl refl) e)
  sock_read-Goes i (pos zero) (some c) e = goes (closed i c (inl refl) e)
  sock_read-Goes i (negsuc k) (some c) e = goes (closed i c (inl refl) e)

  sock_write-Goes :
      (i : ℕ) (res : ℤ) (oc : Option Connection)
      → s.conns i ≡ oc
      → Goes size n me env (sock_write i) res s (unless_closed me (have_written size me) res oc s)
  sock_write-Goes i (pos (suc m)) (some c) e = written-Goes i m c e
  sock_write-Goes i (pos (suc m)) none e = stops (no_conn i (inr refl) e)
  sock_write-Goes i (pos zero) none e = stops (no_conn i (inr refl) e)
  sock_write-Goes i (negsuc k) none e = stops (no_conn i (inr refl) e)
  sock_write-Goes i (pos zero) (some c) e = goes (closed i c (inr refl) e)
  sock_write-Goes i (negsuc k) (some c) e = goes (closed i c (inr refl) e)

  on_io-Goes :
      (io : Io) (res : ℤ)
      → HasWorker n env.incoming_cpu
      → Goes size n me env io res s (on_io size me env io res s)
  on_io-Goes accept res h = on_accepted-Goes res h
  on_io-Goes (sock_read i) res h = sock_read-Goes i res (s.conns i) refl
  on_io-Goes ev_read res h = goes (drains refl)
  on_io-Goes (sock_write i) res h = sock_write-Goes i res (s.conns i) refl
  on_io-Goes (ev_write w) res h = goes (freed w refl)

pub on_cqe-Goes :
    (size n : ℕ) (env : Env) (e : Cqe) (s : Sys)
    → HasWorker n env.incoming_cpu
    → Goes size n e.req.ring env e.req.io e.res s (on_cqe size env e s)
unfolding on_cqe
on_cqe-Goes size n env e s h = on_io-Goes size n e.req.ring env s e.req.io e.res h

done-Handled :
    {size n me : ℕ} {env : Env} {io : Io} {res : ℤ} {s t : Sys} (o : Outcome Sys)
    → Goes size n me env io res s o
    → o ≡ done t
    → Handled size n me io res s t
done-Handled {size} {n} {me} {io = io} {res} {s} (done u) (goes g) e =
    subst (Handled size n me io res s) (done_inj e) g
done-Handled (exit c) (stops f) e = cc

pub on_cqe-Handled :
    (size n : ℕ) (env : Env) (e : Cqe) (s : Sys) {t : Sys}
    → HasWorker n env.incoming_cpu
    → on_cqe size env e s ≡ done t
    → Handled size n e.req.ring e.req.io e.res s t
on_cqe-Handled size n env e s h eq = done-Handled _ (on_cqe-Goes size n env e s h) eq
