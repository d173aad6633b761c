-- ===== src/Epoll/Accept.antt =====
-- A connection that a worker accepts is in `conns` after its owner's next event.
use upcalls.Prelude.{
  ℕ, zero, suc, ◌+◌, ◌<◌, ◌≡◌, refl, sym, ◌∙◌, ap, subst, true, false, Option, none, some, List, [],
  ◌∷◌, ◌++◌, arith, Outcome, done, exit, ◌>>=◌, ◌==◌, if◌then◌else◌, if-cases, assign, assign_self,
  length, length-append, append_assoc,
}
use upcalls.Epoll.Server.{
  Accepted, no_memory, accept_eagain, accept_error, accept_fd, Server, Env, push, tell,
  count_accept, accept_loop, on_accept, new_conn, take_newbies, on_event_at, on_event,
}

-- The connections for the worker `w` that a run of `on_accept` accepts, the last one first.
abbrev pub for_owner : (w fd : ℕ) → Option ℕ → List ℕ
for_owner w fd none = []
for_owner w fd (some cpu) = if cpu == w then fd ∷ [] else []

abbrev pub given : ℕ → List Accepted → List ℕ
given w [] = []
given w (no_memory ∷ rs) = []
given w (accept_eagain ∷ rs) = []
given w (accept_error ∷ rs) = []
given w (accept_fd fd cpu told ∷ rs) = given w rs ++ for_owner w fd cpu

-- What a run of `on_accept` leaves for `w`, if it goes on.
abbrev Given : (w : ℕ) → List Accepted → Server → Outcome Server → Type 0
Given w rs s (done t) =
    (t.incoming w ≡ given w rs ++ s.incoming w) × (t.counter w ≡ s.counter w + length (given w rs))
Given w rs s (exit c) = Unit {0}

handed :
    (w fd cpu : ℕ) (s : Server)
    → ((tell cpu (push cpu fd s)).incoming w ≡ for_owner w fd (some cpu) ++ s.incoming w)
      × ((tell cpu (push cpu fd s)).counter w ≡ s.counter w + length (for_owner w fd (some cpu)))
handed w fd cpu s = ground arith

accept_loop-Given :
    (me w : ℕ) (rs : List Accepted) (s : Server) → Given w rs s (accept_loop me rs s)
unfolding accept_loop
accept_loop-Given me w [] s = (refl, omega arith)
accept_loop-Given me w (no_memory ∷ rs) s = tt
accept_loop-Given me w (accept_eagain ∷ rs) s = (refl, omega arith)
accept_loop-Given me w (accept_error ∷ rs) s = tt
accept_loop-Given me w (accept_fd fd none told ∷ rs) s = tt
accept_loop-Given me w (accept_fd fd (some cpu) false ∷ rs) s = tt
accept_loop-Given me w (accept_fd fd (some cpu) true ∷ rs) s =
    go (accept_loop me rs u) (accept_loop-Given me w rs u)
  where
    u : Server
    u = tell cpu (push cpu fd (count_accept me s))

    go :
        (o : Outcome Server)
        → Given w rs (tell cpu (push cpu fd (count_accept me s))) o
        → Given w (accept_fd fd (some cpu) true ∷ rs) s o
    go (done t) (a, b) = (
      a
          ∙ ap (λ x. given w rs ++ x) (handed w fd cpu (count_accept me s)).0
          ∙ sym (append_assoc (given w rs) (for_owner w fd (some cpu)) (s.incoming w)),
      omega (
        arith,
        b,
        (handed w fd cpu (count_accept me s)).1,
        length-append (given w rs) (for_owner w fd (some cpu)),
      ),
    )
    go (exit c) h = tt

-- Every descriptor of a list has a new connection.
abbrev pub Connected : List ℕ → Server → Type 0
Connected [] s = Unit {0}
Connected (fd ∷ fds) s = (s.conns fd ≡ some (new_conn fd)) × Connected fds s

abbrev Served : (me : ℕ) → List ℕ → Server → Outcome Server → Type 0
Served me fds s (done t) =
    Connected fds t
    × ((i : ℕ) → s.conns i ≡ some (new_conn i) → t.conns i ≡ some (new_conn i))
    × (s.incoming me ≡ fds → t.incoming me ≡ [])
Served me fds s (exit c) = Unit {0}

take_newbies-Served :
    (me : ℕ) (env : Env) (fds : List ℕ) (s : Server) → Served me fds s (take_newbies me env fds s)
unfolding take_newbies
take_newbies-Served me env [] s = (tt, λ i h. h, λ h. h)
take_newbies-Served me env (fd ∷ rest) s =
    if-cases (λ o. Served me (fd ∷ rest) s (o >>= λ t. take_newbies me env rest t)) env.caches
      (λ a.
        if-cases (λ o. Served me (fd ∷ rest) s (o >>= λ t. take_newbies me env rest t))
          (env.added fd) (λ b. go _ (take_newbies-Served me env rest taken)) (λ b. tt))
      (λ a. tt)
  where
    taken : Server
    taken = record s {
      incoming = assign s.incoming me rest;
      conns = assign s.conns fd (some (new_conn fd));
    }

    go :
        (o : Outcome Server)
        → Served me rest
            (record s {
              incoming = assign s.incoming me rest;
              conns = assign s.conns fd (some (new_conn fd));
            })
            o
        → Served me (fd ∷ rest) s o
    go (done t) (a, b, c) = (
      (b fd (assign_self s.conns fd (some (new_conn fd))), a),
      λ i h. b i (ground arith),
      λ h. c (assign_self s.incoming me rest),
    )
    go (exit c) h = tt

Connected-append :
    (xs ys : List ℕ) (s : Server) → Connected (xs ++ ys) s → Connected xs s × Connected ys s
Connected-append [] ys s h = (tt, h)
Connected-append (x ∷ xs) ys s (h, k) =
    ((h, (Connected-append xs ys s k).0), (Connected-append xs ys s k).1)

on_event_at-Served :
    (me : ℕ) (env : Env) (k : ℕ) (s : Server)
    → 0 < k
    → Served me (s.incoming me) s (on_event_at me env k s)
on_event_at-Served me env zero s h = absurd (omega arith)
on_event_at-Served me env (suc k) s h = take_newbies-Served me env (s.incoming me) _

-- Let `v` run `on_accept` to its end, and accept some connection that belongs to `w`; and then let
-- `w`, which may be the same, run `on_event` to its end. Then each connection that `v`
-- accepted for `w`, and each that was on the list of `w` before, is in `conns` as `new_conn` makes
-- it, and the list of `w` is empty.
pub accepted-Connected :
    (v w : ℕ) (env : Env) (s t u : Server)
    → on_accept v s ≡ done t
    → 0 < length (given w s.accepts)
    → on_event w env t ≡ done u
    → Connected (given w s.accepts) u × Connected (s.incoming w) u × (u.incoming w ≡ [])
accepted-Connected v w env s t u h l k =
    let (a, b, c) = done_at in let (x, y) = parts a in (x, y, c refl)
  where
    listed :
        (t.incoming w ≡ given w s.accepts ++ s.incoming w)
        × (t.counter w ≡ s.counter w + length (given w s.accepts))
    listed = subst (Given w s.accepts s) h (accept_loop-Given v w s.accepts s)

    done_at : Served w (t.incoming w) t (done u)
    done_at =
        subst (Served w (t.incoming w) t) k
          (on_event_at-Served w env (t.counter w) t (omega (arith, listed.1, l)))

    parts :
        Connected (t.incoming w) u → Connected (given w s.accepts) u × Connected (s.incoming w) u
    parts a =
        Connected-append (given w s.accepts) (s.incoming w) u
          (subst (λ xs. Connected xs u) listed.0 a)
