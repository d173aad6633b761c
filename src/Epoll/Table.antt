-- ===== src/Epoll/Table.antt =====
-- The event loop keeps every connection at the index of its descriptor.
use upcalls.Prelude.{
  ℕ, zero, suc, ◌+◌, ◌≡◌, refl, subst, Bool, true, false, Option, none, some, List, [], ◌∷◌, arith,
  Outcome, done, done_inj, exit, ◌>>=◌, if◌then◌else◌, if-cases, ltb, length,
}
use upcalls.Epoll.{
  Conn, Got, bytes, got_eof, got_eagain, got_error, Put, taken, put_eof, put_eagain, put_error, Ran,
  returned, closing, in_call, write_loop, store, read_loop, keep_cursor, on_read, begin, writing,
}
use upcalls.Epoll.Server.{
  Accepted, no_memory, accept_eagain, accept_error, accept_fd, Server, Env, on_close, find_owner,
  count_accept, accept_loop, take_newbie, take_newbies, on_event_at, after_read, Source,
  listen_sock, event_fd, client, Event, read_at, close_at, on_failure, run_handler, handle_event,
  handle_events,
}

-- The connection of a run.
abbrev conn_of : Ran → Conn
conn_of (returned c io) = c
conn_of (closing c io) = c
conn_of (in_call c io) = c

module _ (size : ℕ) where
  write_loop-fd :
      (k : ℕ) (c : Conn) (rs : List Got) (ws : List Put) (sent : List ℕ)
      → (conn_of (write_loop size k c rs ws sent)).fd ≡ c.fd
  unfolding write_loop
  write_loop-fd k c rs [] sent = refl
  write_loop-fd k c rs (put_eof ∷ ws) sent = refl
  write_loop-fd k c rs (put_eagain ∷ ws) sent = write_loop-fd k c rs ws sent
  write_loop-fd k c rs (put_error ∷ ws) sent = write_loop-fd k c rs ws sent
  write_loop-fd k c rs (taken n ∷ ws) sent =
      if-cases (λ o. (conn_of o).fd ≡ c.fd) (ltb (k + suc n) size)
        (λ t. write_loop-fd (k + suc n) c rs ws _) (λ t. refl)

  keep_cursor-fd : (k : ℕ) (c : Conn) → (keep_cursor k c).fd ≡ c.fd
  keep_cursor-fd k c = if-cases (λ (d : Conn). d.fd ≡ c.fd) (ltb c.cursor k) (λ t. refl) (λ t. refl)

  read_loop-fd :
      (k : ℕ) (c : Conn) (rs : List Got) (ws : List Put) (sent : List ℕ)
      → (conn_of (read_loop size k c rs ws sent)).fd ≡ c.fd
  unfolding read_loop
  read_loop-fd k c [] ws sent = refl
  read_loop-fd k c (got_eof ∷ rs) ws sent = refl
  read_loop-fd k c (got_eagain ∷ rs) ws sent = keep_cursor-fd k c
  read_loop-fd k c (got_error ∷ rs) ws sent = keep_cursor-fd k c
  read_loop-fd k c (bytes b bs ∷ rs) ws sent =
      if-cases (λ o. (conn_of o).fd ≡ c.fd) (ltb (k + suc (length bs)) size)
        (λ t. read_loop-fd (k + suc (length bs)) (store k (b ∷ bs) c) rs ws sent)
        (λ t.
          write_loop-fd 0 (record (store k (b ∷ bs) c) { cursor = 0; state = writing }) rs ws sent)

-- Every connection stands at the index of its descriptor.
abbrev pub IsTable : Server → Type 0
IsTable s = (i : ℕ) (c : Conn) → s.conns i ≡ some c → c.fd ≡ i

-- If it goes on, it leaves such a table.
abbrev pub Keeps : Outcome Server → Type 0
Keeps (done s) = IsTable s
Keeps (exit c) = Unit {0}

pub Keeps-done : (o : Outcome Server) {s : Server} → Keeps o → o ≡ done s → IsTable s
Keeps-done (done u) k e = subst IsTable (done_inj e) k
Keeps-done (exit c) k e = cc

Keeps-then :
    (o : Outcome Server) (f : Server → Outcome Server)
    → Keeps o
    → ((s : Server) → IsTable s → Keeps (f s))
    → Keeps (o >>= f)
Keeps-then (done s) f k h = h s k
Keeps-then (exit c) f k h = tt

find_owner-Keeps :
    (fd : ℕ) (cpu : Option ℕ) (told : Bool) (s : Server)
    → IsTable s
    → Keeps (find_owner fd cpu told s)
find_owner-Keeps fd none told s h = tt
find_owner-Keeps fd (some cpu) true s h = h
find_owner-Keeps fd (some cpu) false s h = tt

accept_loop-Keeps :
    (me : ℕ) (rs : List Accepted) (s : Server) → IsTable s → Keeps (accept_loop me rs s)
unfolding accept_loop
accept_loop-Keeps me [] s h = h
accept_loop-Keeps me (no_memory ∷ rs) s h = tt
accept_loop-Keeps me (accept_eagain ∷ rs) s h = h
accept_loop-Keeps me (accept_error ∷ rs) s h = tt
accept_loop-Keeps me (accept_fd fd cpu told ∷ rs) s h =
    Keeps-then (find_owner fd cpu told (count_accept me s)) (λ s. accept_loop me rs s)
      (find_owner-Keeps fd cpu told (count_accept me s) h) (λ t k. accept_loop-Keeps me rs t k)

take_newbies-Keeps :
    (me : ℕ) (env : Env) (fds : List ℕ) (s : Server) → IsTable s → Keeps (take_newbies me env fds s)
unfolding take_newbies
take_newbies-Keeps me env [] s h = h
take_newbies-Keeps me env (fd ∷ rest) s h =
    Keeps-then (take_newbie me env fd rest s) (λ s. take_newbies me env rest s) one
      (λ t k. take_newbies-Keeps me env rest t k)
  where
    one : Keeps (take_newbie me env fd rest s)
    one =
        if-cases Keeps env.caches
          (λ a. if-cases Keeps (env.added fd) (λ b i c e. ground (arith, h i c)) (λ b. tt))
          (λ a. tt)

on_event-Keeps :
    (me : ℕ) (env : Env) (k : ℕ) (s : Server) → IsTable s → Keeps (on_event_at me env k s)
on_event-Keeps me env zero s h = h
on_event-Keeps me env (suc k) s h = take_newbies-Keeps me env (s.incoming me) _ h

module _ (size me : ℕ) (env : Env) where
  close-Keeps : (c : Conn) (s : Server) → IsTable s → Keeps (on_close me env c s)
  close-Keeps c s h = if-cases Keeps (env.removed c.fd) (λ a i d e. ground (arith, h i d)) (λ a. tt)

  after_read-Keeps :
      (i : ℕ) (o : Ran) (s : Server)
      → (conn_of o).fd ≡ i
      → IsTable s
      → Keeps (after_read me env o s)
  after_read-Keeps i (returned c io) s e h = λ j d m. ground (arith, h j d)
  after_read-Keeps i (closing c io) s e h = close-Keeps c (record s { calls = io }) h
  after_read-Keeps i (in_call c io) s e h = λ j d m. ground (arith, h j d)

  read_at-Keeps : (oc : Option Conn) (s : Server) → IsTable s → Keeps (read_at size me env oc s)
  unfolding on_read
  read_at-Keeps none s h = tt
  read_at-Keeps (some c) s h =
      after_read-Keeps c.fd (on_read size c s.calls) s
        (read_loop-fd size c.cursor (begin size c) _ _ _) h

  run_handler-Keeps :
      (src : Source) (s : Server) → IsTable s → Keeps (run_handler size me env src s)
  run_handler-Keeps listen_sock s h = accept_loop-Keeps me s.accepts s h
  run_handler-Keeps event_fd s h = on_event-Keeps me env (s.counter me) s h
  run_handler-Keeps (client i) s h = read_at-Keeps (s.conns i) s h

  close_at-Keeps : (oc : Option Conn) (s : Server) → IsTable s → Keeps (close_at size me env oc s)
  close_at-Keeps none s h = tt
  close_at-Keeps (some c) s h = close-Keeps c s h

  on_failure-Keeps : (src : Source) (s : Server) → IsTable s → Keeps (on_failure size me env src s)
  on_failure-Keeps listen_sock s h = tt
  on_failure-Keeps event_fd s h = tt
  on_failure-Keeps (client i) s h = close_at-Keeps (s.conns i) s h

  handle_event-Keeps : (e : Event) (s : Server) → IsTable s → Keeps (handle_event size me env e s)
  unfolding handle_event
  handle_event-Keeps e s h =
      Keeps-then (if e.failed then on_failure size me env e.source s else done s)
        (λ t. run_handler size me env e.source t)
        (if-cases Keeps e.failed (λ b. on_failure-Keeps e.source s h) (λ b. h))
        (λ t k. run_handler-Keeps e.source t k)

  pub handle_events-Keeps :
      (es : List Event) (s : Server) → IsTable s → Keeps (handle_events size me env es s)
  unfolding handle_events
  handle_events-Keeps [] s h = h
  handle_events-Keeps (e ∷ es) s h =
      Keeps-then (handle_event size me env e s) (λ t. handle_events size me env es t)
        (handle_event-Keeps e s h) (λ t k. handle_events-Keeps es t k)
