-- ===== src/Epoll/Server.antt =====
-- event-tester/epoll.c: `on_close`, `on_accept`, `on_event` and the event loop, on one state for all
-- workers; `me` is the worker that runs.
use upcalls.Prelude.{
  ℕ, zero, suc, ◌+◌, Bool, true, false, Option, none, some, List, [], ◌∷◌, Outcome, done, exit,
  ◌>>=◌, if◌then◌else◌, assign,
}
use upcalls.Echo.{segv}
use upcalls.Epoll.{Conn, reading, Calls, Ran, returned, closing, in_call, on_read}

-- What the calls for one new connection give: `malloc` has failed, `accept4` has no connection or
-- fails, or there is a descriptor; for that, the CPU, unless `getsockopt` fails, and whether the
-- owner is told.
pub data Accepted : Type 0 where
  no_memory : Accepted
  accept_eagain : Accepted
  accept_error : Accepted
  accept_fd : (fd : ℕ) → (cpu : Option ℕ) → (told : Bool) → Accepted

-- `conns`; for each worker its list of new connections, the value of its event descriptor and its
-- counts; the descriptors that were closed, the buffers that were put in a `msg_cache`, where `none`
-- is a null pointer, and the results to come.
pub record Server : Type 0 where
  pub conns : ℕ → Option Conn
  pub incoming : ℕ → List ℕ
  pub counter : ℕ → ℕ
  pub accept_count : ℕ → ℕ
  pub conn_count : ℕ → ℕ
  pub closed : List ℕ
  pub freed : List (Option (List ℕ))
  pub calls : Calls
  pub accepts : List Accepted

-- Whether `epoll_ctl` succeeds for a descriptor, and whether the caches can give a connection.
pub record Env : Type 0 where
  pub added : ℕ → Bool
  pub removed : ℕ → Bool
  pub caches : Bool

abbrev pub increment : (ℕ → ℕ) → ℕ → ℕ → ℕ
increment f me = assign f me (f me + 1)

abbrev pub on_close : (me : ℕ) → Env → Conn → Server → Outcome Server
on_close me env c s =
    if env.removed c.fd
    then done (record s {
      conns = assign s.conns c.fd none;
      conn_count = increment s.conn_count me;
      closed = c.fd ∷ s.closed;
      freed = c.buffer ∷ s.freed;
    })
    else exit 1

-- Under the lock of the owner: the new connection goes first on its list.
abbrev pub push : (owner fd : ℕ) → Server → Server
push owner fd s = record s { incoming = assign s.incoming owner (fd ∷ s.incoming owner) }

-- `write(owner->event_fd, &u, sizeof(u))`
abbrev pub tell : (owner : ℕ) → Server → Server
tell owner s = record s { counter = increment s.counter owner }

abbrev pub hand_over : (owner fd : ℕ) → (told : Bool) → Server → Outcome Server
hand_over owner fd true s = done (tell owner (push owner fd s))
hand_over owner fd false s = exit 1

abbrev pub find_owner : (fd : ℕ) → Option ℕ → (told : Bool) → Server → Outcome Server
find_owner fd none told s = exit 1
find_owner fd (some owner) told s = hand_over owner fd told s

abbrev pub count_accept : (me : ℕ) → Server → Server
count_accept me s = record s { accept_count = increment s.accept_count me }

-- The loop of `on_accept`, over the results to come.
unfoldable pub accept_loop : (me : ℕ) → List Accepted → Server → Outcome Server
accept_loop me [] s = done (record s { accepts = [] })
accept_loop me (no_memory ∷ rs) s = exit 1
accept_loop me (accept_eagain ∷ rs) s = done (record s { accepts = rs })
accept_loop me (accept_error ∷ rs) s = exit 1
accept_loop me (accept_fd fd cpu told ∷ rs) s = do
  s' ← find_owner fd cpu told (count_accept me s)
  accept_loop me rs s'

abbrev pub on_accept : (me : ℕ) → Server → Outcome Server
on_accept me s = accept_loop me s.accepts s

-- A connection as `new_conn` leaves it, in memory that was zeroed, and set to `READING`.
abbrev pub new_conn : ℕ → Conn
new_conn fd = record { fd = fd; cursor = 0; buffer = none; event_count = 0; state = reading }

-- The body of the loop of `handle_new_conns`.
abbrev pub take_newbie : (me : ℕ) → Env → (fd : ℕ) → List ℕ → Server → Outcome Server
take_newbie me env fd rest s =
    if env.caches
    then if env.added fd
      then done (record s {
        incoming = assign s.incoming me rest;
        conns = assign s.conns fd (some (new_conn fd));
      })
      else exit 1
    else exit segv

-- Its passes, for the connections on the list.
unfoldable pub take_newbies : (me : ℕ) → Env → List ℕ → Server → Outcome Server
take_newbies me env [] s = done s
take_newbies me env (fd ∷ rest) s = do
  s' ← take_newbie me env fd rest s
  take_newbies me env rest s'

abbrev pub handle_new_conns : (me : ℕ) → Env → Server → Outcome Server
handle_new_conns me env s = take_newbies me env (s.incoming me) s

-- The `read` of `on_event` sets the value of the descriptor to 0; it fails with `EAGAIN` at 0.
abbrev pub on_event_at : (me : ℕ) → Env → (value : ℕ) → Server → Outcome Server
on_event_at me env zero s = done s
on_event_at me env (suc n) s =
    handle_new_conns me env (record s { counter = assign s.counter me 0 })

abbrev pub on_event : (me : ℕ) → Env → Server → Outcome Server
on_event me env s = on_event_at me env (s.counter me) s

-- After `on_read`. One that does not return leaves the worker there.
abbrev pub after_read : (me : ℕ) → Env → Ran → Server → Outcome Server
after_read me env (returned c io) s =
    done (record s { conns = assign s.conns c.fd (some c); calls = io })
after_read me env (closing c io) s = on_close me env c (record s { calls = io })
after_read me env (in_call c io) s =
    done (record s { conns = assign s.conns c.fd (some c); calls = io })

-- What an event of `epoll_wait` is on.
pub data Source : Type 0 where
  listen_sock : Source
  event_fd : Source
  client : ℕ → Source

-- An event; `failed` is `EPOLLERR` or `EPOLLHUP`.
pub record Event : Type 0 where
  pub source : Source
  pub failed : Bool

module _ (msg_size me : ℕ) (env : Env) where
  abbrev pub read_at : Option Conn → Server → Outcome Server
  read_at none s = exit segv
  read_at (some c) s = after_read me env (on_read msg_size c s.calls) s

  abbrev pub close_at : Option Conn → Server → Outcome Server
  close_at none s = exit segv
  close_at (some c) s = on_close me env c s

  -- The branch for an error; the handler of the event runs after it.
  abbrev pub on_failure : Source → Server → Outcome Server
  on_failure listen_sock s = exit 1
  on_failure event_fd s = exit 1
  on_failure (client i) s = close_at (s.conns i) s

  abbrev pub run_handler : Source → Server → Outcome Server
  run_handler listen_sock s = on_accept me s
  run_handler event_fd s = on_event me env s
  run_handler (client i) s = read_at (s.conns i) s

  -- One pass of the loop over the events.
  unfoldable pub handle_event : Event → Server → Outcome Server
  handle_event e s = do
    s' ← if e.failed then on_failure e.source s else done s
    run_handler e.source s'

  unfoldable pub handle_events : List Event → Server → Outcome Server
  handle_events [] s = done s
  handle_events (e ∷ es) s = do s' ← handle_event e s; handle_events es s'
