-- ===== src/Uring.antt =====
-- event-tester/iouring.c: the workers of the io_uring server. All rings are in one state; what a
-- worker does for a completion is one step, and so is each pass of its loop over new connections.
pub mod Run
pub mod Count
pub mod Effects
pub mod Served
pub mod Safety
pub mod Errors
pub mod Awake
mod Tests
use upcalls.Prelude.{
  ℕ, zero, suc, ◌+◌, ◌-◌, Bool, true, false, Option, none, some, List, [], ◌∷◌, ℤ, pos, negsuc,
  Outcome, done, exit, ◌==◌, if◌then◌else◌, assign,
}
use upcalls.Echo.{segv}

-- `enum io_types`, with the descriptor: the connection's, or the worker whose `event_fd` is written.
-- `accept` and `ev_read` are on the `listen_sock` and the `event_fd` of the ring's own worker.
pub data Io : Type 0 where
  accept : Io
  sock_read : ℕ → Io
  ev_read : Io
  sock_write : ℕ → Io
  ev_write : ℕ → Io

-- A request on the ring of a worker: for a connection it is about `len` bytes from index `at` of its
-- buffer.
pub record Req : Type 0 where
  pub ring : ℕ
  pub io : Io
  pub at : ℕ
  pub len : ℕ

pub record Cqe : Type 0 where
  pub req : Req
  pub res : ℤ

-- `struct connection`
pub record Connection : Type 0 where
  pub fd : ℕ
  pub cursor : ℕ

-- The requests in flight and the completions that no worker has handled yet; `conns`, and for each
-- worker its `incoming.list`, its counts, and whether it is in the loop over that list. `counter` and
-- `opened` are the kernel's: the values of the event descriptors, and which descriptors of
-- connections are open.
pub record Sys : Type 0 where
  pub flight : List Req
  pub cq : List Cqe
  pub conns : ℕ → Option Connection
  pub incoming : ℕ → List ℕ
  pub accept_count : ℕ → ℕ
  pub conn_count : ℕ → ℕ
  pub draining : ℕ → Bool
  pub counter : ℕ → ℕ
  pub opened : ℕ → Bool

-- What calls give a worker: whether `malloc` has room for a `waiting_conn` and for a value to write,
-- whether the object caches can give a connection with its buffer, and the CPU of a new connection,
-- `none` if `getsockopt` fails.
pub record Env : Type 0 where
  pub newbie : Bool
  pub event_value : Bool
  pub caches : Bool
  pub incoming_cpu : Option ℕ

abbrev pub submit : Req → Sys → Sys
submit r s = record s { flight = r ∷ s.flight }

abbrev pub add_accept_request : (me : ℕ) → Sys → Sys
add_accept_request me s = submit (record { ring = me; io = accept; at = 0; len = 0 }) s

abbrev pub add_read_request : (me : ℕ) → Io → (at len : ℕ) → Sys → Sys
add_read_request me io k len s = submit (record { ring = me; io = io; at = k; len = len }) s

abbrev pub add_write_request : (me : ℕ) → Io → (at len : ℕ) → Sys → Sys
add_write_request me io k len s = submit (record { ring = me; io = io; at = k; len = len }) s

abbrev pub increment : (ℕ → ℕ) → ℕ → ℕ → ℕ
increment f me = assign f me (f me + 1)

abbrev pub on_close : (me : ℕ) → Connection → Sys → Sys
on_close me c s = record s {
  conns = assign s.conns c.fd none;
  opened = assign s.opened c.fd false;
  conn_count = increment s.conn_count me;
}

-- `sizeof(uint64_t)`
abbrev pub cause_size : ℕ
cause_size = 8

-- The new connection belongs to another worker: it goes on its list, and the worker is told.
abbrev pub hand_over : (me owner fd : ℕ) → Sys → Sys
hand_over me owner fd s =
    add_write_request me (ev_write owner) 0 cause_size
      (record s { incoming = assign s.incoming owner (fd ∷ s.incoming owner) })

abbrev pub move_cursor : ℕ → Connection → Sys → Sys
move_cursor k c s = record s { conns = assign s.conns c.fd (some (record c { cursor = k })) }

-- `if (ret <= 0)`, and the rest of a case.
abbrev pub unless_closed :
    (me : ℕ) → ((n : ℕ) → Connection → Sys → Sys) → ℤ → Option Connection → Sys → Outcome Sys
unless_closed me f (pos (suc n)) (some c) s = done (f (suc n) c s)
unless_closed me f ret none s = exit segv
unless_closed me f ret (some c) s = done (on_close me c s)

module _ (msg_size : ℕ) where
  -- `new_conn` from zeroed memory, its buffer, and the first read.
  abbrev pub connect : (me fd : ℕ) → Sys → Sys
  connect me fd s =
      add_read_request me (sock_read fd) 0 msg_size
        (record s { conns = assign s.conns fd (some (record { fd = fd; cursor = 0 })) })

  abbrev pub give_owner : (me : ℕ) → Env → (owner fd : ℕ) → Sys → Outcome Sys
  give_owner me env owner fd s =
      if owner == me
      then if env.caches then done (add_accept_request me (connect me fd s)) else exit segv
      else if env.event_value
      then done (add_accept_request me (hand_over me owner fd s))
      else exit segv

  abbrev pub find_owner : (me : ℕ) → Env → Option ℕ → (fd : ℕ) → Sys → Outcome Sys
  find_owner me env none fd s = exit 1
  find_owner me env (some cpu) fd s = give_owner me env cpu fd s

  -- `case ACCEPT`
  abbrev pub on_accepted : (me : ℕ) → Env → ℤ → Sys → Outcome Sys
  on_accepted me env (pos fd) s =
      if env.newbie
      then find_owner me env env.incoming_cpu fd
          (record s { accept_count = increment s.accept_count me })
      else exit 1
  on_accepted me env (negsuc k) s = exit 1

  -- `case SOCK_READ`, after `n` bytes
  abbrev pub have_read : (me n : ℕ) → Connection → Sys → Sys
  have_read me n c s =
      if c.cursor + n == msg_size
      then add_write_request me (sock_write c.fd) 0 msg_size (move_cursor 0 c s)
      else add_read_request me (sock_read c.fd) (c.cursor + n) (msg_size - (c.cursor + n))
          (move_cursor (c.cursor + n) c s)

  -- `case SOCK_WRITE`, after `n` bytes
  abbrev pub have_written : (me n : ℕ) → Connection → Sys → Sys
  have_written me n c s =
      if c.cursor + n == msg_size
      then record (add_read_request me (sock_read c.fd) 0 msg_size (move_cursor 0 c s)) {
        conn_count = increment s.conn_count me;
      }
      else add_write_request me (sock_write c.fd) (c.cursor + n) (msg_size - (c.cursor + n))
          (move_cursor (c.cursor + n) c s)

  -- The `switch` over the type of a completed request; `EV_WRITE` frees what it wrote.
  abbrev pub on_io : (me : ℕ) → Env → Io → ℤ → Sys → Outcome Sys
  on_io me env accept res s = on_accepted me env res s
  on_io me env (sock_read i) res s = unless_closed me (have_read me) res (s.conns i) s
  on_io me env ev_read res s = done (record s { draining = assign s.draining me true })
  on_io me env (sock_write i) res s = unless_closed me (have_written me) res (s.conns i) s
  on_io me env (ev_write w) res s = done s

  -- The body of `io_uring_for_each_cqe`.
  unfoldable pub on_cqe : Env → Cqe → Sys → Outcome Sys
  on_cqe env e s = on_io e.req.ring env e.req.io e.res s

  abbrev pub take_first : (me : ℕ) → Env → List ℕ → Sys → Outcome Sys
  take_first me env [] s = done (record s { draining = assign s.draining me false })
  take_first me env (fd ∷ rest) s =
      if env.caches
      then done (
          add_read_request me ev_read 0 cause_size
            (connect me fd (record s { incoming = assign s.incoming me rest })))
      else exit segv

  -- `case EV_READ`: one test of `while (me->incoming.list != NULL)`, and the body.
  unfoldable pub take_newbie : (me : ℕ) → Env → Sys → Outcome Sys
  take_newbie me env s = take_first me env (s.incoming me) s

-- The first requests of the workers below `n`.
abbrev pub first_requests : ℕ → List Req
first_requests zero = []
first_requests (suc n) =
    record { ring = n; io = ev_read; at = 0; len = cause_size }
    ∷ record { ring = n; io = accept; at = 0; len = 0 }
    ∷ first_requests n

abbrev pub init : ℕ → Sys
init n = record {
  flight = first_requests n;
  cq = [];
  conns = λ i. none;
  incoming = λ w. [];
  accept_count = λ w. 0;
  conn_count = λ w. 0;
  draining = λ w. false;
  counter = λ w. 0;
  opened = λ i. false;
}
