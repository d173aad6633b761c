-- ===== src/Echo.antt =====
-- event-tester/upcall.c: the echo server's handlers of the events of libupcall.
pub mod Message
pub mod Whole
pub mod System
mod Tests
use upcalls.Prelude.{
  ℕ, zero, suc, ◌+◌, ◌-◌, Bool, true, false, Option, none, some, List, [], ◌∷◌, ◌++◌, ℤ, pos,
  negsuc, is_neg, Outcome, done, exit, ◌>>=◌, ◌==◌, ltb, if◌then◌else◌, length, take, drop,
  replicate,
}
use upcalls.Upcall.Event.{Ptr, UpEvent}
use upcalls.Upcall.Queue.{Request, read, write, accept}
use upcalls.Upcall.Loop.{Call, request, give_back, Handlers}

-- The states that `my_accept` and `on_close` set.
pub data ConnState : Type 0 where
  waiting : ConnState
  closing : ConnState

-- `struct connection`, with its buffer's address and bytes.
pub record Conn : Type 0 where
  pub cursor : ℕ
  pub buffer_at : Ptr
  pub bytes : List ℕ
  pub event_count : ℕ
  pub state : ConnState
  pub fd : ℤ

-- `conns`, and the counters of the worker. `closed` lists the descriptors given to `close`.
pub record Server : Type 0 where
  pub conns : ℕ → Option Conn
  pub accept_count : ℕ
  pub conn_count : ℕ
  pub closed : List ℕ

abbrev pub set_conn : ℕ → Option Conn → Server → Server
set_conn i c s = record s { conns = λ j. if i == j then c else s.conns j }

-- Bytes `at` and on of `dst` become those of `src`.
abbrev pub memcpy : ℕ → List ℕ → List ℕ → List ℕ
memcpy at src dst = take at dst ++ (src ++ drop (at + length src) dst)

-- `if (closed_fd >= 0)` in `on_close`: the buffer and the connection go back to their caches.
abbrev pub close_fd : ℤ → Server → Server
close_fd (pos i) s = record (set_conn i none s) {
  conn_count = s.conn_count + 1;
  closed = i ∷ s.closed;
}
close_fd (negsuc k) s = s

-- `on_close`
abbrev pub on_close : Conn → Server → Server
on_close c s = close_fd c.fd s

-- What the process exits with when it follows a null pointer.
abbrev pub segv : ℕ
segv = 139

abbrev pub lookup : ℤ → Server → Option Conn
lookup (pos i) s = s.conns i
lookup (negsuc k) s = none

abbrev pub update_conn : ℤ → Conn → Server → Server
update_conn (pos i) c s = set_conn i (some c) s
update_conn (negsuc k) c s = s

-- A handler's calls and the new state.
abbrev pub Reaction : Type 0
Reaction = Outcome (List Call × Server)

-- Code that follows `conns[arg->fd]`.
abbrev pub with_conn : Option Conn → (Conn → Reaction) → Reaction
with_conn none f = exit segv
with_conn (some c) f = f c

-- The addresses of the three handlers; the bytes that an event's buffer holds when it arrives; and
-- the buffer that `cache_alloc` gives a new connection, `none` if `calloc` fails.
pub record Setting : Type 0 where
  pub msg_size : ℕ
  pub my_accept_at : Ptr
  pub my_read_at : Ptr
  pub my_write_at : Ptr
  pub contents : UpEvent → List ℕ
  pub cache_alloc : ℤ → Option Ptr

module _ (g : Setting) where
  -- `new_conn`, and the rest of the set-up in `my_accept`.
  abbrev pub new_conn : ℤ → Ptr → Conn
  new_conn fd at = record {
    cursor = 0;
    buffer_at = at;
    bytes = replicate g.msg_size 0;
    event_count = 0;
    state = waiting;
    fd = fd;
  }

  abbrev pub count_accept : Server → Server
  count_accept s = record s { accept_count = s.accept_count + 1 }

  abbrev pub accepted : UpEvent → Server → Option Ptr → Reaction
  accepted e s none = exit segv
  accepted e s (some at) = done (
    request (read e.result g.my_read_at) ∷ request (accept e.fd g.my_accept_at) ∷ [],
    update_conn e.result (new_conn e.result at) (count_accept s),
  )

  unfoldable pub my_accept : UpEvent → Server → Reaction
  my_accept e s =
      if is_neg e.result
      then done (request (accept e.fd g.my_accept_at) ∷ [], s)
      else accepted e s (g.cache_alloc e.result)

  -- `my_write` after `n` bytes were written.
  abbrev pub wrote : UpEvent → Server → Conn → ℕ → Reaction
  wrote e s c n =
      if ltb (n + c.cursor) g.msg_size
      then done (
        request (
              write c.fd (c.buffer_at + (c.cursor + n)) (g.msg_size - (c.cursor + n)) g.my_write_at)
            ∷ [],
        update_conn e.fd (record c { cursor = c.cursor + n }) s,
      )
      else done
          (request (read c.fd g.my_read_at) ∷ [], update_conn e.fd (record c { cursor = 0 }) s)

  abbrev pub written : UpEvent → Server → Conn → ℤ → Reaction
  written e s c (pos zero) = done ([], on_close c s)
  written e s c (pos (suc n)) = wrote e s c (suc n)
  written e s c (negsuc k) = done ([], s)

  unfoldable pub my_write : UpEvent → Server → Reaction
  my_write e s = with_conn (lookup e.fd s) λ c. written e s c e.result

  abbrev pub count_event : Conn → Conn
  count_event c = record c { event_count = c.event_count + 1 }

  -- `my_read` after `n` bytes came: they are copied, and the pool gets its buffer back.
  abbrev pub stored : UpEvent → Conn → ℕ → Conn
  stored e c n = record (count_event c) {
    bytes = memcpy c.cursor (g.contents e) c.bytes;
    cursor = c.cursor + n;
  }

  abbrev pub read_or_write : UpEvent → Server → Conn → Reaction
  read_or_write e s c =
      if ltb c.cursor g.msg_size
      then done
          (give_back e.buf e.len ∷ request (read c.fd g.my_read_at) ∷ [], update_conn e.fd c s)
      else done (
        give_back e.buf e.len ∷ request (write c.fd c.buffer_at g.msg_size g.my_write_at) ∷ [],
        update_conn e.fd (record c { cursor = 0 }) s,
      )

  abbrev pub after_read : UpEvent → Server → Conn → ℤ → Reaction
  after_read e s c (pos zero) = done ([], on_close c s)
  after_read e s c (pos (suc n)) = read_or_write e s (stored e c (suc n))
  after_read e s c (negsuc k) = done ([], update_conn e.fd (count_event c) s)

  unfoldable pub my_read : UpEvent → Server → Reaction
  my_read e s =
      with_conn (lookup e.fd s) λ c. if is_neg c.fd then done ([], s) else after_read e s c e.result

  -- The handlers of the server, by their addresses.
  unfoldable pub echo_handlers : Handlers Server
  echo_handlers fn e s =
      if fn == g.my_accept_at
      then my_accept e s
      else if fn == g.my_read_at
      then my_read e s
      else if fn == g.my_write_at
      then my_write e s
      else exit segv
