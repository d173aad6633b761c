-- ===== src/Setup/Kernel.antt =====
-- What the calls of a set-up do to the sockets of the process, as the manual pages say: a call that
-- fails does nothing; an option counts for the address if it is set before `bind`; a socket that
-- listens gets no other address by `bind`; and `accept` wants a socket that listens.
use upcalls.Prelude.{
  ℕ, zero, suc, Bool, true, false, Option, none, some, List, [], ◌∷◌, ℤ, pos, negsuc, assign,
  if◌then◌else◌,
}
use upcalls.Setup.{
  Port, SockOpt, reuse_port, reuse_addr, Call, socket, setsockopt, bind, listen, epoll_ctl_add,
  ask_accept,
}

-- `bound` has the port, and whether the port and the address are shared.
pub record Socket : Type 0 where
  pub nonblock : Bool
  pub shares_port : Bool
  pub shares_addr : Bool
  pub bound : Option (Port × Bool × Bool)
  pub listening : Bool

-- The sockets by their descriptors; those that an epoll set has; and those on which a request waits
-- for a connection.
pub record Kernel : Type 0 where
  pub sockets : ℕ → Socket
  pub watched : ℕ → Bool
  pub awaited : ℕ → Bool

abbrev pub at_socket : ℤ → (Socket → Socket) → Kernel → Kernel
at_socket (pos fd) f k = record k { sockets = assign k.sockets fd (f (k.sockets fd)) }
at_socket (negsuc n) f k = k

-- The call succeeds if it returns 0.
abbrev pub if_done : (result : ℤ) → (Kernel → Kernel) → Kernel → Kernel
if_done (pos zero) f k = f k
if_done (pos (suc n)) f k = k
if_done (negsuc n) f k = k

abbrev pub made : (nonblock : Bool) → Socket
made nonblock = record {
  nonblock = nonblock;
  shares_port = false;
  shares_addr = false;
  bound = none;
  listening = false;
}

abbrev pub with_option : SockOpt → Socket → Socket
with_option reuse_port s = record s { shares_port = true }
with_option reuse_addr s = record s { shares_addr = true }

abbrev pub with_address : Port → Socket → Socket
with_address port s =
    if s.listening then s else record s { bound = some (port, s.shares_port, s.shares_addr) }

abbrev pub to_listen : Socket → Socket
to_listen s = record s { listening = true }

abbrev pub add_watch : ℤ → Kernel → Kernel
add_watch (pos fd) k = record k { watched = assign k.watched fd true }
add_watch (negsuc n) k = k

abbrev pub add_await : ℤ → Kernel → Kernel
add_await (pos fd) k = record k { awaited = assign k.awaited fd (k.sockets fd).listening }
add_await (negsuc n) k = k

-- A call with its result.
abbrev pub effect : Call → (result : ℤ) → Kernel → Kernel
effect (socket port nonblock) z k = at_socket z (λ _. made nonblock) k
effect (setsockopt fd opt) z k = if_done z (at_socket fd (with_option opt)) k
effect (bind fd port) z k = if_done z (at_socket fd (with_address port)) k
effect (listen fd) z k = if_done z (at_socket fd to_listen) k
effect (epoll_ctl_add epoll_fd fd) z k = if_done z (add_watch fd) k
effect (ask_accept fd) z k = add_await fd k
effect _ z k = k

-- After some calls, the first of the list first.
abbrev pub after : (answer : Call → ℤ) → List Call → Kernel → Kernel
after answer [] k = k
after answer (c ∷ cs) k = after answer cs (effect c (answer c) k)

abbrev pub socket_at : ℤ → Kernel → Option Socket
socket_at (pos fd) k = some (k.sockets fd)
socket_at (negsuc n) k = none

abbrev pub is_watched : ℤ → Kernel → Bool
is_watched (pos fd) k = k.watched fd
is_watched (negsuc n) k = false

abbrev pub is_awaited : ℤ → Kernel → Bool
is_awaited (pos fd) k = k.awaited fd
is_awaited (negsuc n) k = false

-- A socket that listens at a port.
abbrev pub listener : (nonblock shares : Bool) → Port → Socket
listener nonblock shares port = record {
  nonblock = nonblock;
  shares_port = shares;
  shares_addr = shares;
  bound = some (port, shares, shares);
  listening = true;
}
