-- ===== src/Setup.antt =====
-- The calls by which event-tester's servers set up: `worker_func` of iouring.c, epoll.c and threads.c,
-- `upcall_echo_setup` of upcall.c, `setup_perf` of tcp_echo.c, and the ports of `main`.
pub mod Kernel
pub mod Endings
pub mod Sockets
pub mod Listening
mod Tests
use upcalls.Prelude.{
  ℕ, zero, suc, Bool, true, false, List, [], ◌∷◌, ℤ, pos, negsuc, is_neg, Outcome, done, exit,
  if◌then◌else◌,
}

pub data Port : Type 0 where
  echo_port : Port
  stats_port : Port
  error_port : Port

pub data SockOpt : Type 0 where
  reuse_port : SockOpt
  reuse_addr : SockOpt

pub data CacheOf : Type 0 where
  of_messages : CacheOf
  of_infos : CacheOf
  of_connections : CacheOf

-- A socket is made for a port, to block or not. A counter `i` is opened in the group of a leader.
pub data Call : Type 0 where
  calloc : Call
  init_cache : CacheOf → (count : ℕ) → Call
  attr_init : Call
  attr_setdetachstate : Call
  eventfd : (nonblock : Bool) → Call
  getaddrinfo : Port → Call
  socket : Port → (nonblock : Bool) → Call
  setsockopt : (fd : ℤ) → SockOpt → Call
  bind : (fd : ℤ) → Port → Call
  listen : (fd : ℤ) → Call
  epoll_create : Call
  epoll_ctl_add : (epoll_fd fd : ℤ) → Call
  perf_event_open : (i : ℕ) → (group_fd : ℤ) → Call
  perf_id : (fd : ℤ) → (i : ℕ) → Call
  perf_reset : (fd : ℤ) → Call
  perf_enable : (fd : ℤ) → Call
  queue_init : Call
  ask_accept : (fd : ℤ) → Call
  ask_event_read : (fd : ℤ) → Call

abbrev pub not_zero : ℤ → Bool
not_zero (pos zero) = false
not_zero _ = true

abbrev pub is_null : ℤ → Bool
is_null (pos zero) = true
is_null _ = false

-- The test that follows each call; the calls at the end have none.
abbrev pub failed : Call → ℤ → Bool
failed calloc z = is_null z
failed (init_cache what count) z = is_null z
failed attr_init z = not_zero z
failed attr_setdetachstate z = not_zero z
failed (eventfd nonblock) z = is_neg z
failed (getaddrinfo port) z = not_zero z
failed (socket port nonblock) z = is_neg z
failed (setsockopt fd opt) z = not_zero z
failed (bind fd port) z = not_zero z
failed (listen fd) z = not_zero z
failed epoll_create z = is_neg z
failed (epoll_ctl_add epoll_fd fd) z = not_zero z
failed (perf_event_open i group_fd) z = is_neg z
failed queue_init z = is_neg z
failed _ z = false

-- Code that ends at the first call that fails.
pub data Program (A : Type 0) : Type 0 where
  return : A → Program A
  call : Call → (ℤ → Program A) → Program A

infixl 5 ◌>>=◌ ◌>>◌
abbrev pub ◌>>=◌ : {A B : Type 0} → Program A → (A → Program B) → Program B
return a >>= f = f a
call c k >>= f = call c (λ z. k z >>= f)

abbrev pub ◌>>◌ : {A B : Type 0} → Program A → Program B → Program B
m >> k = m >>= λ _. k

abbrev ask : Call → Program ℤ
ask c = call c return

-- The calls that are made, and how the code ends: with the exit status `status` if a call fails.
abbrev pub after_call : {A : Type 0} → Call → List Call × Outcome A → List Call × Outcome A
after_call c r = (c ∷ r.0, r.1)

unfoldable pub run :
    {A : Type 0} → (answer : Call → ℤ) → (status : ℕ) → Program A → List Call × Outcome A
run answer status (return a) = ([], done a)
run answer status (call c k) =
    let rest = run answer status (k (answer c)) in
    if failed c (answer c) then (c ∷ [], exit status) else after_call c rest

-- `TOTAL_EVENTS - 1`
abbrev pub other_events : ℕ
other_events = 4

-- The loop of `setup_perf` over `left` events from `i` on: their descriptors.
abbrev pub open_group : (leader : ℤ) → (left i : ℕ) → Program (List ℤ)
open_group leader zero i = return []
open_group leader (suc left) i = do
  fd ← ask (perf_event_open i leader)
  ask (perf_id fd i)
  fds ← open_group leader left (suc i)
  return (fd ∷ fds)

-- The first event leads the group.
abbrev pub setup_perf : Program (List ℤ)
setup_perf = do
  leader ← ask (perf_event_open 0 (negsuc 0))
  ask (perf_id leader 0)
  fds ← open_group leader other_events 1
  return (leader ∷ fds)

-- From `socket` to `listen`.
abbrev pub open_listener : (nonblock : Bool) → Program ℤ
open_listener nonblock = do
  fd ← ask (socket echo_port nonblock)
  ask (setsockopt fd reuse_port)
  ask (setsockopt fd reuse_addr)
  ask (bind fd echo_port)
  ask (listen fd)
  return fd

pub record Listener : Type 0 where
  pub listen_sock : ℤ
  pub perf_fds : List ℤ

-- `worker_func` of iouring.c
abbrev pub uring_setup : Program Listener
uring_setup = do
  ask calloc
  event_fd ← ask (eventfd false)
  ask (init_cache of_messages 1024)
  ask (init_cache of_infos 2048)
  ask (init_cache of_connections 1024)
  fd ← open_listener false
  fds ← setup_perf
  ask queue_init
  ask (ask_accept fd)
  ask (ask_event_read event_fd)
  return (record { listen_sock = fd; perf_fds = fds })

-- `worker_func` of epoll.c
abbrev pub epoll_setup : Program Listener
epoll_setup = do
  ask calloc
  event_fd ← ask (eventfd true)
  ask (init_cache of_messages 1024)
  ask (init_cache of_connections 1024)
  fd ← open_listener true
  epoll_fd ← ask epoll_create
  ask (epoll_ctl_add epoll_fd event_fd)
  ask (epoll_ctl_add epoll_fd fd)
  fds ← setup_perf
  return (record { listen_sock = fd; perf_fds = fds })

-- `worker_func` of threads.c
abbrev pub threads_setup : Program Listener
threads_setup = do
  ask calloc
  ask attr_init
  ask attr_setdetachstate
  fd ← open_listener false
  fds ← setup_perf
  return (record { listen_sock = fd; perf_fds = fds })

abbrev pub first : List ℤ → ℤ
first [] = pos 0
first (fd ∷ fds) = fd

abbrev pub upcall_echo_setup : Program Listener
upcall_echo_setup = do
  ask calloc
  ask (init_cache of_messages 1024)
  ask (init_cache of_connections 1024)
  fd ← open_listener true
  ask (ask_accept fd)
  fds ← setup_perf
  ask (perf_reset (first fds))
  ask (perf_enable (first fds))
  return (record { listen_sock = fd; perf_fds = fds })

-- The four servers; the listening sockets of two of them do not block.
pub data Model : Type 0 where
  uring : Model
  epoll : Model
  threads : Model
  upcall : Model

abbrev pub nonblocks : Model → Bool
nonblocks uring = false
nonblocks epoll = true
nonblocks threads = false
nonblocks upcall = true

abbrev pub setup : Model → Program Listener
setup uring = uring_setup
setup epoll = epoll_setup
setup threads = threads_setup
setup upcall = upcall_echo_setup

pub record Ports : Type 0 where
  pub stats_fd : ℤ
  pub error_fd : ℤ
  pub epoll_fd : ℤ

-- `main`, from the first `getaddrinfo` to the last `epoll_ctl`
abbrev pub open_ports : Program Ports
open_ports = do
  ask (getaddrinfo echo_port)
  ask (getaddrinfo stats_port)
  ask (getaddrinfo error_port)
  stats_fd ← ask (socket stats_port false)
  error_fd ← ask (socket error_port false)
  ask (bind stats_fd stats_port)
  ask (bind error_fd error_port)
  ask (listen stats_fd)
  ask (listen error_fd)
  epoll_fd ← ask epoll_create
  ask (epoll_ctl_add epoll_fd stats_fd)
  ask (epoll_ctl_add epoll_fd error_fd)
  return (record { stats_fd = stats_fd; error_fd = error_fd; epoll_fd = epoll_fd })
