-- ===== src/Client.antt =====
-- event-tester/tcp_client.c: a load generator. Each worker thread runs `clients_per_thread` clients
-- over one epoll set; a client connects, sends a request, waits for the whole response, and
-- reconnects after every `batch_size` transactions until it has done `transaction_count` of them.
pub mod Io
pub mod Machine
pub mod Sane
pub mod Moves
pub mod Team
pub mod Options
mod Tests
use upcalls.Prelude.{
  ℕ, ◌+◌, Option, none, some, Bool, true, false, List, [], ◌∷◌, ◌++◌, ℤ, pos, negsuc, minus64,
}

-- `enum state`; `idle` is `INIT`.
pub data State : Type 0 where
  idle : State
  connecting : State
  new : State
  ready : State
  sent : State
  finished : State

-- `struct client`, less the buffer itself.
pub record Client : Type 0 where
  pub sock : ℤ
  pub cursor : ℕ
  pub state : State
  pub buf_size : ℕ
  pub txn_remaining : ℕ
  pub batch_remaining : ℕ

-- The result of a system call: a value, or a failure with its `errno`.
pub data Reply : Type 0 where
  ok : ℕ → Reply
  failed : ℕ → Reply

abbrev pub eagain : ℕ
eagain = 11

abbrev pub einprogress : ℕ
einprogress = 115

-- The event ids of the log.
pub data Stamp : Type 0 where
  connect_start : Stamp
  connect_done : Stamp
  send_start : Stamp
  send_done : Stamp
  recv_start : Stamp
  recv_done : Stamp

-- The transaction and the event of an entry of the log. Its thread and client are those that ran.
pub record Entry : Type 0 where
  pub txn : ℕ
  pub event : Stamp

-- What a call of `do_state_transition` reads and writes: its client, the worker's log and `dying`,
-- and the results of the system calls to come, in order.
pub record World : Type 0 where
  pub client : Client
  pub log : List Entry
  pub dying : Bool
  pub replies : List Reply

-- Where a worker is when the results from outside are used up: in a system call; in `client_send` or
-- `client_recv` of `len` bytes, with the results that this call of it has used; or in `epoll_wait`,
-- with `dying` and the counts.
pub data Pause : Type 0 where
  in_syscall : Pause
  in_send : (len : ℕ) (results : List Reply) → Pause
  in_recv : (len : ℕ) (results : List Reply) → Pause
  in_epoll_wait : (dying : Bool) (complete total : ℕ) → Pause

-- How a piece of code ends: it returns, or it goes on when the results are used up, or it calls
-- itself deeper than was allowed.
pub data Run {ℓ} (A : Type ℓ) : Type ℓ where
  returns : A → Run A
  waits : Pause → Run A
  too_deep : Run A

infixl 5 ◌>>=◌
abbrev pub ◌>>=◌ {ℓ κ} : {A : Type ℓ} {B : Type κ} → Run A → (A → Run B) → Run B
returns a >>= f = f a
waits p >>= f = waits p
too_deep >>= f = too_deep

-- The end of a loop of system calls, if it comes to one.
abbrev pub blocking {ℓ} : {A : Type ℓ} → Pause → Option A → Run A
blocking p none = waits p
blocking p (some a) = returns a

-- `set_dying`, for this worker.
abbrev pub set_dying : World → World
set_dying w = record w { dying = true }

abbrev pub pop : World → List Reply → Run (Reply × World)
pop w [] = waits in_syscall
pop w (r ∷ rs) = returns (r, record w { replies = rs })

-- The next system call.
abbrev pub syscall : World → Run (Reply × World)
syscall w = pop w w.replies

abbrev pub is_failed : Reply → Bool
is_failed (ok n) = false
is_failed (failed e) = true

-- `socket` returns a file descriptor, or -1.
abbrev pub descriptor : Reply → ℤ
descriptor (ok n) = pos n
descriptor (failed e) = negsuc 0

abbrev pub enter : State → World → World
enter s w = record w { client = record w.client { state = s } }

-- `tsclog_4`, with the number of the transaction.
abbrev pub stamp : (transaction_count : ℕ) → Stamp → World → World
stamp tc ev w = record w {
  log = w.log ++ (record { txn = minus64 tc w.client.txn_remaining; event = ev } ∷ []);
}
