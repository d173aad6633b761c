-- ===== src/Report/Control.antt =====
-- event-tester/tcp_echo.c: the loop at the end of `main`, which serves the statistics and the error
-- report and closes the connections of their clients.
pub mod Closed
mod Tests
use upcalls.Prelude.{
  ℕ, Bool, true, false, Option, none, some, List, [], ◌∷◌, ℤ, pos, negsuc, Outcome, done, exit,
  ◌==◌, if◌then◌else◌, assign,
}
use upcalls.Report.{
  Write, Sent, finished, failed, in_call, Thread, Reading, Message, Conn, on_stats, on_error,
}

-- An event of a descriptor, and what the calls of its handler give: `added`, whether `epoll_ctl` takes
-- a client's descriptor, which the code does not test; `sigpipe`, whether a `write` that fails does so
-- because the client is gone, with the signal that ends the process.
pub record Event : Type 0 where
  pub failing : Bool
  pub fd : ℕ
  pub out : ℤ
  pub threads : List (Thread × Option (List Reading))
  pub conns : List (Option Conn)
  pub behind : List ℕ
  pub writes : List Write
  pub added : Bool
  pub sigpipe : Bool

-- What `epoll_wait` gives.
pub data Wait : Type 0 where
  wait_fails : Wait
  event : Event → Wait

-- The clients that epoll watches; all that were accepted, closed, and accepted but not added to epoll,
-- newest first; and the messages that were sent.
pub record Control : Type 0 where
  pub watched : ℕ → Bool
  pub opened : List ℕ
  pub closed : List ℕ
  pub unwatched : List ℕ
  pub messages : List Message

-- The thread waits for the next event, or for a `write` to return; or the process ended.
pub data Went : Type 0 where
  waits : Control → Went
  in_write : Control → Went
  exits : ℕ → Went

abbrev pub accept_client : ℤ → Control → Control
accept_client (pos i) c = record c { opened = i ∷ c.opened }
accept_client (negsuc k) c = c

-- `close(out)` when there is nothing to report
abbrev pub close_client : ℤ → Control → Control
close_client (pos i) c = record c { closed = i ∷ c.closed }
close_client (negsuc k) c = c

-- `EPOLL_CTL_ADD`
abbrev pub watch : (added : Bool) → ℤ → Control → Control
watch true (pos i) c = record c { watched = assign c.watched i true }
watch false (pos i) c = record c { unwatched = i ∷ c.unwatched }
watch _ (negsuc k) c = c

-- The status of a process that SIGPIPE ended.
abbrev pub broken_pipe : ℕ
broken_pipe = 141

-- `EPOLL_CTL_DEL` and `close`
abbrev pub hang_up : ℕ → Control → Control
hang_up i c = record c { watched = assign c.watched i false; closed = i ∷ c.closed }

abbrev pub after_sending : (sigpipe : Bool) → Sent → Message → Control → Went
after_sending sigpipe (finished text rs) m c = waits (record c { messages = m ∷ c.messages })
after_sending sigpipe failed m c = exits (if sigpipe then broken_pipe else 1)
after_sending sigpipe (in_call text) m c = in_write c

abbrev pub stats_sent : Outcome Message → Event → Control → Went
stats_sent (exit n) e c = exits n
stats_sent (done m) e c =
    after_sending e.sigpipe m.body m (watch e.added e.out (accept_client e.out c))

abbrev pub error_sent : Option Message → Event → Control → Went
error_sent none e c = waits (close_client e.out (accept_client e.out c))
error_sent (some m) e c =
    after_sending e.sigpipe m.body m (watch e.added e.out (accept_client e.out c))

module _ (stats_fd error_fd : ℕ) where
  abbrev pub on_control : Event → Control → Went
  on_control e c =
      if e.failing
      then if e.fd == stats_fd
        then exits 255
        else if e.fd == error_fd
        then exits 255
        else waits (hang_up e.fd c)
      else if e.fd == stats_fd
      then stats_sent (on_stats e.out e.threads e.writes) e c
      else if e.fd == error_fd
      then error_sent (on_error e.out e.conns e.behind e.writes) e c
      else waits c

  abbrev pub on_wait : Wait → Control → Went
  on_wait wait_fails c = exits 255
  on_wait (event e) c = on_control e c

  -- `while (epoll_wait(epoll_fd, &evt, 1, -1) > 0)`
  unfoldable pub control_loop : List Wait → Control → Went
  control_loop [] c = waits c
  control_loop (w ∷ ws) c = elim (on_wait w c) [
    | waits c' ↦ control_loop ws c'
    | in_write c' ↦ in_write c'
    | exits n ↦ exits n
  ]
