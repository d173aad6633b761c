-- ===== src/Epoll/Tests.antt =====
-- Messages of four bytes, and two workers.
use upcalls.Prelude.{◌≡◌, refl, true, none, some, [], ◌∷◌, arith, done, exit, assign}
use upcalls.Epoll.{
  Conn, bytes, got_eagain, taken, put_eagain, Calls, returned, read_loop, write_loop, on_read,
}
use upcalls.Epoll.Server.{
  accept_eagain, accept_fd, Server, Env, push, accept_loop, on_accept, new_conn, take_newbies,
  on_event, client, handle_event, handle_events,
}
use upcalls.Epoll.Writes.{IsConn, pending}
use upcalls.Epoll.Stream.{Echoed, on_read-Echoed}
use upcalls.Epoll.Errors.{failed_event_ends}
use upcalls.Epoll.Accept.{Connected, accepted-Connected}
use upcalls.Epoll.Handover.{Sys, polling, telling, Reach, start, later, pushes, News, waiting-News}

-- Two parts of a message, taken back in two parts; and one byte of the next.
abbrev calls : Calls
calls = record {
  reads = bytes 1 (2 ∷ []) ∷ bytes 3 (4 ∷ []) ∷ bytes 5 [] ∷ [];
  writes = taken 2 ∷ put_eagain ∷ taken 0 ∷ [];
  sent = [];
}

abbrev conn : Conn
conn = new_conn 5

on_read_run :
    on_read 4 conn calls
    ≡ returned
        (record conn { buffer = some (1 ∷ 2 ∷ 3 ∷ 4 ∷ []); event_count = 1 })
        (record { reads = bytes 5 [] ∷ []; writes = []; sent = 1 ∷ 2 ∷ 3 ∷ 4 ∷ [] })
unfolding on_read read_loop write_loop
on_read_run = refl

conn-IsConn : IsConn 4 conn
conn-IsConn = record { in_buffer = omega arith; empty = λ h. refl; sized = λ b h. cc }

abbrev part_calls : Calls
part_calls = record {
  reads = bytes 1 (2 ∷ []) ∷ got_eagain ∷ [];
  writes = taken 2 ∷ [];
  sent = 9 ∷ [];
}

on_read-Echoed_example :
    Echoed 4 (pending conn) part_calls.reads part_calls.sent (on_read 4 conn part_calls)
on_read-Echoed_example =
    on_read-Echoed 4 conn part_calls conn-IsConn (omega arith, tt) (omega arith, tt)

abbrev env : Env
env = record { added = λ i. true; removed = λ i. true; caches = true }

abbrev server : Server
server = record {
  conns = λ i. none;
  incoming = λ w. [];
  counter = λ w. 0;
  accept_count = λ w. 0;
  conn_count = λ w. 0;
  closed = [];
  freed = [];
  calls = calls;
  accepts = accept_fd 5 (some 1) true ∷ accept_fd 6 (some 0) true ∷ accept_eagain ∷ [];
}

-- What `on_accept` of the first worker makes of it.
abbrev accepted : Server
accepted = record server {
  incoming = assign (assign (λ w. []) 1 (5 ∷ [])) 0 (6 ∷ []);
  counter = assign (assign (λ w. 0) 1 1) 0 1;
  accept_count = assign (assign (λ w. 0) 0 1) 0 2;
  accepts = [];
}

on_accept_run : on_accept 0 server ≡ done accepted
unfolding accept_loop
on_accept_run = refl

abbrev connected : Server
connected = record accepted {
  incoming = assign accepted.incoming 1 [];
  counter = assign accepted.counter 1 0;
  conns = assign (λ i. none) 5 (some (new_conn 5));
}

on_event_run : on_event 1 env accepted ≡ done connected
unfolding take_newbies
on_event_run = refl

accepted-Connected_example :
    Connected (5 ∷ []) connected × Connected [] connected × (connected.incoming 1 ≡ [])
accepted-Connected_example =
    accepted-Connected 0 1 env server accepted connected on_accept_run (omega arith) on_event_run

no_events : handle_events 4 1 env [] connected ≡ done connected
unfolding handle_events
no_events = refl

-- The connection fails.
failed_event_ends_example :
    handle_event 4 1 env (record { source = client 5; failed = true }) connected ≡ exit 139
failed_event_ends_example =
    failed_event_ends 4 1 env [] (record { source = client 5; failed = true }) connected connected
      (λ i c h. ground arith) no_events refl

abbrev start_sys : Sys
start_sys = record { server = server; pc = λ w. polling }

abbrev pushed : Sys
pushed = record { server = push 1 5 server; pc = assign (λ w. polling) 0 (telling 1) }

pushed-Reach : Reach 2 pushed
pushed-Reach =
    later (start {s = start_sys} (record { idle = λ w. refl; no_list = λ w. refl }))
      (pushes 0 1 5 (omega arith) refl)

waiting-News_example : News 2 1 pushed
waiting-News_example = waiting-News 1 pushed-Reach (omega arith)
