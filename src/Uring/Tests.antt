-- ===== src/Uring/Tests.antt =====
-- Two workers with messages of four bytes: the first accepts a connection for the second, or for
-- itself, and then reads a part of a message.
use upcalls.Prelude.{
  one_if, count, ℕ, ◌+◌, ◌≤◌, ◌<◌, ◌≡◌, refl, true, false, some, List, [], ◌∷◌, arith, pos, done,
  assign,
}
use upcalls.Uring.{
  accept, sock_read, ev_read, Req, Cqe, Sys, Env, add_accept_request, add_read_request, connect,
  hand_over, move_cursor, on_cqe, init, increment,
}
use upcalls.Uring.Count.{outstanding, accepts_for, ev_reads_of}
use upcalls.Uring.Run.{Reach, start, later, completes, handles, accepts, reads}
use upcalls.Uring.Served.{IsServed}
use upcalls.Uring.Safety.{Reach-IsServed}
use upcalls.Uring.Errors.{Runs, on_cqe-Runs}
use upcalls.Uring.Awake.{Informed, woken, no_connection_missed}

abbrev accept_of : ℕ → Req
accept_of w = record { ring = w; io = accept; at = 0; len = 0 }

abbrev ev_read_of : ℕ → Req
ev_read_of w = record { ring = w; io = ev_read; at = 0; len = 8 }

abbrev env_of : ℕ → Env
env_of cpu = record { newbie = true; event_value = true; caches = true; incoming_cpu = some cpu }

abbrev others : List Req
others = ev_read_of 1 ∷ accept_of 1 ∷ ev_read_of 0 ∷ []

abbrev new_socket : Cqe
new_socket = record { req = accept_of 0; res = pos 5 }

abbrev before_accept : Sys
before_accept = record (init 2) { flight = others; opened = assign (λ i. false) 5 true }

abbrev after_accept : Sys
after_accept = record before_accept { cq = new_socket ∷ [] }

after_accept-Reach : Reach 4 2 after_accept
after_accept-Reach =
    later start (completes others [] (accept_of 0) (pos 5) refl (accepts 5 refl refl))

abbrev counted : Sys
counted = record before_accept { accept_count = increment (λ w. 0) 0 }

abbrev given_away : Sys
given_away = add_accept_request 0 (hand_over 0 1 5 counted)

given_away-Reach : Reach 4 2 given_away
unfolding on_cqe
given_away-Reach =
    later after_accept-Reach
      (handles [] [] new_socket (env_of 1) refl (omega arith) refl (omega arith) refl)

abbrev kept : Sys
kept = add_accept_request 0 (connect 4 0 5 counted)

kept-Reach : Reach 4 2 kept
unfolding on_cqe
kept-Reach =
    later after_accept-Reach
      (handles [] [] new_socket (env_of 0) refl (omega arith) refl (omega arith) refl)

abbrev first_read : Req
first_read = record { ring = 0; io = sock_read 5; at = 0; len = 4 }

abbrev three_bytes : Cqe
three_bytes = record { req = first_read; res = pos 3 }

abbrev waiting_reads : Sys
waiting_reads = record kept { flight = accept_of 0 ∷ others; cq = three_bytes ∷ [] }

waiting_reads-Reach : Reach 4 2 waiting_reads
waiting_reads-Reach = later kept-Reach (
    completes (accept_of 0 ∷ []) others first_read (pos 3) refl
      (reads 5 (pos 3) refl (omega arith)))

Reach-IsServed_example : IsServed 4 2 waiting_reads
Reach-IsServed_example = Reach-IsServed (omega arith) waiting_reads-Reach

on_cqe-Runs_example :
    Runs 4 2
      (env_of 0)
      three_bytes
      (record waiting_reads { cq = [] })
      (on_cqe 4 (env_of 0) three_bytes (record waiting_reads { cq = [] }))
on_cqe-Runs_example =
    on_cqe-Runs [] [] three_bytes (env_of 0) (omega arith) waiting_reads-Reach refl (omega arith)

no_connection_missed_example :
    (outstanding (accepts_for 1) given_away ≡ 1)
    × (1
        ≤ count (ev_reads_of 1) given_away.flight
          + (woken 1 given_away + one_if (given_away.draining 1)))
    × (0 < 1 → Informed 1 given_away)
no_connection_missed_example = no_connection_missed 1 (omega arith) given_away-Reach

-- One more byte is asked for.
read_more :
    on_cqe 4 (env_of 0) three_bytes (record waiting_reads { cq = [] })
    ≡ done (
        add_read_request 0
          (sock_read 5)
          3
          1
          (move_cursor 3 (record { fd = 5; cursor = 0 }) (record waiting_reads { cq = [] })))
unfolding on_cqe
read_more = refl
