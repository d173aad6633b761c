-- ===== src/Echo/System/Tests.antt =====
-- A connection is accepted, and then its first read fails.
use upcalls.Prelude.{◌≢◌, ℤ, true, false, some, assign, refl, arith, [], ◌∷◌, pos, negsuc}
use upcalls.Upcall.Event.{Ptr, UpEvent, zeroed}
use upcalls.Upcall.Queue.{accept, read, requested}
use upcalls.Echo.Tests.{setting, setting-IsSetting}
use upcalls.Echo.{echo_handlers, my_accept, my_read, set_conn, new_conn, count_event}
use upcalls.Echo.System.{Sys, Reach, start, later, step, init}
use upcalls.Echo.System.Served.{IsAttended}
use upcalls.Echo.System.Reached.{Reach-IsAttended}

abbrev came : UpEvent
came = record zeroed { fd = pos 3; result = pos 6; work_fn = 10 }

abbrev failed : UpEvent
failed = record zeroed { fd = pos 6; result = negsuc 103; work_fn = 11 }

abbrev opened : Sys
opened = record {
  server =
      record (set_conn 6 (some (new_conn setting (pos 6) 2000)) (init setting (pos 3)).server) {
        accept_count = 1;
      };
  pending = read (pos 6) 11 ∷ accept (pos 3) 10 ∷ [];
  stalled = λ i. false;
}

opened-Reach : Reach setting (pos 3) opened
unfolding echo_handlers my_accept requested
opened-Reach = later start (
    step [] [] (accept (pos 3) 10) came _ _ refl
      (record { same_fd = refl; same_fn = refl; unused = λ fd fn i h m. refl }) refl)

abbrev stuck : Sys
stuck = record {
  server = set_conn 6 (some (count_event setting (new_conn setting (pos 6) 2000))) opened.server;
  pending = accept (pos 3) 10 ∷ [];
  stalled = assign (λ i. false) 6 true;
}

stuck-Reach : Reach setting (pos 3) stuck
unfolding echo_handlers my_read requested
stuck-Reach = later opened-Reach (
    step [] (accept (pos 3) 10 ∷ []) (read (pos 6) 11) failed _ _ refl
      (record { same_fd = refl; same_fn = refl; unused = λ fd fn i h m. absurd (read_accept h) })
      refl)
  where
    read_accept : {z w : ℤ} {p q : Ptr} → read z p ≢ accept w q
    read_accept h = cc

Reach-IsAttended_example : IsAttended setting stuck
Reach-IsAttended_example =
    Reach-IsAttended setting setting-IsSetting (λ e. absurd (omega (arith, e))) stuck-Reach
