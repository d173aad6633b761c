-- ===== src/Startup/Tests.antt =====
-- The start of a server with one worker.
use upcalls.Prelude.{ℕ, ◌≡◌, ◌<◌, ◌⊎◌, refl, arith}
use upcalls.Startup.{
  setting_up, ready, inside, running, spawning, testing, returned, free, by_worker, Sys, init,
  set_worker, notify, test_count, Reach, start, later, creates, created_all, tests, releases,
  sets_up, notifies, enters,
}
use upcalls.Startup.Safety.{notified, running_after_setup}
use upcalls.Startup.Progress.{GoesOn, start-GoesOn}

abbrev first : ℕ
first = 0

abbrev created : Sys
created = record (set_worker 0 setting_up init) { main = spawning 1 }

abbrev waiting_main : Sys
waiting_main = test_count 1 (record created { main = testing })

abbrev notified_main : Sys
notified_main = notify 0 (set_worker 0 ready waiting_main)

abbrev released : Sys
released = record (test_count 1 notified_main) { main = returned; gate = free }

abbrev entered : Sys
entered = record (set_worker 0 inside released) { gate = by_worker 0 }

waiting-Reach : Reach 1 waiting_main
waiting-Reach =
    later (later (later start (creates 0 refl (omega arith))) (created_all refl)) (tests refl)

entered-Reach : Reach 1 entered
entered-Reach =
    later
      (later (later (later (later waiting-Reach (sets_up 0 refl)) (notifies 0 refl)) (tests refl))
        (releases refl))
      (enters 0 refl refl)

running_after_setup_example :
    (entered.main ≡ returned)
    × (entered.init_count ≡ 1)
    × (0 < 1 → notified (entered.worker 0) ≡ 1)
    × (entered.worker 0 ≡ inside → entered.worker 0 ≡ inside → first ≡ first)
running_after_setup_example = running_after_setup 0 0 entered-Reach refl

start-GoesOn_example :
    GoesOn 1 waiting_main
    ⊎ ((waiting_main.main ≡ returned) × ((i : ℕ) → i < 1 → waiting_main.worker i ≡ running))
start-GoesOn_example = start-GoesOn waiting-Reach
