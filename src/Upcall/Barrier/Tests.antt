-- ===== src/Upcall/Barrier/Tests.antt =====
-- Two workers, with the start-up run to the end.
use upcalls.Prelude.{ℕ, ◌≡◌, ◌<◌, ◌≢◌, ◌⊎◌, refl, true, arith}
use upcalls.Upcall.Barrier.{
  Sys, looping, blocked, main_blocked, gone, create, created_all, set_up, arrives, tests_go,
  tests_count, calls_go, Reach, start, later,
}
use upcalls.Upcall.Barrier.Count.{arrived}
use upcalls.Upcall.Barrier.Safety.{looping_after_setup, no_lost_wakeup}
use upcalls.Upcall.Barrier.Progress.{Nearer, start_progress}

record Run : Type 0 where
  last : Sys
  reach : Reach 2 last

-- Both workers are created and set up, and the main thread blocks before they count themselves.
abbrev waiting : Run
waiting = record {
  last = _;
  reach =
      later
        (later
          (later
            (later (later (later start (create 0 refl (omega arith))) (create 1 refl (omega arith)))
              (set_up 0 refl))
            (set_up 1 refl))
          (created_all refl))
        (tests_count refl);
}

-- The workers count themselves, the main thread wakes up, returns, and calls `upcall_workers_go`.
abbrev released : Run
released = record {
  last = _;
  reach =
      later
        (later
          (later (later (later waiting.reach (arrives 0 refl)) (arrives 1 refl)) (tests_count refl))
          (calls_go refl))
        (tests_go 1 refl);
}

looping_after_setup_example :
    (released.last.main ≡ gone) × ((j : ℕ) → j < 2 → arrived (released.last.worker j) ≡ 1)
looping_after_setup_example = looping_after_setup released.reach 1 refl

no_lost_wakeup_example :
    (waiting.last.main ≡ main_blocked → (i : ℕ) × (i < 2) × (arrived (waiting.last.worker i) ≡ 0))
    × (waiting.last.go ≡ true → (i : ℕ) → waiting.last.worker i ≢ blocked)
no_lost_wakeup_example = no_lost_wakeup waiting.reach

start_progress_example : ((i : ℕ) → i < 2 → waiting.last.worker i ≡ looping) ⊎ Nearer 2 waiting.last
start_progress_example = start_progress waiting.reach
