-- ===== src/Upcall/Barrier.antt =====
-- libupcall/upcall.c: the start of the workers. `upcall_init` spawns them and waits until all have
-- set up; each then waits for `upcall_workers_go`. Threads are interleaved step by step; what runs
-- under `g_init_lock` is one step, up to the unlock or to `pthread_cond_wait`.
pub mod Count
pub mod Safety
pub mod Progress
mod Tests
use upcalls.Prelude.{ℕ, suc, ◌+◌, ◌<◌, ◌≡◌, Bool, true, false, ltb, if◌then◌else◌, ◌==◌}

-- Where a worker stands in `upcall_worker_fn`.
pub data WorkerPc : Type 0 where
  absent : WorkerPc  -- not created yet
  spawned : WorkerPc  -- before or in `upcall_worker_setup` and `g_setup_fn`
  ready : WorkerPc  -- before `pthread_mutex_lock`
  blocked : WorkerPc  -- in `pthread_cond_wait`
  woken : WorkerPc  -- signalled there, before it tests `g_go` again
  looping : WorkerPc  -- in the `for (;;)`

-- Where the main thread stands: in `upcall_init`, after it, or after `upcall_workers_go`.
pub data MainPc : Type 0 where
  spawning : ℕ → MainPc  -- in the loop over the CPUs, at `i`
  testing : MainPc  -- before it tests `g_init_count < nr`
  main_blocked : MainPc  -- in `pthread_cond_wait`
  returned : MainPc
  gone : MainPc

pub record Sys : Type 0 where
  pub init_count : ℕ
  pub go : Bool
  pub main : MainPc
  pub worker : ℕ → WorkerPc

abbrev pub update : (ℕ → WorkerPc) → ℕ → WorkerPc → ℕ → WorkerPc
update f i p j = if i == j then p else f j

-- `pthread_cond_signal(&g_init_cond)`: only the main thread waits there.
abbrev pub signal_main : MainPc → MainPc
signal_main main_blocked = testing
signal_main p = p

-- `pthread_cond_broadcast(&g_go_cond)`, for one worker.
abbrev pub broadcast : WorkerPc → WorkerPc
broadcast blocked = woken
broadcast p = p

-- `while (!g_go) pthread_cond_wait(..);`, once
abbrev pub test_go : Bool → WorkerPc
test_go true = looping
test_go false = blocked

-- A worker under the lock: `g_init_count++`, the signal, the first test.
abbrev pub arrive : ℕ → Sys → Sys
arrive i s = record s {
  init_count = s.init_count + 1;
  main = signal_main s.main;
  worker = update s.worker i (test_go s.go);
}

-- `while (g_init_count < nr) pthread_cond_wait(..);`, once
abbrev pub test_count : ℕ → Sys → Sys
test_count nr s = record s { main = if ltb s.init_count nr then main_blocked else returned }

-- `upcall_workers_go`
abbrev pub workers_go : Sys → Sys
workers_go s = record s { go = true; main = gone; worker = λ i. broadcast (s.worker i) }

-- One step of one thread. A wait can also end with no signal. `upcall_workers_go` is called after
-- `upcall_init` has returned, as upcall.h asks.
pub data Step (nr : ℕ) (s : Sys) : Sys → Type 0 where
  create :
      (k : ℕ)
      → s.main ≡ spawning k
      → k < nr
      → Step nr s (record s { main = spawning (suc k); worker = update s.worker k spawned })
  created_all : s.main ≡ spawning nr → Step nr s (record s { main = testing })
  set_up :
      (i : ℕ) → s.worker i ≡ spawned → Step nr s (record s { worker = update s.worker i ready })
  arrives : (i : ℕ) → s.worker i ≡ ready → Step nr s (arrive i s)
  tests_go :
      (i : ℕ)
      → s.worker i ≡ woken
      → Step nr s (record s { worker = update s.worker i (test_go s.go) })
  spurious :
      (i : ℕ) → s.worker i ≡ blocked → Step nr s (record s { worker = update s.worker i woken })
  tests_count : s.main ≡ testing → Step nr s (test_count nr s)
  main_spurious : s.main ≡ main_blocked → Step nr s (record s { main = testing })
  calls_go : s.main ≡ returned → Step nr s (workers_go s)

abbrev pub init : Sys
init = record { init_count = 0; go = false; main = spawning 0; worker = λ _. absent }

pub data Reach (nr : ℕ) : Sys → Type 0 where
  start : Reach nr init
  later : {s t : Sys} → Reach nr s → Step nr s t → Reach nr t
