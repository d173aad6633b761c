-- ===== src/Startup.antt =====
-- event-tester/epoll.c, iouring.c and threads.c: the start of the workers, which the three share.
-- `init_threads` holds `worker_hang_lock` until every worker has set itself up; a worker then takes
-- and gives back that lock before it enters its loop. Threads are interleaved; what runs under
-- `init_lock` is one step, up to the unlock or to `pthread_cond_wait`.
pub mod Safety
pub mod Progress
mod Tests
use upcalls.Prelude.{ℕ, zero, suc, ◌+◌, ◌<◌, ◌≡◌, ltb, if◌then◌else◌, assign}

-- Where a worker stands in `worker_func`.
pub data WorkerPc : Type 0 where
  absent : WorkerPc  -- not created yet
  setting_up : WorkerPc
  ready : WorkerPc  -- before it locks `init_lock`
  at_gate : WorkerPc  -- before it locks `worker_hang_lock`
  inside : WorkerPc  -- between the lock and the unlock
  running : WorkerPc  -- in its loop

-- Where the main thread stands in `init_threads`.
pub data MainPc : Type 0 where
  spawning : ℕ → MainPc  -- in the loop over the CPUs, at `i`
  testing : MainPc  -- before it tests `init_count < nr_cpus`
  waiting : MainPc  -- in `pthread_cond_wait`
  releasing : MainPc  -- before the unlock of `worker_hang_lock`
  returned : MainPc

-- Who has `worker_hang_lock`.
pub data Gate : Type 0 where
  by_main : Gate
  free : Gate
  by_worker : ℕ → Gate

pub record Sys : Type 0 where
  pub init_count : ℕ
  pub gate : Gate
  pub main : MainPc
  pub worker : ℕ → WorkerPc

-- `pthread_cond_signal(&init_cond)`: only the main thread waits there.
abbrev pub signal : MainPc → MainPc
signal waiting = testing
signal p = p

abbrev pub set_worker : ℕ → WorkerPc → Sys → Sys
set_worker i p s = record s { worker = assign s.worker i p }

-- A worker notifies that its set-up is done.
abbrev pub notify : ℕ → Sys → Sys
notify i s = record (set_worker i at_gate s) { init_count = s.init_count + 1; main = signal s.main }

-- `while (init_count < nr_cpus) pthread_cond_wait(..);`, once
abbrev pub test_count : ℕ → Sys → Sys
test_count nr s = record s { main = if ltb s.init_count nr then waiting else releasing }

pub data Step (nr : ℕ) (s : Sys) : Sys → Type 0 where
  creates :
      (k : ℕ)
      → s.main ≡ spawning k
      → k < nr
      → Step nr s (record (set_worker k setting_up s) { main = spawning (suc k) })
  created_all : s.main ≡ spawning nr → Step nr s (record s { main = testing })
  tests : s.main ≡ testing → Step nr s (test_count nr s)
  spurious : s.main ≡ waiting → Step nr s (record s { main = testing })
  releases : s.main ≡ releasing → Step nr s (record s { main = returned; gate = free })
  sets_up : (i : ℕ) → s.worker i ≡ setting_up → Step nr s (set_worker i ready s)
  notifies : (i : ℕ) → s.worker i ≡ ready → Step nr s (notify i s)
  enters :
      (i : ℕ)
      → s.worker i ≡ at_gate
      → s.gate ≡ free
      → Step nr s (record (set_worker i inside s) { gate = by_worker i })
  leaves :
      (i : ℕ) → s.worker i ≡ inside → Step nr s (record (set_worker i running s) { gate = free })

-- Before the loop of `init_threads`, which runs with `worker_hang_lock`.
abbrev pub init : Sys
init = record { init_count = 0; gate = by_main; main = spawning 0; worker = λ _. absent }

pub data Reach (nr : ℕ) : Sys → Type 0 where
  start : Reach nr init
  later : {s t : Sys} → Reach nr s → Step nr s t → Reach nr t
