-- ===== src/Latency.antt =====
-- scheduler_latency/tester.c: two threads wake each other in turn through two event descriptors and
-- log when. Threads are interleaved, and each step takes time. An entry has the instant at which its
-- thread read the time-stamp counter; what the counter of that thread's CPU showed then is a parameter.
pub mod Turns
pub mod Order
mod Tests
use upcalls.Prelude.{ℕ, zero, suc, ◌+◌, ◌<◌, ◌≡◌, List, [], ◌∷◌, minus64}

-- `READ` and `WRITE`
pub data Mark : Type 0 where
  read_mark write_mark : Mark

-- An entry's value and its instant, or its time as the counter shows it.
abbrev pub Stamp : Type 0
Stamp = Mark × ℕ

-- The next thing that `sleeper` does in a turn of its loop.
pub data SleeperPc : Type 0 where
  reads_efd1 adds_read adds_write writes_efd2 : SleeperPc

-- The next thing that `waker` does in a turn of its loop.
pub data WakerPc : Type 0 where
  w_adds_write writes_efd1 reads_efd2 w_adds_read : WakerPc

-- The turns that each has done and where it stands, the counters of the descriptors, the clock, and
-- the logs, newest entry first.
pub record Sys : Type 0 where
  pub slept : ℕ
  pub sleeper : SleeperPc
  pub woke : ℕ
  pub waker : WakerPc
  pub efd1 : ℕ
  pub efd2 : ℕ
  pub clock : ℕ
  pub slp_log : List Stamp
  pub wke_log : List Stamp

-- One step of one thread, at least one tick of the clock later. A read waits until the counter is
-- not 0, and leaves 0; a write adds 1.
pub data Step (count : ℕ) (s : Sys) : Sys → Type 0 where
  sleeper_reads :
      s.slept < count
      → s.sleeper ≡ reads_efd1
      → 0 < s.efd1
      → Step count s (record s { sleeper = adds_read; efd1 = 0; clock = suc s.clock })
  sleeper_adds_read :
      s.sleeper ≡ adds_read
      → Step count s (record s {
        sleeper = adds_write;
        slp_log = (read_mark, s.clock) ∷ s.slp_log;
        clock = suc s.clock;
      })
  sleeper_adds_write :
      s.sleeper ≡ adds_write
      → Step count s (record s {
        sleeper = writes_efd2;
        slp_log = (write_mark, s.clock) ∷ s.slp_log;
        clock = suc s.clock;
      })
  sleeper_writes :
      s.sleeper ≡ writes_efd2
      → Step count s (record s {
        sleeper = reads_efd1;
        slept = suc s.slept;
        efd2 = suc s.efd2;
        clock = suc s.clock;
      })
  waker_adds_write :
      s.woke < count
      → s.waker ≡ w_adds_write
      → Step count s (record s {
        waker = writes_efd1;
        wke_log = (write_mark, s.clock) ∷ s.wke_log;
        clock = suc s.clock;
      })
  waker_writes :
      s.waker ≡ writes_efd1
      → Step count s (record s { waker = reads_efd2; efd1 = suc s.efd1; clock = suc s.clock })
  waker_reads :
      s.waker ≡ reads_efd2
      → 0 < s.efd2
      → Step count s (record s { waker = w_adds_read; efd2 = 0; clock = suc s.clock })
  waker_adds_read :
      s.waker ≡ w_adds_read
      → Step count s (record s {
        waker = w_adds_write;
        woke = suc s.woke;
        wke_log = (read_mark, s.clock) ∷ s.wke_log;
        clock = suc s.clock;
      })

abbrev pub init : ℕ → Sys
init now = record {
  slept = 0;
  sleeper = reads_efd1;
  woke = 0;
  waker = w_adds_write;
  efd1 = 0;
  efd2 = 0;
  clock = now;
  slp_log = [];
  wke_log = [];
}

pub data Reach (count now : ℕ) : Sys → Type 0 where
  start : Reach count now (init now)
  later : {s t : Sys} → Reach count now s → Step count s t → Reach count now t

-- The log as it is in memory: `tsc` is what the counter of the thread's CPU shows at each instant.
abbrev pub stamped : (tsc : ℕ → ℕ) → List Stamp → List Stamp
stamped tsc [] = []
stamped tsc ((m, t) ∷ ss) = (m, tsc t) ∷ stamped tsc ss

-- A row of `write_times`.
abbrev pub latency : Stamp → Stamp → ℕ
latency (read_mark, sc) (m, wc) = minus64 sc wc
latency (write_mark, sc) (m, wc) = minus64 wc sc

-- The rows of `write_times`, in the order of the logs.
unfoldable pub latencies : List Stamp → List Stamp → List ℕ
latencies [] ws = []
latencies (s ∷ ss) [] = []
latencies (s ∷ ss) (w ∷ ws) = latency s w ∷ latencies ss ws
