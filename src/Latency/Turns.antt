-- ===== src/Latency/Turns.antt =====
-- Where the two threads stand together.
use upcalls.Prelude.{ℕ, suc, ◌≤◌, ◌<◌, List, [], ◌∷◌, arith}
use upcalls.Latency.{
  read_mark, write_mark, Stamp, reads_efd1, adds_read, adds_write, writes_efd2, w_adds_write,
  writes_efd1, reads_efd2, w_adds_read, Sys, Step, sleeper_reads, sleeper_adds_read,
  sleeper_adds_write, sleeper_writes, waker_adds_write, waker_writes, waker_reads, waker_adds_read,
  Reach, start, later,
}

-- Entries that pair up, each woken thread's entry later than that of the thread that woke it.
pub data Paired : List Stamp → List Stamp → Type 0 where
  none_yet : Paired [] []
  woke_sleeper :
      {s w : ℕ} {ss ws : List Stamp}
      → w < s
      → Paired ss ws
      → Paired ((read_mark, s) ∷ ss) ((write_mark, w) ∷ ws)
  woke_waker :
      {s w : ℕ} {ss ws : List Stamp}
      → s < w
      → Paired ss ws
      → Paired ((write_mark, s) ∷ ss) ((read_mark, w) ∷ ws)

-- Where the two threads stand together, `k` turns after the start.
pub data Phase (count : ℕ) : Sys → Type 0 where
  asleep :
      {k t : ℕ} {ss ws : List Stamp}
      → k ≤ count
      → Paired ss ws
      → Phase count (record {
        slept = k;
        sleeper = reads_efd1;
        woke = k;
        waker = w_adds_write;
        efd1 = 0;
        efd2 = 0;
        clock = t;
        slp_log = ss;
        wke_log = ws;
      })
  wakes :
      {k t w : ℕ} {ss ws : List Stamp}
      → k < count
      → Paired ss ws
      → w < t
      → Phase count (record {
        slept = k;
        sleeper = reads_efd1;
        woke = k;
        waker = writes_efd1;
        efd1 = 0;
        efd2 = 0;
        clock = t;
        slp_log = ss;
        wke_log = (write_mark, w) ∷ ws;
      })
  woken :
      {k t w : ℕ} {ss ws : List Stamp}
      → k < count
      → Paired ss ws
      → w < t
      → Phase count (record {
        slept = k;
        sleeper = reads_efd1;
        woke = k;
        waker = reads_efd2;
        efd1 = 1;
        efd2 = 0;
        clock = t;
        slp_log = ss;
        wke_log = (write_mark, w) ∷ ws;
      })
  awake :
      {k t w : ℕ} {ss ws : List Stamp}
      → k < count
      → Paired ss ws
      → w < t
      → Phase count (record {
        slept = k;
        sleeper = adds_read;
        woke = k;
        waker = reads_efd2;
        efd1 = 0;
        efd2 = 0;
        clock = t;
        slp_log = ss;
        wke_log = (write_mark, w) ∷ ws;
      })
  noted :
      {k t : ℕ} {ss ws : List Stamp}
      → k < count
      → Paired ss ws
      → Phase count (record {
        slept = k;
        sleeper = adds_write;
        woke = k;
        waker = reads_efd2;
        efd1 = 0;
        efd2 = 0;
        clock = t;
        slp_log = ss;
        wke_log = ws;
      })
  answers :
      {k t s : ℕ} {ss ws : List Stamp}
      → k < count
      → Paired ss ws
      → s < t
      → Phase count (record {
        slept = k;
        sleeper = writes_efd2;
        woke = k;
        waker = reads_efd2;
        efd1 = 0;
        efd2 = 0;
        clock = t;
        slp_log = (write_mark, s) ∷ ss;
        wke_log = ws;
      })
  answered :
      {k t s : ℕ} {ss ws : List Stamp}
      → k < count
      → Paired ss ws
      → s < t
      → Phase count (record {
        slept = suc k;
        sleeper = reads_efd1;
        woke = k;
        waker = reads_efd2;
        efd1 = 0;
        efd2 = 1;
        clock = t;
        slp_log = (write_mark, s) ∷ ss;
        wke_log = ws;
      })
  back :
      {k t s : ℕ} {ss ws : List Stamp}
      → k < count
      → Paired ss ws
      → s < t
      → Phase count (record {
        slept = suc k;
        sleeper = reads_efd1;
        woke = k;
        waker = w_adds_read;
        efd1 = 0;
        efd2 = 0;
        clock = t;
        slp_log = (write_mark, s) ∷ ss;
        wke_log = ws;
      })

Step-Phase : {count : ℕ} {s t : Sys} → Phase count s → Step count s t → Phase count t
Step-Phase (asleep l p) (sleeper_reads h e z) = absurd (omega arith)
Step-Phase (asleep l p) (sleeper_adds_read e) = absurd (ground arith)
Step-Phase (asleep l p) (sleeper_adds_write e) = absurd (ground arith)
Step-Phase (asleep l p) (sleeper_writes e) = absurd (ground arith)
Step-Phase (asleep l p) (waker_adds_write h e) = wakes h p (omega arith)
Step-Phase (asleep l p) (waker_writes e) = absurd (ground arith)
Step-Phase (asleep l p) (waker_reads e z) = absurd (ground arith)
Step-Phase (asleep l p) (waker_adds_read e) = absurd (ground arith)
Step-Phase (wakes l p o) (sleeper_reads h e z) = absurd (omega arith)
Step-Phase (wakes l p o) (sleeper_adds_read e) = absurd (ground arith)
Step-Phase (wakes l p o) (sleeper_adds_write e) = absurd (ground arith)
Step-Phase (wakes l p o) (sleeper_writes e) = absurd (ground arith)
Step-Phase (wakes l p o) (waker_adds_write h e) = absurd (ground arith)
Step-Phase (wakes l p o) (waker_writes e) = woken l p (omega arith)
Step-Phase (wakes l p o) (waker_reads e z) = absurd (ground arith)
Step-Phase (wakes l p o) (waker_adds_read e) = absurd (ground arith)
Step-Phase (woken l p o) (sleeper_reads h e z) = awake l p (omega arith)
Step-Phase (woken l p o) (sleeper_adds_read e) = absurd (ground arith)
Step-Phase (woken l p o) (sleeper_adds_write e) = absurd (ground arith)
Step-Phase (woken l p o) (sleeper_writes e) = absurd (ground arith)
Step-Phase (woken l p o) (waker_adds_write h e) = absurd (ground arith)
Step-Phase (woken l p o) (waker_writes e) = absurd (ground arith)
Step-Phase (woken l p o) (waker_reads e z) = absurd (omega arith)
Step-Phase (woken l p o) (waker_adds_read e) = absurd (ground arith)
Step-Phase (awake l p o) (sleeper_reads h e z) = absurd (ground arith)
Step-Phase (awake l p o) (sleeper_adds_read e) = noted l (woke_sleeper o p)
Step-Phase (awake l p o) (sleeper_adds_write e) = absurd (ground arith)
Step-Phase (awake l p o) (sleeper_writes e) = absurd (ground arith)
Step-Phase (awake l p o) (waker_adds_write h e) = absurd (ground arith)
Step-Phase (awake l p o) (waker_writes e) = absurd (ground arith)
Step-Phase (awake l p o) (waker_reads e z) = absurd (omega arith)
Step-Phase (awake l p o) (waker_adds_read e) = absurd (ground arith)
Step-Phase (noted l p) (sleeper_reads h e z) = absurd (ground arith)
Step-Phase (noted l p) (sleeper_adds_read e) = absurd (ground arith)
Step-Phase (noted l p) (sleeper_adds_write e) = answers l p (omega arith)
Step-Phase (noted l p) (sleeper_writes e) = absurd (ground arith)
Step-Phase (noted l p) (waker_adds_write h e) = absurd (ground arith)
Step-Phase (noted l p) (waker_writes e) = absurd (ground arith)
Step-Phase (noted l p) (waker_reads e z) = absurd (omega arith)
Step-Phase (noted l p) (waker_adds_read e) = absurd (ground arith)
Step-Phase (answers l p o) (sleeper_reads h e z) = absurd (ground arith)
Step-Phase (answers l p o) (sleeper_adds_read e) = absurd (ground arith)
Step-Phase (answers l p o) (sleeper_adds_write e) = absurd (ground arith)
Step-Phase (answers l p o) (sleeper_writes e) = answered l p (omega arith)
Step-Phase (answers l p o) (waker_adds_write h e) = absurd (ground arith)
Step-Phase (answers l p o) (waker_writes e) = absurd (ground arith)
Step-Phase (answers l p o) (waker_reads e z) = absurd (omega arith)
Step-Phase (answers l p o) (waker_adds_read e) = absurd (ground arith)
Step-Phase (answered l p o) (sleeper_reads h e z) = absurd (omega arith)
Step-Phase (answered l p o) (sleeper_adds_read e) = absurd (ground arith)
Step-Phase (answered l p o) (sleeper_adds_write e) = absurd (ground arith)
Step-Phase (answered l p o) (sleeper_writes e) = absurd (ground arith)
Step-Phase (answered l p o) (waker_adds_write h e) = absurd (ground arith)
Step-Phase (answered l p o) (waker_writes e) = absurd (ground arith)
Step-Phase (answered l p o) (waker_reads e z) = back l p (omega arith)
Step-Phase (answered l p o) (waker_adds_read e) = absurd (ground arith)
Step-Phase (back l p o) (sleeper_reads h e z) = absurd (omega arith)
Step-Phase (back l p o) (sleeper_adds_read e) = absurd (ground arith)
Step-Phase (back l p o) (sleeper_adds_write e) = absurd (ground arith)
Step-Phase (back l p o) (sleeper_writes e) = absurd (ground arith)
Step-Phase (back l p o) (waker_adds_write h e) = absurd (ground arith)
Step-Phase (back l p o) (waker_writes e) = absurd (ground arith)
Step-Phase (back l p o) (waker_reads e z) = absurd (ground arith)
Step-Phase (back l p o) (waker_adds_read e) = asleep (omega arith) (woke_waker o p)

pub Reach-Phase : {count now : ℕ} {s : Sys} → Reach count now s → Phase count s
Reach-Phase start = asleep (omega arith) none_yet
Reach-Phase (later r st) = Step-Phase (Reach-Phase r) st
