-- ===== src/Upcall/Monitor.antt =====
-- libupcall/upcall.c: `batch_monitor_fn`, which writes what the counters grew by in each interval,
-- and `batch_ctl_poll`, its commands. Other threads count meanwhile, so every read of the counters
-- has its own snapshot of them.
pub mod Cells
pub mod Deltas
pub mod Dump
mod Tests
use upcalls.Prelude.{
  ℕ, zero, suc, ◌+◌, ◌*◌, ◌^◌, Bool, true, false, ◌&&◌, Option, none, some, List, [], ◌∷◌, ◌++◌,
  map, ◌==◌, if◌then◌else◌, get_or, take, length, replicate, u64, minus64,
}
use upcalls.Upcall.Stats.{Shape, batch_at, utime_at, ktime_at}

-- 0, 1, .. up to `n`
abbrev pub range_from : ℕ → ℕ → List ℕ
range_from i zero = []
range_from i (suc n) = i ∷ range_from (suc i) n

abbrev pub range : ℕ → List ℕ
range n = range_from 0 n

abbrev pub same_bytes : List ℕ → List ℕ → Bool
same_bytes [] [] = true
same_bytes [] (y ∷ ys) = false
same_bytes (x ∷ xs) [] = false
same_bytes (x ∷ xs) (y ∷ ys) = (x == y) && same_bytes xs ys

-- `strncmp(s, prefix, length(prefix)) == 0`
abbrev pub starts : List ℕ → List ℕ → Bool
starts [] s = true
starts (x ∷ xs) [] = false
starts (x ∷ xs) (y ∷ ys) = (x == y) && starts xs ys

-- "reset" and "dump ".
abbrev pub reset_word : List ℕ
reset_word = 114 ∷ 101 ∷ 115 ∷ 101 ∷ 116 ∷ []

abbrev pub dump_word : List ℕ
dump_word = 100 ∷ 117 ∷ 109 ∷ 112 ∷ 32 ∷ []

-- The state of the monitor: `prev`, and `last` of `batch_ctl_poll`.
pub record Monitor : Type 0 where
  pub prev : List ℕ
  pub last : List ℕ

-- The three sections of a dump: a label and a count in each line.
pub record DumpFile : Type 0 where
  pub utime : List (ℕ × ℕ)
  pub ktime : List (ℕ × ℕ)
  pub batch : List (ℕ × ℕ)

-- What a poll leaves: the counters, the monitor's state, and the file, if one is written.
pub record Polled : Type 0 where
  pub counters : List ℕ
  pub monitor : Monitor
  pub file : Option DumpFile

-- An interval of the monitor: the counters as they are when the row of each worker is printed, as
-- they are when its slot is copied, and whether the poll after that finds a new `reset`.
pub record Interval : Type 0 where
  pub seen : ℕ → List ℕ
  pub copied : ℕ → List ℕ
  pub reset : Bool

module _ (g : Shape) where
  -- The counters of a worker that a row has, in its order, from the start of the slot.
  unfoldable pub columns : List ℕ
  columns =
      0 ∷ map batch_at (range g.batch_hist_len)
      ++ (map (utime_at g) (range g.time_hist_len) ++ map (ktime_at g) (range g.time_hist_len))

  abbrev pub counter_of : ℕ → List ℕ → ℕ → ℕ
  counter_of w xs k = get_or xs (w * g.batch_stride + k) 0

  -- `cur[k] - pv[k]`: what a worker's counter `k` grew by in an interval. The row is printed from
  -- `seen`.
  abbrev pub delta : ℕ → ℕ → (ℕ → List ℕ) → List ℕ → ℕ
  delta w k seen prev = minus64 (counter_of w (seen w) k) (counter_of w prev k)

  -- The rows of the CSV for one interval, less their times.
  unfoldable pub rows : ℕ → (ℕ → List ℕ) → List ℕ → List (List ℕ)
  unfolding columns
  rows n seen prev = map (λ w. map (λ k. delta w k seen prev) columns) (range n)

  -- `pv[k] = cur[k]` for all workers, read again at `copied w`.
  abbrev pub copy_slots : ℕ → (ℕ → List ℕ) → List ℕ
  copy_slots zero copied = []
  copy_slots (suc n) copied =
      copy_slots n copied ++ map (counter_of n (copied n)) (range g.batch_stride)

  -- The sum of one counter over the workers.
  abbrev pub total_of : ℕ → List ℕ → ℕ → ℕ
  total_of zero xs k = 0
  total_of (suc n) xs k = u64 (total_of n xs k + counter_of n xs k)

  -- One section of a dump: a line for each bucket that has a count.
  unfoldable pub section :
      (label : ℕ → ℕ) (at : ℕ → ℕ) (n : ℕ) (xs : List ℕ) → List ℕ → List (ℕ × ℕ)
  section label at n xs [] = []
  section label at n xs (b ∷ bs) =
      let rest = section label at n xs bs in
      let c = total_of n xs (at b) in if c == 0 then rest else (label b, c) ∷ rest

  -- What `dump` writes.
  abbrev pub dump_file : ℕ → List ℕ → DumpFile
  dump_file n xs = record {
    utime = section (λ b. 2 ^ (b + 1)) (utime_at g) n xs (range g.time_hist_len);
    ktime = section (λ b. 2 ^ (b + 1)) (ktime_at g) n xs (range g.time_hist_len);
    batch = section (λ b. b) batch_at n xs (range g.batch_hist_len);
  }

  abbrev pub zeros : ℕ → List ℕ
  zeros n = replicate (n * g.batch_stride) 0

  -- `prev` at the end of an interval.
  abbrev pub next_prev : ℕ → Interval → List ℕ
  next_prev n i = if i.reset then zeros n else copy_slots n i.copied

  -- `batch_ctl_poll`. The command file may be missing; `opens` says whether the path of a dump can
  -- be read and opened.
  abbrev pub run_command : (opens : List ℕ → Bool) → ℕ → List ℕ → List ℕ → Monitor → Polled
  run_command opens n cmd xs m =
      if starts reset_word cmd
      then record {
        counters = zeros n;
        monitor = record { prev = zeros n; last = cmd };
        file = none;
      }
      else record {
        counters = xs;
        monitor = record m { last = cmd };
        file = if starts dump_word cmd && opens cmd then some (dump_file n xs) else none;
      }

  unfoldable pub batch_ctl_poll :
      (opens : List ℕ → Bool) → ℕ → Option (List ℕ) → List ℕ → Monitor → Polled
  batch_ctl_poll opens n none xs m = record { counters = xs; monitor = m; file = none }
  batch_ctl_poll opens n (some text) xs m =
      let cmd = take 255 text in
      if same_bytes cmd m.last
      then record { counters = xs; monitor = m; file = none }
      else run_command opens n cmd xs m
