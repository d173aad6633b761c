-- ===== src/Upcall/Stats/Count.antt =====
-- A round of the event loop counts once in each histogram, and in its own slot alone.
use upcalls.Prelude.{ℕ, ◌+◌, ◌≤◌, ◌<◌, ◌≡◌, ◌⊎◌, List, length, get_or, if◌then◌else◌, ◌==◌}
use upcalls.Upcall.Stats.{Shape, batch_at, utime_at, ktime_at}
use upcalls.Upcall.Stats.Sums.{sum_range}

-- The slot of a worker at offset `slot`: the batches and the times inside `upcall_submit` are as
-- many as the submits, and the times outside are one fewer once there was a submit.
pub record Consistent (g : Shape) (slot proc_start : ℕ) (xs : List ℕ) : Type 0 where
  pub room : slot + g.batch_stride ≤ length xs
  pub batches : sum_range xs (slot + batch_at 0) g.batch_hist_len ≡ get_or xs slot 0
  pub ktimes : sum_range xs (slot + ktime_at g 0) g.time_hist_len ≡ get_or xs slot 0
  pub utimes :
      sum_range xs (slot + utime_at g 0) g.time_hist_len + (if proc_start == 0 then 0 else 1)
      ≡ get_or xs slot 0

-- The counters of the other workers are as they were.
abbrev pub SameElsewhere : Shape → ℕ → List ℕ → List ℕ → Type 0
SameElsewhere g slot xs ys =
    (j : ℕ) → (j < slot) ⊎ (slot + g.batch_stride ≤ j) → get_or ys j 0 ≡ get_or xs j 0

-- Between the two: the time outside `upcall_submit` is counted, the submit is not yet.
record Timed (g : Shape) (slot : ℕ) (xs ys : List ℕ) : Type 0 where
  room : slot + g.batch_stride ≤ length ys
  batches : sum_range ys (slot + batch_at 0) g.batch_hist_len ≡ get_or ys slot 0
  ktimes : sum_range ys (slot + ktime_at g 0) g.time_hist_len ≡ get_or ys slot 0
  utimes : sum_range ys (slot + utime_at g 0) g.time_hist_len ≡ get_or ys slot 0
  submits : get_or ys slot 0 ≡ get_or xs slot 0
  batch :
      (b : ℕ)
      → b < g.batch_hist_len
      → get_or ys (slot + batch_at b) 0 ≡ get_or xs (slot + batch_at b) 0
  elsewhere : SameElsewhere g slot xs ys
