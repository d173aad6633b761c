-- ===== src/Upcall/Stats/Layout.antt =====
-- Where the counters lie: inside the worker's slot, each at its own place.
use upcalls.Prelude.{ℕ, ◌+◌, ◌*◌, ◌%◌, ◌^◌, ◌≤◌, ◌<◌, ◌≡◌, arith}
use upcalls.Upcall.Stats.{Shape, shape_of}

-- The batch sizes for which no sum in `upcall_init` wraps.
abbrev pub max_batch : ℕ
max_batch = 2 ^ 63

-- What the code relies on: the sections of a slot lie one behind the other inside the slot.
pub record IsShape (g : Shape) : Type 0 where
  pub batch_some : 0 < g.batch_hist_len
  pub time_some : 0 < g.time_hist_len
  pub room : 1 + g.batch_hist_len + 2 * g.time_hist_len ≤ g.batch_stride
  pub aligned : g.batch_stride % 8 ≡ 0

-- For batch sizes up to 2^63 the stride has room for a counter, a bucket for each batch size from
-- 0 on, and two histograms of 40 times; it is a multiple of a cache line, and at most a line longer.
pub shape_of-IsShape :
    (batch_sz : ℕ)
    → batch_sz ≤ max_batch
    → let g = shape_of batch_sz in
      IsShape g
      × (g.batch_hist_len ≡ batch_sz + 1)
      × (g.batch_stride < 1 + g.batch_hist_len + 2 * g.time_hist_len + 8)
unfolding shape_of
shape_of-IsShape batch_sz h = omega arith
