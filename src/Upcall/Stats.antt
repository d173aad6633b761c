-- ===== src/Upcall/Stats.antt =====
-- libupcall/upcall.c: the histograms of batch sizes and times. Every worker has a slot of
-- `batch_stride` counters in one array: the number of submits, then the histogram of batch sizes,
-- then those of the times outside and inside `upcall_submit`.
pub mod Buckets
pub mod Layout
pub mod Sums
pub mod Count
use upcalls.Prelude.{
  u64, ℕ, zero, suc, ◌+◌, ◌-◌, ◌*◌, ◌/◌, ◌%◌, ◌^◌, Bool, Option, none, some, List, ◌==◌, ltb, leb,
  if◌then◌else◌, get_or, set,
}
use upcalls.Upcall.Worker.{Worker}

-- `g_batch_hist_len`, `g_time_hist_len` and `g_batch_stride`
pub record Shape : Type 0 where
  pub batch_hist_len : ℕ
  pub time_hist_len : ℕ
  pub batch_stride : ℕ

-- `UPCALL_TIME_BUCKETS`
abbrev pub time_buckets : ℕ
time_buckets = 40

-- What `upcall_init` computes. A line holds 64 / 8 counters, so `& ~(per_line - 1)` rounds down to a
-- multiple of 8.
unfoldable pub shape_of : ℕ → Shape
shape_of batch_sz =
    let hist = u64 (batch_sz + 1) in
    record {
      batch_hist_len = hist;
      time_hist_len = time_buckets;
      batch_stride = u64 (1 + hist + 2 * time_buckets + 7) / 8 * 8;
    }

-- The zeros above the highest set bit, among the lowest `k` bits of `d`.
unfoldable pub leading_zeros : ℕ → ℕ → ℕ
leading_zeros zero d = 0
leading_zeros (suc k) d = let rest = leading_zeros k d in if ltb d (2 ^ k) then suc rest else 0

-- `__builtin_clzll`, which is undefined at 0.
abbrev pub clzll : ℕ → ℕ
clzll d = leading_zeros 64 d

-- `d ? (63 - __builtin_clzll(d)) : 0`
unfoldable pub log2_of : ℕ → ℕ
log2_of d = if d == 0 then 0 else 63 - clzll d

-- The histogram bucket of a time.
unfoldable pub time_bucket : ℕ → ℕ → ℕ
time_bucket hist_len d = let b = log2_of d in if leb hist_len b then hist_len - 1 else b

-- The histogram bucket of a batch.
unfoldable pub batch_bucket : ℕ → ℕ → ℕ
batch_bucket hist_len b = if leb hist_len b then hist_len - 1 else b

-- `slot[i]++`
abbrev pub bump : ℕ → List ℕ → List ℕ
bump i xs = set xs i (u64 (get_or xs i 0 + 1))

-- `uint64_t` subtraction
abbrev pub elapsed : ℕ → ℕ → ℕ
elapsed later earlier = u64 (later + 2 ^ 64 - earlier)

-- The counter of the batches of size `b`, from the start of a slot. The submits are at 0.
abbrev pub batch_at : ℕ → ℕ
batch_at b = 1 + b

module _ (g : Shape) where
  -- Those of the two histograms of times.
  abbrev pub utime_at : ℕ → ℕ
  utime_at b = 1 + g.batch_hist_len + b

  abbrev pub ktime_at : ℕ → ℕ
  ktime_at b = 1 + g.batch_hist_len + g.time_hist_len + b

  -- Before the submit: count the time since the last one returned at `proc_start`, if it did.
  unfoldable pub count_utime : (slot proc_start t0 : ℕ) → List ℕ → List ℕ
  count_utime slot proc_start t0 xs =
      if proc_start == 0
      then xs
      else bump (slot + utime_at (time_bucket g.time_hist_len (elapsed t0 proc_start))) xs

  -- After the submit: count the time in it, the call, and the size of its batch.
  unfoldable pub count_submit : (slot t0 t1 ret : ℕ) → List ℕ → List ℕ
  count_submit slot t0 t1 ret xs =
      let timed = bump (slot + ktime_at (time_bucket g.time_hist_len (elapsed t1 t0))) xs in
      bump (slot + batch_at (batch_bucket g.batch_hist_len ret)) (bump slot timed)
