-- ===== src/Upcall/Worker.antt =====
-- libupcall/upcall.c: the thread-local state of a worker, and what the C library gives it.
use upcalls.Prelude.{ℕ, ◌+◌, ◌≤◌, ◌<◌, ◌≡◌, Option, some, List, length}
use upcalls.Upcall.Event.{Ptr, UpEvent, Iovec}

-- The `__thread` variables. `work`, `receive` and `buffers` are what the arrays hold, one entry for
-- each allocated slot; `buffers_at` is the address of `buffers`, which an UP_VEC event carries.
-- `my_batch_slot` is an offset into the array of statistics. `proc_start` belongs to
-- `run_event_loop`.
pub record Worker : Type 0 where
  pub work : List UpEvent
  pub work_cnt : ℕ
  pub work_max : ℕ
  pub receive : List UpEvent
  pub recv_cnt : ℕ
  pub buffers : List Iovec
  pub buffers_at : Ptr
  pub buf_cnt : ℕ
  pub buf_max : ℕ
  pub my_batch_slot : Option ℕ
  pub proc_start : ℕ

-- `realloc` of the two arrays, from the old number of slots to the new one: `none` if it fails,
-- else what the added slots happen to hold (and where the array now is). `calloc k n size` is the
-- answer to the call number `k` of `upcall_worker_setup`, for `n` zeroed items.
pub record Libc : Type 0 where
  pub realloc_events : ℕ → ℕ → Option (List UpEvent)
  pub realloc_iovecs : ℕ → ℕ → Option (Ptr × List Iovec)
  pub calloc : ℕ → ℕ → ℕ → Option Ptr

-- What the code relies on: a successful `realloc` gives the slots that were asked for.
pub record IsLibc (c : Libc) : Type 0 where
  pub events_room :
      (old new : ℕ) (fresh : List UpEvent)
      → old ≤ new
      → c.realloc_events old new ≡ some fresh
      → old + length fresh ≡ new
  pub iovecs_room :
      (old new : ℕ) (at : Ptr) (fresh : List Iovec)
      → old ≤ new
      → c.realloc_iovecs old new ≡ some (at, fresh)
      → old + length fresh ≡ new

-- The counters agree with the arrays.
pub record IsValid (w : Worker) : Type 0 where
  pub work_room : length w.work ≡ w.work_max
  pub work_fits : w.work_cnt ≤ w.work_max
  pub pool_room : length w.buffers ≡ w.buf_max
  pub pool_fits : w.buf_cnt ≤ w.buf_max
  pub pool_some : 0 < w.buf_max
  pub recv_room : length w.receive ≡ w.recv_cnt
