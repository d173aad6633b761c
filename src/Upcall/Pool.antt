-- ===== src/Upcall/Pool.antt =====
-- libupcall/upcall.c: the pool of buffers that go back to the kernel (`buffers`, `buf_cnt`,
-- `buf_max`), and the set-up of a worker.
pub mod Return
pub mod Setup
use upcalls.Prelude.{
  ℕ, zero, suc, ◌+◌, ◌*◌, Option, none, some, ◌++◌, Outcome, done, exit, ◌>>=◌, ◌==◌, if◌then◌else◌,
  set, replicate,
}
use upcalls.Upcall.Event.{Ptr, null, zeroed, Iovec}
use upcalls.Upcall.Worker.{Worker, Libc}
use upcalls.Upcall.Queue.{add_buffers}

module _ (libc : Libc) where
  -- The growth in `return_buffer`.
  unfoldable pub grow_pool : Worker → Outcome Worker
  grow_pool w = elim (libc.realloc_iovecs w.buf_max (w.buf_max * 2)) [
    | none ↦ exit 1
    | some (at, fresh) ↦
        done (record w { buf_max = w.buf_max * 2; buffers = w.buffers ++ fresh; buffers_at = at })
  ]

  unfoldable pub return_buffer : Ptr → ℕ → Worker → Outcome Worker
  unfolding grow_pool
  return_buffer buf len w = do
    w' ← if w.buf_cnt == w.buf_max then grow_pool w else done w
    let filled = set w'.buffers w'.buf_cnt (record { iov_base = buf; iov_len = len })
    done (record w' { buffers = filled; buf_cnt = w'.buf_cnt + 1 })

  -- The loop that allocates the buffers, with the number of rounds left. Three calls of `calloc`
  -- went before it.
  unfoldable pub fill_pool : ℕ → ℕ → Worker → Outcome Worker
  fill_pool buf_sz zero w = done w
  fill_pool buf_sz (suc n) w = elim (libc.calloc (3 + w.buf_cnt) 1 buf_sz) [
    | none ↦ exit 1
    | some p ↦ fill_pool buf_sz n (record w {
      buffers = set w.buffers w.buf_cnt (record { iov_base = p; iov_len = buf_sz });
      buf_cnt = w.buf_cnt + 1;
    })
  ]

  -- `calloc`, with `exit(1)` when it fails
  unfoldable pub calloc_or_exit : ℕ → ℕ → ℕ → Outcome Ptr
  calloc_or_exit k n size = elim (libc.calloc k n size) [ none ↦ exit 1 | some p ↦ done p ]

  -- `slot` is `g_batch_stats + id * g_batch_stride` as an offset, or `none` where the statistics are
  -- off. `proc_start` is static, so it starts at 0.
  unfoldable pub upcall_worker_setup : ℕ → ℕ → Option ℕ → Outcome Worker
  upcall_worker_setup batch_sz buf_sz slot = do
    _ ← calloc_or_exit 0 batch_sz 40
    _ ← calloc_or_exit 1 batch_sz 40
    at ← calloc_or_exit 2 batch_sz 16
    w ← fill_pool buf_sz batch_sz (record {
      work = replicate batch_sz zeroed;
      work_cnt = 0;
      work_max = batch_sz;
      receive = replicate batch_sz zeroed;
      recv_cnt = batch_sz;
      buffers = replicate batch_sz (record { iov_base = null; iov_len = 0 });
      buffers_at = at;
      buf_cnt = 0;
      buf_max = batch_sz;
      my_batch_slot = none;
      proc_start = 0;
    })
    w' ← add_buffers libc w.buffers_at w.buf_max (record w { buf_cnt = 0 })
    done (record w' { my_batch_slot = slot })
