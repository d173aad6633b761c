-- ===== src/Upcall/Pool/Setup.antt =====
-- `upcall_worker_setup`: what a new worker holds.
use upcalls.Prelude.{
  ℕ, ◌+◌, ◌<◌, ◌≡◌, Option, none, some, List, [], ◌∷◌, Outcome, done, exit, length, get_or,
  replicate,
}
use upcalls.Upcall.Event.{Ptr, null, Iovec, zeroed}
use upcalls.Upcall.Worker.{Worker, Libc, IsLibc, IsValid}
use upcalls.Upcall.Queue.{vec, requested}
use upcalls.Upcall.Queue.Append.{view}
use upcalls.Upcall.Pool.Return.{SameQueue}

abbrev pub no_buffer : Iovec
no_buffer = record { iov_base = null; iov_len = 0 }

module _ (libc : Libc) (buf_sz : ℕ) where
  -- The slot `j` holds the buffer of `buf_sz` bytes that the call number `3 + j` of `calloc` gave.
  abbrev pub Holds : List Iovec → ℕ → Type 0
  Holds bs j =
      (p : Ptr) × (libc.calloc (3 + j) 1 buf_sz ≡ some p)
      × (get_or bs j no_buffer ≡ record { iov_base = p; iov_len = buf_sz })

  -- The pool is filled up to `buf_cnt`, and has `n` more slots.
  record Filling (n : ℕ) (start w : Worker) : Type 0 where
    room : length w.buffers ≡ w.buf_max
    left : w.buf_cnt + n ≡ w.buf_max
    held : (j : ℕ) → j < w.buf_cnt → Holds w.buffers j
    rest : SameQueue start w
    total : w.buf_max ≡ start.buf_max

  -- The calls of `calloc`: two for events, one for the pool, and one for each buffer.
  pub data IsCall (batch_sz : ℕ) : (k n size : ℕ) → Type 0 where
    for_events : (k : ℕ) → k < 2 → IsCall batch_sz k batch_sz 40
    for_pool : IsCall batch_sz 2 batch_sz 16
    for_buffer : (j : ℕ) → j < batch_sz → IsCall batch_sz (3 + j) 1 buf_sz

  -- The call number `k` gave memory.
  abbrev pub Gives : (k n size : ℕ) → Type 0
  Gives k n size = (p : Ptr) × (libc.calloc k n size ≡ some p)

  data Filled (start : Worker) : Outcome Worker → Type 0 where
    filled : {w : Worker} → Filling 0 start w → Filled start (done w)
    failed :
        (j : ℕ)
        → j < start.buf_max
        → libc.calloc (3 + j) 1 buf_sz ≡ none
        → ((i : ℕ) → i < j → Gives (3 + i) 1 buf_sz)
        → Filled start (exit 1)

  -- How `upcall_worker_setup` ends. A worker that is set up has one event to submit, which gives the
  -- kernel the whole pool: `batch_sz` buffers of `buf_sz` bytes, fresh from `calloc`. No buffer
  -- counts as returned, so `run_event_loop` does not pass the pool on a second time.
  pub record Ready (batch_sz : ℕ) (slot : Option ℕ) (w : Worker) : Type 0 where
    pub valid : IsValid w
    pub queue : view w ≡ requested (vec w.buffers_at batch_sz) ∷ []
    pub unreturned : w.buf_cnt ≡ 0
    pub room : (w.recv_cnt ≡ batch_sz) × (w.buf_max ≡ batch_sz)
    pub held : (j : ℕ) → j < batch_sz → Holds w.buffers j
    pub stats : (w.my_batch_slot ≡ slot) × (w.proc_start ≡ 0)

  pub data SetUp (batch_sz : ℕ) (slot : Option ℕ) : Outcome Worker → Type 0 where
    ready : {w : Worker} → Ready batch_sz slot w → SetUp batch_sz slot (done w)
    no_memory :
        (k n size : ℕ)
        → IsCall batch_sz k n size
        → libc.calloc k n size ≡ none
        → ((j m bytes : ℕ) → j < k → IsCall batch_sz j m bytes → Gives j m bytes)
        → SetUp batch_sz slot (exit 1)

  -- The worker before the loop over the buffers.
  abbrev blank : ℕ → Ptr → Worker
  blank batch_sz at = record {
    work = replicate batch_sz zeroed;
    work_cnt = 0;
    work_max = batch_sz;
    receive = replicate batch_sz zeroed;
    recv_cnt = batch_sz;
    buffers = replicate batch_sz no_buffer;
    buffers_at = at;
    buf_cnt = 0;
    buf_max = batch_sz;
    my_batch_slot = none;
    proc_start = 0;
  }

  module _ (c : IsLibc libc) {batch_sz : ℕ} (some_events : 0 < batch_sz) (slot : Option ℕ) where
    -- The calls before the call number `k`.
    abbrev Before : ℕ → Type 0
    Before k = (j m bytes : ℕ) → j < k → IsCall batch_sz j m bytes → Gives j m bytes
