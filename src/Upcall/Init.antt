-- ===== src/Upcall/Init.antt =====
-- libupcall/upcall.c: `upcall_init`, up to the wait for the workers, which is in Barrier; and the
-- functions that tell the program's settings.
pub mod Result
mod Tests
use upcalls.Prelude.{
  ℕ, zero, suc, ◌+◌, ◌*◌, Bool, true, false, Option, none, some, List, ℤ, pos, negsuc, ◌==◌,
  if◌then◌else◌, replicate, u64,
}
use upcalls.Upcall.Event.{Ptr}
use upcalls.Upcall.Stats.{Shape, shape_of}

-- What the calls give: the number of CPUs; the descriptor of `upcall_create`, and `errno` if it fails;
-- whether $UPCALL_BATCH_STATS and $UPCALL_BATCH_CTL are set, whether there is memory for the counters,
-- whether the monitor starts; and the error codes of the `pthread_` functions, for each worker.
pub record Os : Type 0 where
  pub nprocs : ℕ
  pub upcall_create : ℤ
  pub errno : ℕ
  pub stats_set : Bool
  pub ctl_set : Bool
  pub counters : Bool
  pub monitor : Bool
  pub attr_init : ℕ
  pub setaffinity : ℕ → ℕ
  pub create : ℕ → ℕ

pub record Args : Type 0 where
  pub batch_sz : ℕ
  pub buf_sz : ℕ
  pub setup_fn : Ptr
  pub loop_fn : Ptr

-- The variables of the library; `batch_path` and `ctl_path` say whether these are not NULL. `workers`
-- is the number of threads that were created, and `attr` says whether `attr` is to be destroyed.
pub record Library : Type 0 where
  pub upfd : ℤ
  pub nr_workers : ℕ
  pub bufs : ℕ
  pub buf_sz : ℕ
  pub setup_fn : Ptr
  pub loop_fn : Ptr
  pub batch_path : Bool
  pub ctl_path : Bool
  pub shape : Option Shape
  pub batch_stats : Option (List ℕ)
  pub monitored : Bool
  pub workers : ℕ
  pub attr : Bool

-- `upcall_buf_sz`
abbrev pub upcall_buf_sz : Library → ℕ
upcall_buf_sz l = l.buf_sz

-- `upcall_nr_workers`
abbrev pub upcall_nr_workers : Os → ℕ
upcall_nr_workers os = os.nprocs

-- `-n`
abbrev pub neg : ℕ → ℤ
neg zero = pos 0
neg (suc n) = negsuc n

-- The counters of all workers, and the monitor.
abbrev pub start_stats : Os → Args → Library → Library
start_stats os a l =
    let g = shape_of a.batch_sz in
    if os.counters
    then record l {
      shape = some g;
      batch_stats = some (replicate (os.nprocs * g.batch_stride) 0);
      monitored = os.monitor;
    }
    else record l { shape = some g; batch_stats = none; batch_path = false }

-- From the settings to the start of the monitor.
unfoldable pub configure : Os → Args → Library → Library
configure os a l =
    let m = record l {
      upfd = os.upcall_create;
      nr_workers = os.nprocs;
      bufs = a.batch_sz;
      buf_sz = a.buf_sz;
      setup_fn = a.setup_fn;
      loop_fn = a.loop_fn;
      batch_path = os.stats_set;
      ctl_path = os.ctl_set;
    } in
    if os.stats_set then start_stats os a m else m

-- The error code for the worker `i`, 0 if it is created.
abbrev pub create_worker : Os → ℕ → ℕ
create_worker os i = if os.setaffinity i == 0 then os.create i else os.setaffinity i

-- The loop over the CPUs, with `left` of them left, and the return.
unfoldable pub spawn : Os → (left i : ℕ) → Library → ℤ × Library
spawn os zero i l = (pos 0, record l { attr = false })
spawn os (suc left) i l =
    let rest = spawn os left (suc i) (record l { workers = l.workers + 1 }) in
    if create_worker os i == 0 then rest else (neg (create_worker os i), record l { attr = false })

abbrev pub create_workers : Os → Library → ℤ × Library
create_workers os l =
    if os.attr_init == 0
    then spawn os os.nprocs 0 (record l { attr = true })
    else (neg os.attr_init, l)

-- The test of `g_upfd`.
abbrev pub with_device : Os → Args → ℤ → Library → ℤ × Library
with_device os a (negsuc k) l = (neg os.errno, record l { upfd = os.upcall_create })
with_device os a (pos fd) l = create_workers os (configure os a l)

-- `upcall_init`. It returns 0 after the wait for all workers.
unfoldable pub upcall_init : Os → Args → Library → ℤ × Library
upcall_init os a l = with_device os a os.upcall_create l
