-- ===== src/Upcall/Init/Tests.antt =====
-- Three CPUs, and no thread for the last one.
use upcalls.Prelude.{◌==◌, if◌then◌else◌, ◌≡◌, refl, true, false, none, pos, negsuc}
use upcalls.Upcall.Init.{Os, Args, Library, configure, spawn, upcall_init}
use upcalls.Upcall.Init.Result.{Initialised, upcall_init-Initialised}

abbrev os : Os
os = record {
  nprocs = 3;
  upcall_create = pos 7;
  errno = 0;
  stats_set = false;
  ctl_set = false;
  counters = true;
  monitor = true;
  attr_init = 0;
  setaffinity = λ i. 0;
  create = λ i. if i == 2 then 11 else 0;
}

abbrev args : Args
args = record { batch_sz = 4; buf_sz = 32; setup_fn = 100; loop_fn = 0 }

abbrev library : Library
library = record {
  upfd = negsuc 0;
  nr_workers = 0;
  bufs = 0;
  buf_sz = 0;
  setup_fn = 0;
  loop_fn = 0;
  batch_path = false;
  ctl_path = false;
  shape = none;
  batch_stats = none;
  monitored = false;
  workers = 0;
  attr = false;
}

-- -11, with two workers left.
upcall_init_run :
    upcall_init os args library
    ≡ (negsuc 10, record (configure os args library) { workers = 2; attr = false })
unfolding upcall_init spawn configure
upcall_init_run = refl

upcall_init-Initialised_example : Initialised os args library (upcall_init os args library)
upcall_init-Initialised_example = upcall_init-Initialised os args library
