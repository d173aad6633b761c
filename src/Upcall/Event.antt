-- ===== src/Upcall/Event.antt =====
-- libupcall/upcall.h: the events that pass between a worker and the kernel.
use upcalls.Prelude.{ℕ, ℤ, pos}

-- `up_action_t`
pub data Action : Type 0 where
  up_read up_write up_accept up_vec up_close nr_actions : Action

-- An address; 0 is NULL. Function pointers are addresses too.
abbrev pub Ptr : Type 0
Ptr = ℕ

abbrev pub null : Ptr
null = 0

-- `struct up_event`. `pad` is the other member of the union with `type`.
pub record UpEvent : Type 0 where
  pub fd : ℤ
  pub result : ℤ
  pub buf : Ptr
  pub len : ℕ
  pub work_fn : Ptr
  pub type : Action

-- What `memset(.., 0, sizeof(struct up_event))` and `calloc` leave: `type` 0 is UP_READ.
abbrev pub zeroed : UpEvent
zeroed = record { fd = pos 0; result = pos 0; buf = null; len = 0; work_fn = null; type = up_read }

-- `struct iovec`
pub record Iovec : Type 0 where
  pub iov_base : Ptr
  pub iov_len : ℕ
