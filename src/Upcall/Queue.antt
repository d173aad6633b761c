-- ===== src/Upcall/Queue.antt =====
-- libupcall/upcall.c: the queue of events that a worker submits next (`work`, `work_cnt`,
-- `work_max`), and the functions that add to it.
pub mod Append
use upcalls.Prelude.{
  ℕ, ◌+◌, Option, none, some, ◌++◌, ℤ, pos, Outcome, done, exit, ◌>>=◌, ◌==◌, if◌then◌else◌, get_or,
  set,
}
use upcalls.Upcall.Event.{
  Ptr, null, UpEvent, zeroed, up_read, up_write, up_accept, up_vec, up_close,
}
use upcalls.Upcall.Worker.{Worker, Libc}

-- `EVTS`
abbrev pub evts : ℕ
evts = 4

module _ (libc : Libc) where
  unfoldable pub expand_queue : Worker → Outcome Worker
  expand_queue w = elim (libc.realloc_events w.work_max (w.work_max + evts)) [
    | none ↦ exit 1
    | some fresh ↦ done (record w { work_max = w.work_max + evts; work = w.work ++ fresh })
  ]

  -- `if (work_cnt == work_max) expand_queue();`
  unfoldable pub make_room : Worker → Outcome Worker
  unfolding expand_queue
  make_room w = if w.work_cnt == w.work_max then expand_queue w else done w

-- What the slot `work[work_cnt]` holds before it is written.
abbrev pub next_slot : Worker → UpEvent
next_slot w = get_or w.work w.work_cnt zeroed

-- Write `work[work_cnt]`, then `work_cnt++`.
abbrev pub put : UpEvent → Worker → Worker
put e w = record w { work = set w.work w.work_cnt e; work_cnt = w.work_cnt + 1 }

module _ (libc : Libc) where
  unfoldable pub add_buffers : Ptr → ℕ → Worker → Outcome Worker
  unfolding make_room
  add_buffers bufs cnt w = do
    w' ← make_room libc w
    done (put (record zeroed { type = up_vec; buf = bufs; len = cnt }) w')

  unfoldable pub add_read : ℤ → Ptr → Worker → Outcome Worker
  unfolding make_room
  add_read fd work_fn w = do
    w' ← make_room libc w
    done (put (record zeroed { fd = fd; type = up_read; work_fn = work_fn }) w')

  unfoldable pub add_write : ℤ → Ptr → ℕ → Ptr → Worker → Outcome Worker
  unfolding make_room
  add_write fd buf len work_fn w = do
    w' ← make_room libc w
    let e = record zeroed { fd = fd; buf = buf; len = len; type = up_write; work_fn = work_fn }
    done (put e w')

  -- There is no `memset`: `result`, `buf` and `len` stay what the slot held.
  unfoldable pub add_accept : ℤ → Ptr → Worker → Outcome Worker
  unfolding make_room
  add_accept fd work_fn w = do
    w' ← make_room libc w
    done (put (record (next_slot w') { fd = fd; type = up_accept; work_fn = work_fn }) w')

  -- No `memset` here either.
  unfoldable pub add_close : ℤ → Worker → Outcome Worker
  unfolding make_room
  add_close fd w = do
    w' ← make_room libc w
    done (put (record (next_slot w') { fd = fd; type = up_close; work_fn = null }) w')

-- A call of one of the five functions above.
pub data Request : Type 0 where
  read : ℤ → Ptr → Request
  write : ℤ → Ptr → ℕ → Ptr → Request
  accept : ℤ → Ptr → Request
  vec : Ptr → ℕ → Request
  close : ℤ → Request

unfoldable pub enqueue : Libc → Request → Worker → Outcome Worker
unfolding add_buffers add_read add_write add_accept add_close
enqueue libc (read fd fn) = add_read libc fd fn
enqueue libc (write fd buf len fn) = add_write libc fd buf len fn
enqueue libc (accept fd fn) = add_accept libc fd fn
enqueue libc (vec bufs cnt) = add_buffers libc bufs cnt
enqueue libc (close fd) = add_close libc fd

-- The event that a request stands for, with the fields that its action does not use at zero.
unfoldable pub requested : Request → UpEvent
requested (read fd fn) = record zeroed { fd = fd; type = up_read; work_fn = fn }
requested (write fd buf len fn) = record zeroed {
  fd = fd;
  type = up_write;
  buf = buf;
  len = len;
  work_fn = fn;
}
requested (accept fd fn) = record zeroed { fd = fd; type = up_accept; work_fn = fn }
requested (vec bufs cnt) = record zeroed { type = up_vec; buf = bufs; len = cnt }
requested (close fd) = record zeroed { fd = fd; type = up_close }
