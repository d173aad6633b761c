-- ===== src/Upcall/Pool/Return.antt =====
-- `return_buffer` adds one buffer at the end of the pool, and touches nothing else.
use upcalls.Prelude.{
  ◌+◌, ◌*◌, ◌<◌, ◌≡◌, refl, inl, inr, Option, none, some, List, [], ◌∷◌, ◌++◌, arith, ap, ◌∙◌,
  Outcome, done, exit, ◌>>=◌, ◌==◌, Bool-cases, ==→eq, set, take, length-append, length-set,
  take-append, take_one_more-set,
}
use upcalls.Upcall.Event.{Ptr, Iovec}
use upcalls.Upcall.Worker.{Worker, Libc, IsLibc, IsValid}
use upcalls.Upcall.Pool.{grow_pool, return_buffer}

-- The buffers that were returned since the last `upcall_submit`, oldest first.
abbrev pub returned : Worker → List Iovec
returned w = take w.buf_cnt w.buffers

-- `w'` differs from `w` in the pool alone.
pub record SameQueue (w w' : Worker) : Type 0 where
  pub work : w'.work ≡ w.work
  pub work_cnt : w'.work_cnt ≡ w.work_cnt
  pub work_max : w'.work_max ≡ w.work_max
  pub receive : w'.receive ≡ w.receive
  pub recv_cnt : w'.recv_cnt ≡ w.recv_cnt
  pub my_batch_slot : w'.my_batch_slot ≡ w.my_batch_slot
  pub proc_start : w'.proc_start ≡ w.proc_start

-- How `return_buffer` ends: with the buffer behind those that were returned before, or with an
-- exit because the pool was full and `realloc` failed.
pub data Returned (libc : Libc) (b : Iovec) (w : Worker) : Outcome Worker → Type 0 where
  back :
      {w' : Worker}
      → IsValid w'
      → returned w' ≡ returned w ++ (b ∷ [])
      → SameQueue w w'
      → Returned libc b w (done w')
  out_of_memory :
      w.buf_cnt ≡ w.buf_max
      → libc.realloc_iovecs w.buf_max (w.buf_max * 2) ≡ none
      → Returned libc b w (exit 1)

-- The write at the end of `return_buffer`.
abbrev give : Iovec → Worker → Worker
give b w = record w { buffers = set w.buffers w.buf_cnt b; buf_cnt = w.buf_cnt + 1 }

module _ {libc : Libc} (c : IsLibc libc) (b : Iovec) {w : Worker} (v : IsValid w) where
  give-Returned :
      {w' : Worker}
      → IsValid w'
      → w'.buf_cnt < w'.buf_max
      → returned w' ≡ returned w
      → SameQueue w w'
      → Returned libc b w (done (give b w'))
  give-Returned {w'} v' h e s =
      back (ground (arith, length-set w'.buffers w'.buf_cnt b))
        (take_one_more-set w'.buffers w'.buf_cnt b (omega arith) ∙ ap (λ t. t ++ (b ∷ [])) e)
        (ground arith)

  grow_pool-Returned :
      (o : Option (Ptr × List Iovec))
      → libc.realloc_iovecs w.buf_max (w.buf_max * 2) ≡ o
      → w.buf_cnt ≡ w.buf_max
      → Returned libc b w (grow_pool libc w >>= λ w'. done (give b w'))
  unfolding grow_pool
  grow_pool-Returned none e h = rw (e, grow_pool) (out_of_memory h e)
  grow_pool-Returned (some (at, fresh)) e h =
      rw (e, grow_pool)
        (give-Returned
          (ground (arith, length-append w.buffers fresh, c.iovecs_room _ _ _ _ (omega arith) e))
          (omega arith) (take-append w.buf_cnt w.buffers fresh (omega arith)) (ground arith))

-- A buffer given back to a valid worker stands behind those that were given back before, the queue
-- of events is as it was, and the worker stays valid; or the process exits because the pool was
-- full and `realloc` failed.
pub return_buffer-Returned :
    (libc : Libc) (b : Iovec) (w : Worker)
    → IsLibc libc
    → IsValid w
    → Returned libc b w (return_buffer libc b.iov_base b.iov_len w)
unfolding return_buffer
return_buffer-Returned libc b w c v = elim (Bool-cases (w.buf_cnt == w.buf_max)) [
  | inl e ↦ rw (e) (grow_pool-Returned c b v _ refl (==→eq _ _ e))
  | inr e ↦ rw (e) (give-Returned c b v v (ground arith) refl (ground arith))
]
